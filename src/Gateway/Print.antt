-- ===== src/Gateway/Print.antt =====
-- The head of a request of src-tauri/src/coding_agent_gateway.rs as a client writes it.
use mathlib.Core.List.{append-nil}
use open_mind_ai.Base.{
  ℕ, ◌≡◌, refl, ◌∙◌, ap, ap₂, Bool, true, false, ◌||◌, some, List, [], ◌∷◌, ◌++◌, ◌==◌, any, arith,
}
use open_mind_ai.Base.Text.{Text, text, text_eq, trim, to_ascii_lowercase}
use open_mind_ai.Gateway.{
  split_lines, split_once, before, header_of, add_header, parse_headers, parse_text,
}

abbrev pub has : ℕ → Text → Bool
has c s = any (λ d. d == c) s

abbrev pub request_line : Text → Text → Text
request_line method path = method ++ (32 ∷ (path ++ (32 ∷ text "HTTP/1.1")))

abbrev pub header_line : Text × Text → Text
header_line (key, value) = key ++ (58 ∷ (32 ∷ value))

abbrev pub print_headers : List (Text × Text) → Text
print_headers [] = []
print_headers (h ∷ headers) = 13 ∷ (10 ∷ (header_line h ++ print_headers headers))

unfoldable pub print_head : Text → Text → List (Text × Text) → Text
print_head method path headers = request_line method path ++ print_headers headers

-- A header's name is trimmed and in lower case, without colons; no line has a carriage return.
abbrev pub IsHeader : Text × Text → Type 0
IsHeader (key, value) =
    (has 58 key ≡ false)
    × (has 13 key ≡ false)
    × (has 13 value ≡ false)
    × (to_ascii_lowercase (trim key) ≡ key)
    × (trim value ≡ value)

abbrev pub AllHeaders : List (Text × Text) → Type 0
AllHeaders [] = Unit {0}
AllHeaders (h ∷ headers) = IsHeader h × AllHeaders headers

pub has-append : (c : ℕ) (s t : Text) → has c (s ++ t) ≡ has c s || has c t
has-append c [] t = refl
has-append c (d ∷ s) t = rw (has-append c s t) (ground arith)

split_lines-line : (line : Text) → has 13 line ≡ false → split_lines line ≡ line ∷ []
unfolding split_lines
split_lines-line [] h = refl
split_lines-line (c ∷ []) h = refl
split_lines-line (c ∷ (d ∷ line)) h =
    let here : c == 13 ≡ false = ground arith in
    rw (here, split_lines-line (d ∷ line) (ground arith)) refl

split_lines-append :
    (line rest : Text)
    → has 13 line ≡ false
    → split_lines (line ++ (13 ∷ (10 ∷ rest))) ≡ line ∷ split_lines rest
unfolding split_lines
split_lines-append [] rest h = refl
split_lines-append (c ∷ []) rest h = let here : c == 13 ≡ false = ground arith in rw here refl
split_lines-append (c ∷ (d ∷ line)) rest h =
    let here : c == 13 ≡ false = ground arith in
    rw (here, split_lines-append (d ∷ line) rest (ground arith)) refl

split_once-append :
    (c : ℕ) (s rest : Text) → has c s ≡ false → split_once c (s ++ (c ∷ rest)) ≡ some (s, rest)
unfolding split_once
split_once-append c [] rest h = let here : c == c ≡ true = ground arith in rw here refl
split_once-append c (d ∷ s) rest h =
    let here : d == c ≡ false = ground arith in
    rw (here, split_once-append c s rest (ground arith)) refl

before-lacks : (c : ℕ) (s : Text) → has c s ≡ false → before c s ≡ s
unfolding before
before-lacks c [] h = refl
before-lacks c (d ∷ s) h =
    let here : d == c ≡ false = ground arith in rw (here, before-lacks c s (ground arith)) refl

header_line-full : (k s : Text) → text_eq (k ++ (58 ∷ s)) [] ≡ false
header_line-full [] s = refl
header_line-full (c ∷ k) s = refl

abbrev header_lines : List (Text × Text) → List Text
header_lines [] = []
header_lines (h ∷ headers) = header_line h ∷ header_lines headers

header_of-printed :
    (key value : Text)
    → to_ascii_lowercase (trim key) ≡ key
    → trim value ≡ value
    → header_of (some (key, 32 ∷ value)) ≡ some (key, value)
header_of-printed key value lower_key trimmed = ap₂ (λ k v. some (k, v)) lower_key trimmed

parse_headers-lines :
    (headers : List (Text × Text))
    → AllHeaders headers
    → parse_headers (header_lines headers) ≡ some headers
parse_headers-lines [] h = refl
parse_headers-lines ((key, value) ∷ headers) ((colon, _, _, lower_key, trimmed), all) =
    rw (header_line-full key (32 ∷ value), split_once-append 58 key (32 ∷ value) colon)
      (ap₂ add_header (header_of-printed key value lower_key trimmed)
        (parse_headers-lines headers all))

pub header_line-plain : (h : Text × Text) → IsHeader h → has 13 (header_line h) ≡ false
header_line-plain (key, value) (_, k, v, _, _) =
    rw (has-append 13 key (58 ∷ (32 ∷ value)), k, v) refl

split_lines-headers :
    (line : Text) (headers : List (Text × Text))
    → has 13 line ≡ false
    → AllHeaders headers
    → split_lines (line ++ print_headers headers) ≡ line ∷ header_lines headers
split_lines-headers line [] h all = rw (append-nil line) (split_lines-line line h)
split_lines-headers line (x ∷ headers) h (first, all) =
    split_lines-append line (header_line x ++ print_headers headers) h
    ∙ ap (λ lines. line ∷ lines)
        (split_lines-headers (header_line x) headers (header_line-plain x first) all)

-- A head that is printed from a method, a path and headers is parsed back into these, if the method
-- has no blank, the path neither a blank nor a question mark, the names of the headers are trimmed, in
-- lower case and without colons, their values are trimmed, and no part has a carriage return.
pub parse_text-print_head :
    (method path : Text) (headers : List (Text × Text))
    → has 32 method ≡ false
    → has 13 method ≡ false
    → has 32 path ≡ false
    → has 63 path ≡ false
    → has 13 path ≡ false
    → AllHeaders headers
    → parse_text (print_head method path headers) ≡ some (method, path, headers)
unfolding parse_text print_head before
parse_text-print_head method path headers m m' p q p' all =
    let rest : Text = path ++ (32 ∷ text "HTTP/1.1") in
    let plain : has 13 (request_line method path) ≡ false =
      rw (has-append 13 method (32 ∷ rest), m', has-append 13 path (32 ∷ text "HTTP/1.1"), p')
        refl in
    rw
      (
        split_lines-headers (request_line method path) headers plain all,
        split_once-append 32 method rest m,
        split_once-append 32 path (text "HTTP/1.1") p,
        parse_headers-lines headers all,
        before-lacks 63 path q,
      )
      refl
