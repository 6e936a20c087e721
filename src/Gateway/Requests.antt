-- ===== src/Gateway/Requests.antt =====
-- Whole requests to the endpoint of src-tauri/src/coding_agent_gateway.rs, from the client's text to the
-- request that is read.
use mathlib.Core.List.{append-nil, append_assoc}
use open_mind_ai.Base.{
  ℕ, zero, suc, ◌+◌, ◌≤◌, ◌≡◌, refl, sym, ◌∙◌, ap, ap₂, true, false, Option, some, List, [], ◌∷◌,
  ◌++◌, ltb, leb, ◌==◌, length, take, length-append, any, arith,
}
use open_mind_ai.Base.Text.{Text, text}
use open_mind_ai.Gateway.{
  complete, max_header_bytes, max_body_bytes, crlf, drop, map_suc, find_head_end, header_value,
  length_of, is_chunked, request_with_body, read_body, after_head, parse_decoded, parse_head,
  read_request,
}
use open_mind_ai.Gateway.Chunks.{sent, joined, read_request-sent}
use open_mind_ai.Gateway.Print.{
  has, has-append, request_line, header_line, print_headers, print_head, AllHeaders,
  header_line-plain, parse_text-print_head,
}

abbrev shift : ℕ → Option ℕ → Option ℕ
shift zero o = o
shift (suc n) o = map_suc (shift n o)

shift-some : (n k : ℕ) → shift n (some k) ≡ some (n + k)
shift-some zero k = ap some (omega arith)
shift-some (suc n) k = rw (shift-some n k) (ap some (omega arith))

find_head_end-plain :
    (s rest : Text)
    → has 13 s ≡ false
    → find_head_end (s ++ rest) ≡ shift (length s) (find_head_end rest)
unfolding find_head_end
find_head_end-plain [] rest h = refl
find_head_end-plain (c ∷ s) rest h =
    let here : c == 13 ≡ false = ground arith in
    rw (here, find_head_end-plain s rest (ground arith)) refl

find_head_end-line :
    (key rest : Text)
    → has 13 key ≡ false
    → find_head_end (13 ∷ (10 ∷ (key ++ (58 ∷ rest))))
      ≡ map_suc (map_suc (find_head_end (key ++ (58 ∷ rest))))
unfolding find_head_end
find_head_end-line [] rest h = refl
find_head_end-line (c ∷ key) rest h = let here : c == 13 ≡ false = ground arith in rw here refl

find_head_end-header :
    (key value lines rest : Text)
    → has 13 key ≡ false
    → find_head_end (13 ∷ (10 ∷ ((header_line (key, value) ++ lines) ++ rest)))
      ≡ map_suc (map_suc (find_head_end ((header_line (key, value) ++ lines) ++ rest)))
find_head_end-header key value lines rest h =
    rw
      (
        append_assoc (header_line (key, value)) lines rest,
        append_assoc key (58 ∷ (32 ∷ value)) (lines ++ rest),
      )
      (find_head_end-line key ((32 ∷ value) ++ (lines ++ rest)) h)

abbrev pub print_request : Text → Text → List (Text × Text) → List ℕ → List ℕ
print_request method path headers body = print_head method path headers ++ ((crlf ++ crlf) ++ body)

find_head_end-headers :
    (line : Text) (headers : List (Text × Text)) (body : List ℕ)
    → has 13 line ≡ false
    → AllHeaders headers
    → find_head_end ((line ++ print_headers headers) ++ ((crlf ++ crlf) ++ body))
      ≡ some (length (line ++ print_headers headers))
unfolding find_head_end
find_head_end-headers line [] body h all = rw (append-nil line) (
    find_head_end-plain line ((crlf ++ crlf) ++ body) h
    ∙ shift-some (length line) 0
    ∙ ap some (omega arith))
find_head_end-headers line ((key, value) ∷ headers) body h (first, all) =
    let after : List ℕ = (crlf ++ crlf) ++ body in
    let rest : Text = header_line (key, value) ++ print_headers headers in
    let plain = header_line-plain (key, value) first in
    let behind : find_head_end (rest ++ after) ≡ some (length rest) =
      find_head_end-headers (header_line (key, value)) headers body plain all in
    ap find_head_end (append_assoc line (13 ∷ (10 ∷ rest)) after)
    ∙ find_head_end-plain line (13 ∷ (10 ∷ (rest ++ after))) h
    ∙ ap (shift (length line)) (
        find_head_end-header key value (print_headers headers) after (first.1)
        ∙ ap (λ o. map_suc (map_suc o)) behind)
    ∙ shift-some (length line) (suc (suc (length rest)))
    ∙ ap some (sym (length-append line (13 ∷ (10 ∷ rest))))

take-front : (s rest : List ℕ) → take (length s) (s ++ rest) ≡ s
take-front [] rest = refl
take-front (c ∷ s) rest = ap (λ t. c ∷ t) (take-front s rest)

take-whole : (s : List ℕ) → take (length s) s ≡ s
take-whole [] = refl
take-whole (c ∷ s) = ap (λ t. c ∷ t) (take-whole s)

drop-past : (s body : List ℕ) → drop (length s + 4) (s ++ ((crlf ++ crlf) ++ body)) ≡ body
drop-past [] body = refl
drop-past (c ∷ s) body =
    let e : suc (length s) + 4 ≡ suc (length s + 4) = omega arith in rw e (drop-past s body)

after_head-whole :
    (method path : Text) (headers : List (Text × Text)) (body : List ℕ)
    → any is_chunked headers ≡ false
    → length_of (header_value (text "content-length") headers) ≡ some (length body)
    → length body ≤ max_body_bytes
    → after_head (some (method, path, headers)) [] body
      ≡ complete (request_with_body (method, path, headers) body)
unfolding after_head read_body
after_head-whole method path headers body plain size small =
    let allowed : ltb max_body_bytes (length body) ≡ false = ground arith in
    let all_read : leb (length body) (length body) ≡ true = ground arith in
    rw (plain, size, allowed, all_read, take-whole body) refl

-- A request that a client prints is read back as it is, in whatever pieces its bytes arrive: its
-- method has no blank, its path neither a blank nor a question mark, the names of its headers are in
-- lower case, trimmed and without colons, their values trimmed, no part of the head has a carriage
-- return, the head decodes as UTF-8 to itself and has 32764 bytes at most, the headers give the
-- body's length, which is 8 MiB at most, and ask for no chunked transfer.
pub read_request-print_request :
    (from_utf8 : List ℕ → Option Text) (method path : Text) (headers : List (Text × Text))
    (body : List ℕ) (chunks : List (ℕ × List ℕ))
    → has 32 method ≡ false
    → has 13 method ≡ false
    → has 32 path ≡ false
    → has 63 path ≡ false
    → has 13 path ≡ false
    → AllHeaders headers
    → from_utf8 (print_head method path headers) ≡ some (print_head method path headers)
    → length (print_head method path headers) + 4 ≤ max_header_bytes
    → any is_chunked headers ≡ false
    → length_of (header_value (text "content-length") headers) ≡ some (length body)
    → length body ≤ max_body_bytes
    → joined chunks ≡ print_request method path headers body
    → read_request from_utf8 (sent chunks)
      ≡ complete (request_with_body (method, path, headers) body)
unfolding parse_head print_head
read_request-print_request from_utf8 method path headers body chunks m m' p q p' all utf8 short
      plain size small bytes =
    let head : Text = print_head method path headers in
    let rest : Text = path ++ (32 ∷ text "HTTP/1.1") in
    let one_line : has 13 (request_line method path) ≡ false =
      rw (has-append 13 method (32 ∷ rest), m', has-append 13 path (32 ∷ text "HTTP/1.1"), p')
        refl in
    let found : find_head_end (joined chunks) ≡ some (length head) =
      ap find_head_end bytes
      ∙ find_head_end-headers (request_line method path) headers body one_line all in
    let parsed : parse_head from_utf8 head ≡ some (method, path, headers) =
      ap parse_decoded utf8 ∙ parse_text-print_head method path headers m m' p q p' all in
    let front : take (length head) (joined chunks) ≡ head =
      ap (take (length head)) bytes ∙ take-front head ((crlf ++ crlf) ++ body) in
    let back : drop (length head + 4) (joined chunks) ≡ body =
      ap (drop (length head + 4)) bytes ∙ drop-past head body in
    read_request-sent from_utf8 chunks (length head) found short
    ∙ ap₂ (λ h b. after_head h [] b) (ap (parse_head from_utf8) front ∙ parsed) back
    ∙ after_head-whole method path headers body plain size small
