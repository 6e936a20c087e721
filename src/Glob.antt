-- ===== src/Glob.antt =====
-- The two matchers of `*` patterns: `glob_match` and `bypass_matches` of src-tauri/src/net.rs, and
-- `wildcard_match` of src-tauri/src/model_package.rs.
pub mod Suffixes
pub mod Split
pub mod Greedy
pub mod Package
pub mod Wildcard
pub mod Bypass
use open_mind_ai.Base.{
  ℕ, zero, suc, Bool, true, false, not, ◌&&◌, ◌||◌, Option, none, some, List, [], ◌∷◌, ◌++◌, ◌==◌,
  if◌then◌else◌, length, any,
}
use open_mind_ai.Base.Text.{Text, text, text_eq, starts_with, contains, trim, to_ascii_lowercase}

abbrev pub star : ℕ
star = 42

abbrev pub drop : ℕ → Text → Text
drop zero t = t
drop (suc n) [] = []
drop (suc n) (c ∷ t) = drop n t

abbrev pub any_suffix : (Text → Bool) → Text → Bool
any_suffix test [] = test []
any_suffix test (c ∷ t) = test (c ∷ t) || any_suffix test t

unfoldable pub ends_with : Text → Text → Bool
ends_with t s = any_suffix (λ u. text_eq u s) t

abbrev pub cons_first : ℕ → List Text → List Text
cons_first c [] = (c ∷ []) ∷ []
cons_first c (w ∷ ws) = (c ∷ w) ∷ ws

-- `split('*')`.
unfoldable pub split_star : Text → List Text
split_star [] = [] ∷ []
split_star (c ∷ p) = if c == star then [] ∷ split_star p else cons_first c (split_star p)

-- `find(part)`, and the text behind the first occurrence.
unfoldable pub after_first : Text → Text → Option Text
after_first part [] = if starts_with [] part then some (drop (length part) []) else none
after_first part (c ∷ t) =
    let later = after_first part t in
    if starts_with (c ∷ t) part then some (drop (length part) (c ∷ t)) else later

abbrev pub strip_prefix : Text → Text → Option Text
strip_prefix t part = if starts_with t part then some (drop (length part) t) else none

-- The middle parts, and the last one; a pattern with a star has a last part.
abbrev pub match_parts : List Text → Text → Bool
match_parts [] t = false
match_parts (part ∷ []) t = ends_with t part
match_parts (part ∷ (q ∷ parts)) t = elim (after_first part t) as (λ _. Bool) [
  | none ↦ false
  | some rest ↦ match_parts (q ∷ parts) rest
]

abbrev pub match_all : List Text → Text → Bool
match_all [] t = false
match_all (first ∷ rest) t = elim (strip_prefix t first) as (λ _. Bool) [
  | none ↦ false
  | some remaining ↦ match_parts rest remaining
]

unfoldable pub glob_match : Text → Text → Bool
glob_match pattern t = match_all (split_star pattern) t

abbrev pub has_star : Text → Bool
has_star = any (λ c. c == star)

abbrev pub trim_start_char : ℕ → Text → Text
trim_start_char d [] = []
trim_start_char d (c ∷ t) = let rest = trim_start_char d t in if c == d then rest else c ∷ t

-- `trim_end_matches`.
abbrev pub trim_end_char : ℕ → Text → Text
trim_end_char d [] = []
trim_end_char d (c ∷ t) =
    let rest = trim_end_char d t in if c == d && text_eq rest [] then [] else c ∷ rest

abbrev pub domain_of : Text → Text
domain_of pattern =
    if starts_with pattern (text "*.")
    then drop 2 pattern
    else if starts_with pattern (text ".")
    then drop 1 pattern
    else pattern

-- The host without the brackets of an IPv6 address, in lower case.
unfoldable pub bare_host : Text → Text
bare_host host = to_ascii_lowercase (trim_end_char 93 (trim_start_char 91 host))

unfoldable pub bare_pattern : Text → Text
bare_pattern pattern = to_ascii_lowercase (trim pattern)

unfoldable pub bypass_matches : Text → Text → Bool
bypass_matches host pattern =
    let host' = bare_host host in
    let pattern' = bare_pattern pattern in
    let domain = domain_of pattern' in
    if text_eq pattern' []
    then false
    else if text_eq pattern' (text "*")
    then true
    else if text_eq pattern' (text "<local>")
    then not (contains host' (text "."))
    else if not (has_star domain)
    then text_eq host' domain || ends_with host' (text "." ++ domain)
    else glob_match domain host'

-- The loop of `wildcard_match` over the parts; `first` marks the part with index 0.
abbrev pub match_in_order : Bool → List Text → Text → Bool
match_in_order first [] t = true
match_in_order first (part ∷ parts) t =
    let after_empty = match_in_order false parts t in
    if text_eq part [] then after_empty else elim (after_first part t) as (λ _. Bool) [
      | none ↦ false
      | some rest ↦
          let later = match_in_order false parts rest in
          if first && not (starts_with t part) then false else later
    ]

abbrev pub last_part : List Text → Text
last_part [] = []
last_part (w ∷ []) = w
last_part (w ∷ (v ∷ ws)) = last_part (v ∷ ws)

abbrev pub is_single : List Text → Bool
is_single [] = false
is_single (w ∷ []) = true
is_single (w ∷ (v ∷ ws)) = false

unfoldable pub wildcard_lower : Text → Text → Bool
wildcard_lower pattern value =
    let parts = split_star pattern in
    if is_single parts
    then text_eq pattern value
    else match_in_order true parts value
      && (if ends_with pattern (text "*") then true else ends_with value (last_part parts))

unfoldable pub wildcard_match : Text → Text → Bool
unfolding wildcard_lower
wildcard_match pattern value =
    if text_eq pattern (text "*")
    then true
    else wildcard_lower (to_ascii_lowercase pattern) (to_ascii_lowercase value)
