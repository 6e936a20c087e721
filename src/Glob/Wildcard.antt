-- ===== src/Glob/Wildcard.antt =====
-- `wildcard_match` of src-tauri/src/model_package.rs against the reference match.
use open_mind_ai.Base.{
  ℕ, Bool, true, false, ◌&&◌, List, [], ◌∷◌, ◌==◌, if◌then◌else◌, ◌≡◌, refl, sym, ◌∙◌, ap, inl, inr,
  Bool-cases, arith,
}
use open_mind_ai.Base.Text.{Text, text, text_eq, text_eq→eq, to_ascii_lowercase}
use open_mind_ai.Glob.{
  star, split_star, cons_first, ends_with, has_star, is_single, last_part, match_in_order,
  wildcard_lower, wildcard_match,
}
use open_mind_ai.Glob.Suffixes.{matches}
use open_mind_ai.Glob.Split.{by_parts, is_empty, matches-by_parts, split_star-not_empty}
use open_mind_ai.Glob.Greedy.{is_single-split_star}
use open_mind_ai.Glob.Package.{whole_by_parts}

-- A pattern that ends with a star has an empty last part behind another part.
abbrev ends_open : List Text → Bool
ends_open [] = false
ends_open (w ∷ []) = false
ends_open (w ∷ (v ∷ ws)) = text_eq (last_part (v ∷ ws)) []

ends_open-cons_first :
    (c : ℕ) (ws : List Text) → ends_open ws ≡ true → ends_open (cons_first c ws) ≡ true
ends_open-cons_first c [] h = ground arith
ends_open-cons_first c (w ∷ []) h = ground arith
ends_open-cons_first c (w ∷ (v ∷ ws)) h = h

ends_open-after_star : (ws : List Text) → ends_open ws ≡ true → ends_open ([] ∷ ws) ≡ true
ends_open-after_star [] h = ground arith
ends_open-after_star (w ∷ []) h = ground arith
ends_open-after_star (w ∷ (v ∷ ws)) h = h

ends_with-ends_open : (p : Text) → ends_with p (star ∷ []) ≡ true → ends_open (split_star p) ≡ true
unfolding ends_with split_star
ends_with-ends_open [] h = ground arith
ends_with-ends_open (c ∷ []) h = let is : c == star ≡ true = ground arith in rw is refl
ends_with-ends_open (c ∷ (d ∷ p)) h =
    let later : ends_with (d ∷ p) (star ∷ []) ≡ true = ground arith in
    let rest = ends_with-ends_open (d ∷ p) later in
    elim (Bool-cases (c == star)) [
      | inl e ↦ rw e (ends_open-after_star (split_star (d ∷ p)) rest)
      | inr e ↦ rw e (ends_open-cons_first c (split_star (d ∷ p)) rest)
    ]

ends_with-nil : (t : Text) → ends_with t [] ≡ true
unfolding ends_with
ends_with-nil [] = refl
ends_with-nil (c ∷ t) = ends_with-nil t

parts-matches :
    (ws : List Text) (ends : Bool) (v : Text)
    → is_empty ws ≡ false
    → is_single ws ≡ false
    → (ends ≡ true → ends_open ws ≡ true)
    → (match_in_order true ws v && (if ends then true else ends_with v (last_part ws)))
      ≡ by_parts ws v
parts-matches [] ends v full many tail = ground arith
parts-matches (w ∷ []) ends v full many tail = ground arith
parts-matches (w ∷ (q ∷ ps)) false v full many tail = whole_by_parts w q ps v
parts-matches (w ∷ (q ∷ ps)) true v full many tail =
    let last_empty = text_eq→eq (last_part (q ∷ ps)) [] (tail refl) in
    let at_end : ends_with v (last_part (q ∷ ps)) ≡ true = rw last_empty (ends_with-nil v) in
    ap (λ b. match_in_order true (w ∷ (q ∷ ps)) v && b) (sym at_end) ∙ whole_by_parts w q ps v

pub text_eq-sym : (s t : Text) → text_eq s t ≡ text_eq t s
text_eq-sym [] [] = refl
text_eq-sym [] (d ∷ t) = refl
text_eq-sym (c ∷ s) [] = refl
text_eq-sym (c ∷ s) (d ∷ t) = let rest = text_eq-sym s t in ground arith

pub matches-literal : (p v : Text) → has_star p ≡ false → text_eq p v ≡ matches p v
unfolding matches
matches-literal [] v h = text_eq-sym [] v
matches-literal (c ∷ p) [] h = let is : c == star ≡ false = ground arith in rw is refl
matches-literal (c ∷ p) (d ∷ v) h =
    let is : c == star ≡ false = ground arith in
    let rest = matches-literal p v (ground arith) in rw is (ground arith)

wildcard_lower-matches : (p v : Text) → wildcard_lower p v ≡ matches p v
unfolding wildcard_lower
wildcard_lower-matches p v = elim (Bool-cases (is_single (split_star p))) [
  | inl e ↦ elim (Bool-cases (has_star p)) [
    | inl star_in ↦ let clash = is_single-split_star p star_in in absurd (cc (sym e ∙ clash))
    | inr plain ↦ rw e (matches-literal p v plain)
  ]
  | inr e ↦ rw e (
      parts-matches (split_star p) (ends_with p (text "*")) v (split_star-not_empty p) e
        (ends_with-ends_open p)
      ∙ sym (matches-by_parts p v))
]

pub matches-any : (v : Text) → matches (text "*") v ≡ true
unfolding matches ends_with
matches-any v = ends_with-nil v

-- A package pattern picks a file name exactly if the name, with ASCII letters in lower case, is the
-- pattern in lower case with a text in place of each star: taking every part at its first
-- occurrence, and looking at the end of the whole name only, misses no match and adds none.
pub wildcard_match-matches :
    (pattern value : Text)
    → wildcard_match pattern value ≡ matches (to_ascii_lowercase pattern) (to_ascii_lowercase value)
unfolding wildcard_match
wildcard_match-matches pattern value = elim (Bool-cases (text_eq pattern (text "*"))) [
  | inr e ↦ rw e (wildcard_lower-matches (to_ascii_lowercase pattern) (to_ascii_lowercase value))
  | inl e ↦
      let is = text_eq→eq pattern (text "*") e in
      rw e (rw is (sym (matches-any (to_ascii_lowercase value))))
]
