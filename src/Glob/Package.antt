-- ===== src/Glob/Package.antt =====
-- The loop of `wildcard_match` of src-tauri/src/model_package.rs and its test of the end.
use mathlib.Core.Option.{some-injective}
use open_mind_ai.Base.{
  ℕ, zero, suc, ◌+◌, ◌≤◌, true, false, ◌&&◌, none, some, List, [], ◌∷◌, ◌≡◌, refl, sym, ◌∙◌, ap,
  inl, inr, Bool-cases, Option-cases, arith, length,
}
use open_mind_ai.Base.Text.{Text, text_eq, starts_with}
use open_mind_ai.Glob.{drop, any_suffix, ends_with, after_first, last_part, match_in_order}
use open_mind_ai.Glob.Suffixes.{any_suffix-Grows, after_first-any_suffix, test_rest, elim-test_rest}
use open_mind_ai.Glob.Split.{by_parts}

after_first-nil : (t : Text) → after_first [] t ≡ some t
unfolding after_first
after_first-nil [] = refl
after_first-nil (c ∷ t) = refl

after_first-front :
    (w t : Text) → starts_with t w ≡ true → after_first w t ≡ some (drop (length w) t)
unfolding after_first
after_first-front w [] h = rw h refl
after_first-front w (c ∷ t) h = rw h refl

match_in_order_step :
    (w : Text) (ps : List Text) (t : Text)
    → match_in_order false (w ∷ ps) t ≡ test_rest (after_first w t) (match_in_order false ps)
match_in_order_step [] ps t = rw (after_first-nil t) refl
match_in_order_step (c ∷ w) ps t = elim-test_rest (after_first (c ∷ w) t) (match_in_order false ps)

-- The ends of two texts agree as far as the second one reaches.
abbrev SameEnd : Text → Text → Type 0
SameEnd v t = (w : Text) → length w ≤ length t → ends_with v w ≡ ends_with t w

text_eq-longer : (t w : Text) → length w + 1 ≤ length t → text_eq t w ≡ false
text_eq-longer [] w h = ground arith
text_eq-longer (c ∷ t) [] h = refl
text_eq-longer (c ∷ t) (d ∷ w) h = rw (text_eq-longer t w (omega arith)) (ground arith)

length-drop : (n : ℕ) (t : Text) → length (drop n t) ≤ length t
length-drop zero t = omega arith
length-drop (suc n) [] = omega arith
length-drop (suc n) (c ∷ t) = let rest = length-drop n t in omega arith

drop-SameEnd : (n : ℕ) (t : Text) → SameEnd t (drop n t)
unfolding ends_with
drop-SameEnd zero t w h = refl
drop-SameEnd (suc n) [] w h = refl
drop-SameEnd (suc n) (c ∷ t) w h =
    let shorter = length-drop n t in
    let unlike = text_eq-longer (c ∷ t) w (omega arith) in rw unlike (drop-SameEnd n t w h)

starts_with-length :
    (w t : Text) → starts_with t w ≡ true → length w + length (drop (length w) t) ≤ length t
starts_with-length [] t h = omega arith
starts_with-length (d ∷ w) [] h = ground arith
starts_with-length (d ∷ w) (c ∷ t) h =
    let front : starts_with t w ≡ true = ground arith in
    let rest = starts_with-length w t front in omega arith

-- What stands behind the first occurrence is an end of the text, and the part fits before it.
after_first-length :
    (w t rest : Text) → after_first w t ≡ some rest → length w + length rest ≤ length t
unfolding after_first
after_first-length w [] rest h = elim (Bool-cases (starts_with [] w)) [
  | inr e ↦ let clash : none ≡ some rest = rw e at h in absurd (cc clash)
  | inl e ↦
      let is : some (drop (length w) []) ≡ some rest = rw e at h in
      rw (sym (some-injective _ _ is)) (starts_with-length w [] e)
]
after_first-length w (c ∷ t) rest h = elim (Bool-cases (starts_with (c ∷ t) w)) [
  | inr e ↦
      let later : after_first w t ≡ some rest = rw e at h in
      let shorter = after_first-length w t rest later in omega arith
  | inl e ↦
      let is : some (drop (length w) (c ∷ t)) ≡ some rest = rw e at h in
      rw (sym (some-injective _ _ is)) (starts_with-length w (c ∷ t) e)
]

after_first-SameEnd : (w t rest : Text) → after_first w t ≡ some rest → SameEnd t rest
unfolding after_first ends_with
after_first-SameEnd w [] rest h = elim (Bool-cases (starts_with [] w)) [
  | inr e ↦ let clash : none ≡ some rest = rw e at h in absurd (cc clash)
  | inl e ↦
      let is : some (drop (length w) []) ≡ some rest = rw e at h in
      rw (sym (some-injective _ _ is)) (drop-SameEnd (length w) [])
]
after_first-SameEnd w (c ∷ t) rest h = elim (Bool-cases (starts_with (c ∷ t) w)) [
  | inr e ↦ λ u short.
      let later : after_first w t ≡ some rest = rw e at h in
      let shorter = after_first-length w t rest later in
      let unlike = text_eq-longer (c ∷ t) u (omega arith) in
      rw unlike (after_first-SameEnd w t rest later u short)
  | inl e ↦
      let is : some (drop (length w) (c ∷ t)) ≡ some rest = rw e at h in
      rw (sym (some-injective _ _ is)) (drop-SameEnd (length w) (c ∷ t))
]

text_eq-starts_with : (t w : Text) → starts_with t w ≡ false → text_eq t w ≡ false
text_eq-starts_with t [] h = ground arith
text_eq-starts_with [] (d ∷ w) h = refl
text_eq-starts_with (c ∷ t) (d ∷ w) h = let rest = text_eq-starts_with t w in ground arith

ends_with-part : (w t : Text) → after_first w t ≡ none → ends_with t w ≡ false
unfolding after_first ends_with
ends_with-part w [] h = elim (Bool-cases (starts_with [] w)) [
  | inr e ↦ text_eq-starts_with [] w e
  | inl e ↦ let clash : some (drop (length w) []) ≡ none = rw e at h in absurd (cc clash)
]
ends_with-part w (c ∷ t) h = elim (Bool-cases (starts_with (c ∷ t) w)) [
  | inr e ↦
      let later : after_first w t ≡ none = rw e at h in
      rw (text_eq-starts_with (c ∷ t) w e) (ends_with-part w t later)
  | inl e ↦ let clash : some (drop (length w) (c ∷ t)) ≡ none = rw e at h in absurd (cc clash)
]

last_by_parts :
    (w v t : Text)
    → SameEnd v t
    → (test_rest (after_first w t) (λ _. true) && ends_with v w) ≡ ends_with t w
last_by_parts w v t same = elim (Option-cases (after_first w t)) [
  | inl e ↦ rw e (sym (ends_with-part w t e))
  | inr (rest, e) ↦ let short = after_first-length w t rest e in rw e (same w (omega arith))
]

SameEnd-rest : (w v t rest : Text) → SameEnd v t → after_first w t ≡ some rest → SameEnd v rest
SameEnd-rest w v t rest same e u short =
    let shorter = after_first-length w t rest e in
    same u (omega arith) ∙ after_first-SameEnd w t rest e u short

-- The loop over the parts and the test at the end, from any part but the first.
rest-by_parts :
    (w : Text) (ps : List Text) (v t : Text)
    → SameEnd v t
    → (match_in_order false (w ∷ ps) t && ends_with v (last_part (w ∷ ps)))
      ≡ any_suffix (by_parts (w ∷ ps)) t
unfolding ends_with
rest-by_parts w [] v t same =
    ap (λ b. b && ends_with v w) (match_in_order_step w [] t) ∙ last_by_parts w v t same
rest-by_parts w (q ∷ ps) v t same =
    ap (λ b. b && ends_with v (last_part (q ∷ ps))) (match_in_order_step w (q ∷ ps) t)
    ∙ elim (Option-cases (after_first w t)) [
      | inl e ↦ rw e refl
      | inr (rest, e) ↦ rw e (rest-by_parts q ps v rest (SameEnd-rest w v t rest same e))
    ]
    ∙ after_first-any_suffix w (any_suffix (by_parts (q ∷ ps))) t
        (any_suffix-Grows (by_parts (q ∷ ps)))

pub whole_by_parts :
    (w q : Text) (ps : List Text) (v : Text)
    → (match_in_order true (w ∷ (q ∷ ps)) v && ends_with v (last_part (q ∷ ps)))
      ≡ by_parts (w ∷ (q ∷ ps)) v
whole_by_parts [] q ps v = rest-by_parts q ps v v (λ u h. refl)
whole_by_parts (c ∷ w) q ps v = elim (Bool-cases (starts_with v (c ∷ w))) [
  | inl e ↦
      let rest = drop (length (c ∷ w)) v in
      let found = after_first-front (c ∷ w) v e in
      rw (found, e) (rest-by_parts q ps v rest (SameEnd-rest (c ∷ w) v v rest (λ u h. refl) found))
  | inr e ↦ elim (Option-cases (after_first (c ∷ w) v)) [
    | inl k ↦ rw (k, e) refl
    | inr (rest, k) ↦ rw (k, e) refl
  ]
]
