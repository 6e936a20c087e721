-- ===== src/Glob/Split.antt =====
-- The split of a pattern at its stars, and the reference match by the parts.
use open_mind_ai.Base.{
  ℕ, Bool, true, false, List, [], ◌∷◌, ◌==◌, ◌≡◌, refl, sym, ◌∙◌, inl, inr, Bool-cases, arith,
}
use open_mind_ai.Base.Text.{Text, text_eq}
use open_mind_ai.Glob.{star, any_suffix, split_star, cons_first}
use open_mind_ai.Glob.Suffixes.{matches, first_matches, any_suffix-ext, part_then}

-- A match of the parts between the stars, the first at the front of the text.
abbrev pub by_parts : List Text → Text → Bool
by_parts [] t = false
by_parts (w ∷ []) t = text_eq t w
by_parts (w ∷ (q ∷ ps)) t = part_then w (any_suffix (by_parts (q ∷ ps))) t

abbrev pub is_empty : List Text → Bool
is_empty [] = true
is_empty (w ∷ ws) = false

cons_first-not_empty : (c : ℕ) (ws : List Text) → is_empty (cons_first c ws) ≡ false
cons_first-not_empty c [] = refl
cons_first-not_empty c (w ∷ ws) = refl

pub split_star-not_empty : (p : Text) → is_empty (split_star p) ≡ false
unfolding split_star
split_star-not_empty [] = refl
split_star-not_empty (c ∷ p) = elim (Bool-cases (c == star)) [
  | inl e ↦ rw e refl
  | inr e ↦ rw e (cons_first-not_empty c (split_star p))
]

by_parts-star :
    (ws : List Text) (t : Text)
    → is_empty ws ≡ false
    → by_parts ([] ∷ ws) t ≡ any_suffix (by_parts ws) t
by_parts-star [] t h = ground arith
by_parts-star (w ∷ []) [] h = ground arith
by_parts-star (w ∷ []) (d ∷ t) h = ground arith
by_parts-star (w ∷ (q ∷ ps)) [] h = ground arith
by_parts-star (w ∷ (q ∷ ps)) (d ∷ t) h = ground arith

by_parts-cons :
    (c : ℕ) (ws : List Text) (t : Text)
    → is_empty ws ≡ false
    → by_parts (cons_first c ws) t ≡ first_matches c (by_parts ws) t
by_parts-cons c [] t h = ground arith
by_parts-cons c (w ∷ []) [] h = ground arith
by_parts-cons c (w ∷ []) (d ∷ t) h = ground arith
by_parts-cons c (w ∷ (q ∷ ps)) [] h = ground arith
by_parts-cons c (w ∷ (q ∷ ps)) (d ∷ t) h = ground arith

first_matches-ext :
    (c : ℕ) (f g : Text → Bool) (t : Text)
    → ((u : Text) → f u ≡ g u)
    → first_matches c f t ≡ first_matches c g t
first_matches-ext c f g [] h = refl
first_matches-ext c f g (d ∷ t) h = rw (h t) refl

pub matches-by_parts : (p t : Text) → matches p t ≡ by_parts (split_star p) t
unfolding matches split_star
matches-by_parts [] t = refl
matches-by_parts (c ∷ p) t = elim (Bool-cases (c == star)) [
  | inl e ↦ rw e (
      any_suffix-ext (matches p) (by_parts (split_star p)) t (matches-by_parts p)
      ∙ sym (by_parts-star (split_star p) t (split_star-not_empty p)))
  | inr e ↦ rw e (
      first_matches-ext c (matches p) (by_parts (split_star p)) t (matches-by_parts p)
      ∙ sym (by_parts-cons c (split_star p) t (split_star-not_empty p)))
]
