-- ===== src/Glob/Greedy.antt =====
-- `glob_match` of src-tauri/src/net.rs against the reference match.
use open_mind_ai.Base.{
  ℕ, Bool, true, false, Option, none, some, List, [], ◌∷◌, ◌==◌, ◌≡◌, refl, sym, ◌∙◌, inl, inr,
  Bool-cases, arith,
}
use open_mind_ai.Base.Text.{Text, starts_with}
use open_mind_ai.Glob.{
  star, any_suffix, split_star, cons_first, ends_with, after_first, strip_prefix, match_parts,
  match_all, glob_match, has_star, is_single,
}
use open_mind_ai.Glob.Suffixes.{
  matches, any_suffix-Grows, after_first-any_suffix, part_then, test_rest, elim-test_rest,
}
use open_mind_ai.Glob.Split.{by_parts, is_empty, matches-by_parts, split_star-not_empty}

test_rest-ext :
    (r : Option Text) (f g : Text → Bool) → ((u : Text) → f u ≡ g u) → test_rest r f ≡ test_rest r g
test_rest-ext none f g h = refl
test_rest-ext (some rest) f g h = h rest

-- Taking each part at its first occurrence finds a match when there is one.
pub match_parts-any_suffix :
    (w : Text) (ps : List Text) (t : Text)
    → match_parts (w ∷ ps) t ≡ any_suffix (by_parts (w ∷ ps)) t
unfolding ends_with
match_parts-any_suffix w [] t = refl
match_parts-any_suffix w (q ∷ ps) t =
    elim-test_rest (after_first w t) (match_parts (q ∷ ps))
    ∙ test_rest-ext (after_first w t) (match_parts (q ∷ ps)) (any_suffix (by_parts (q ∷ ps)))
        (match_parts-any_suffix q ps)
    ∙ after_first-any_suffix w (any_suffix (by_parts (q ∷ ps))) t
        (any_suffix-Grows (by_parts (q ∷ ps)))

is_single-cons_first :
    (c : ℕ) (ws : List Text) → is_empty ws ≡ false → is_single (cons_first c ws) ≡ is_single ws
is_single-cons_first c [] h = ground arith
is_single-cons_first c (w ∷ []) h = refl
is_single-cons_first c (w ∷ (v ∷ ws)) h = refl

is_single-after_star : (ws : List Text) → is_empty ws ≡ false → is_single ([] ∷ ws) ≡ false
is_single-after_star [] h = ground arith
is_single-after_star (w ∷ ws) h = refl

-- A pattern with a star has two parts at least.
pub is_single-split_star : (p : Text) → has_star p ≡ true → is_single (split_star p) ≡ false
unfolding split_star
is_single-split_star [] h = ground arith
is_single-split_star (c ∷ p) h = elim (Bool-cases (c == star)) [
  | inl e ↦ rw e (is_single-after_star (split_star p) (split_star-not_empty p))
  | inr e ↦
      let rest : has_star p ≡ true = ground arith in
      rw e (
        is_single-cons_first c (split_star p) (split_star-not_empty p)
        ∙ is_single-split_star p rest)
]

test_rest-strip_prefix :
    (w : Text) (f : Text → Bool) (t : Text) → test_rest (strip_prefix t w) f ≡ part_then w f t
test_rest-strip_prefix w f t = elim (Bool-cases (starts_with t w)) [
  | inl e ↦ rw e refl
  | inr e ↦ rw e refl
]

match_all-by_parts :
    (ws : List Text) (t : Text) → is_single ws ≡ false → match_all ws t ≡ by_parts ws t
match_all-by_parts [] t h = refl
match_all-by_parts (w ∷ []) t h = ground arith
match_all-by_parts (w ∷ (q ∷ ps)) t h =
    elim-test_rest (strip_prefix t w) (match_parts (q ∷ ps))
    ∙ test_rest-ext (strip_prefix t w) (match_parts (q ∷ ps)) (any_suffix (by_parts (q ∷ ps)))
        (match_parts-any_suffix q ps)
    ∙ test_rest-strip_prefix w (any_suffix (by_parts (q ∷ ps))) t

-- On a pattern with a star, the matcher that takes each middle part at its first occurrence finds a
-- match exactly if there is one.
pub glob_match-matches : (p t : Text) → has_star p ≡ true → glob_match p t ≡ matches p t
unfolding glob_match
glob_match-matches p t h =
    match_all-by_parts (split_star p) t (is_single-split_star p h) ∙ sym (matches-by_parts p t)
