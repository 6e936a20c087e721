-- ===== src/Glob/Suffixes.antt =====
-- Tests on the suffixes of a text, and the reference definition of a match.
use open_mind_ai.Base.{
  ℕ, zero, suc, Bool, true, false, ◌&&◌, Option, none, some, [], ◌∷◌, ◌==◌, if◌then◌else◌, ◌≡◌,
  refl, sym, ◌∙◌, inl, inr, Bool-cases, arith, length,
}
use open_mind_ai.Base.Text.{Text, text_eq, starts_with}
use open_mind_ai.Glob.{star, drop, any_suffix, after_first}

abbrev pub first_matches : ℕ → (Text → Bool) → Text → Bool
first_matches c test [] = false
first_matches c test (d ∷ t) = d == c && test t

-- The reference: a star stands for any text, every other character for itself.
unfoldable pub matches : Text → Text → Bool
matches [] t = text_eq t []
matches (c ∷ pattern) t =
    if c == star then any_suffix (matches pattern) t else first_matches c (matches pattern) t

pub any_suffix-ext :
    (f g : Text → Bool) (t : Text) → ((u : Text) → f u ≡ g u) → any_suffix f t ≡ any_suffix g t
any_suffix-ext f g [] h = h []
any_suffix-ext f g (c ∷ t) h = rw (h (c ∷ t), any_suffix-ext f g t h) refl

-- A test that is kept when characters are put in front.
abbrev pub Grows : (Text → Bool) → Type 0
Grows test = (c : ℕ) (t : Text) → test t ≡ true → test (c ∷ t) ≡ true

pub any_suffix-Grows : (test : Text → Bool) → Grows (any_suffix test)
any_suffix-Grows test c t h = ground arith

drop-Grows :
    (test : Text → Bool) (n : ℕ) (t : Text)
    → Grows test
    → test (drop (suc n) t) ≡ true
    → test (drop n t) ≡ true
drop-Grows test zero [] g h = h
drop-Grows test zero (c ∷ t) g h = g c t h
drop-Grows test (suc n) [] g h = h
drop-Grows test (suc n) (c ∷ t) g h = drop-Grows test n t g h

abbrev pub part_then : Text → (Text → Bool) → Text → Bool
part_then part test u = starts_with u part && test (drop (length part) u)

-- A later occurrence leaves no more than an earlier one.
later_leaves :
    (part : Text) (test : Text → Bool) (t : Text)
    → Grows test
    → any_suffix (part_then part test) t ≡ true
    → test (drop (length part) t) ≡ true
later_leaves part test [] g h = ground arith
later_leaves part test (c ∷ t) g h = elim (Bool-cases (part_then part test (c ∷ t))) [
  | inl e ↦ ground arith
  | inr e ↦
      let later : any_suffix (part_then part test) t ≡ true = ground arith in
      drop-Grows test (length part) (c ∷ t) g (later_leaves part test t g later)
]

abbrev pub test_rest : Option Text → (Text → Bool) → Bool
test_rest none test = false
test_rest (some rest) test = test rest

pub elim-test_rest :
    (r : Option Text) (f : Text → Bool)
    → elim r as (λ _. Bool) [ none ↦ false | some rest ↦ f rest ] ≡ test_rest r f
elim-test_rest none f = refl
elim-test_rest (some rest) f = refl

-- The first occurrence is as good as any other.
pub after_first-any_suffix :
    (part : Text) (test : Text → Bool) (t : Text)
    → Grows test
    → test_rest (after_first part t) test ≡ any_suffix (part_then part test) t
unfolding after_first
after_first-any_suffix part test [] g = ground arith
after_first-any_suffix part test (c ∷ t) g = elim (Bool-cases (starts_with (c ∷ t) part)) [
  | inr e ↦ rw e (after_first-any_suffix part test t g)
  | inl e ↦ elim (Bool-cases (test (drop (length part) (c ∷ t)))) [
    | inl k ↦ rw e (ground arith)
    | inr k ↦ elim (Bool-cases (any_suffix (part_then part test) t)) [
      | inr none_later ↦ rw e (ground arith)
      | inl later ↦
          let here : test (drop (length part) (c ∷ t)) ≡ true =
            drop-Grows test (length part) (c ∷ t) g (later_leaves part test t g later) in
          let clash : true ≡ false = sym here ∙ k in absurd (cc clash)
    ]
  ]
]
