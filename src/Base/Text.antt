-- ===== src/Base/Text.antt =====
-- Rust's `str` as the list of its characters' code points, and the functions of the standard
-- library that the program calls on it.
use Prim.Native.Nat.{ℕ, zero, suc, ◌+◌, ◌/◌, ◌%◌}
use Prim.Native.Char.{code}
use Prim.Native.String.{String}
use mathlib.Core.Path.{◌≡◌, refl}
use mathlib.Core.Bool.{Bool, true, false, ◌&&◌, ◌||◌}
use mathlib.Core.List.{List, [], ◌∷◌, ◌++◌, reverse, Memᴰ}
use mathlib.Core.Logic.{inl, inr, ◌⊎◌, ◌≢◌}
use native.Mathlib.Omega.{arith}
use open_mind_ai.Base.Tests.{ltb, leb, ◌==◌, if◌then◌else◌, Bool-cases}
use open_mind_ai.Base.Lists.{any}

abbrev pub Text : Type 0
Text = List ℕ

-- A literal.
abbrev pub text : String → Text
text String.[] = []
text (String.◌∷◌ c s) = code c ∷ text s

abbrev pub text_eq : Text → Text → Bool
text_eq [] [] = true
text_eq [] (d ∷ t) = false
text_eq (c ∷ s) [] = false
text_eq (c ∷ s) (d ∷ t) = c == d && text_eq s t

-- The bytes of a character in UTF-8, and `str::len`.
abbrev pub len_utf8 : ℕ → ℕ
len_utf8 c = if ltb c 0x80 then 1 else if ltb c 0x800 then 2 else if ltb c 0x10000 then 3 else 4

abbrev pub len : Text → ℕ
len [] = 0
len (c ∷ s) = len_utf8 c + len s

-- `starts_with` and `contains` with a text.
abbrev pub starts_with : Text → Text → Bool
starts_with s [] = true
starts_with [] (d ∷ t) = false
starts_with (c ∷ s) (d ∷ t) = c == d && starts_with s t

abbrev pub contains : Text → Text → Bool
contains [] t = starts_with [] t
contains (c ∷ s) t = starts_with (c ∷ s) t || contains s t

-- `char::is_whitespace`, the White_Space property.
abbrev pub is_whitespace : ℕ → Bool
is_whitespace c =
    (leb 9 c && leb c 13)
    || c == 32
    || c == 0x85
    || c == 0xa0
    || c == 0x1680
    || (leb 0x2000 c && leb c 0x200a)
    || c == 0x2028
    || c == 0x2029
    || c == 0x202f
    || c == 0x205f
    || c == 0x3000

abbrev pub trim_start : Text → Text
trim_start [] = []
trim_start (c ∷ s) = let rest = trim_start s in if is_whitespace c then rest else c ∷ s

abbrev pub trim : Text → Text
trim s = reverse (trim_start (reverse (trim_start s)))

abbrev pub lower : ℕ → ℕ
lower c = if leb b'A' c && leb c b'Z' then c + 32 else c

abbrev pub to_ascii_lowercase : Text → Text
to_ascii_lowercase [] = []
to_ascii_lowercase (c ∷ s) = lower c ∷ to_ascii_lowercase s

-- `replace` of one character by another.
abbrev pub replace_char : ℕ → ℕ → Text → Text
replace_char from to [] = []
replace_char from to (c ∷ s) = (if c == from then to else c) ∷ replace_char from to s

-- The decimal digits of a number, as `{}` prints them. Each round divides by ten, so a fuel of
-- `n + 1` is enough.
decimal_from : ℕ → ℕ → Text → Text
decimal_from zero n acc = acc
decimal_from (suc fuel) n acc =
    let rest = decimal_from fuel (n / 10) ((48 + n % 10) ∷ acc) in
    if ltb n 10 then (48 + n % 10) ∷ acc else rest

unfoldable pub decimal : ℕ → Text
unfolding decimal_from
decimal n = decimal_from (suc n) n []

pub text_eq→eq : (s t : Text) → text_eq s t ≡ true → s ≡ t
text_eq→eq [] [] h = refl
text_eq→eq [] (d ∷ t) h = ground arith
text_eq→eq (c ∷ s) [] h = ground arith
text_eq→eq (c ∷ s) (d ∷ t) h = ground (arith, text_eq→eq s t)

pub text_eq_refl : (s : Text) → text_eq s s ≡ true
text_eq_refl [] = refl
text_eq_refl (c ∷ s) = ground (arith, text_eq_refl s)

starts_with_refl : (p rest : Text) → starts_with (p ++ rest) p ≡ true
starts_with_refl [] [] = refl
starts_with_refl [] (c ∷ rest) = refl
starts_with_refl (c ∷ p) rest = ground (arith, starts_with_refl p rest)

-- A text that `matches!` one of the patterns is one of them.
pub any-text_eq : (s : Text) (ps : List Text) → any (text_eq s) ps ≡ true → Memᴰ s ps
any-text_eq s [] h = cc
any-text_eq s (p ∷ ps) h = elim (Bool-cases (text_eq s p)) [
  | inl e ↦ Memᴰ.head (text_eq→eq s p e)
  | inr e ↦ Memᴰ.tail (any-text_eq s ps (rw e at h))
]

pub any-starts_with :
    (s p : Text) (rest : Text) (ps : List Text)
    → s ≡ p ++ rest
    → Memᴰ p ps
    → any (starts_with s) ps ≡ true
any-starts_with s p rest [] e h = elim h [ ]
any-starts_with s p rest (q ∷ ps) e (Memᴰ.head f) = rw (e, ← f, starts_with_refl p rest)
any-starts_with s p rest (q ∷ ps) e (Memᴰ.tail h) = ground (arith, any-starts_with s p rest ps e h)

pub text_cases : (s t : Text) → (s ≡ t) ⊎ (s ≢ t)
text_cases s t = elim (Bool-cases (text_eq s t)) [
  | inl e ↦ inl (text_eq→eq s t e)
  | inr e ↦ inr (λ p. absurd (cc (text_eq_refl t, let f : text_eq t t ≡ false = rw p at e in f)))
]
