-- ===== src/Gateway/Trust.antt =====
-- src-tauri/src/coding_agent_gateway.rs: the comparison of `token_matches`, which takes as long for a
-- wrong token as for the right one.
use Prim.Native.Nat.{bit_or, bit_xor}
use open_mind_ai.Base.{
  ℕ, zero, suc, ◌<◌, ◌≡◌, ◌↔◌, refl, ap₂, Bool, true, not, ◌&&◌, ◌||◌, List, [], ◌∷◌, ltb, ◌==◌,
  length, arith,
}

-- `zip` and `fold`, from the differences so far.
abbrev pub difference : ℕ → List ℕ → List ℕ → ℕ
difference d [] bs = d
difference d (a ∷ rest) [] = d
difference d (a ∷ rest) (b ∷ bs) = difference (bit_or d (bit_xor a b)) rest bs

unfoldable pub same_bytes : List ℕ → List ℕ → Bool
same_bytes presented expected =
    length presented == length expected && difference 0 presented expected == 0

abbrev pub all_below : ℕ → (ℕ → Bool) → Bool
all_below zero p = true
all_below (suc n) p = p n && all_below n p

all_below_lem : (n : ℕ) (p : ℕ → Bool) (x : ℕ) → all_below n p ≡ true → x < n → p x ≡ true
all_below_lem zero p x h lt = absurd (omega arith)
all_below_lem (suc n) p x h lt = ground (arith, all_below_lem n p x)

abbrev check_bits : ℕ → ℕ → Bool
check_bits a b =
    ltb (bit_or a b) 256
    && ltb (bit_xor a b) 256
    && (not (bit_or a b == 0) || a == 0 && b == 0)
    && (not (bit_xor a b == 0) || a == b)

bits_table : all_below 256 (λ a. all_below 256 (check_bits a)) ≡ true
bits_table = refl

bits_lem : (a b : ℕ) → a < 256 → b < 256 → check_bits a b ≡ true
bits_lem a b ha hb =
    all_below_lem 256 (check_bits a) b
      (all_below_lem 256 (λ a. all_below 256 (check_bits a)) a bits_table ha) hb

xor_table : all_below 256 (λ a. bit_xor a a == 0) ≡ true
xor_table = refl

bit_or-lt : (a b : ℕ) → a < 256 → b < 256 → bit_or a b < 256
bit_or-lt a b ha hb = ground (arith, bits_lem a b ha hb)

bit_xor-lt : (a b : ℕ) → a < 256 → b < 256 → bit_xor a b < 256
bit_xor-lt a b ha hb = ground (arith, bits_lem a b ha hb)

bit_or-zero : (a b : ℕ) → a < 256 → b < 256 → bit_or a b ≡ 0 → (a ≡ 0) × (b ≡ 0)
bit_or-zero a b ha hb e = (ground (arith, bits_lem a b ha hb), ground (arith, bits_lem a b ha hb))

bit_xor-zero : (a b : ℕ) → a < 256 → b < 256 → bit_xor a b ≡ 0 → a ≡ b
bit_xor-zero a b ha hb e = ground (arith, bits_lem a b ha hb)

bit_xor-same : (b : ℕ) → b < 256 → bit_xor b b ≡ 0
bit_xor-same b h = ground (arith, all_below_lem 256 (λ a. bit_xor a a == 0) b xor_table h)

abbrev pub AllBytes : List ℕ → Type 0
AllBytes [] = Unit {0}
AllBytes (b ∷ bs) = (b < 256) × AllBytes bs

difference_refl : (bs : List ℕ) → AllBytes bs → difference 0 bs bs ≡ 0
difference_refl [] h = refl
difference_refl (b ∷ bs) (h, all) = rw (bit_xor-same b h) (difference_refl bs all)

difference-zero :
    (d : ℕ) (ps bs : List ℕ)
    → d < 256
    → AllBytes ps
    → AllBytes bs
    → length ps ≡ length bs
    → difference d ps bs ≡ 0
    → (d ≡ 0) × (ps ≡ bs)
difference-zero d [] [] small h k e zero_d = (zero_d, refl)
difference-zero d [] (b ∷ bs) small h k e zero_d = absurd (omega arith)
difference-zero d (a ∷ ps) [] small h k e zero_d = absurd (omega arith)
difference-zero d (a ∷ ps) (b ∷ bs) small (ha, h) (hb, k) e zero_d =
    let x_small = bit_xor-lt a b ha hb in
    let (none_so_far, rest) =
      difference-zero (bit_or d (bit_xor a b)) ps bs (bit_or-lt d (bit_xor a b) small x_small) h k
        (omega arith) zero_d in
    let (d_zero, x_zero) = bit_or-zero d (bit_xor a b) small x_small none_so_far in
    (d_zero, ap₂ (λ c cs. c ∷ cs) (bit_xor-zero a b ha hb x_zero) rest)

-- The comparison of two byte strings that looks at every byte succeeds exactly if they are equal.
pub same_bytes-eq :
    (presented expected : List ℕ)
    → AllBytes presented
    → AllBytes expected
    → (same_bytes presented expected ≡ true) ↔ (presented ≡ expected)
unfolding same_bytes
same_bytes-eq presented expected h k = (λ e. there e, λ e. back e)
  where
    there : same_bytes presented expected ≡ true → presented ≡ expected
    there e =
        let same : length presented ≡ length expected = ground arith in
        let zero_d : difference 0 presented expected ≡ 0 = ground arith in
        (difference-zero 0 presented expected (omega arith) h k same zero_d).1

    back : presented ≡ expected → same_bytes presented expected ≡ true
    back e = rw e (ground (arith, difference_refl expected k))
