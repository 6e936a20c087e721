-- ===== src/Guards.antt =====
-- src-tauri/src/runtime_guards.rs: `read_capped`, which reads the output of an isolated process to its end
-- and keeps the first bytes of it.
use open_mind_ai.Base.{
  ℕ, zero, suc, ◌-◌, ◌≤◌, min, ◌≡◌, refl, sym, ◌∙◌, ap, ap₂, Bool, true, false, ◌||◌, List, [], ◌∷◌,
  ◌++◌, if◌then◌else◌, ltb, length, length-append, take, Bool-cases, inl, inr, arith,
}
use mathlib.Core.List.{append-nil, append_assoc}

pub record CappedBytes : Type 0 where
  pub bytes : List ℕ
  pub truncated : Bool

abbrev pub cap_chunk : ℕ → List ℕ → CappedBytes → CappedBytes
cap_chunk limit chunk s =
    let retained = min (limit - length s.bytes) (length chunk) in
    if ltb (length s.bytes) limit
    then record {
      bytes = s.bytes ++ take retained chunk;
      truncated = s.truncated || ltb retained (length chunk);
    }
    else record s { truncated = true }

-- The loop over the reads, which have one byte at least, until the stream is closed.
unfoldable pub capped_loop : ℕ → List (ℕ × List ℕ) → CappedBytes → CappedBytes
capped_loop limit [] s = s
capped_loop limit ((b, bs) ∷ chunks) s = capped_loop limit chunks (cap_chunk limit (b ∷ bs) s)

unfoldable pub read_capped : ℕ → List (ℕ × List ℕ) → CappedBytes
read_capped limit chunks = capped_loop limit chunks (record { bytes = []; truncated = false })

abbrev pub all_bytes : List (ℕ × List ℕ) → List ℕ
all_bytes [] = []
all_bytes ((b, bs) ∷ chunks) = (b ∷ bs) ++ all_bytes chunks

length-take : (n : ℕ) (s : List ℕ) → length (take n s) ≡ min n (length s)
length-take zero s = omega arith
length-take (suc n) [] = omega arith
length-take (suc n) (x ∷ s) = omega (arith, length-take n s)

take-longer : (n : ℕ) (a b : List ℕ) → length a ≤ n → take n (a ++ b) ≡ a ++ take (n - length a) b
take-longer n [] b h = ap (λ k. take k b) (omega arith)
take-longer zero (x ∷ a) b h = absurd (omega arith)
take-longer (suc n) (x ∷ a) b h =
    let e : suc n - suc (length a) ≡ n - length a = omega arith in
    ap (λ s. x ∷ s) (take-longer n a b (omega arith) ∙ ap (λ k. a ++ take k b) (sym e))

take-shorter : (n : ℕ) (a b : List ℕ) → n ≤ length a → take n (a ++ b) ≡ take n a
take-shorter zero a b h = refl
take-shorter (suc n) [] b h = absurd (omega arith)
take-shorter (suc n) (x ∷ a) b h = ap (λ s. x ∷ s) (take-shorter n a b (omega arith))

take-min : (n : ℕ) (s : List ℕ) → take (min n (length s)) s ≡ take n s
take-min zero s = let e : min zero (length s) ≡ zero = omega arith in rw e refl
take-min (suc n) [] = let e : min (suc n) zero ≡ zero = omega arith in rw e refl
take-min (suc n) (x ∷ s) =
    let e : min (suc n) (suc (length s)) ≡ suc (min n (length s)) = omega arith in
    rw e (ap (λ t. x ∷ t) (take-min n s))

take-all : (n : ℕ) (s : List ℕ) → length s ≤ n → take n s ≡ s
take-all zero [] h = refl
take-all zero (x ∷ s) h = absurd (omega arith)
take-all (suc n) [] h = refl
take-all (suc n) (x ∷ s) h = ap (λ t. x ∷ t) (take-all n s (omega arith))

abbrev capped : ℕ → List ℕ → CappedBytes
capped limit before = record { bytes = take limit before; truncated = ltb limit (length before) }

cap_chunk-capped :
    (limit b : ℕ) (bs before : List ℕ)
    → cap_chunk limit (b ∷ bs) (capped limit before) ≡ capped limit (before ++ (b ∷ bs))
cap_chunk-capped limit b bs before =
    let total = length-append before (b ∷ bs) in
    let had = length-take limit before in
    elim (Bool-cases (ltb (length before) limit)) [
      | inl e ↦
          let room : ltb (length (take limit before)) limit ≡ true = ground arith in
          let whole = take-all limit before (ground arith) in
          let kept : take limit before
                ++ take (min (limit - length (take limit before)) (length (b ∷ bs))) (b ∷ bs)
              ≡ take limit (before ++ (b ∷ bs)) =
            rw whole (
              ap (λ t. before ++ t) (take-min (limit - length before) (b ∷ bs))
              ∙ sym (take-longer limit before (b ∷ bs) (ground arith))) in
          let cut : (ltb limit (length before)
                || ltb (min (limit - length (take limit before)) (length (b ∷ bs)))
                    (length (b ∷ bs)))
              ≡ ltb limit (length (before ++ (b ∷ bs))) =
            ground arith in
          rw room (ap₂ (λ x t. record { bytes = x; truncated = t }) kept cut)
      | inr e ↦
          let full : ltb (length (take limit before)) limit ≡ false = ground arith in
          let kept = take-shorter limit before (b ∷ bs) (ground arith) in
          let cut : true ≡ ltb limit (length (before ++ (b ∷ bs))) = ground arith in
          rw full (ap₂ (λ x t. record { bytes = x; truncated = t }) (sym kept) cut)
    ]

capped_loop-capped :
    (limit : ℕ) (chunks : List (ℕ × List ℕ)) (before : List ℕ)
    → capped_loop limit chunks (capped limit before) ≡ capped limit (before ++ all_bytes chunks)
unfolding capped_loop
capped_loop-capped limit [] before = ap (capped limit) (sym (append-nil before))
capped_loop-capped limit ((b, bs) ∷ chunks) before =
    ap (capped_loop limit chunks) (cap_chunk-capped limit b bs before)
    ∙ capped_loop-capped limit chunks (before ++ (b ∷ bs))
    ∙ ap (capped limit) (append_assoc before (b ∷ bs) (all_bytes chunks))

-- However the output of a process arrives, the first `limit` bytes of it are kept, and it is marked as
-- truncated exactly if it is longer.
pub read_capped-take :
    (limit : ℕ) (chunks : List (ℕ × List ℕ))
    → ((read_capped limit chunks).bytes ≡ take limit (all_bytes chunks))
      × ((read_capped limit chunks).truncated ≡ ltb limit (length (all_bytes chunks)))
unfolding read_capped
read_capped-take limit chunks =
    let empty : (record { bytes = []; truncated = false }) ≡ capped limit [] =
      ap₂ (λ x t. record { bytes = x; truncated = t }) (sym (take-all limit [] (omega arith)))
        (ground arith) in
    let whole = ap (capped_loop limit chunks) empty ∙ capped_loop-capped limit chunks [] in
    (ap (λ s. s.bytes) whole, ap (λ s. s.truncated) whole)
