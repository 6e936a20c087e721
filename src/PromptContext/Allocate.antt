-- ===== src/PromptContext/Allocate.antt =====
-- `allocate_budgets` of src-tauri/src/openagent_prompt_context.rs: shares by weight, then what is left
-- over goes to the parts that want more, in their order.
use native.Mathlib.Nat.{le-div_iff_mul-le, div-mul-le_self, div-le_of_le-mul, mul-le-mul_right}
use open_mind_ai.Base.{
  ℕ, zero, suc, ◌+◌, ◌-◌, ◌*◌, ◌/◌, ◌≤◌, ◌≡◌, refl, min, max, Bool, true, false, List, [], ◌∷◌, ltb,
  ◌==◌, if◌then◌else◌, arith, ap, sym, ◌∙◌, ◌<◌, length, Bool-cases, ◌⊎◌, inl, inr,
}

abbrev pub sum : List ℕ → ℕ
sum [] = 0
sum (x ∷ xs) = x + sum xs

abbrev pub initial_budgets : ℕ → ℕ → List ℕ → List ℕ → List ℕ
initial_budgets total weight_sum [] weights = []
initial_budgets total weight_sum (l ∷ lengths) [] = []
initial_budgets total weight_sum (l ∷ lengths) (w ∷ weights) =
    min l (total * w / weight_sum) ∷ initial_budgets total weight_sum lengths weights

abbrev pub zeros : List ℕ → List ℕ
zeros [] = []
zeros (l ∷ lengths) = 0 ∷ zeros lengths

pub record Shares : Type 0 where
  pub budgets : List ℕ
  pub remaining : ℕ
  pub progressed : Bool

abbrev put_first : ℕ → Shares → Shares
put_first b s = record s { budgets = b ∷ s.budgets }

-- The inner loop: one pass over the parts, which ends early when nothing is left.
unfoldable pub pass : List ℕ → List ℕ → ℕ → Bool → Shares
pass [] budgets remaining progressed = record {
  budgets = budgets;
  remaining = remaining;
  progressed = progressed;
}
pass (l ∷ lengths) [] remaining progressed = record {
  budgets = [];
  remaining = remaining;
  progressed = progressed;
}
pass (l ∷ lengths) (b ∷ budgets) remaining progressed =
    let grant = min (l - b) remaining in
    let granted = put_first (b + grant) (pass lengths budgets (remaining - grant) true) in
    let last_grant : Shares = record {
      budgets = (b + grant) ∷ budgets;
      remaining = 0;
      progressed = true;
    } in
    let unchanged = put_first b (pass lengths budgets remaining progressed) in
    if ltb b l then (if remaining - grant == 0 then last_grant else granted) else unchanged

-- The outer loop, on fuel.
unfoldable pub passes : ℕ → List ℕ → List ℕ → ℕ → List ℕ
passes zero lengths budgets remaining = budgets
passes (suc fuel) lengths budgets remaining =
    let s = pass lengths budgets remaining false in
    let again = passes fuel lengths s.budgets s.remaining in
    if remaining == 0 then budgets else if s.progressed then again else s.budgets

abbrev enough_passes : ℕ
enough_passes = 2

unfoldable pub allocate_budgets : List ℕ → List ℕ → ℕ → List ℕ
unfolding passes
allocate_budgets lengths weights total =
    let budgets = initial_budgets total (max (sum weights) 1) lengths weights in
    if total == 0 then zeros lengths else passes enough_passes lengths budgets (total - sum budgets)

abbrev pub AllLe : List ℕ → List ℕ → Type 0
AllLe [] [] = Unit {0}
AllLe [] (y ∷ ys) = ⊥
AllLe (x ∷ xs) [] = ⊥
AllLe (x ∷ xs) (y ∷ ys) = (x ≤ y) × AllLe xs ys

pass-progressed :
    (lengths budgets : List ℕ) (remaining : ℕ)
    → (pass lengths budgets remaining true).progressed ≡ true
unfolding pass
pass-progressed [] budgets remaining = refl
pass-progressed (l ∷ lengths) [] remaining = refl
pass-progressed (l ∷ lengths) (b ∷ budgets) remaining = ground (
  arith,
  pass-progressed lengths budgets (remaining - min (l - b) remaining),
  pass-progressed lengths budgets remaining,
)

-- A pass hands out what it takes.
pass-sum :
    (lengths budgets : List ℕ) (remaining : ℕ) (progressed : Bool)
    → let s = pass lengths budgets remaining progressed in
      AllLe budgets lengths → sum s.budgets + s.remaining ≡ sum budgets + remaining
unfolding pass
pass-sum [] [] remaining progressed h = refl
pass-sum [] (b ∷ budgets) remaining progressed h = absurd h
pass-sum (l ∷ lengths) [] remaining progressed h = absurd h
pass-sum (l ∷ lengths) (b ∷ budgets) remaining progressed (h, hs) = ground (
  arith,
  pass-sum lengths budgets (remaining - min (l - b) remaining) true hs,
  pass-sum lengths budgets remaining progressed hs,
)

pass-AllLe :
    (lengths budgets : List ℕ) (remaining : ℕ) (progressed : Bool)
    → AllLe budgets lengths
    → AllLe (pass lengths budgets remaining progressed).budgets lengths
unfolding pass
pass-AllLe [] [] remaining progressed h = tt
pass-AllLe [] (b ∷ budgets) remaining progressed h = absurd h
pass-AllLe (l ∷ lengths) [] remaining progressed h = absurd h
pass-AllLe (l ∷ lengths) (b ∷ budgets) remaining progressed (h, hs) = ground (
  arith,
  pass-AllLe lengths budgets (remaining - min (l - b) remaining) true hs,
  pass-AllLe lengths budgets remaining progressed hs,
)

-- After a pass nothing is left, or every part has all that it wants.
pass-full :
    (lengths budgets : List ℕ) (remaining : ℕ) (progressed : Bool)
    → let s = pass lengths budgets remaining progressed in
      AllLe budgets lengths → (s.remaining ≡ 0) ⊎ (s.budgets ≡ lengths)
unfolding pass
pass-full [] [] remaining progressed h = inr refl
pass-full [] (b ∷ budgets) remaining progressed h = absurd h
pass-full (l ∷ lengths) [] remaining progressed h = absurd h
pass-full (l ∷ lengths) (b ∷ budgets) remaining progressed (h, hs) = ground (
  arith,
  pass-full lengths budgets (remaining - min (l - b) remaining) true hs,
  pass-full lengths budgets remaining progressed hs,
)

-- A pass over parts that have all that they want changes nothing.
pass-same :
    (lengths : List ℕ) (remaining : ℕ)
    → ((pass lengths lengths remaining false).budgets ≡ lengths)
      × ((pass lengths lengths remaining false).progressed ≡ false)
unfolding pass
pass-same [] remaining = (refl, refl)
pass-same (l ∷ lengths) remaining = ground (arith, pass-same lengths remaining)

-- The second pass at the latest changes nothing, so the loop has ended.
passes-last :
    (n : ℕ) (lengths budgets : List ℕ) (remaining : ℕ)
    → (remaining ≡ 0) ⊎ (budgets ≡ lengths)
    → passes (suc n) lengths budgets remaining ≡ budgets
unfolding passes
passes-last n lengths budgets remaining (inl e) = ground arith
passes-last n lengths budgets remaining (inr e) = ground (arith, pass-same lengths remaining)

passes-first :
    (n : ℕ) (lengths budgets : List ℕ) (remaining : ℕ)
    → AllLe budgets lengths
    → passes (suc (suc n)) lengths budgets remaining
      ≡ (if remaining == 0 then budgets else (pass lengths budgets remaining false).budgets)
unfolding passes
passes-first n lengths budgets remaining h =
    let s : Shares = pass lengths budgets remaining false in
    ground (
      arith,
      passes-last n lengths s.budgets s.remaining (pass-full lengths budgets remaining false h),
    )

-- More fuel than two rounds changes nothing.
passes_enough :
    (n : ℕ) (lengths budgets : List ℕ) (remaining : ℕ)
    → AllLe budgets lengths
    → passes (suc (suc n)) lengths budgets remaining
      ≡ passes enough_passes lengths budgets remaining
passes_enough n lengths budgets remaining h =
    passes-first n lengths budgets remaining h ∙ sym (passes-first 0 lengths budgets remaining h)

AllLe-sum : (xs ys : List ℕ) → AllLe xs ys → sum xs ≤ sum ys
AllLe-sum [] [] h = omega arith
AllLe-sum [] (y ∷ ys) h = absurd h
AllLe-sum (x ∷ xs) [] h = absurd h
AllLe-sum (x ∷ xs) (y ∷ ys) (h, hs) = omega (arith, AllLe-sum xs ys hs)

shared_out :
    (lengths budgets : List ℕ) (remaining : ℕ)
    → AllLe budgets lengths
    → let b =
        (if remaining == 0 then budgets else (pass lengths budgets remaining false).budgets) in
      AllLe b lengths × (sum b ≡ min (sum budgets + remaining) (sum lengths))
shared_out lengths budgets remaining h =
    let s : Shares = pass lengths budgets remaining false in
    let below : AllLe s.budgets lengths = pass-AllLe lengths budgets remaining false h in
    let kept : sum s.budgets + s.remaining ≡ sum budgets + remaining =
      pass-sum lengths budgets remaining false h in
    let le : sum s.budgets ≤ sum lengths = AllLe-sum s.budgets lengths below in
    let le' : sum budgets ≤ sum lengths = AllLe-sum budgets lengths h in
    elim (Bool-cases (remaining == 0)) [
      | inl z ↦ rw z (h, ground arith)
      | inr z ↦ rw z (
        below,
        elim (pass-full lengths budgets remaining false h) [
          | inl e ↦ omega arith
          | inr e ↦ let full : sum s.budgets ≡ sum lengths = ap sum e in omega arith
        ],
      )
    ]

initial-AllLe :
    (total weight_sum : ℕ) (lengths weights : List ℕ)
    → length weights ≡ length lengths
    → AllLe (initial_budgets total weight_sum lengths weights) lengths
initial-AllLe total weight_sum [] weights h = tt
initial-AllLe total weight_sum (l ∷ lengths) [] h = absurd (omega arith)
initial-AllLe total weight_sum (l ∷ lengths) (w ∷ weights) h =
    (omega arith, initial-AllLe total weight_sum lengths weights (omega arith))

zeros_lem : (lengths : List ℕ) → AllLe (zeros lengths) lengths × (sum (zeros lengths) ≡ 0)
zeros_lem [] = (tt, refl)
zeros_lem (l ∷ lengths) = let (h, e) = zeros_lem lengths in ((omega arith, h), omega arith)

div_superadd : (a b s : ℕ) → 0 < s → a / s + b / s ≤ (a + b) / s
div_superadd a b s h =
    (le-div_iff_mul-le h).1 (omega (arith, div-mul-le_self a s, div-mul-le_self b s))

initial-sum :
    (total weight_sum : ℕ) (lengths weights : List ℕ)
    → 0 < weight_sum
    → sum (initial_budgets total weight_sum lengths weights) ≤ total * sum weights / weight_sum
initial-sum total weight_sum [] weights h = omega arith
initial-sum total weight_sum (l ∷ lengths) [] h = omega arith
initial-sum total weight_sum (l ∷ lengths) (w ∷ weights) h =
    let e : total * w + total * sum weights ≡ total * (w + sum weights) = omega arith in
    rw (← e) (
      omega (
        arith,
        div_superadd (total * w) (total * sum weights) weight_sum h,
        initial-sum total weight_sum lengths weights h,
      ))

share_le : (total w : ℕ) → total * w / max w 1 ≤ total
share_le total w =
    let l : w ≤ max w 1 = omega arith in
    div-le_of_le-mul (max w 1) (omega (arith, mul-le-mul_right total l))

-- With as many weights as parts, no part gets more than its length, and together they get the whole
-- budget, or all their lengths where these are less.
pub allocate_budgets_lem :
    (lengths weights : List ℕ) (total : ℕ)
    → length weights ≡ length lengths
    → AllLe (allocate_budgets lengths weights total) lengths
      × (sum (allocate_budgets lengths weights total) ≡ min total (sum lengths))
unfolding allocate_budgets
allocate_budgets_lem lengths weights total h =
    let weight_sum : ℕ = max (sum weights) 1 in
    let start : List ℕ = initial_budgets total weight_sum lengths weights in
    let below : AllLe start lengths = initial-AllLe total weight_sum lengths weights h in
    let small : sum start ≤ total = omega (
      arith,
      initial-sum total weight_sum lengths weights (omega arith),
      share_le total (sum weights),
    ) in
    elim (Bool-cases (total == 0)) [
      | inl z ↦ rw z (let (a, b) = zeros_lem lengths in (a, ground arith))
      | inr z ↦
          let (a, b) = shared_out lengths start (total - sum start) below in
          let e : sum start + (total - sum start) ≡ total = omega arith in
          rw (z, passes-first 0 lengths start (total - sum start) below)
            (a, b ∙ ap (λ t. min t (sum lengths)) e)
    ]
