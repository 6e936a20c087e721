-- ===== src/Patch/Commit/Journal.antt =====
-- The whole roll-back: every planned file, from the last entry to the first.
use mathlib.Core.List.{reverse-cons}
use open_mind_ai.Base.{
  ℕ, zero, suc, ◌+◌, ◌≤◌, Bool, Option, some, List, [], ◌∷◌, ◌++◌, reverse, ◌≡◌, refl, sym, ◌∙◌, ap,
  subst, ◌⊎◌, inl, inr, arith,
}
use open_mind_ai.Base.Text.{Text}
use open_mind_ai.Patch.World.{Bytes, JournalEntry, TxDir, World}
use open_mind_ai.Patch.World.Hoare.{Holds, Ends, Ends-bind, Ends-pure}
use open_mind_ai.Patch.Commit.{
  PlannedChange, roll_back, rollback_transaction, rollback_entry, entry_of, journal_of, enumerate,
}
use open_mind_ai.Patch.Commit.Invariant.{get_elem?, IsPlanFor, path_cases}
use open_mind_ai.Patch.Commit.Rollback.{Plus}
use open_mind_ai.Patch.Commit.Restore.{Safe, Back, rollback_entry-Ends}

module _ (m : Bool) {old : Text → Option Bytes} {changes : List PlannedChange}
    (plan : IsPlanFor old changes) where
  -- The indices that are restored after a list of entries.
  abbrev Final : (ℕ → Type 0) → List (ℕ × JournalEntry) → ℕ → Type 0
  Final S [] = S
  Final S ((i, entry) ∷ es) = Final (Plus m plan S i) es

  -- The entries are those of distinct changes that are not yet restored.
  abbrev Fits : (ℕ → Type 0) → List (ℕ × JournalEntry) → Type 0
  Fits S [] = Unit {0}
  Fits S ((i, entry) ∷ es) =
      ((c : PlannedChange) × (get_elem? changes i ≡ some c) × (entry ≡ entry_of c))
      × (S i → ⊥)
      × Fits (Plus m plan S i) es

  roll_back-Ends :
      (S : ℕ → Type 0) (es : List (ℕ × JournalEntry))
      → Fits S es
      → Ends (Back m plan S) (roll_back es) (λ u. Back m plan (Final S es)) (Safe m plan)
  unfolding roll_back
  roll_back-Ends S [] h = Ends-pure _ _ _ (λ w p. p)
  roll_back-Ends S ((i, entry) ∷ es) ((c, at_i, e), fresh, h) =
      Ends-bind (Back m plan S) _ _
        (subst
          (λ en.
            Ends (Back m plan S) (rollback_entry i en) (λ u. Back m plan (Plus m plan S i))
              (Safe m plan))
          (sym e) (rollback_entry-Ends m plan S i c at_i fresh))
        (λ u. roll_back-Ends (Plus m plan S i) es h)

  Final-append :
      (S : ℕ → Type 0) (xs ys : List (ℕ × JournalEntry))
      → Final S (xs ++ ys) ≡ Final (Final S xs) ys
  Final-append S [] ys = refl
  Final-append S ((i, entry) ∷ xs) ys = Final-append (Plus m plan S i) xs ys

  Fits-append :
      (S : ℕ → Type 0) (xs ys : List (ℕ × JournalEntry))
      → Fits S xs
      → Fits (Final S xs) ys
      → Fits S (xs ++ ys)
  Fits-append S [] ys h k = k
  Fits-append S ((i, entry) ∷ xs) ys (here, fresh, h) k =
      (here, fresh, Fits-append (Plus m plan S i) xs ys h k)

  -- `cs` are the changes from index `i` on.
  abbrev pub IsSuffix : ℕ → List PlannedChange → Type 0
  IsSuffix i cs = (n : ℕ) → get_elem? changes (i + n) ≡ get_elem? cs n

  pub IsSuffix-next :
      (i : ℕ) (c : PlannedChange) (cs : List PlannedChange)
      → IsSuffix i (c ∷ cs)
      → IsSuffix (suc i) cs
  IsSuffix-next i c cs h n =
      ap (get_elem? changes) (let e : suc i + n ≡ i + suc n = omega arith in e) ∙ h (suc n)

  pub IsSuffix-head :
      (i : ℕ) (c : PlannedChange) (cs : List PlannedChange)
      → IsSuffix i (c ∷ cs)
      → get_elem? changes i ≡ some c
  IsSuffix-head i c cs h = ap (get_elem? changes) (let e : i ≡ i + 0 = omega arith in e) ∙ h 0

  abbrev backwards : ℕ → List PlannedChange → List (ℕ × JournalEntry)
  backwards i cs = reverse (enumerate i (journal_of cs))

  Final-cons :
      (S : ℕ → Type 0) (i : ℕ) (c : PlannedChange) (cs : List PlannedChange)
      → Final S (backwards i (c ∷ cs)) ≡ Plus m plan (Final S (backwards (suc i) cs)) i
  Final-cons S i c cs =
      ap (Final S) (reverse-cons (i, entry_of c) (enumerate (suc i) (journal_of cs)))
      ∙ Final-append S (backwards (suc i) cs) ((i, entry_of c) ∷ [])

  Final-bound :
      (S : ℕ → Type 0) (i : ℕ) (cs : List PlannedChange) (k : ℕ)
      → Final S (backwards i cs) k
      → S k ⊎ (i ≤ k)
  Final-bound S i [] k h = inl h
  Final-bound S i (c ∷ cs) k h =
      let last : Plus m plan (Final S (backwards (suc i) cs)) i k =
        subst (λ (F : ℕ → Type 0). F k) (Final-cons S i c cs) h in
      elim last [
        | inl before ↦ elim (Final-bound S (suc i) cs k before) [
          | inl s ↦ inl s
          | inr l ↦ inr (omega arith)
        ]
        | inr e ↦ inr (omega arith)
      ]

  Fits-backwards :
      (S : ℕ → Type 0) (i : ℕ) (cs : List PlannedChange)
      → ((k : ℕ) → S k → ⊥)
      → IsSuffix i cs
      → Fits S (backwards i cs)
  Fits-backwards S i [] none_yet h = tt
  Fits-backwards S i (c ∷ cs) none_yet h = rw reverse-cons (
      Fits-append S (backwards (suc i) cs) ((i, entry_of c) ∷ [])
        (Fits-backwards S (suc i) cs none_yet (IsSuffix-next i c cs h))
        (
          (c, IsSuffix-head i c cs h, refl),
          (λ f. elim (Final-bound S (suc i) cs i f) [ inl s ↦ none_yet i s | inr l ↦ omega arith ]),
          tt,
        ))

  Final-keeps : (S : ℕ → Type 0) (es : List (ℕ × JournalEntry)) (k : ℕ) → S k → Final S es k
  Final-keeps S [] k s = s
  Final-keeps S ((i, entry) ∷ es) k s = Final-keeps (Plus m plan S i) es k (inl s)

  Final-all :
      (S : ℕ → Type 0) (i : ℕ) (cs : List PlannedChange) (n : ℕ) (c : PlannedChange)
      → get_elem? cs n ≡ some c
      → Final S (backwards i cs) (i + n)
  Final-all S i [] n c h = absurd (cc h)
  Final-all S i (d ∷ cs) zero c h =
      subst (λ (F : ℕ → Type 0). F (i + 0)) (sym (Final-cons S i d cs)) (inr (omega arith))
  Final-all S i (d ∷ cs) (suc n) c h =
      let e : suc i + n ≡ i + suc n = omega arith in
      subst (λ (F : ℕ → Type 0). F (i + suc n)) (sym (Final-cons S i d cs))
        (inl (subst (Final S (backwards (suc i) cs)) e (Final-all S (suc i) cs n c h)))

  -- All files of the workspace are as before the transaction.
  abbrev pub Whole : (Text → Option Bytes) → Type 0
  Whole files = (p : Text) → files p ≡ old p

  Back-Whole :
      (S : ℕ → Type 0) (w : World)
      → ((k : ℕ) (c : PlannedChange) → get_elem? changes k ≡ some c → S k)
      → Holds (Back m plan S) w
      → Whole w.files
  Back-Whole S w all (t, e, r) p = elim (path_cases changes p) [
    | inl other ↦ r.safe.others p other
    | inr (k, c, at_k, same) ↦
        ap w.files same
        ∙ r.back k c at_k (all k c at_k)
        ∙ sym (plan.originals k c at_k)
        ∙ ap old (sym same)
  ]

  abbrev Nothing : ℕ → Type 0
  Nothing k = ⊥

  abbrev pub Undone : (Text → Option Bytes) → Option TxDir → Type 0
  Undone = Back m plan (Final Nothing (backwards 0 changes))

  -- From the invariant, a roll-back that returns has restored every file, and one that stops keeps
  -- the invariant.
  pub rollback_transaction-Ends :
      Ends (Safe m plan) (rollback_transaction (journal_of changes)) (λ u. Undone) (Safe m plan)
  unfolding rollback_transaction
  rollback_transaction-Ends = record {
    at = λ w (t, e, r).
        (roll_back-Ends Nothing (backwards 0 changes) (
            Fits-backwards Nothing 0 changes (λ k s. s)
              (λ n. ap (get_elem? changes) (let e : 0 + n ≡ n = omega arith in e)))).at
          w (t, e, record { safe = r; back = λ k c at_k s. absurd s });
  }

  pub Undone-Whole : (w : World) → Holds Undone w → Whole w.files
  Undone-Whole w h =
      Back-Whole (Final Nothing (backwards 0 changes)) w
        (λ k c at_k.
          subst (Final Nothing (backwards 0 changes)) (let e : 0 + k ≡ k = omega arith in e)
            (Final-all Nothing 0 changes k c at_k))
        h
