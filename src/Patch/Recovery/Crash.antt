-- ===== src/Patch/Recovery/Crash.antt =====
-- Recovery after a transaction that stopped anywhere before its clean-up.
use open_mind_ai.Base.{
  ℕ, true, false, Option, none, some, List, [], ◌≡◌, refl, sym, subst, ◌⊎◌, inl, inr,
}
use open_mind_ai.Base.Text.{Text}
use open_mind_ai.Patch.World.{
  Bytes, TxDir, empty_dir, World, Result, ok, err, crashed, M, pure, continue, ◌>>=◌, ◌>>◌,
  durable_remove_dir_all,
}
use open_mind_ai.Patch.World.Hoare.{Pred, Holds, After, Ends, Ends-bind, Ends-weaken}
use open_mind_ai.Patch.Commit.{PlannedChange, apply_all, prepare, rollback_transaction, journal_of}
use open_mind_ai.Patch.Commit.Invariant.{IsPlanFor, Recoverable}
use open_mind_ai.Patch.Commit.Restore.{Safe}
use open_mind_ai.Patch.Commit.Journal.{Whole, Undone-Whole, rollback_transaction-Ends}
use open_mind_ai.Patch.Commit.Apply.{New, Stopped}
use open_mind_ai.Patch.Commit.Advance.{Committed, apply_all-Ends}
use open_mind_ai.Patch.Commit.Prepare.{Waiting}
use open_mind_ai.Patch.Commit.Atomic.{Start, prepare-Ends}
use open_mind_ai.Patch.Recovery.{
  validate_journal, recover_store, recover_interrupted_transactions, remove_recovered,
}
use open_mind_ai.Patch.Recovery.Smooth.{rollback_transaction-Smooth}

-- The part of `commit_transaction` before its clean-up or roll-back.
abbrev pub write_changes : List PlannedChange → M (Unit {0})
write_changes planned = prepare planned >> apply_all planned

-- The machine starts again, and its file operations go well from then on.
abbrev pub restart : World → World
restart w = record w { faults = [] }

module _ {old : Text → Option Bytes} {changes : List PlannedChange}
    (plan : IsPlanFor old changes) where
  abbrev pub Anywhere : Pred
  Anywhere files store = Waiting plan files store ⊎ Stopped plan files store

  pub write_changes-Ends : Ends (Start plan) (write_changes changes) (λ u. Committed plan) Anywhere
  write_changes-Ends =
      Ends-bind (Start plan) _ _ (Ends-weaken (prepare-Ends plan) (λ u w h. h) (λ w h. inl h))
        (λ u. Ends-weaken (apply_all-Ends plan) (λ u w h. h) (λ w h. inr h))

  pub anywhere :
      (r : Result (Unit {0})) (w : World)
      → After (λ u. Committed plan) Anywhere r w
      → Holds Anywhere w
  anywhere (ok u) w h = inr (inr h)
  anywhere (err e) w h = h
  anywhere crashed w h = h

  -- All of the changes, or none, and an empty store.
  abbrev pub IsRecovered : Result ℕ × World → Type 0
  IsRecovered (r, w) =
      ((n : ℕ) × (r ≡ ok n)) × (w.store ≡ none) × (Whole false plan w.files ⊎ New plan w.files)

  module _ (valid : validate_journal (journal_of changes) ≡ true) where
    removed :
        (w : World)
        → w.faults ≡ []
        → Whole false plan w.files ⊎ New plan w.files
        → IsRecovered (remove_recovered w)
    unfolding durable_remove_dir_all
    removed w quiet h = rw quiet ((1, refl), refl, h)

    rolled_back :
        (r : Result (Unit {0})) (w : World)
        → r ≡ ok tt
        → w.faults ≡ []
        → After (λ u files store. Whole false plan files) (λ files store. Unit {0}) r w
        → IsRecovered (continue r (λ _. remove_recovered) w)
    rolled_back (ok u) w returned quiet h = removed w quiet (inl h)
    rolled_back (err e) w returned quiet h = absurd (cc returned)
    rolled_back crashed w returned quiet h = absurd (cc returned)

    recover_store-marked :
        (store : Option TxDir) (t : TxDir) (files : Text → Option Bytes)
        → store ≡ some t
        → Recoverable true old changes files t
        → recover_store store ≡ remove_recovered
    recover_store-marked store t files e r = rw (e, r.journal, valid, r.marker) refl

    recover_store-unmarked :
        (store : Option TxDir) (t : TxDir) (files : Text → Option Bytes)
        → store ≡ some t
        → Recoverable false old changes files t
        → recover_store store
          ≡ (rollback_transaction (journal_of changes) >>= λ _. remove_recovered)
    recover_store-unmarked store t files e r = rw (e, r.journal, valid, r.marker) refl

    abbrev Recovers : World → M ℕ → Type 0
    Recovers w m = IsRecovered (m w)

    recover_unmarked :
        (w : World)
        → w.faults ≡ []
        → Holds (Safe false plan) w
        → IsRecovered (recover_store w.store w)
    recover_unmarked w quiet (t, e, r) =
        subst (Recovers w) (sym (recover_store-unmarked w.store t w.files e r)) (
          rolled_back (rollback_transaction (journal_of changes) w).0
            (rollback_transaction (journal_of changes) w).1
            ((rollback_transaction-Smooth (journal_of changes)).returns w quiet)
            ((rollback_transaction-Smooth (journal_of changes)).quiet w quiet)
            ((Ends-weaken (rollback_transaction-Ends false plan)
                (λ u w h. Undone-Whole false plan w h) (λ w h. tt)).at
              w (t, e, r)))

    recover_store-empty :
        (store : Option TxDir) → store ≡ some empty_dir → recover_store store ≡ remove_recovered
    recover_store-empty store e = rw e refl

    recover_store-none : (store : Option TxDir) → store ≡ none → recover_store store ≡ pure 0
    recover_store-none store e = rw e refl

    pub recover_anywhere :
        (w : World) → w.faults ≡ [] → Holds Anywhere w → IsRecovered (recover_store w.store w)
    recover_anywhere w quiet (inl (whole, inl e)) =
        subst (Recovers w) (sym (recover_store-none w.store e)) ((0, refl), e, inl whole)
    recover_anywhere w quiet (inl (whole, inr (inl e))) =
        subst (Recovers w) (sym (recover_store-empty w.store e)) (removed w quiet (inl whole))
    recover_anywhere w quiet (inl (whole, inr (inr h))) = recover_unmarked w quiet h
    recover_anywhere w quiet (inr (inl h)) = recover_unmarked w quiet h
    recover_anywhere w quiet (inr (inr (t, e, (r, new)))) =
        subst (Recovers w) (sym (recover_store-marked w.store t w.files e r))
          (removed w quiet (inr new))

-- For a plan of the present files in an empty store, whose journal is valid, and whatever happens to
-- the file operations until the clean-up or the roll-back, a death of the process included: after a
-- restart the recovery returns, the store is empty, and either every file is unchanged, or the planned
-- paths hold their replacements and all other files are unchanged.
pub write_changes-IsRecovered :
    (w : World) (changes : List PlannedChange) (plan : IsPlanFor w.files changes)
    → w.store ≡ none
    → validate_journal (journal_of changes) ≡ true
    → IsRecovered plan (recover_interrupted_transactions (restart (write_changes changes w).1))
unfolding recover_interrupted_transactions
write_changes-IsRecovered w changes plan e valid =
    let (r, w') = write_changes changes w in
    recover_anywhere plan valid (restart w') refl
      (anywhere plan r w' ((write_changes-Ends plan).at w ((λ p. refl), e)))
