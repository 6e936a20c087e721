-- ===== src/Patch/Commit/Atomic.antt =====
-- The whole of `commit_transaction`: what it has done to the files for each way it returns.
use open_mind_ai.Base.{
  Bool, true, false, Option, none, some, List, ◌≡◌, refl, sym, subst, inl, inr, arith,
}
use open_mind_ai.Base.Text.{Text}
use open_mind_ai.Patch.World.{
  Bytes, TxDir, empty_dir, World, Outcome, done, failed, failed_after, crash, crash_after, torn,
  torn_failed, crash_removing, Failure, io, not_a_journal, invalid_journal, rolled_back,
  rollback_failed, Result, ok, err, crashed, M, fail, continue, settle_removal, in_store,
  durable_remove_dir_all, next_fault, advance,
}
use open_mind_ai.Patch.World.Hoare.{Pred, Holds, After, Ends, Ends-bind, Ends-perform}
use open_mind_ai.Patch.Commit.{
  PlannedChange, apply_all, prepare, undo, ignore_error, was_ok, remove_and_report, after_roll_back,
  after_application, commit_transaction, rollback_transaction, journal_of,
}
use open_mind_ai.Patch.Commit.Invariant.{IsPlanFor}
use open_mind_ai.Patch.Commit.Restore.{Safe}
use open_mind_ai.Patch.Commit.Journal.{Whole, Undone, Undone-Whole, rollback_transaction-Ends}
use open_mind_ai.Patch.Commit.Apply.{New, Stopped, At}
use open_mind_ai.Patch.Commit.Advance.{Committed, apply_all-Ends}
use open_mind_ai.Patch.Commit.Prepare.{Waiting, Ready, copies-Ends, Ready-Waiting}

module _ {old : Text → Option Bytes} {changes : List PlannedChange}
    (plan : IsPlanFor old changes) where
  -- No transaction directory, and all files as in `old`.
  abbrev pub Start : Pred
  Start files store = Whole false plan files × (store ≡ none)

  abbrev Created : Pred
  Created files store = Whole false plan files × (store ≡ some empty_dir)

  begin_journal :
      (w : World)
      → Holds Created w
      → Holds (Ready plan 0) (in_store (λ t. record t { journal = some (journal_of changes) }) w)
  begin_journal w (whole, e) =
      let f : TxDir → TxDir = λ t. record t { journal = some (journal_of changes) } in
      (
        f empty_dir,
        rw e refl,
        record {
          journal = refl;
          marker = refl;
          backups = λ k. refl;
          whole = whole;
          staged = λ k c at_k l. let impossible : ⊥ = omega arith in absurd impossible;
          unstaged = λ k l. refl;
        },
      )

  pub prepare-Ends : Ends Start (prepare changes) (λ u. At plan 0) (Waiting plan)
  unfolding prepare
  prepare-Ends =
      Ends-bind Start _ _
        (Ends-perform Start Created (Waiting plan) (λ w. record w { store = some empty_dir })
          (λ w (whole, e). (whole, inl e)) (λ w (whole, e). (whole, refl))
          (λ w (whole, e). (whole, inr (inl refl))))
        (λ u.
          Ends-bind Created _ _
            (Ends-perform Created (Ready plan 0) (Waiting plan)
              (in_store (λ t. record t { journal = some (journal_of changes) }))
              (λ w (whole, e). (whole, inr (inl e))) begin_journal
              (λ w h.
                Ready-Waiting plan 0
                  (in_store (λ t. record t { journal = some (journal_of changes) }) w)
                  (begin_journal w h)))
            (λ u. copies-Ends plan))

  -- What a returned result says of the files: all changes are there, or none is. A failed roll-back
  -- and a crash say nothing.
  abbrev pub Leaves : Result Bool → (Text → Option Bytes) → Type 0
  Leaves (ok cleaned) files = New plan files
  Leaves (err io) files = Whole false plan files
  Leaves (err rolled_back) files = Whole false plan files
  Leaves (err not_a_journal) files = Unit {0}
  Leaves (err invalid_journal) files = Unit {0}
  Leaves (err rollback_failed) files = Unit {0}
  Leaves crashed files = Unit {0}

  Whole-Leaves :
      (e : Failure) (files : Text → Option Bytes) → Whole false plan files → Leaves (err e) files
  Whole-Leaves io files h = h
  Whole-Leaves rolled_back files h = h
  Whole-Leaves not_a_journal files h = tt
  Whole-Leaves invalid_journal files h = tt
  Whole-Leaves rollback_failed files h = tt

  settle_removal-files : (o : Outcome) (w : World) → (settle_removal o w).1.files ≡ w.files
  settle_removal-files done w = refl
  settle_removal-files failed w = refl
  settle_removal-files failed_after w = refl
  settle_removal-files crash w = refl
  settle_removal-files crash_after w = refl
  settle_removal-files (torn b) w = refl
  settle_removal-files (torn_failed b) w = refl
  settle_removal-files (crash_removing j m s k o) w = refl

  removal-files : (w : World) → (durable_remove_dir_all w).1.files ≡ w.files
  unfolding durable_remove_dir_all
  removal-files w = settle_removal-files (next_fault w.faults) (advance w)

  was_ok-Leaves : (r : Result (Unit {0})) (w : World) → New plan w.files → Leaves (was_ok r) w.files
  was_ok-Leaves (ok u) w h = h
  was_ok-Leaves (err e) w h = h
  was_ok-Leaves crashed w h = tt

  clean_up-Leaves :
      (w : World)
      → New plan w.files
      → Leaves
          (ignore_error durable_remove_dir_all w).0
          (ignore_error durable_remove_dir_all w).1.files
  clean_up-Leaves w h =
      let (r, w') = durable_remove_dir_all w in
      was_ok-Leaves r w' (subst (λ f. New plan f) (sym (removal-files w)) h)

  report-Leaves :
      (e : Failure) (r : Result (Unit {0})) (w : World)
      → Leaves (err e) w.files
      → Leaves
          (continue (was_ok r) (λ (cleaned : Bool). fail {A = Bool} e) w).0
          (continue (was_ok r) (λ (cleaned : Bool). fail {A = Bool} e) w).1.files
  report-Leaves e (ok u) w h = h
  report-Leaves e (err f) w h = h
  report-Leaves e crashed w h = tt

  remove_and_report-Leaves :
      (e : Failure) (w : World)
      → Leaves (err e) w.files
      → Leaves (remove_and_report e w).0 (remove_and_report e w).1.files
  remove_and_report-Leaves e w h =
      let (r, w') = durable_remove_dir_all w in
      report-Leaves e r w' (subst (Leaves (err e)) (sym (removal-files w)) h)

  after_roll_back-Leaves :
      (m : Bool) (r : Result (Unit {0})) (w : World)
      → After (λ u. Undone m plan) (Safe m plan) r w
      → Leaves (after_roll_back r w).0 (after_roll_back r w).1.files
  after_roll_back-Leaves m (ok u) w h =
      remove_and_report-Leaves rolled_back w (Undone-Whole m plan w h)
  after_roll_back-Leaves m (err e) w h = remove_and_report-Leaves rollback_failed w tt
  after_roll_back-Leaves m crashed w h = tt

  undo-Leaves :
      (m : Bool) (w : World)
      → Holds (Safe m plan) w
      → Leaves (undo changes w).0 (undo changes w).1.files
  undo-Leaves m w h =
      let (r, w') = rollback_transaction (journal_of changes) w in
      after_roll_back-Leaves m r w' ((rollback_transaction-Ends m plan).at w h)

  after_application-Leaves :
      (r : Result (Unit {0})) (w : World)
      → After (λ u. Committed plan) (Stopped plan) r w
      → Leaves (after_application changes r w).0 (after_application changes r w).1.files
  after_application-Leaves (ok u) w (t, e, (s, new)) = clean_up-Leaves w new
  after_application-Leaves (err e) w (inl s) = undo-Leaves false w s
  after_application-Leaves (err e) w (inr (t, q, (s, new))) = undo-Leaves true w (t, q, s)
  after_application-Leaves crashed w h = tt

  abbrev apply_step : M Bool
  apply_step w = let (r, w') = apply_all changes w in after_application changes r w'

  prepared-Leaves :
      (r : Result (Unit {0})) (w : World)
      → After (λ u. At plan 0) (Waiting plan) r w
      → Leaves (continue r (λ u. apply_step) w).0 (continue r (λ u. apply_step) w).1.files
  prepared-Leaves (ok u) w h =
      let (r, w') = apply_all changes w in
      after_application-Leaves r w' ((apply_all-Ends plan).at w h)
  prepared-Leaves (err e) w h = Whole-Leaves e w.files h.0
  prepared-Leaves crashed w h = tt

-- For a plan of the present files in an empty store, whatever the file operations do: a success means
-- that the planned paths hold their replacements and all other files are unchanged; an error of the
-- preparation, and an error that reports a roll-back, mean that every file is unchanged.
pub commit_transaction-Leaves :
    (w : World) (changes : List PlannedChange) (plan : IsPlanFor w.files changes)
    → w.store ≡ none
    → Leaves plan (commit_transaction changes w).0 (commit_transaction changes w).1.files
unfolding commit_transaction
commit_transaction-Leaves w changes plan e =
    let (r, w') = prepare changes w in
    prepared-Leaves plan r w' ((prepare-Ends plan).at w ((λ p. refl), e))
