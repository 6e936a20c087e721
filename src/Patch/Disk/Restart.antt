-- ===== src/Patch/Disk/Restart.antt =====
-- `recover_interrupted_transactions` and `validate_journal` of src-tauri/src/coding_patch.rs, on the disk and
-- on regular files, for the stores that an interrupted transaction can leave.
use mathlib.Core.List.{Memᴰ}
use open_mind_ai.Base.{
  ℕ, Bool, true, false, not, ◌&&◌, Option, none, some, List, [], ◌∷◌, any, ◌≡◌, refl, sym, ◌∙◌, ap,
  inl, inr, if◌then◌else◌,
}
use open_mind_ai.Base.Text.{Text, text_eq}
use open_mind_ai.Patch.World.{Bytes, TxDir, empty_dir, ok, M, durable_remove_dir_all, ◌>>=◌, pure}
use open_mind_ai.Patch.World.Hoare.{Holds}
use open_mind_ai.Patch.Commit.{PlannedChange, journal_of, rollback_transaction}
use open_mind_ai.Patch.Commit.Invariant.{IsPlanFor, Recoverable}
use open_mind_ai.Patch.Recovery.{validate_journal, are_distinct, recover_store, remove_recovered}
use open_mind_ai.Patch.Recovery.Crash.{Anywhere}
use open_mind_ai.Patch.Paths.{
  Platform, validate_relative_path, target_of, resolve_target, normalize_relative,
}
use open_mind_ai.Patch.Disk.{Disk, D, give, if_ok, then_do, rollback_on_disk, remove_transaction}
use open_mind_ai.Patch.Disk.Recover.{
  is_new, with_path, entries_valid, journal_valid, remove_and_count, recover_from,
}
use open_mind_ai.Patch.Disk.Simulation.{NoNesting, Clear, Sim, Sim-bind, Sim-ok}
use open_mind_ai.Patch.Disk.Undo.{paths_of, Sim-remove_transaction, Sim-rollback}

some_if : (b : Bool) (x p : Text) → (if b then some x else none) ≡ some p → x ≡ p
some_if true x p h = cc h
some_if false x p h = absurd (cc h)

module _ (os : Platform) (changes : List PlannedChange) (apart : NoNesting (paths_of changes))
    (stable : (p : Text) → Memᴰ p (paths_of changes) → resolve_target os p ≡ some p) where
  -- A path that is stable under validation counts as itself.
  stable_entry :
      (p : Text) (o : Option Text) (seen : List Text)
      → target_of os o ≡ some p
      → (is_new os seen o ≡ not (any (text_eq p) seen)) × (with_path os seen o ≡ p ∷ seen)
  stable_entry p none seen h = absurd (cc h)
  stable_entry p (some path) seen h =
      let same : normalize_relative os path ≡ p =
        some_if (os.in_scope path) (normalize_relative os path) p h in
      rw same (refl, refl)

  distinct-entries_valid :
      (cs : List PlannedChange) (seen : List Text)
      → ((p : Text) → Memᴰ p (paths_of cs) → resolve_target os p ≡ some p)
      → entries_valid os seen (journal_of cs) ≡ are_distinct seen (journal_of cs)
  distinct-entries_valid [] seen h = refl
  distinct-entries_valid (c ∷ cs) seen h =
      let (fresh, added) =
        stable_entry c.path (validate_relative_path os c.path) seen (h c.path (Memᴰ.head refl)) in
      rw (fresh, added)
        (ap (λ b. not (any (text_eq c.path) seen) && b)
          (distinct-entries_valid cs (c.path ∷ seen) (λ p m. h p (Memᴰ.tail m))))

  pub validate_journal-valid :
      journal_valid os (journal_of changes) ≡ true → validate_journal (journal_of changes) ≡ true
  validate_journal-valid valid = rw (sym (distinct-entries_valid changes [] stable)) valid

  Sim-remove_and_count : Sim apart (remove_and_count os) remove_recovered
  Sim-remove_and_count =
      Sim-bind apart {m' = remove_transaction os} {m = durable_remove_dir_all}
        {f' = λ u. give (ok 1)} {f = λ u. pure 1} (Sim-remove_transaction os apart stable)
        (λ u. Sim-ok apart 1)

  Sim-rollback_and_count :
      Sim apart
        (then_do (rollback_on_disk os (journal_of changes)) (if_ok (λ u. remove_and_count os)))
        (rollback_transaction (journal_of changes) >>= λ u. remove_recovered)
  Sim-rollback_and_count =
      Sim-bind apart {m' = rollback_on_disk os (journal_of changes)}
        {m = rollback_transaction (journal_of changes)} {f' = λ u. remove_and_count os}
        {f = λ u. remove_recovered} (Sim-rollback os apart stable changes (λ p m. m))
        (λ u. Sim-remove_and_count)

  -- The recovery on the disk has the result and the files of the one on regular files.
  abbrev pub Agrees : Disk → Type 0
  Agrees d =
      recover_store d.world.store d.world
      ≡ ((recover_from os d.world.store d).0, (recover_from os d.world.store d).1.world)

  module _ {old : Text → Option Bytes} (plan : IsPlanFor old changes)
      (valid : journal_valid os (journal_of changes) ≡ true) where
    agrees :
        (d : Disk) (m' : D ℕ) (m : M ℕ)
        → Clear (paths_of changes) d
        → Sim apart m' m
        → recover_from os d.world.store ≡ m'
        → recover_store d.world.store ≡ m
        → Agrees d
    agrees d m' m c sim on_disk on_files =
        ap (λ (f : M ℕ). f d.world) on_files
        ∙ (sim.at d c).0
        ∙ sym (ap (λ (f : D ℕ). ((f d).0, (f d).1.world)) on_disk)

    from_marked :
        (store : Option TxDir) (t : TxDir) (files : Text → Option Bytes)
        → store ≡ some t
        → Recoverable true old changes files t
        → (recover_from os store ≡ remove_and_count os) × (recover_store store ≡ remove_recovered)
    from_marked store t files e r = (
      rw (e, r.journal, valid, r.marker) refl,
      rw (e, r.journal, validate_journal-valid valid, r.marker) refl,
    )

    abbrev flat_rollback : M ℕ
    flat_rollback = rollback_transaction (journal_of changes) >>= λ u. remove_recovered

    abbrev disk_rollback : D ℕ
    disk_rollback =
        then_do (rollback_on_disk os (journal_of changes)) (if_ok (λ u. remove_and_count os))

    from_unmarked :
        (store : Option TxDir) (t : TxDir) (files : Text → Option Bytes)
        → store ≡ some t
        → Recoverable false old changes files t
        → (recover_from os store ≡ disk_rollback) × (recover_store store ≡ flat_rollback)
    from_unmarked store t files e r = (
      rw (e, r.journal, valid, r.marker) refl,
      rw (e, r.journal, validate_journal-valid valid, r.marker) refl,
    )

    from_none :
        (store : Option TxDir)
        → store ≡ none
        → (recover_from os store ≡ give (ok 0)) × (recover_store store ≡ pure 0)
    from_none store e = (rw e refl, rw e refl)

    from_empty :
        (store : Option TxDir)
        → store ≡ some empty_dir
        → (recover_from os store ≡ remove_and_count os) × (recover_store store ≡ remove_recovered)
    from_empty store e = (rw e refl, rw e refl)

    Agrees-unmarked :
        (d : Disk) (t : TxDir)
        → Clear (paths_of changes) d
        → d.world.store ≡ some t
        → Recoverable false old changes d.world.files t
        → Agrees d
    Agrees-unmarked d t c e r =
        let (x, y) = from_unmarked d.world.store t d.world.files e r in
        agrees d disk_rollback flat_rollback c Sim-rollback_and_count x y

    pub recover-Agrees :
        (d : Disk) → Clear (paths_of changes) d → Holds (Anywhere plan) d.world → Agrees d
    recover-Agrees d c (inl (whole, inl e)) =
        let (x, y) = from_none d.world.store e in
        agrees d (give (ok 0)) (pure 0) c (Sim-ok apart 0) x y
    recover-Agrees d c (inl (whole, inr (inl e))) =
        let (x, y) = from_empty d.world.store e in
        agrees d (remove_and_count os) remove_recovered c Sim-remove_and_count x y
    recover-Agrees d c (inl (whole, inr (inr (t, e, r)))) = Agrees-unmarked d t c e r
    recover-Agrees d c (inr (inl (t, e, r))) = Agrees-unmarked d t c e r
    recover-Agrees d c (inr (inr (t, e, (r, new)))) =
        let (x, y) = from_marked d.world.store t d.world.files e r in
        agrees d (remove_and_count os) remove_recovered c Sim-remove_and_count x y
