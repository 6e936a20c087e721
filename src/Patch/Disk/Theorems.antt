-- ===== src/Patch/Disk/Theorems.antt =====
-- `commit_transaction` and `recover_interrupted_transactions` of src-tauri/src/coding_patch.rs, on a disk
-- where no directory is in the way of a planned path.
use mathlib.Core.List.{Memᴰ}
use open_mind_ai.Base.{Bool, true, none, some, List, ◌≡◌, refl, subst}
use open_mind_ai.Base.Text.{Text}
use open_mind_ai.Patch.World.{World, Result}
use open_mind_ai.Patch.World.Hoare.{Holds}
use open_mind_ai.Patch.Commit.{PlannedChange, prepare, journal_of}
use open_mind_ai.Patch.Commit.Invariant.{IsPlanFor}
use open_mind_ai.Patch.Commit.Atomic.{Leaves, commit_transaction-Leaves}
use open_mind_ai.Patch.Recovery.Crash.{
  Anywhere, IsRecovered, anywhere, write_changes, write_changes-Ends, restart, recover_anywhere,
}
use open_mind_ai.Patch.Paths.{Platform, resolve_target}
use open_mind_ai.Patch.Disk.{Disk, D, lift, ◌>>>◌, apply_closure, commit_on_disk}
use open_mind_ai.Patch.Disk.Recover.{journal_valid, recover_on_disk}
use open_mind_ai.Patch.Disk.Simulation.{NoNesting, Clear}
use open_mind_ai.Patch.Disk.Undo.{paths_of, Sim-commit, Sim-write}
use open_mind_ai.Patch.Disk.Restart.{validate_journal-valid, recover-Agrees}

-- The part of `commit_transaction` before its clean-up or roll-back.
abbrev pub write_on_disk : List PlannedChange → D (Unit {0})
write_on_disk planned = lift (prepare planned) >>> apply_closure planned

abbrev pub restart_disk : Disk → Disk
restart_disk d = record d { world = restart d.world }

-- Validation and the scope check take each planned path as it stands.
abbrev pub IsStable : Platform → List PlannedChange → Type 0
IsStable os changes = (p : Text) → Memᴰ p (paths_of changes) → resolve_target os p ≡ some p

-- For a plan of the present files in an empty store, on a disk where no planned path stands below another
-- one, where validation and the scope check take each planned path as it stands, and with no directory at
-- a planned path, no regular file above one and no directory in a backup, whatever the file operations
-- do: a success means that the planned paths hold their replacements and all other files are unchanged;
-- an error of the preparation, and an error that reports a completed roll-back, mean that every file is
-- unchanged; and in every case there is still no directory at a planned path, no regular file above one
-- and no directory in a backup. Nothing is stated of the regular files at planned paths after an error
-- that reports a failed roll-back, or after a crash.
pub commit_on_disk-Leaves :
    (os : Platform) (d : Disk) (changes : List PlannedChange)
    (plan : IsPlanFor d.world.files changes)
    → NoNesting (paths_of changes)
    → IsStable os changes
    → Clear (paths_of changes) d
    → d.world.store ≡ none
    → let (r, d') = commit_on_disk os changes d in
      Leaves plan r d'.world.files × Clear (paths_of changes) d'
commit_on_disk-Leaves os d changes plan apart stable c e =
    let (same, c') = (Sim-commit os apart stable changes (λ p m. m)).at d c in
    (
      subst (λ (x : Result Bool × World). Leaves plan x.0 x.1.files) same
          (commit_transaction-Leaves d.world changes plan e),
      c',
    )

-- For a plan of the present files in an empty store, with a journal that validation accepts, on a disk
-- where no planned path stands below another one, where validation and the scope check take each planned
-- path as it stands, and with no directory at a planned path, no regular file above one and no directory
-- in a backup, whatever happens to the file operations until the clean-up or the roll-back, a death of
-- the process included: after a restart, when the file operations succeed, the recovery returns without
-- an error, the store is empty, and either every file is unchanged, or the planned paths hold their
-- replacements and all other files are unchanged.
pub recover_on_disk-IsRecovered :
    (os : Platform) (d : Disk) (changes : List PlannedChange)
    (plan : IsPlanFor d.world.files changes)
    → NoNesting (paths_of changes)
    → IsStable os changes
    → Clear (paths_of changes) d
    → d.world.store ≡ none
    → journal_valid os (journal_of changes) ≡ true
    → let (n, d') = recover_on_disk os (restart_disk (write_on_disk changes d).1) in
      IsRecovered plan (n, d'.world)
unfolding recover_on_disk
recover_on_disk-IsRecovered os d changes plan apart stable c e valid =
    let (same, c') = (Sim-write os apart stable changes (λ p m. m)).at d c in
    let v = restart_disk (write_on_disk changes d).1 in
    let cv : Clear (paths_of changes) v = record {
      no_dir = c'.no_dir;
      no_file_above = c'.no_file_above;
      no_tree = c'.no_tree;
    } in
    let flat : Holds (Anywhere plan) (write_changes changes d.world).1 =
      anywhere plan (write_changes changes d.world).0 (write_changes changes d.world).1
        ((write_changes-Ends plan).at d.world ((λ p. refl), e)) in
    let stopped : Holds (Anywhere plan) v.world =
      subst (λ (x : Result (Unit {0}) × World). Holds (Anywhere plan) x.1) same flat in
    subst (IsRecovered plan) (recover-Agrees os changes apart stable plan valid v cv stopped) (
      recover_anywhere plan (validate_journal-valid os changes apart stable valid) v.world refl
        stopped)
