-- ===== src/Patch/Disk.antt =====
-- `commit_transaction` and `rollback_transaction` of src-tauri/src/coding_patch.rs on a disk with directories.
-- Regular files, the transaction directory and the outcomes of the durable operations are those of World;
-- the workspace's directories come on top, and with them directories that have been moved to a backup.
pub mod Recover
pub mod Simulation
pub mod Programs
pub mod Undo
pub mod Restart
pub mod Theorems
use open_mind_ai.Base.{
  ℕ, zero, suc, Bool, true, false, not, ◌&&◌, ◌||◌, Option, none, some, List, [], ◌∷◌, ◌++◌, ◌==◌,
  leb, if◌then◌else◌, any, length, take, reverse,
}
use open_mind_ai.Base.Text.{Text, text_eq}
use open_mind_ai.Patch.World.{
  Bytes, JournalEntry, TxDir, World, Outcome, done, failed, failed_after, crash, crash_after, torn,
  torn_failed, crash_removing, Failure, io, rolled_back, rollback_failed, invalid_journal,
  not_a_journal, Result, ok, err, crashed, M, next_fault, advance, perform, write_new, read_store,
  durable_remove_dir_all,
}
use open_mind_ai.Patch.Commit.{
  PlannedChange, is_some, enumerate, move_to_backup, move_from_stage, move_from_backup, remove_file,
  put_file, prepare, write_marker, journal_of, was_ok,
}
use open_mind_ai.Patch.Recovery.{
  max_transaction_operations, has_entries, transaction_dir_has_payload,
}
use open_mind_ai.Patch.Paths.{
  Platform, directories_of, is_below, validate_relative_path, normalize_relative, resolve_target,
}

-- A directory with all that stands in it, by full paths.
pub record Tree : Type 0 where
  pub tree_files : Text → Option Bytes
  pub tree_dirs : Text → Bool

pub record Disk : Type 0 where
  pub world : World
  pub dirs : Text → Bool
  pub trees : ℕ → Option Tree

abbrev pub D : Type 0 → Type 0
D A = Disk → Result A × Disk

-- An action on the files and the transaction directory alone.
abbrev pub lift : {A : Type 0} → M A → D A
lift m d = let (r, w) = m d.world in (r, record d { world = w })

abbrev pub give : {A : Type 0} → Result A → D A
give r d = (r, d)

-- An action, and what follows each of its results.
abbrev pub then_do : {A B : Type 0} → D A → (Result A → D B) → D B
then_do m k d = let (r, d') = m d in k r d'

-- What follows a success; `?` of the source.
abbrev pub if_ok : {A B : Type 0} → (A → D B) → Result A → D B
if_ok f (ok a) = f a
if_ok f (err e) = give (err e)
if_ok f crashed = give crashed

infixr 5 ◌>>>◌
abbrev pub ◌>>>◌ : {B : Type 0} → D (Unit {0}) → D B → D B
m >>> k = then_do m (if_ok (λ _. k))

abbrev pub when_do : Bool → D (Unit {0}) → D (Unit {0})
when_do true m = m
when_do false m = give (ok tt)

abbrev pub is_file : Text → Disk → Bool
is_file p d = is_some (d.world.files p)

-- `exists()` of the target.
abbrev pub target_exists : Text → Disk → Bool
target_exists p d = is_file p d || d.dirs p

abbrev pub add_dirs : List Text → (Text → Bool) → Text → Bool
add_dirs ps dirs q = any (text_eq q) ps || dirs q

-- The creation of the missing ones among some directories stops early in every outcome but `done`:
-- before the first, after the last, or after as many as a torn outcome says.
abbrev pub created : Outcome → List Text → List Text
created done ps = ps
created failed ps = []
created failed_after ps = ps
created crash ps = []
created crash_after ps = ps
created (torn b) ps = take (length b) ps
created (torn_failed b) ps = take (length b) ps
created (crash_removing j m s k o) ps = []

abbrev pub result_of : Outcome → Result (Unit {0})
result_of done = ok tt
result_of failed = err io
result_of failed_after = err io
result_of crash = crashed
result_of crash_after = crashed
result_of (torn b) = crashed
result_of (torn_failed b) = err io
result_of (crash_removing j m s k o) = crashed

abbrev pub any_file : List Text → Disk → Bool
any_file [] d = false
any_file (p ∷ ps) d = is_file p d || any_file ps d

-- `create_scoped_parent_directories`: an error if a regular file is in the way, above which all directories
-- exist already. The walk is one operation with one outcome, even if nothing is missing.
unfoldable pub create_parent_dirs : Text → D (Unit {0})
create_parent_dirs p d =
    let o = next_fault d.world.faults in
    if any_file (directories_of p) d then (err io, d) else (
      result_of o,
      record d { world = advance d.world; dirs = add_dirs (created o (directories_of p)) d.dirs },
    )

-- The rename of a directory to a backup, with all that it holds.
abbrev pub tree_at : Text → Disk → Tree
tree_at p d = record {
  tree_files = λ q. if is_below p q then d.world.files q else none;
  tree_dirs = λ q. is_below p q && d.dirs q;
}

abbrev pub set_tree : ℕ → Option Tree → (ℕ → Option Tree) → ℕ → Option Tree
set_tree i t trees j = if j == i then t else trees j

abbrev pub take_away : ℕ → Text → Disk → Disk
take_away i p d = record d {
  world = record d.world { files = λ q. if is_below p q then none else d.world.files q };
  dirs = λ q. not (is_below p q) && d.dirs q;
  trees = set_tree i (some (tree_at p d)) d.trees;
}

abbrev pub files_with : Tree → (Text → Option Bytes) → Text → Option Bytes
files_with t files q = if is_some (t.tree_files q) then t.tree_files q else files q

abbrev pub put_back : ℕ → Tree → Disk → Disk
put_back i t d = record d {
  world = record d.world { files = files_with t d.world.files };
  dirs = λ q. t.tree_dirs q || d.dirs q;
  trees = set_tree i none d.trees;
}

-- The effect is whole or not at all.
abbrev pub had_effect : Outcome → Bool
had_effect done = true
had_effect failed_after = true
had_effect crash_after = true
had_effect _ = false

abbrev pub rename_dir : (Disk → Disk) → D (Unit {0})
rename_dir effect d =
    let o = next_fault d.world.faults in
    let d' = record d { world = advance d.world } in
    (result_of o, if had_effect o then effect d' else d')

abbrev pub move_target_away : ℕ → Text → D (Unit {0})
move_target_away i p d =
    if is_file p d then lift (perform (move_to_backup i p)) d else rename_dir (take_away i p) d

abbrev pub apply_planned : ℕ → PlannedChange → D (Unit {0})
apply_planned i c =
    create_parent_dirs c.path
    >>> (λ d. when_do (target_exists c.path d) (move_target_away i c.path) d)
    >>> when_do (is_some c.replacement) (lift (perform (move_from_stage i c.path)))

abbrev pub apply_each : List (ℕ × PlannedChange) → D (Unit {0})
apply_each [] = give (ok tt)
apply_each ((i, c) ∷ cs) = apply_planned i c >>> apply_each cs

-- The closure whose result is `apply_result`.
abbrev pub apply_closure : List PlannedChange → D (Unit {0})
apply_closure planned = apply_each (enumerate 0 planned) >>> lift (perform write_marker)

-- `remove_regular_file`.
abbrev pub remove_regular_file : Text → D (Unit {0})
remove_regular_file p d = if is_file p d then lift (perform (remove_file p)) d else (err io, d)

abbrev pub has_backup : ℕ → Disk → Bool
has_backup i d = is_some (read_store (λ t. t.backup i) d.world) || is_some (d.trees i)

abbrev pub move_backup_back : ℕ → Text → Option Tree → D (Unit {0})
move_backup_back i p none = lift (perform (move_from_backup i p))
move_backup_back i p (some t) = rename_dir (put_back i t)

abbrev pub copy_original : Text → Option Bytes → D (Unit {0})
copy_original p none = give (ok tt)
copy_original p (some b) = create_parent_dirs p >>> lift (write_new (put_file p) b)

abbrev pub restore_target : Bool → Bool → Option Bytes → ℕ → Text → D (Unit {0})
restore_target true true original i p =
    (λ d. when_do (target_exists p d) (remove_regular_file p) d)
    >>> create_parent_dirs p
    >>> (λ d. move_backup_back i p (d.trees i) d)
restore_target true false original i p =
    λ d. when_do (not (target_exists p d)) (copy_original p original) d
restore_target false backup original i p =
    λ d. when_do (target_exists p d) (remove_regular_file p) d

abbrev pub restore_resolved : ℕ → Bool → Option Text → D (Unit {0})
restore_resolved i existed none = give (err invalid_journal)
restore_resolved i existed (some p) =
    λ d. restore_target existed (has_backup i d) (read_store (λ t. t.original i) d.world) i p d

module _ (os : Platform) where
  abbrev pub restore_entry : ℕ → JournalEntry → D (Unit {0})
  restore_entry i entry =
      restore_resolved i entry.original_existed (resolve_target os entry.relative_path)

  abbrev pub restore_each : List (ℕ × JournalEntry) → D (Unit {0})
  restore_each [] = give (ok tt)
  restore_each ((i, entry) ∷ entries) = restore_entry i entry >>> restore_each entries

  -- `rollback_transaction`, from the last entry to the first.
  unfoldable pub rollback_on_disk : List JournalEntry → D (Unit {0})
  rollback_on_disk journal = restore_each (reverse (enumerate 0 journal))

  -- The removal of the transaction directory, with what has been moved there.
  abbrev pub trees_after : Option TxDir → (ℕ → Option Tree) → ℕ → Option Tree
  trees_after none trees i = none
  trees_after (some t) trees i = trees i

  unfoldable pub remove_transaction : D (Unit {0})
  remove_transaction d =
      let (r, w) = durable_remove_dir_all d.world in
      (r, record d { world = w; trees = trees_after w.store d.trees })

  abbrev pub drop_error : Result (Unit {0}) → D Bool
  drop_error r = give (was_ok r)

  abbrev pub fail_after : Failure → Result Bool → D Bool
  fail_after e (ok cleaned) = give (err e)
  fail_after e (err f) = give (err f)
  fail_after e crashed = give crashed

  abbrev pub remove_then_fail : Failure → D Bool
  remove_then_fail e = then_do (then_do remove_transaction drop_error) (fail_after e)

  abbrev pub after_restore : Result (Unit {0}) → D Bool
  after_restore (ok u) = remove_then_fail rolled_back
  after_restore (err e) = remove_then_fail rollback_failed
  after_restore crashed = give crashed

  abbrev pub after_closure : List PlannedChange → Result (Unit {0}) → D Bool
  after_closure planned (ok u) = then_do remove_transaction drop_error
  after_closure planned (err e) = then_do (rollback_on_disk (journal_of planned)) after_restore
  after_closure planned crashed = give crashed

  -- `commit_transaction`.
  unfoldable pub commit_on_disk : List PlannedChange → D Bool
  commit_on_disk planned =
      lift (prepare planned) >>> then_do (apply_closure planned) (after_closure planned)
