-- ===== src/Patch/Commit.antt =====
-- `commit_transaction` and `rollback_transaction` of src-tauri/src/coding_patch.rs, on regular files alone: a
-- step that only creates directories has no effect here. Patch.Disk has the same programs with directories.
pub mod Invariant
pub mod Rollback
pub mod Restore
pub mod Journal
pub mod Apply
pub mod Advance
pub mod Prepare
pub mod Atomic
use open_mind_ai.Base.{
  ℕ, suc, ◌+◌, Bool, true, false, not, ◌&&◌, ◌||◌, Option, none, some, List, [], ◌∷◌, leb, ltb,
  if◌then◌else◌, length, any, reverse,
}
use open_mind_ai.Base.Text.{Text, text_eq}
use open_mind_ai.Patch.World.{
  Bytes, JournalEntry, TxDir, empty_dir, World, Failure, io, not_a_journal, invalid_journal,
  rolled_back, rollback_failed, Result, ok, err, crashed, M, pure, fail, ◌>>=◌, ◌>>◌, perform,
  write_new, set_file, set_at, in_store, read_store, durable_remove_dir_all,
}

-- A change that the preflight has planned. `path` stands for `relative_path` and for `target`, its place
-- below the root, and `kind` follows from the other two fields.
pub record PlannedChange : Type 0 where
  pub path : Text
  pub original_bytes : Option Bytes
  pub replacement : Option Bytes

abbrev pub is_some {ℓ} : {A : Type ℓ} → Option A → Bool
is_some none = false
is_some (some a) = true

abbrev pub when_some : Option Bytes → (Bytes → M (Unit {0})) → M (Unit {0})
when_some none f = pure tt
when_some (some b) f = f b

abbrev pub when : Bool → M (Unit {0}) → M (Unit {0})
when true m = m
when false m = pure tt

-- `enumerate()`.
abbrev pub enumerate {ℓ} : {A : Type ℓ} → ℕ → List A → List (ℕ × A)
enumerate i [] = []
enumerate i (x ∷ xs) = (i, x) ∷ enumerate (suc i) xs

-- The moves between the workspace and the transaction directory.
unfoldable pub move_to_backup : ℕ → Text → World → World
move_to_backup i p w =
    in_store (λ t. record t { backup = set_at i (w.files p) t.backup })
      (record w { files = set_file p none w.files })

unfoldable pub move_from_stage : ℕ → Text → World → World
move_from_stage i p w =
    in_store (λ t. record t { stage = set_at i none t.stage })
      (record w { files = set_file p (read_store (λ t. t.stage i) w) w.files })

unfoldable pub move_from_backup : ℕ → Text → World → World
move_from_backup i p w =
    in_store (λ t. record t { backup = set_at i none t.backup })
      (record w { files = set_file p (read_store (λ t. t.backup i) w) w.files })

unfoldable pub remove_file : Text → World → World
remove_file p w = record w { files = set_file p none w.files }

unfoldable pub put_file : Text → Bytes → World → World
put_file p b w = record w { files = set_file p (some b) w.files }

unfoldable pub put_stage : ℕ → Bytes → World → World
put_stage i b = in_store (λ t. record t { stage = set_at i (some b) t.stage })

unfoldable pub put_original : ℕ → Bytes → World → World
put_original i b = in_store (λ t. record t { original = set_at i (some b) t.original })

-- `create_scoped_parent_directories`.
unfoldable pub create_parents : M (Unit {0})
create_parents = perform (λ w. w)

abbrev pub exists : Text → World → Bool
exists p w = is_some (w.files p)

-- The body of the loop, given whether the original existed, whether the backup is there, and the
-- copy of the original.
unfoldable pub rollback_by : Bool → Bool → Option Bytes → ℕ → Text → M (Unit {0})
unfolding move_from_backup remove_file put_file create_parents
rollback_by true true original i p = do
  λ w. when (exists p w) (perform (remove_file p)) w
  create_parents
  perform (move_from_backup i p)
rollback_by true false original i p = λ w.
    when (not (exists p w)) (when_some original (λ b. do create_parents; write_new (put_file p) b))
      w
rollback_by false backup original i p = λ w. when (exists p w) (perform (remove_file p)) w

unfoldable pub rollback_entry : ℕ → JournalEntry → M (Unit {0})
unfolding rollback_by
rollback_entry i entry w =
    rollback_by entry.original_existed (is_some (read_store (λ t. t.backup i) w))
      (read_store (λ t. t.original i) w) i entry.relative_path w

unfoldable pub roll_back : List (ℕ × JournalEntry) → M (Unit {0})
roll_back [] = pure tt
roll_back ((i, entry) ∷ entries) = do rollback_entry i entry; roll_back entries

-- The entries are rolled back from the last to the first.
unfoldable pub rollback_transaction : List JournalEntry → M (Unit {0})
unfolding roll_back rollback_entry
rollback_transaction journal = roll_back (reverse (enumerate 0 journal))

abbrev pub entry_of : PlannedChange → JournalEntry
entry_of c = record { relative_path = c.path; original_existed = is_some c.original_bytes }

abbrev pub journal_of : List PlannedChange → List JournalEntry
journal_of [] = []
journal_of (c ∷ cs) = entry_of c ∷ journal_of cs

unfoldable pub write_copies : List (ℕ × PlannedChange) → M (Unit {0})
unfolding put_stage put_original
write_copies [] = pure tt
write_copies ((i, c) ∷ cs) = do
  when_some c.replacement (λ b. write_new (put_stage i) b)
  when_some c.original_bytes (λ b. write_new (put_original i) b)
  write_copies cs

unfoldable pub apply_change : ℕ → PlannedChange → M (Unit {0})
unfolding move_to_backup move_from_stage create_parents
apply_change i c = do
  create_parents
  (λ w. when (exists c.path w) (perform (move_to_backup i c.path)) w)
  when (is_some c.replacement) (perform (move_from_stage i c.path))

unfoldable pub apply_changes : List (ℕ × PlannedChange) → M (Unit {0})
apply_changes [] = pure tt
apply_changes ((i, c) ∷ cs) = do apply_change i c; apply_changes cs

unfoldable pub write_marker : World → World
write_marker = in_store (λ t. record t { committed = true })

-- The closure whose result is `apply_result`.
unfoldable pub apply_all : List PlannedChange → M (Unit {0})
unfolding apply_changes apply_change write_marker
apply_all planned = do apply_changes (enumerate 0 planned); perform write_marker

-- The steps before: the directory, the journal, and the staged and original copies.
unfoldable pub prepare : List PlannedChange → M (Unit {0})
unfolding write_copies
prepare planned = do
  perform (λ w. record w { store = some empty_dir })
  perform (in_store (λ t. record t { journal = some (journal_of planned) }))
  write_copies (enumerate 0 planned)

-- `let _ = cleanup_transaction_dir(..)`: an error is dropped, a crash is not.
abbrev pub was_ok : Result (Unit {0}) → Result Bool
was_ok (ok u) = ok true
was_ok (err e) = ok false
was_ok crashed = crashed

abbrev pub ignore_error : M (Unit {0}) → M Bool
ignore_error m w = let (r, w') = m w in (was_ok r, w')

abbrev pub remove_and_report : Failure → M Bool
remove_and_report e = ignore_error durable_remove_dir_all >>= λ cleaned. fail e

-- The directory is removed whether the roll-back succeeds or not.
abbrev pub after_roll_back : Result (Unit {0}) → M Bool
after_roll_back (ok u) = remove_and_report rolled_back
after_roll_back (err e) = remove_and_report rollback_failed
after_roll_back crashed = λ w. (crashed, w)

-- The branch of an `apply_result` that is an error.
abbrev pub undo : List PlannedChange → M Bool
undo planned w = let (r, w') = rollback_transaction (journal_of planned) w in after_roll_back r w'

-- The result is `true` if the directory was cleaned up, that is, not `cleanup_deferred`.
abbrev pub after_application : List PlannedChange → Result (Unit {0}) → M Bool
after_application planned (ok u) = ignore_error durable_remove_dir_all
after_application planned (err e) = undo planned
after_application planned crashed = λ w. (crashed, w)

unfoldable pub commit_transaction : List PlannedChange → M Bool
unfolding prepare apply_all
commit_transaction planned = do
  prepare planned
  λ w. let (r, w') = apply_all planned w in after_application planned r w'
