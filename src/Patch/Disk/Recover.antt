-- ===== src/Patch/Disk/Recover.antt =====
-- `recover_interrupted_transactions` and `validate_journal` of src-tauri/src/coding_patch.rs on a disk with
-- directories.
use open_mind_ai.Base.{
  ℕ, Bool, true, false, not, ◌&&◌, Option, none, some, List, [], ◌∷◌, leb, if◌then◌else◌, any,
  length,
}
use open_mind_ai.Base.Text.{Text, text_eq}
use open_mind_ai.Patch.World.{JournalEntry, TxDir, invalid_journal, not_a_journal, ok, err}
use open_mind_ai.Patch.Recovery.{
  max_transaction_operations, has_entries, transaction_dir_has_payload,
}
use open_mind_ai.Patch.Paths.{Platform, validate_relative_path, normalize_relative}
use open_mind_ai.Patch.Disk.{D, give, then_do, if_ok, ◌>>>◌, rollback_on_disk, remove_transaction}

module _ (os : Platform) where
  abbrev pub is_new : List Text → Option Text → Bool
  is_new seen none = false
  is_new seen (some path) = not (any (text_eq (normalize_relative os path)) seen)

  abbrev pub with_path : List Text → Option Text → List Text
  with_path seen none = seen
  with_path seen (some path) = normalize_relative os path ∷ seen

  abbrev pub entries_valid : List Text → List JournalEntry → Bool
  entries_valid seen [] = true
  entries_valid seen (entry ∷ entries) =
      let path = validate_relative_path os entry.relative_path in
      is_new seen path && entries_valid (with_path seen path) entries

  -- `validate_journal`.
  abbrev pub journal_valid : List JournalEntry → Bool
  journal_valid journal =
      has_entries journal
      && leb (length journal) max_transaction_operations
      && entries_valid [] journal

  abbrev pub remove_and_count : D ℕ
  remove_and_count = then_do (remove_transaction os) (if_ok (λ _. give (ok 1)))

  abbrev pub recover_valid : TxDir → List JournalEntry → D ℕ
  recover_valid t journal =
      if journal_valid journal
      then (if t.committed
          then remove_and_count
          else (rollback_on_disk os journal >>> remove_and_count))
      else give (err invalid_journal)

  abbrev pub recover_found : TxDir → Option (List JournalEntry) → D ℕ
  recover_found t none =
      if transaction_dir_has_payload t then give (err not_a_journal) else remove_and_count
  recover_found t (some journal) = recover_valid t journal

  abbrev pub recover_from : Option TxDir → D ℕ
  recover_from none = give (ok 0)
  recover_from (some t) = recover_found t t.journal

  -- `recover_interrupted_transactions`, for one transaction directory at most.
  unfoldable pub recover_on_disk : D ℕ
  recover_on_disk d = recover_from d.world.store d
