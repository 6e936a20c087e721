-- ===== src/Patch/Recovery.antt =====
-- `recover_interrupted_transactions` and `validate_journal` of src-tauri/src/coding_patch.rs, on regular files
-- alone and for a store of one directory at most. The journal's version, its id and its artifact names are
-- those that the program writes, and its paths are taken as they stand; Patch.Paths has their validation.
pub mod Smooth
pub mod Crash
use open_mind_ai.Base.{
  ℕ, zero, suc, Bool, true, false, not, ◌&&◌, ◌||◌, Option, none, some, List, [], ◌∷◌, leb,
  if◌then◌else◌, length, any,
}
use open_mind_ai.Base.Text.{Text, text_eq}
use open_mind_ai.Patch.World.{
  JournalEntry, TxDir, World, Failure, not_a_journal, invalid_journal, Result, M, pure, fail, ◌>>=◌,
  ◌>>◌, durable_remove_dir_all,
}
use open_mind_ai.Patch.Commit.{is_some, rollback_transaction}

abbrev pub max_transaction_operations : ℕ
max_transaction_operations = 64

abbrev pub are_distinct : List Text → List JournalEntry → Bool
are_distinct seen [] = true
are_distinct seen (entry ∷ entries) =
    not (any (text_eq entry.relative_path) seen)
    && are_distinct (entry.relative_path ∷ seen) entries

abbrev pub has_entries : List JournalEntry → Bool
has_entries [] = false
has_entries (entry ∷ entries) = true

abbrev pub validate_journal : List JournalEntry → Bool
validate_journal journal =
    has_entries journal
    && leb (length journal) max_transaction_operations
    && are_distinct [] journal

abbrev pub any_below : ℕ → (ℕ → Bool) → Bool
any_below zero p = false
any_below (suc n) p = p n || any_below n p

-- The indices of a transaction are below its limit.
abbrev pub transaction_dir_has_payload : TxDir → Bool
transaction_dir_has_payload t =
    t.committed
    || any_below max_transaction_operations
        (λ i. is_some (t.backup i) || is_some (t.original i) || is_some (t.stage i))

abbrev pub remove_recovered : M ℕ
remove_recovered = durable_remove_dir_all >>= λ _. pure 1

abbrev pub recover_journal : TxDir → List JournalEntry → M ℕ
recover_journal t journal =
    if validate_journal journal
    then (if t.committed
        then remove_recovered
        else (rollback_transaction journal >>= λ _. remove_recovered))
    else fail invalid_journal

abbrev pub recover_dir : TxDir → Option (List JournalEntry) → M ℕ
recover_dir t none = if transaction_dir_has_payload t then fail not_a_journal else remove_recovered
recover_dir t (some journal) = recover_journal t journal

abbrev pub recover_store : Option TxDir → M ℕ
recover_store none = pure 0
recover_store (some t) = recover_dir t t.journal

unfoldable pub recover_interrupted_transactions : M ℕ
recover_interrupted_transactions w = recover_store w.store w
