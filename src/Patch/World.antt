-- ===== src/Patch/World.antt =====
-- The part of the disk that a patch transaction touches, and the file operations on it. Each durable
-- operation takes its outcome from the list `faults` of the world; an empty list means that all goes
-- well. The transaction store holds one directory at most: every transaction starts with a recovery,
-- which empties the store or refuses to go on.
pub mod Hoare
use open_mind_ai.Base.{ℕ, Bool, true, false, Option, none, some, List, [], ◌∷◌, ◌==◌, if◌then◌else◌}
use open_mind_ai.Base.Text.{Text, text_eq}

abbrev pub Bytes : Type 0
Bytes = List ℕ

-- How a durable operation ends: it is done, it fails without or after its effect, or the process dies
-- before or after its effect. A write can also leave other bytes than asked, and the removal of a
-- directory can stop half-way with only some of the files kept.
pub data Outcome : Type 0 where
  done failed failed_after crash crash_after : Outcome
  torn torn_failed : Bytes → Outcome
  crash_removing : (journal marker : Bool) (stage backup original : ℕ → Bool) → Outcome

-- The names of an entry's backup and staged copy follow from its index.
pub record JournalEntry : Type 0 where
  pub relative_path : Text
  pub original_existed : Bool

-- A transaction directory: `journal.json`, `committed.json`, and for each index the files `.stage`,
-- `.backup` and `.original`.
pub record TxDir : Type 0 where
  pub journal : Option (List JournalEntry)
  pub committed : Bool
  pub stage : ℕ → Option Bytes
  pub backup : ℕ → Option Bytes
  pub original : ℕ → Option Bytes

abbrev pub empty_dir : TxDir
empty_dir = record {
  journal = none;
  committed = false;
  stage = λ i. none;
  backup = λ i. none;
  original = λ i. none;
}

-- `files` gives the bytes of the regular file at a normalized path of the workspace.
pub record World : Type 0 where
  pub files : Text → Option Bytes
  pub store : Option TxDir
  pub faults : List Outcome

pub data Failure : Type 0 where
  io not_a_journal invalid_journal rolled_back rollback_failed : Failure

pub data Result {ℓ} (A : Type ℓ) : Type ℓ where
  ok : A → Result A
  err : Failure → Result A
  crashed : Result A

abbrev pub M : Type 0 → Type 0
M A = World → Result A × World

abbrev pub pure : {A : Type 0} → A → M A
pure a w = (ok a, w)

abbrev pub fail : {A : Type 0} → Failure → M A
fail e w = (err e, w)

abbrev pub continue : {A B : Type 0} → Result A → (A → M B) → M B
continue (ok a) f w = f a w
continue (err e) f w = (err e, w)
continue crashed f w = (crashed, w)

infixl 5 ◌>>=◌ ◌>>◌
abbrev pub ◌>>=◌ : {A B : Type 0} → M A → (A → M B) → M B
◌>>=◌ m f w = let (r, w') = m w in continue r f w'

abbrev pub ◌>>◌ : {B : Type 0} → M (Unit {0}) → M B → M B
m >> k = m >>= λ _. k

abbrev pub next_fault : List Outcome → Outcome
next_fault [] = done
next_fault (o ∷ os) = o

abbrev pub later_faults : List Outcome → List Outcome
later_faults [] = []
later_faults (o ∷ os) = os

abbrev pub advance : World → World
advance w = record w { faults = later_faults w.faults }

-- An operation whose effect happens whole or not at all.
abbrev pub settle : Outcome → (World → World) → M (Unit {0})
settle done effect w = (ok tt, effect w)
settle failed effect w = (err io, w)
settle failed_after effect w = (err io, effect w)
settle crash effect w = (crashed, w)
settle crash_after effect w = (crashed, effect w)
settle (torn b) effect w = (crashed, w)
settle (torn_failed b) effect w = (err io, w)
settle (crash_removing j m s k o) effect w = (crashed, w)

unfoldable pub perform : (World → World) → M (Unit {0})
perform effect w = settle (next_fault w.faults) effect (advance w)

-- The write of a new file, which may leave any bytes when it does not succeed.
abbrev pub settle_write : Outcome → (Bytes → World → World) → Bytes → M (Unit {0})
settle_write (torn b) put bytes w = (crashed, put b w)
settle_write (torn_failed b) put bytes w = (err io, put b w)
settle_write done put bytes w = (ok tt, put bytes w)
settle_write failed put bytes w = (err io, w)
settle_write failed_after put bytes w = (err io, put bytes w)
settle_write crash put bytes w = (crashed, w)
settle_write crash_after put bytes w = (crashed, put bytes w)
settle_write (crash_removing j m s k o) put bytes w = (crashed, w)

unfoldable pub write_new : (Bytes → World → World) → Bytes → M (Unit {0})
write_new put bytes w = settle_write (next_fault w.faults) put bytes (advance w)

abbrev pub set_file : Text → Option Bytes → (Text → Option Bytes) → Text → Option Bytes
set_file p v files q = if text_eq q p then v else files q

abbrev pub set_at : ℕ → Option Bytes → (ℕ → Option Bytes) → ℕ → Option Bytes
set_at i v slots j = if j == i then v else slots j

-- An effect inside the transaction directory.
abbrev pub in_store : (TxDir → TxDir) → World → World
in_store f w = record w {
  store = elim w.store as (λ _. Option TxDir) [ none ↦ none | some t ↦ some (f t) ];
}

abbrev pub read_store : (TxDir → Option Bytes) → World → Option Bytes
read_store f w = elim w.store as (λ _. Option Bytes) [ none ↦ none | some t ↦ f t ]

abbrev pub kept : (ℕ → Bool) → (ℕ → Option Bytes) → ℕ → Option Bytes
kept keep slots i = if keep i then slots i else none

-- `fs::remove_dir_all` removes one file after the other.
abbrev pub settle_removal : Outcome → M (Unit {0})
settle_removal (crash_removing j m s k o) w = (
  crashed,
  in_store
      (λ t. record {
        journal = if j then t.journal else none;
        committed = if m then t.committed else false;
        stage = kept s t.stage;
        backup = kept k t.backup;
        original = kept o t.original;
      })
      w,
)
settle_removal done w = (ok tt, record w { store = none })
settle_removal failed w = (err io, w)
settle_removal failed_after w = (err io, record w { store = none })
settle_removal crash w = (crashed, w)
settle_removal crash_after w = (crashed, record w { store = none })
settle_removal (torn b) w = (crashed, w)
settle_removal (torn_failed b) w = (err io, w)

unfoldable pub durable_remove_dir_all : M (Unit {0})
durable_remove_dir_all w = settle_removal (next_fault w.faults) (advance w)
