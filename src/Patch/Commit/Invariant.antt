-- ===== src/Patch/Commit/Invariant.antt =====
-- What holds of the disk while a transaction is under way, with the commit marker present (`m`) or
-- not: every planned file can be restored.
use native.Mathlib.Decide.{ℕ_discrete}
use open_mind_ai.Base.{
  ℕ, zero, suc, Bool, Option, none, some, List, [], ◌∷◌, ◌≡◌, refl, sym, ◌∙◌, ap, subst, ◌≢◌, ◌⊎◌,
  inl, inr, arith, Bool-cases,
}
use open_mind_ai.Base.Text.{Text, text_eq, text_eq→eq, text_eq_refl, text_cases}
use open_mind_ai.Patch.World.{Bytes, TxDir, World, set_file, set_at, in_store, read_store}
use open_mind_ai.Patch.Commit.{PlannedChange, journal_of}

abbrev pub get_elem? {ℓ} : {A : Type ℓ} → List A → ℕ → Option A
get_elem? [] i = none
get_elem? (x ∷ xs) zero = some x
get_elem? (x ∷ xs) (suc i) = get_elem? xs i

-- What the preflight establishes: the plan holds the present contents of each of its paths, and no
-- path twice.
pub record IsPlanFor (old : Text → Option Bytes) (changes : List PlannedChange) : Type 0 where
  pub originals :
      (k : ℕ) (c : PlannedChange) → get_elem? changes k ≡ some c → old c.path ≡ c.original_bytes
  pub unique :
      (j k : ℕ) (c d : PlannedChange)
      → get_elem? changes j ≡ some c
      → get_elem? changes k ≡ some d
      → c.path ≡ d.path
      → j ≡ k

-- A file whose path is in no change of the plan.
abbrev pub IsOther : List PlannedChange → Text → Type 0
IsOther changes p = (k : ℕ) (c : PlannedChange) → get_elem? changes k ≡ some c → p ≢ c.path

-- The present and the backed-up contents of one path, and its original contents.
abbrev pub CanRestore : Option Bytes → Option Bytes → Option Bytes → Type 0
CanRestore present backup none = Unit {0}
CanRestore present backup (some x) = (backup ≡ some x) ⊎ ((backup ≡ none) × (present ≡ some x))

pub record Recoverable (m : Bool) (old : Text → Option Bytes) (changes : List PlannedChange)
    (files : Text → Option Bytes) (dir : TxDir) : Type 0 where
  pub journal : dir.journal ≡ some (journal_of changes)
  pub marker : dir.committed ≡ m
  pub entries :
      (k : ℕ) (c : PlannedChange)
      → get_elem? changes k ≡ some c
      → CanRestore (files c.path) (dir.backup k) c.original_bytes
  pub others : (p : Text) → IsOther changes p → files p ≡ old p

pub set_file-same :
    (p : Text) (v : Option Bytes) (files : Text → Option Bytes) → set_file p v files p ≡ v
set_file-same p v files = rw (text_eq_refl p) refl

pub set_file-other :
    (p q : Text) (v : Option Bytes) (files : Text → Option Bytes)
    → q ≢ p
    → set_file p v files q ≡ files q
set_file-other p q v files h = elim (Bool-cases (text_eq q p)) [
  | inl e ↦ absurd (h (text_eq→eq q p e))
  | inr e ↦ rw e refl
]

pub set_at-same : (i : ℕ) (v : Option Bytes) (slots : ℕ → Option Bytes) → set_at i v slots i ≡ v
set_at-same i v slots = ground arith

pub set_at-other :
    (i k : ℕ) (v : Option Bytes) (slots : ℕ → Option Bytes) → k ≢ i → set_at i v slots k ≡ slots k
set_at-other i k v slots h = ground arith

pub in_store-some :
    (f : TxDir → TxDir) (w : World) (t : TxDir)
    → w.store ≡ some t
    → (in_store f w).store ≡ some (f t)
in_store-some f w t e = rw e refl

pub read_store-some :
    (f : TxDir → Option Bytes) (w : World) (t : TxDir) → w.store ≡ some t → read_store f w ≡ f t
read_store-some f w t e = rw e refl

module _ (m : Bool) {old : Text → Option Bytes} {changes : List PlannedChange}
    (plan : IsPlanFor old changes) where
  -- A step at one path and one index keeps the rest of the invariant.
  pub Recoverable-step :
      (files files' : Text → Option Bytes) (dir dir' : TxDir) (i : ℕ) (c : PlannedChange)
      → get_elem? changes i ≡ some c
      → Recoverable m old changes files dir
      → dir'.journal ≡ dir.journal
      → dir'.committed ≡ dir.committed
      → ((k : ℕ) → k ≢ i → dir'.backup k ≡ dir.backup k)
      → ((p : Text) → p ≢ c.path → files' p ≡ files p)
      → CanRestore (files' c.path) (dir'.backup i) c.original_bytes
      → Recoverable m old changes files' dir'
  Recoverable-step files files' dir dir' i c at_i r same_journal same_marker same_backups same_files
        restore =
      record {
        journal = same_journal ∙ r.journal;
        marker = same_marker ∙ r.marker;
        entries = λ k d at_k. elim (ℕ_discrete k i) [
          | yes e ↦
              let same : c ≡ d = cc (sym at_i ∙ ap (get_elem? changes) (sym e) ∙ at_k) in
              subst (λ d. CanRestore (files' d.path) (dir'.backup k) d.original_bytes) same
                (rw e restore)
          | no distinct ↦
              let elsewhere : d.path ≢ c.path = λ e. distinct (plan.unique k i d c at_k at_i e) in
              rw (same_files d.path elsewhere, same_backups k distinct) (r.entries k d at_k)
        ];
        others = λ p other. same_files p (other i c at_i) ∙ r.others p other;
      }

-- A predicate on the files and the transaction directory, which is there.
abbrev pub InStore :
    ((Text → Option Bytes) → TxDir → Type 0) → (Text → Option Bytes) → Option TxDir → Type 0
InStore P files store = (t : TxDir) × (store ≡ some t) × P files t

IsOther-cons :
    (c : PlannedChange) (cs : List PlannedChange) (p : Text)
    → p ≢ c.path
    → IsOther cs p
    → IsOther (c ∷ cs) p
IsOther-cons c cs p other others zero d h =
    λ e. other (e ∙ ap (λ (d : PlannedChange). d.path) (let s : d ≡ c = cc h in s))
IsOther-cons c cs p other others (suc k) d h = others k d h

-- A path is in the plan or it is not.
pub path_cases :
    (changes : List PlannedChange) (p : Text)
    → IsOther changes p
      ⊎ ((k : ℕ) × (c : PlannedChange) × (get_elem? changes k ≡ some c) × (p ≡ c.path))
path_cases [] p = inl (λ k c h. absurd (cc h))
path_cases (c ∷ cs) p = elim (text_cases p c.path) [
  | inl e ↦ inr (0, c, refl, e)
  | inr other ↦ elim (path_cases cs p) [
    | inr (k, d, at_k, e) ↦ inr (suc k, d, at_k, e)
    | inl others ↦ inl (IsOther-cons c cs p other others)
  ]
]
