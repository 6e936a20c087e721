-- ===== src/Patch/Commit/Apply.antt =====
-- The application of the planned changes, over all outcomes of the file operations.
use native.Mathlib.Decide.{ℕ_discrete}
use open_mind_ai.Base.{
  ℕ, suc, ◌≤◌, ◌<◌, true, false, Option, none, some, List, ◌≡◌, refl, sym, ◌∙◌, ap, subst, ◌≢◌, ◌⊎◌,
  inl, inr, arith,
}
use open_mind_ai.Base.Text.{Text}
use open_mind_ai.Patch.World.{Bytes, TxDir, World, set_file, set_at}
use open_mind_ai.Patch.World.Hoare.{Pred, Holds}
use open_mind_ai.Patch.Commit.{PlannedChange, is_some, exists, move_to_backup}
use open_mind_ai.Patch.Commit.Invariant.{
  get_elem?, IsPlanFor, IsOther, CanRestore, Recoverable, Recoverable-step, InStore, set_file-same,
  set_file-other, set_at-same, set_at-other, in_store-some,
}
use open_mind_ai.Patch.Commit.Restore.{Safe}

module _ {old : Text → Option Bytes} {changes : List PlannedChange}
    (plan : IsPlanFor old changes) where
  -- The changes below index `i` are applied, the others are staged and their files untouched.
  pub record Progress (i : ℕ) (files : Text → Option Bytes) (dir : TxDir) : Type 0 where
    pub safe : Recoverable false old changes files dir
    pub applied :
        (k : ℕ) (c : PlannedChange)
        → get_elem? changes k ≡ some c
        → k < i
        → files c.path ≡ c.replacement
    pub pending :
        (k : ℕ) (c : PlannedChange)
        → get_elem? changes k ≡ some c
        → i ≤ k
        → files c.path ≡ c.original_bytes
    pub staged :
        (k : ℕ) (c : PlannedChange)
        → get_elem? changes k ≡ some c
        → i ≤ k
        → dir.stage k ≡ c.replacement

  -- The planned paths hold the replacements, and all else is as before.
  pub record New (files : Text → Option Bytes) : Type 0 where
    pub planned :
        (k : ℕ) (c : PlannedChange) → get_elem? changes k ≡ some c → files c.path ≡ c.replacement
    pub others : (p : Text) → IsOther changes p → files p ≡ old p

  -- Where the application stops: the changes can be rolled back, and a marker is there only with all
  -- of them applied.
  abbrev pub Stopped : Pred
  Stopped files store =
      Safe false plan files store
      ⊎ InStore (λ files t. Recoverable true old changes files t × New files) files store

  abbrev pub At : ℕ → Pred
  At i = InStore (Progress i)

  pub At-Stopped : (i : ℕ) (w : World) → Holds (At i) w → Holds Stopped w
  At-Stopped i w (t, e, r) = inl (t, e, r.safe)

  module _ (i : ℕ) (c : PlannedChange) (at_i : get_elem? changes i ≡ some c) where
    -- In the middle of the change: the file is out of the way.
    pub record Moved (files : Text → Option Bytes) (dir : TxDir) : Type 0 where
      pub safe : Recoverable false old changes files dir
      pub applied :
          (k : ℕ) (d : PlannedChange)
          → get_elem? changes k ≡ some d
          → k < i
          → files d.path ≡ d.replacement
      pub pending :
          (k : ℕ) (d : PlannedChange)
          → get_elem? changes k ≡ some d
          → suc i ≤ k
          → files d.path ≡ d.original_bytes
      pub staged :
          (k : ℕ) (d : PlannedChange)
          → get_elem? changes k ≡ some d
          → i ≤ k
          → dir.stage k ≡ d.replacement
      pub absent : files c.path ≡ none
      pub ready : CanRestore none (dir.backup i) c.original_bytes

    pub Moved-Stopped : (w : World) → Holds (InStore Moved) w → Holds Stopped w
    Moved-Stopped w (t, e, r) = inl (t, e, r.safe)

    elsewhere : (k : ℕ) (d : PlannedChange) → get_elem? changes k ≡ some d → k ≢ i → d.path ≢ c.path
    elsewhere k d at_k distinct e = distinct (plan.unique k i d c at_k at_i e)

    is_change : (k : ℕ) (d : PlannedChange) → get_elem? changes k ≡ some d → k ≡ i → d ≡ c
    is_change k d at_k e = cc (sym at_k ∙ ap (get_elem? changes) e ∙ at_i)

    backed_up : (o : Option Bytes) → CanRestore none o o
    backed_up none = tt
    backed_up (some x) = inl refl

    pub move_away : (w : World) → Holds (At i) w → Holds (InStore Moved) (move_to_backup i c.path w)
    unfolding move_to_backup
    move_away w (t, e, r) =
        let f : TxDir → TxDir = λ t. record t { backup = set_at i (w.files c.path) t.backup } in
        let files' : Text → Option Bytes = set_file c.path none w.files in
        let gone : files' c.path ≡ none = set_file-same c.path none w.files in
        let saved : (f t).backup i ≡ c.original_bytes =
          set_at-same i (w.files c.path) t.backup ∙ r.pending i c at_i (omega arith) in
        let can : CanRestore none ((f t).backup i) c.original_bytes =
          rw saved (backed_up c.original_bytes) in
        (
          f t,
          in_store-some f (record w { files = files' }) t e,
          record {
            safe =
                Recoverable-step false plan w.files files' t (f t) i c at_i r.safe refl refl
                  (λ k n. set_at-other i k (w.files c.path) t.backup n)
                  (λ p n. set_file-other c.path p none w.files n) (rw gone can);
            applied = λ k d at_k l.
                set_file-other c.path d.path none w.files (elsewhere k d at_k (omega arith))
                ∙ r.applied k d at_k l;
            pending = λ k d at_k l.
                set_file-other c.path d.path none w.files (elsewhere k d at_k (omega arith))
                ∙ r.pending k d at_k (omega arith);
            staged = r.staged;
            absent = gone;
            ready = can;
          },
        )

    absent_now : (o : Option Bytes) → is_some o ≡ false → o ≡ none
    absent_now o h = ground arith

    -- A file that is not there needs no backup.
    pub not_there : (w : World) → exists c.path w ≡ false → Holds (At i) w → Holds (InStore Moved) w
    not_there w h (t, e, r) =
        let gone : w.files c.path ≡ none = absent_now (w.files c.path) h in
        let created : c.original_bytes ≡ none = sym (r.pending i c at_i (omega arith)) ∙ gone in
        (
          t,
          e,
          record {
            safe = r.safe;
            applied = r.applied;
            pending = λ k d at_k l. r.pending k d at_k (omega arith);
            staged = r.staged;
            absent = gone;
            ready = rw created tt;
          },
        )

    at_or_below : (k : ℕ) → k < suc i → (k ≡ i) ⊎ (k < i)
    at_or_below k l = elim (ℕ_discrete k i) [ yes e ↦ inl e | no n ↦ inr (omega arith) ]

    -- The change is applied once its file has the replacement.
    pub finish :
        (files files' : Text → Option Bytes) (dir dir' : TxDir)
        → Moved files dir
        → dir'.journal ≡ dir.journal
        → dir'.committed ≡ dir.committed
        → ((k : ℕ) → dir'.backup k ≡ dir.backup k)
        → ((k : ℕ) → k ≢ i → dir'.stage k ≡ dir.stage k)
        → ((p : Text) → p ≢ c.path → files' p ≡ files p)
        → CanRestore (files' c.path) (dir.backup i) c.original_bytes
        → files' c.path ≡ c.replacement
        → Progress (suc i) files' dir'
    finish files files' dir dir' r j mk b s f can now_new = record {
      safe =
          Recoverable-step false plan files files' dir dir' i c at_i r.safe j mk (λ k n. b k) f
            (rw (b i) can);
      applied = λ k d at_k l. elim (at_or_below k l) [
        | inl here ↦
            subst (λ (d : PlannedChange). files' d.path ≡ d.replacement)
              (sym (is_change k d at_k here)) now_new
        | inr below ↦ f d.path (elsewhere k d at_k (omega arith)) ∙ r.applied k d at_k below
      ];
      pending = λ k d at_k l. f d.path (elsewhere k d at_k (omega arith)) ∙ r.pending k d at_k l;
      staged = λ k d at_k l. s k (omega arith) ∙ r.staged k d at_k (omega arith);
    }
