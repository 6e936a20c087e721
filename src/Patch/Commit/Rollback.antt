-- ===== src/Patch/Commit/Rollback.antt =====
-- Roll-back keeps the invariant at every step, whatever fails, and restores each planned file.
use open_mind_ai.Base.{ℕ, Bool, Option, some, List, ◌≡◌, sym, ◌∙◌, ap, subst, ◌≢◌, ◌⊎◌, inl, inr}
use open_mind_ai.Base.Text.{Text, text_cases}
use open_mind_ai.Patch.World.{Bytes, TxDir}
use open_mind_ai.Patch.Commit.{PlannedChange}
use open_mind_ai.Patch.Commit.Invariant.{
  get_elem?, IsPlanFor, CanRestore, Recoverable, Recoverable-step,
}

module _ (m : Bool) {old : Text → Option Bytes} {changes : List PlannedChange}
    (plan : IsPlanFor old changes) where
  -- The invariant, with the paths of the indices in `S` restored.
  pub record Restored (S : ℕ → Type 0) (files : Text → Option Bytes) (dir : TxDir) : Type 0 where
    pub safe : Recoverable m old changes files dir
    pub back :
        (k : ℕ) (c : PlannedChange)
        → get_elem? changes k ≡ some c
        → S k
        → files c.path ≡ c.original_bytes

  abbrev pub Plus : (ℕ → Type 0) → ℕ → ℕ → Type 0
  Plus S i k = S k ⊎ (k ≡ i)

  module _ (S : ℕ → Type 0) (i : ℕ) (c : PlannedChange) (at_i : get_elem? changes i ≡ some c) where
    -- The path of entry `i` has the original contents again.
    pub Restored-Plus :
        (files files' : Text → Option Bytes) (dir dir' : TxDir)
        → Restored S files dir
        → dir'.journal ≡ dir.journal
        → dir'.committed ≡ dir.committed
        → ((k : ℕ) → k ≢ i → dir'.backup k ≡ dir.backup k)
        → ((p : Text) → p ≢ c.path → files' p ≡ files p)
        → CanRestore (files' c.path) (dir'.backup i) c.original_bytes
        → files' c.path ≡ c.original_bytes
        → Restored (Plus S i) files' dir'
    Restored-Plus files files' dir dir' r j mk b f can now_original = record {
      safe = Recoverable-step m plan files files' dir dir' i c at_i r.safe j mk b f can;
      back = λ k d at_k mem. elim (text_cases d.path c.path) [
        | inl e ↦
            let index : k ≡ i = plan.unique k i d c at_k at_i e in
            let same : c ≡ d = cc (sym at_i ∙ ap (get_elem? changes) (sym index) ∙ at_k) in
            subst (λ (d : PlannedChange). files' d.path ≡ d.original_bytes) same now_original
        | inr other ↦ elim mem [
          | inl before ↦ f d.path other ∙ r.back k d at_k before
          | inr index ↦
              let same : d ≡ c = cc (sym at_k ∙ ap (get_elem? changes) index ∙ at_i) in
              absurd (other (ap (λ (d : PlannedChange). d.path) same))
        ]
      ];
    }

    -- A step at an entry that is not yet restored, and that can be restored after it.
    pub Restored-keep :
        (files files' : Text → Option Bytes) (dir dir' : TxDir)
        → (S i → ⊥)
        → Restored S files dir
        → dir'.journal ≡ dir.journal
        → dir'.committed ≡ dir.committed
        → ((k : ℕ) → k ≢ i → dir'.backup k ≡ dir.backup k)
        → ((p : Text) → p ≢ c.path → files' p ≡ files p)
        → CanRestore (files' c.path) (dir'.backup i) c.original_bytes
        → Restored S files' dir'
    Restored-keep files files' dir dir' fresh r j mk b f can = record {
      safe = Recoverable-step m plan files files' dir dir' i c at_i r.safe j mk b f can;
      back = λ k d at_k before.
          f d.path (λ e. fresh (subst S (plan.unique k i d c at_k at_i e) before))
          ∙ r.back k d at_k before;
    }
