-- ===== src/Patch/Commit/Restore.antt =====
-- The roll-back of one entry, and of the whole journal, over all outcomes of the file operations.
use open_mind_ai.Base.{
  ℕ, Bool, true, false, Option, none, some, List, ◌≡◌, refl, sym, ◌∙◌, ap, subst, inl, inr, arith,
  Bool-cases, Option-cases,
}
use open_mind_ai.Base.Text.{Text}
use open_mind_ai.Patch.World.{Bytes, TxDir, World, perform, set_file, set_at, read_store}
use open_mind_ai.Patch.World.Hoare.{Pred, Holds, After, Ends, Ends-bind, Ends-perform}
use open_mind_ai.Patch.Commit.{
  PlannedChange, is_some, when, exists, create_parents, move_from_backup, remove_file,
  rollback_entry,
}
use open_mind_ai.Patch.Commit.Invariant.{
  get_elem?, IsPlanFor, CanRestore, Recoverable, set_file-same, set_file-other, set_at-same,
  set_at-other, in_store-some, read_store-some,
}
use open_mind_ai.Patch.Commit.{rollback_by, entry_of}
use open_mind_ai.Patch.Commit.Invariant.{InStore}
use open_mind_ai.Patch.Commit.Rollback.{Restored, Plus, Restored-Plus, Restored-keep}

module _ (m : Bool) {old : Text → Option Bytes} {changes : List PlannedChange}
    (plan : IsPlanFor old changes) where
  abbrev pub Safe : Pred
  Safe = InStore (Recoverable m old changes)

  abbrev pub Back : (ℕ → Type 0) → Pred
  Back S = InStore (Restored m plan S)

  Back-Safe : (S : ℕ → Type 0) (w : World) → Holds (Back S) w → Holds Safe w
  Back-Safe S w (t, e, r) = (t, e, r.safe)

  module _ (S : ℕ → Type 0) (i : ℕ) (c : PlannedChange) (at_i : get_elem? changes i ≡ some c)
      (fresh : S i → ⊥) where
    abbrev Backed : Bytes → Pred
    Backed x = InStore (λ files t. Restored m plan S files t × (t.backup i ≡ some x))

    module _ (x : Bytes) (existed : c.original_bytes ≡ some x) where
      remove-Backed : (w : World) → Holds (Backed x) w → Holds (Backed x) (remove_file c.path w)
      unfolding remove_file
      remove-Backed w (t, e, (r, b)) = (
        t,
        e,
        (
          Restored-keep m plan S i c at_i w.files (set_file c.path none w.files) t t fresh r refl
              refl (λ k n. refl) (λ p n. set_file-other c.path p none w.files n)
              (rw existed (inl b)),
          b,
        ),
      )

      restore-Back :
          (w : World)
          → Holds (Backed x) w
          → Holds (Back (Plus m plan S i)) (move_from_backup i c.path w)
      unfolding move_from_backup
      restore-Back w (t, e, (r, b)) =
          let v : read_store (λ t. t.backup i) w ≡ some x =
            read_store-some (λ t. t.backup i) w t e ∙ b in
          let files' : Text → Option Bytes =
            set_file c.path (read_store (λ t. t.backup i) w) w.files in
          let now : files' c.path ≡ some x =
            set_file-same c.path (read_store (λ t. t.backup i) w) w.files ∙ v in
          let f : TxDir → TxDir = λ t. record t { backup = set_at i none t.backup } in
          (
            f t,
            in_store-some f w t e,
            Restored-Plus m plan S i c at_i w.files files' t (f t) r refl refl
                (λ k n. set_at-other i k none t.backup n)
                (λ p n. set_file-other c.path p (read_store (λ t. t.backup i) w) w.files n)
                (rw existed (inr (set_at-same i none t.backup, now))) (now ∙ sym existed),
          )

      Backed-Safe : (w : World) → Holds (Backed x) w → Holds Safe w
      Backed-Safe w (t, e, (r, b)) = (t, e, r.safe)

      when-remove :
          Ends
            (Backed x)
            (λ w. when (exists c.path w) (perform (remove_file c.path)) w)
            (λ u. Backed x)
            Safe
      when-remove = record {
        at = λ w h. elim (Bool-cases (exists c.path w)) [
          | inl p ↦ rw p (
              (Ends-perform (Backed x) (Backed x) Safe (remove_file c.path) Backed-Safe
                  remove-Backed (λ w h. Backed-Safe (remove_file c.path w) (remove-Backed w h))).at
                w h)
          | inr p ↦ rw p h
        ];
      }

      restore_backup :
          (original : Option Bytes)
          → Ends
              (Backed x)
              (rollback_by true true original i c.path)
              (λ u. Back (Plus m plan S i))
              Safe
      unfolding rollback_by create_parents
      restore_backup original = Ends-bind (Backed x) _ _ when-remove (λ u.
          Ends-bind (Backed x) _ _
            (Ends-perform (Backed x) (Backed x) Safe (λ w. w) Backed-Safe (λ w h. h) Backed-Safe)
            (λ u.
              Ends-perform (Backed x) (Back (Plus m plan S i)) Safe (move_from_backup i c.path)
                Backed-Safe restore-Back
                (λ w h.
                  Back-Safe (Plus m plan S i) (move_from_backup i c.path w) (restore-Back w h))))

    remove_created :
        c.original_bytes ≡ none
        → (w : World) → Holds (Back S) w
        → Holds (Back (Plus m plan S i)) (remove_file c.path w)
    unfolding remove_file
    remove_created created w (t, e, r) = (
      t,
      e,
      Restored-Plus m plan S i c at_i w.files (set_file c.path none w.files) t t r refl refl
          (λ k n. refl) (λ p n. set_file-other c.path p none w.files n) (rw created tt)
          (set_file-same c.path none w.files ∙ sym created),
    )

    -- Nothing to do where the file has its original contents.
    already_back :
        (w : World) (t : TxDir)
        → w.store ≡ some t
        → Restored m plan S w.files t
        → w.files c.path ≡ c.original_bytes
        → Holds (Back (Plus m plan S i)) w
    already_back w t e r v = (
      t,
      e,
      Restored-Plus m plan S i c at_i w.files w.files t t r refl refl (λ k n. refl) (λ p n. refl)
          (r.safe.entries i c at_i) v,
    )

    exists-none : (o : Option Bytes) → is_some o ≡ false → o ≡ none
    exists-none o h = ground arith

    roll_back_created :
        (backup : Bool) (original : Option Bytes)
        → c.original_bytes ≡ none
        → Ends
            (Back S)
            (rollback_by false backup original i c.path)
            (λ u. Back (Plus m plan S i))
            Safe
    unfolding rollback_by
    roll_back_created backup original created = record {
      at = λ w h. elim (Bool-cases (exists c.path w)) [
        | inl p ↦ rw p (
            (Ends-perform (Back S) (Back (Plus m plan S i)) Safe (remove_file c.path) (Back-Safe S)
                (remove_created created)
                (λ w h.
                  Back-Safe (Plus m plan S i) (remove_file c.path w)
                    (remove_created created w h))).at
              w h)
        | inr p ↦
            let (t, e, r) = h in
            rw p (already_back w t e r (exists-none (w.files c.path) p ∙ sym created))
      ];
    }

    kept_entry :
        (w : World) (original : Option Bytes) (x : Bytes)
        → exists c.path w ≡ true
        → Holds (Back (Plus m plan S i)) w
        → After
            (λ u. Back (Plus m plan S i))
            Safe
            (rollback_by true false original i c.path w).0
            (rollback_by true false original i c.path w).1
    unfolding rollback_by
    kept_entry w original x present h = rw present h

    -- One entry: it ends restored, or it can still be restored.
    pub rollback_entry-Ends :
        Ends (Back S) (rollback_entry i (entry_of c)) (λ u. Back (Plus m plan S i)) Safe
    unfolding rollback_entry
    rollback_entry-Ends = record {
      at = λ w h.
          let (t, e, r) = h in
          let original : Option Bytes = read_store (λ t. t.original i) w in
          elim (Option-cases c.original_bytes) [
            | inl created ↦ rw created (
                (roll_back_created (is_some (read_store (λ t. t.backup i) w)) original created).at w
                  h)
            | inr (x, existed) ↦
                let can : CanRestore (w.files c.path) (t.backup i) (some x) =
                  subst (CanRestore (w.files c.path) (t.backup i)) existed
                    (r.safe.entries i c at_i) in
                elim can [
                  | inl saved ↦
                      let backup : is_some (read_store (λ t. t.backup i) w) ≡ true =
                        ap is_some (read_store-some (λ t. t.backup i) w t e ∙ saved) in
                      rw (existed, backup)
                        ((restore_backup x existed original).at w (t, e, (r, saved)))
                  | inr (unsaved, untouched) ↦
                      let backup : is_some (read_store (λ t. t.backup i) w) ≡ false =
                        ap is_some (read_store-some (λ t. t.backup i) w t e ∙ unsaved) in
                      let present : exists c.path w ≡ true = ap is_some untouched in
                      rw (existed, backup)
                        (kept_entry w original x present
                          (already_back w t e r (untouched ∙ sym existed)))
                ]
          ];
    }
