-- ===== src/Patch/Commit/Advance.antt =====
-- Each planned change in turn, and the commit marker at the end.
use open_mind_ai.Base.{
  ℕ, zero, suc, ◌+◌, ◌<◌, true, false, Option, none, some, List, [], ◌∷◌, ◌≡◌, refl, sym, ◌∙◌, ap,
  subst, inl, inr, arith, Bool-cases, length,
}
use open_mind_ai.Base.Text.{Text}
use open_mind_ai.Patch.World.{Bytes, TxDir, World, perform, set_file, set_at, read_store}
use open_mind_ai.Patch.World.Hoare.{Pred, Holds, Ends, Ends-bind, Ends-perform, Ends-pure}
use open_mind_ai.Patch.Commit.{
  PlannedChange, is_some, when, exists, create_parents, move_to_backup, move_from_stage,
  apply_change, apply_changes, apply_all, write_marker, enumerate,
}
use open_mind_ai.Patch.Commit.Invariant.{
  get_elem?, IsPlanFor, CanRestore, Recoverable, InStore, set_file-same, set_file-other,
  set_at-other, in_store-some, read_store-some,
}
use open_mind_ai.Patch.Commit.Journal.{IsSuffix, IsSuffix-next, IsSuffix-head}
use open_mind_ai.Patch.Commit.Apply.{
  Progress, New, Stopped, At, At-Stopped, Moved, Moved-Stopped, move_away, not_there, finish,
}

module _ {old : Text → Option Bytes} {changes : List PlannedChange}
    (plan : IsPlanFor old changes) where
  module _ (i : ℕ) (c : PlannedChange) (at_i : get_elem? changes i ≡ some c) where
    abbrev Away : Pred
    Away = InStore (Moved plan i c at_i)

    abbrev Done : Pred
    Done = At plan (suc i)

    any_present :
        (present backup o : Option Bytes) → CanRestore none backup o → CanRestore present backup o
    any_present present backup none h = tt
    any_present present backup (some x) (inl b) = inl b
    any_present present backup (some x) (inr (b, e)) = absurd (cc e)

    put_new : (w : World) → Holds Away w → Holds Done (move_from_stage i c.path w)
    unfolding move_from_stage
    put_new w (t, e, r) =
        let v : read_store (λ t. t.stage i) w ≡ c.replacement =
          read_store-some (λ t. t.stage i) w t e ∙ r.staged i c at_i (omega arith) in
        let files' : Text → Option Bytes =
          set_file c.path (read_store (λ t. t.stage i) w) w.files in
        let f : TxDir → TxDir = λ t. record t { stage = set_at i none t.stage } in
        (
          f t,
          in_store-some f (record w { files = files' }) t e,
          finish plan i c at_i w.files files' t (f t) r refl refl (λ k. refl)
              (λ k n. set_at-other i k none t.stage n)
              (λ p n. set_file-other c.path p (read_store (λ t. t.stage i) w) w.files n)
              (any_present (files' c.path) (t.backup i) c.original_bytes r.ready)
              (set_file-same c.path (read_store (λ t. t.stage i) w) w.files ∙ v),
        )

    no_replacement : (o : Option Bytes) → is_some o ≡ false → o ≡ none
    no_replacement o h = ground arith

    stay_away : (w : World) → is_some c.replacement ≡ false → Holds Away w → Holds Done w
    stay_away w h (t, e, r) = (
      t,
      e,
      finish plan i c at_i w.files w.files t t r refl refl (λ k. refl) (λ k n. refl) (λ p n. refl)
          (any_present (w.files c.path) (t.backup i) c.original_bytes r.ready)
          (r.absent ∙ sym (no_replacement c.replacement h)),
    )

    set_aside :
        Ends
          (At plan i)
          (λ w. when (exists c.path w) (perform (move_to_backup i c.path)) w)
          (λ u. Away)
          (Stopped plan)
    set_aside = record {
      at = λ w h. elim (Bool-cases (exists c.path w)) [
        | inl p ↦ rw p (
            (Ends-perform (At plan i) Away (Stopped plan) (move_to_backup i c.path)
                (At-Stopped plan i) (move_away plan i c at_i)
                (λ w h.
                  Moved-Stopped plan i c at_i (move_to_backup i c.path w)
                    (move_away plan i c at_i w h))).at
              w h)
        | inr p ↦ rw p (not_there plan i c at_i w p h)
      ];
    }

    put_replacement :
        Ends Away
          (when (is_some c.replacement) (perform (move_from_stage i c.path)))
          (λ u. Done)
          (Stopped plan)
    put_replacement = elim (Bool-cases (is_some c.replacement)) [
      | inl p ↦ rw p (
          Ends-perform Away Done (Stopped plan) (move_from_stage i c.path)
            (Moved-Stopped plan i c at_i) put_new
            (λ w h. At-Stopped plan (suc i) (move_from_stage i c.path w) (put_new w h)))
      | inr p ↦ rw p (Ends-pure Away Done (Stopped plan) (λ w h. stay_away w p h))
    ]

    apply_change-Ends : Ends (At plan i) (apply_change i c) (λ u. Done) (Stopped plan)
    unfolding apply_change create_parents
    apply_change-Ends =
        Ends-bind (At plan i) _ _
          (Ends-perform (At plan i) (At plan i) (Stopped plan) (λ w. w) (At-Stopped plan i)
            (λ w h. h) (At-Stopped plan i))
          (λ u. Ends-bind (At plan i) _ _ set_aside (λ u. put_replacement))

  apply_changes-Ends :
      (i : ℕ) (cs : List PlannedChange)
      → IsSuffix false plan i cs
      → Ends
          (At plan i)
          (apply_changes (enumerate i cs))
          (λ u. At plan (i + length cs))
          (Stopped plan)
  unfolding apply_changes
  apply_changes-Ends i [] h =
      let e : i ≡ i + 0 = omega arith in
      Ends-pure _ _ _ (λ w p. subst (λ n. Holds (At plan n) w) e p)
  apply_changes-Ends i (c ∷ cs) h =
      let e : suc i + length cs ≡ i + suc (length cs) = omega arith in
      Ends-bind (At plan i) _ _ (apply_change-Ends i c (IsSuffix-head false plan i c cs h)) (λ u.
        subst
          (λ n.
            Ends (At plan (suc i)) (apply_changes (enumerate (suc i) cs)) (λ u. At plan n)
              (Stopped plan))
          e (apply_changes-Ends (suc i) cs (IsSuffix-next false plan i c cs h)))

  in_range :
      (cs : List PlannedChange) (k : ℕ) (c : PlannedChange)
      → get_elem? cs k ≡ some c
      → k < length cs
  in_range [] k c h = absurd (cc h)
  in_range (d ∷ cs) zero c h = omega arith
  in_range (d ∷ cs) (suc k) c h = let l : k < length cs = in_range cs k c h in omega arith

  all_applied :
      (files : Text → Option Bytes) (dir : TxDir)
      → Progress plan (length changes) files dir
      → New plan files
  all_applied files dir r = record {
    planned = λ k c at_k. r.applied k c at_k (in_range changes k c at_k);
    others = r.safe.others;
  }

  abbrev pub Committed : Pred
  Committed = InStore (λ files t. Recoverable true old changes files t × New plan files)

  mark : (w : World) → Holds (At plan (length changes)) w → Holds Committed (write_marker w)
  unfolding write_marker
  mark w (t, e, r) =
      let f : TxDir → TxDir = λ t. record t { committed = true } in
      (
        f t,
        in_store-some f w t e,
        (
          record {
            journal = r.safe.journal;
            marker = refl;
            entries = r.safe.entries;
            others = r.safe.others;
          },
          all_applied w.files t r,
        ),
      )

  -- From the staged state, the application ends with all changes and the marker, or it stops where
  -- they can be rolled back.
  pub apply_all-Ends : Ends (At plan 0) (apply_all changes) (λ u. Committed) (Stopped plan)
  unfolding apply_all
  apply_all-Ends =
      Ends-bind (At plan 0) _ _
        (subst
          (λ n.
            Ends (At plan 0) (apply_changes (enumerate 0 changes)) (λ u. At plan n) (Stopped plan))
          (let e : 0 + length changes ≡ length changes = omega arith in e)
          (apply_changes-Ends 0 changes
            (λ n. ap (get_elem? changes) (let e : 0 + n ≡ n = omega arith in e))))
        (λ u.
          Ends-perform (At plan (length changes)) Committed (Stopped plan) write_marker
            (At-Stopped plan (length changes)) mark (λ w h. inr (mark w h)))
