-- ===== src/Patch/Commit/Prepare.antt =====
-- The journal and the staged copies, which are on the disk before any file of the workspace changes.
use native.Mathlib.Decide.{ℕ_discrete}
use open_mind_ai.Base.{
  ℕ, zero, suc, ◌+◌, ◌≤◌, ◌<◌, false, Option, none, some, List, [], ◌∷◌, ◌≡◌, refl, sym, ◌∙◌, ap,
  subst, ◌⊎◌, inl, inr, arith, Option-cases, length,
}
use open_mind_ai.Base.Text.{Text}
use open_mind_ai.Patch.World.{Bytes, TxDir, empty_dir, World, write_new, set_at}
use open_mind_ai.Patch.World.Hoare.{
  Pred, Holds, Ends, Ends-bind, Ends-write_new, Ends-pure, Ends-weaken,
}
use open_mind_ai.Patch.Commit.{
  PlannedChange, when_some, put_stage, put_original, write_copies, enumerate, journal_of,
}
use open_mind_ai.Patch.Commit.Invariant.{
  get_elem?, IsPlanFor, CanRestore, Recoverable, InStore, set_at-same, set_at-other, in_store-some,
}
use open_mind_ai.Patch.Commit.Journal.{IsSuffix, IsSuffix-next, IsSuffix-head, Whole}
use open_mind_ai.Patch.Commit.Apply.{At}

module _ {old : Text → Option Bytes} {changes : List PlannedChange}
    (plan : IsPlanFor old changes) where
  -- The copies below index `i` are written.
  pub record Prepared (i : ℕ) (files : Text → Option Bytes) (dir : TxDir) : Type 0 where
    pub journal : dir.journal ≡ some (journal_of changes)
    pub marker : dir.committed ≡ false
    pub backups : (k : ℕ) → dir.backup k ≡ none
    pub whole : Whole false plan files
    pub staged :
        (k : ℕ) (c : PlannedChange)
        → get_elem? changes k ≡ some c
        → k < i
        → dir.stage k ≡ c.replacement
    pub unstaged : (k : ℕ) → i ≤ k → dir.stage k ≡ none

  -- Where the preparation stops: no file has changed, and the directory is new or can be recovered.
  abbrev pub Waiting : Pred
  Waiting files store =
      Whole false plan files
      × ((store ≡ none)
          ⊎ (store ≡ some empty_dir)
          ⊎ InStore (Recoverable false old changes) files store)

  abbrev pub Ready : ℕ → Pred
  Ready i = InStore (Prepared i)

  untouched : (o : Option Bytes) → CanRestore o none o
  untouched none = tt
  untouched (some x) = inr (refl, refl)

  restorable :
      (files : Text → Option Bytes) (dir : TxDir)
      → dir.journal ≡ some (journal_of changes)
      → dir.committed ≡ false
      → ((k : ℕ) → dir.backup k ≡ none)
      → Whole false plan files
      → Recoverable false old changes files dir
  restorable files dir j m b whole = record {
    journal = j;
    marker = m;
    entries =
        λ k c at_k. rw (b k, whole c.path ∙ plan.originals k c at_k) (untouched c.original_bytes);
    others = λ p other. whole p;
  }

  pub Ready-Waiting : (i : ℕ) (w : World) → Holds (Ready i) w → Holds Waiting w
  Ready-Waiting i w (t, e, r) =
      (r.whole, inr (inr (t, e, restorable w.files t r.journal r.marker r.backups r.whole)))

  module _ (i : ℕ) (c : PlannedChange) (at_i : get_elem? changes i ≡ some c) where
    at_or_below : (k : ℕ) → k < suc i → (k ≡ i) ⊎ (k < i)
    at_or_below k l = elim (ℕ_discrete k i) [ yes e ↦ inl e | no n ↦ inr (omega arith) ]

    stage_some :
        (b : Bytes)
        → c.replacement ≡ some b
        → (w : World) → Holds (Ready i) w
        → Holds (Ready (suc i)) (put_stage i b w)
    unfolding put_stage
    stage_some b e_b w (t, e, r) =
        let f : TxDir → TxDir = λ t. record t { stage = set_at i (some b) t.stage } in
        (
          f t,
          in_store-some f w t e,
          record {
            journal = r.journal;
            marker = r.marker;
            backups = r.backups;
            whole = r.whole;
            staged = λ k d at_k l. elim (at_or_below k l) [
              | inl here ↦
                  let same : d ≡ c = cc (sym at_k ∙ ap (get_elem? changes) here ∙ at_i) in
                  let replaced : d.replacement ≡ some b =
                    ap (λ (d : PlannedChange). d.replacement) same ∙ e_b in
                  ap (set_at i (some b) t.stage) here
                  ∙ set_at-same i (some b) t.stage
                  ∙ sym replaced
              | inr below ↦
                  set_at-other i k (some b) t.stage (omega arith) ∙ r.staged k d at_k below
            ];
            unstaged =
                λ k l. set_at-other i k (some b) t.stage (omega arith) ∙ r.unstaged k (omega arith);
          },
        )

    stage_none : c.replacement ≡ none → (w : World) → Holds (Ready i) w → Holds (Ready (suc i)) w
    stage_none e_b w (t, e, r) = (
      t,
      e,
      record {
        journal = r.journal;
        marker = r.marker;
        backups = r.backups;
        whole = r.whole;
        staged = λ k d at_k l. elim (at_or_below k l) [
          | inl here ↦
              let same : d ≡ c = cc (sym at_k ∙ ap (get_elem? changes) here ∙ at_i) in
              let deleted : d.replacement ≡ none =
                ap (λ (d : PlannedChange). d.replacement) same ∙ e_b in
              r.unstaged k (omega arith) ∙ sym deleted
          | inr below ↦ r.staged k d at_k below
        ];
        unstaged = λ k l. r.unstaged k (omega arith);
      },
    )

    stage_torn : (w : World) (b : Bytes) → Holds (Ready i) w → Holds Waiting (put_stage i b w)
    unfolding put_stage
    stage_torn w b (t, e, r) =
        let f : TxDir → TxDir = λ t. record t { stage = set_at i (some b) t.stage } in
        (
          r.whole,
          inr (
              inr (
                f t,
                in_store-some f w t e,
                restorable w.files (f t) r.journal r.marker r.backups r.whole,
              )),
        )

    stage_copy :
        Ends
          (Ready i)
          (when_some c.replacement (λ b. write_new (put_stage i) b))
          (λ u. Ready (suc i))
          Waiting
    stage_copy = elim (Option-cases c.replacement) [
      | inl e ↦ rw e (Ends-pure (Ready i) (Ready (suc i)) Waiting (stage_none e))
      | inr (b, e) ↦ rw e (
          Ends-write_new (Ready i) (Ready (suc i)) Waiting (put_stage i) b (Ready-Waiting i)
            (stage_some b e) stage_torn)
    ]

    keep_original :
        (w : World) (b : Bytes)
        → Holds (Ready (suc i)) w
        → Holds (Ready (suc i)) (put_original i b w)
    unfolding put_original
    keep_original w b (t, e, r) =
        let f : TxDir → TxDir = λ t. record t { original = set_at i (some b) t.original } in
        (
          f t,
          in_store-some f w t e,
          record {
            journal = r.journal;
            marker = r.marker;
            backups = r.backups;
            whole = r.whole;
            staged = r.staged;
            unstaged = r.unstaged;
          },
        )

    original_copy :
        Ends
          (Ready (suc i))
          (when_some c.original_bytes (λ b. write_new (put_original i) b))
          (λ u. Ready (suc i))
          Waiting
    original_copy = elim (Option-cases c.original_bytes) [
      | inl e ↦ rw e (Ends-pure (Ready (suc i)) (Ready (suc i)) Waiting (λ w h. h))
      | inr (b, e) ↦ rw e (
          Ends-write_new (Ready (suc i)) (Ready (suc i)) Waiting (put_original i) b
            (Ready-Waiting (suc i)) (λ w h. keep_original w b h)
            (λ w b h. Ready-Waiting (suc i) (put_original i b w) (keep_original w b h)))
    ]

  pub write_copies-Ends :
      (i : ℕ) (cs : List PlannedChange)
      → IsSuffix false plan i cs
      → Ends (Ready i) (write_copies (enumerate i cs)) (λ u. Ready (i + length cs)) Waiting
  unfolding write_copies
  write_copies-Ends i [] h =
      let e : i ≡ i + 0 = omega arith in Ends-pure _ _ _ (λ w p. subst (λ n. Holds (Ready n) w) e p)
  write_copies-Ends i (c ∷ cs) h =
      let e : suc i + length cs ≡ i + suc (length cs) = omega arith in
      let at_i : get_elem? changes i ≡ some c = IsSuffix-head false plan i c cs h in
      Ends-bind (Ready i) _ _ (stage_copy i c at_i) (λ u.
        Ends-bind (Ready (suc i)) _ _ (original_copy i c at_i) (λ u.
          subst
            (λ n. Ends (Ready (suc i)) (write_copies (enumerate (suc i) cs)) (λ u. Ready n) Waiting)
            e (write_copies-Ends (suc i) cs (IsSuffix-next false plan i c cs h))))

  in_range :
      (cs : List PlannedChange) (k : ℕ) (c : PlannedChange)
      → get_elem? cs k ≡ some c
      → k < length cs
  in_range [] k c h = absurd (cc h)
  in_range (d ∷ cs) zero c h = omega arith
  in_range (d ∷ cs) (suc k) c h = let l : k < length cs = in_range cs k c h in omega arith

  pub all_prepared : (w : World) → Holds (Ready (length changes)) w → Holds (At plan 0) w
  all_prepared w (t, e, r) = (
    t,
    e,
    record {
      safe = restorable w.files t r.journal r.marker r.backups r.whole;
      applied = λ k c at_k l. let impossible : ⊥ = omega arith in absurd impossible;
      pending = λ k c at_k l. r.whole c.path ∙ plan.originals k c at_k;
      staged = λ k c at_k l. r.staged k c at_k (in_range changes k c at_k);
    },
  )

  pub copies-Ends : Ends (Ready 0) (write_copies (enumerate 0 changes)) (λ u. At plan 0) Waiting
  copies-Ends =
      let e : 0 + length changes ≡ length changes = omega arith in
      Ends-weaken
        (write_copies-Ends 0 changes
          (λ n. ap (get_elem? changes) (let e : 0 + n ≡ n = omega arith in e)))
        (λ u w h. all_prepared w (subst (λ n. Holds (Ready n) w) e h)) (λ w h. h)
