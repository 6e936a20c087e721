-- ===== src/Patch/Disk/Programs.antt =====
-- The parts of `commit_transaction` and of the recovery of src-tauri/src/coding_patch.rs, on the disk and on
-- regular files.
use mathlib.Core.List.{Memᴰ}
use open_mind_ai.Base.{
  ℕ, Bool, true, false, not, Option, none, some, List, [], ◌∷◌, ◌≡◌, refl, Bool-cases, inl, inr,
}
use open_mind_ai.Base.Text.{Text}
use open_mind_ai.Patch.World.{
  Bytes, TxDir, World, M, ◌>>◌, perform, write_new, read_store, in_store, empty_dir,
}
use open_mind_ai.Patch.Commit.{
  PlannedChange, is_some, when, when_some, exists, enumerate, create_parents, move_to_backup,
  move_from_stage, move_from_backup, remove_file, put_file, put_stage, put_original, prepare,
  write_copies, write_marker, journal_of, apply_change, apply_changes, apply_all, rollback_by,
}
use open_mind_ai.Patch.Disk.{
  lift, when_do, is_file, target_exists, move_target_away, apply_planned, apply_each, apply_closure,
  remove_regular_file, move_backup_back, copy_original, restore_target,
}
use open_mind_ai.Patch.Disk.Simulation.{
  NoNesting, Sim, Sim-ok, Sim-bind, Frames, Sim-lift, Frames-then, Frames-perform, Frames-write_new,
  set_file-other, Sim-create_parents,
}

module _ {paths : List Text} (apart : NoNesting paths) where
  Frames-move_to_backup :
      (i : ℕ) (p : Text) → Memᴰ p paths → Frames apart (perform (move_to_backup i p))
  unfolding move_to_backup
  Frames-move_to_backup i p m =
      Frames-perform apart (move_to_backup i p)
        (λ w a other. set_file-other apart p a none w.files m other)

  Frames-move_from_stage :
      (i : ℕ) (p : Text) → Memᴰ p paths → Frames apart (perform (move_from_stage i p))
  unfolding move_from_stage
  Frames-move_from_stage i p m =
      Frames-perform apart (move_from_stage i p)
        (λ w a other. set_file-other apart p a (read_store (λ t. t.stage i) w) w.files m other)

  Frames-move_from_backup :
      (i : ℕ) (p : Text) → Memᴰ p paths → Frames apart (perform (move_from_backup i p))
  unfolding move_from_backup
  Frames-move_from_backup i p m =
      Frames-perform apart (move_from_backup i p)
        (λ w a other. set_file-other apart p a (read_store (λ t. t.backup i) w) w.files m other)

  Frames-remove_file : (p : Text) → Memᴰ p paths → Frames apart (perform (remove_file p))
  unfolding remove_file
  Frames-remove_file p m =
      Frames-perform apart (remove_file p)
        (λ w a other. set_file-other apart p a none w.files m other)

  Frames-put_file : (p : Text) (b : Bytes) → Memᴰ p paths → Frames apart (write_new (put_file p) b)
  unfolding put_file
  Frames-put_file p b m =
      Frames-write_new apart (put_file p) b
        (λ c w a other. set_file-other apart p a (some c) w.files m other)

  Sim-move_to_backup :
      (i : ℕ) (p : Text)
      → Memᴰ p paths
      → Sim apart
          (λ d. when_do (target_exists p d) (move_target_away i p) d)
          (λ w. when (exists p w) (perform (move_to_backup i p)) w)
  Sim-move_to_backup i p m = record {
    at = λ d c. elim (Bool-cases (is_file p d)) [
      | inl e ↦
          rw (c.no_dir p m, e)
            (rw (move_target_away, e)
              ((Sim-lift apart (perform (move_to_backup i p)) (Frames-move_to_backup i p m)).at d
                c))
      | inr e ↦ rw (c.no_dir p m, e) (refl, c)
    ];
  }

  Sim-remove_regular_file :
      (p : Text)
      → Memᴰ p paths
      → Sim apart
          (λ d. when_do (target_exists p d) (remove_regular_file p) d)
          (λ w. when (exists p w) (perform (remove_file p)) w)
  Sim-remove_regular_file p m = record {
    at = λ d c. elim (Bool-cases (is_file p d)) [
      | inl e ↦
          rw (c.no_dir p m, e)
            (rw (remove_regular_file, e)
              ((Sim-lift apart (perform (remove_file p)) (Frames-remove_file p m)).at d c))
      | inr e ↦ rw (c.no_dir p m, e) (refl, c)
    ];
  }

  Sim-move_backup_back :
      (i : ℕ) (p : Text)
      → Memᴰ p paths
      → Sim apart (λ d. move_backup_back i p (d.trees i) d) (perform (move_from_backup i p))
  Sim-move_backup_back i p m = record {
    at = λ d c.
        rw (c.no_tree i) (
          (Sim-lift apart (perform (move_from_backup i p)) (Frames-move_from_backup i p m)).at d c);
  }

  Sim-copy_original :
      (p : Text) (original : Option Bytes)
      → Memᴰ p paths
      → Sim apart
          (copy_original p original)
          (when_some original (λ b. do create_parents; write_new (put_file p) b))
  Sim-copy_original p none m = Sim-ok apart tt
  Sim-copy_original p (some b) m =
      Sim-bind apart (Sim-create_parents apart p m)
        (λ u. Sim-lift apart (write_new (put_file p) b) (Frames-put_file p b m))

  Sim-copy_missing :
      (p : Text) (original : Option Bytes)
      → Memᴰ p paths
      → Sim apart
          (λ d. when_do (not (target_exists p d)) (copy_original p original) d)
          (λ w.
            when
              (not (exists p w))
              (when_some original (λ b. do create_parents; write_new (put_file p) b))
              w)
  Sim-copy_missing p original m = record {
    at = λ d c. elim (Bool-cases (is_file p d)) [
      | inl e ↦ rw (c.no_dir p m, e) (refl, c)
      | inr e ↦ rw (c.no_dir p m, e) ((Sim-copy_original p original m).at d c)
    ];
  }

  pub Sim-restore_target :
      (existed backup : Bool) (original : Option Bytes) (i : ℕ) (p : Text)
      → Memᴰ p paths
      → Sim apart
          (restore_target existed backup original i p)
          (rollback_by existed backup original i p)
  unfolding rollback_by
  Sim-restore_target true true original i p m =
      Sim-bind apart (Sim-remove_regular_file p m)
        (λ u. Sim-bind apart (Sim-create_parents apart p m) (λ v. Sim-move_backup_back i p m))
  Sim-restore_target true false original i p m = Sim-copy_missing p original m
  Sim-restore_target false true original i p m = Sim-remove_regular_file p m
  Sim-restore_target false false original i p m = Sim-remove_regular_file p m

  Sim-apply_planned :
      (i : ℕ) (c : PlannedChange)
      → Memᴰ c.path paths
      → Sim apart (apply_planned i c) (apply_change i c)
  unfolding apply_change
  Sim-apply_planned i c m =
      Sim-bind apart (Sim-create_parents apart c.path m)
        (λ u. Sim-bind apart (Sim-move_to_backup i c.path m) (λ v. put (is_some c.replacement)))
    where
      put :
          (b : Bool)
          → Sim apart
              (when_do b (lift (perform (move_from_stage i c.path))))
              (when b (perform (move_from_stage i c.path)))
      put true =
          Sim-lift apart (perform (move_from_stage i c.path)) (Frames-move_from_stage i c.path m)
      put false = Sim-ok apart tt

  -- The paths of the changes, with their indices, are planned.
  abbrev pub AllPlanned : List (ℕ × PlannedChange) → Type 0
  AllPlanned [] = Unit {0}
  AllPlanned ((i, c) ∷ cs) = Memᴰ c.path paths × AllPlanned cs

  Sim-apply_each :
      (cs : List (ℕ × PlannedChange)) → AllPlanned cs → Sim apart (apply_each cs) (apply_changes cs)
  unfolding apply_changes
  Sim-apply_each [] h = Sim-ok apart tt
  Sim-apply_each ((i, c) ∷ cs) (m, h) =
      Sim-bind apart (Sim-apply_planned i c m) (λ u. Sim-apply_each cs h)

  Frames-store : (f : TxDir → TxDir) → Frames apart (perform (in_store f))
  Frames-store f = Frames-perform apart (in_store f) (λ w a other. refl)

  pub Sim-apply_closure :
      (planned : List PlannedChange)
      → AllPlanned (enumerate 0 planned)
      → Sim apart (apply_closure planned) (apply_all planned)
  unfolding apply_all write_marker
  Sim-apply_closure planned h = Sim-bind apart (Sim-apply_each (enumerate 0 planned) h) (λ u.
      Sim-lift apart (perform write_marker) (Frames-store (λ t. record t { committed = true })))

  Frames-copied :
      (o : Option Bytes) (put : Bytes → World → World)
      → ((b : Bytes) (w : World) (a : Text) → (Memᴰ a paths → ⊥) → (put b w).files a ≡ w.files a)
      → Frames apart (when_some o (λ b. write_new put b))
  Frames-copied none put h = λ w a other. refl
  Frames-copied (some b) put h = Frames-write_new apart put b h

  Frames-next : (m n : M (Unit {0})) → Frames apart m → Frames apart n → Frames apart (m >> n)
  Frames-next m n h h' = Frames-then apart m (λ u. n) h (λ u. h')

  Frames-write_copies : (cs : List (ℕ × PlannedChange)) → Frames apart (write_copies cs)
  unfolding write_copies put_stage put_original
  Frames-write_copies [] = λ w a other. refl
  Frames-write_copies ((i, c) ∷ cs) =
      Frames-next (when_some c.replacement (λ b. write_new (put_stage i) b))
        (when_some c.original_bytes (λ b. write_new (put_original i) b) >> write_copies cs)
        (Frames-copied c.replacement (put_stage i) (λ b w a other. refl))
        (Frames-next (when_some c.original_bytes (λ b. write_new (put_original i) b))
          (write_copies cs) (Frames-copied c.original_bytes (put_original i) (λ b w a other. refl))
          (Frames-write_copies cs))

  pub Sim-prepare :
      (planned : List PlannedChange) → Sim apart (lift (prepare planned)) (prepare planned)
  unfolding prepare
  Sim-prepare planned =
      let begin : World → World = λ w. record w { store = some empty_dir } in
      let journal : World → World =
        in_store (λ t. record t { journal = some (journal_of planned) }) in
      Sim-lift apart (prepare planned) (
        Frames-next (perform begin) (perform journal >> write_copies (enumerate 0 planned))
          (Frames-perform apart begin (λ w a other. refl))
          (Frames-next (perform journal) (write_copies (enumerate 0 planned))
            (Frames-store (λ t. record t { journal = some (journal_of planned) }))
            (Frames-write_copies (enumerate 0 planned))))
