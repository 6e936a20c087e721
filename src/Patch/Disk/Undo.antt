-- ===== src/Patch/Disk/Undo.antt =====
-- `rollback_transaction`, the removal of the transaction directory and `commit_transaction` of
-- src-tauri/src/coding_patch.rs, on the disk and on regular files.
use mathlib.Core.List.{Memᴰ, reverse-cons}
use open_mind_ai.Base.{
  ℕ, suc, Bool, true, false, ◌||◌, Option, none, some, List, [], ◌∷◌, ◌++◌, reverse, ◌≡◌, refl, sym,
  subst, ◌∙◌, ap,
}
use open_mind_ai.Base.Text.{Text}
use open_mind_ai.Patch.World.{
  JournalEntry, TxDir, World, Outcome, done, failed, failed_after, crash, crash_after, torn,
  torn_failed, crash_removing, Result, Failure, rolled_back, rollback_failed, ok, err, crashed,
  fail, continue, ◌>>◌, read_store, settle_removal, durable_remove_dir_all, next_fault, advance,
}
use open_mind_ai.Patch.Commit.{
  PlannedChange, is_some, enumerate, prepare, journal_of, was_ok, apply_all, rollback_entry,
  roll_back, rollback_transaction, ignore_error, remove_and_report, after_roll_back,
  after_application, commit_transaction,
}
use open_mind_ai.Patch.Paths.{Platform, resolve_target}
use open_mind_ai.Patch.Disk.{
  Tree, lift, give, then_do, if_ok, apply_closure, restore_entry, restore_each, rollback_on_disk,
  remove_transaction, trees_after, drop_error, fail_after, remove_then_fail, after_restore,
  after_closure, commit_on_disk,
}
use open_mind_ai.Patch.Disk.Simulation.{
  NoNesting, Sim, Sim-then, Sim-err, Sim-crashed, Sim-ok, Sim-bind,
}
use open_mind_ai.Patch.Disk.Programs.{
  AllPlanned, Sim-restore_target, Sim-apply_closure, Sim-prepare,
}

abbrev pub paths_of : List PlannedChange → List Text
paths_of [] = []
paths_of (c ∷ cs) = c.path ∷ paths_of cs

or_false : (b : Bool) → (b || false) ≡ b
or_false true = refl
or_false false = refl

removal-files : (o : Outcome) (w : World) → (settle_removal o w).1.files ≡ w.files
removal-files done w = refl
removal-files failed w = refl
removal-files failed_after w = refl
removal-files crash w = refl
removal-files crash_after w = refl
removal-files (torn b) w = refl
removal-files (torn_failed b) w = refl
removal-files (crash_removing j m s k o) w = refl

module _ (os : Platform) {paths : List Text} (apart : NoNesting paths)
    (stable : (p : Text) → Memᴰ p paths → resolve_target os p ≡ some p) where
  Sim-restore_entry :
      (i : ℕ) (entry : JournalEntry)
      → Memᴰ entry.relative_path paths
      → Sim apart (restore_entry os i entry) (rollback_entry i entry)
  unfolding rollback_entry
  Sim-restore_entry i entry m = record {
    at = λ d c.
        let p = entry.relative_path in
        let backed = is_some (read_store (λ t. t.backup i) d.world) in
        let original = read_store (λ t. t.original i) d.world in
        rw (stable p m, c.no_tree i, or_false backed)
          ((Sim-restore_target apart entry.original_existed backed original i p m).at d c);
  }

  abbrev AllListed : List (ℕ × JournalEntry) → Type 0
  AllListed [] = Unit {0}
  AllListed ((i, entry) ∷ entries) = Memᴰ entry.relative_path paths × AllListed entries

  Sim-restore_each :
      (entries : List (ℕ × JournalEntry))
      → AllListed entries
      → Sim apart (restore_each os entries) (roll_back entries)
  unfolding roll_back
  Sim-restore_each [] h = Sim-ok apart tt
  Sim-restore_each ((i, entry) ∷ entries) (m, h) =
      Sim-bind apart (Sim-restore_entry i entry m) (λ u. Sim-restore_each entries h)

  AllListed-++ :
      (xs ys : List (ℕ × JournalEntry)) → AllListed xs → AllListed ys → AllListed (xs ++ ys)
  AllListed-++ [] ys h k = k
  AllListed-++ (x ∷ xs) ys (m, h) k = (m, AllListed-++ xs ys h k)

  AllListed-reverse : (xs : List (ℕ × JournalEntry)) → AllListed xs → AllListed (reverse xs)
  AllListed-reverse [] h = h
  AllListed-reverse (x ∷ xs) (m, h) =
      subst AllListed (sym (reverse-cons x xs))
        (AllListed-++ (reverse xs) (x ∷ []) (AllListed-reverse xs h) (m, tt))

  all_listed :
      (i : ℕ) (cs : List PlannedChange)
      → ((p : Text) → Memᴰ p (paths_of cs) → Memᴰ p paths)
      → AllListed (enumerate i (journal_of cs))
  all_listed i [] h = tt
  all_listed i (c ∷ cs) h =
      (h c.path (Memᴰ.head refl), all_listed (suc i) cs (λ p m. h p (Memᴰ.tail m)))

  all_planned :
      (i : ℕ) (cs : List PlannedChange)
      → ((p : Text) → Memᴰ p (paths_of cs) → Memᴰ p paths)
      → AllPlanned apart (enumerate i cs)
  all_planned i [] h = tt
  all_planned i (c ∷ cs) h =
      (h c.path (Memᴰ.head refl), all_planned (suc i) cs (λ p m. h p (Memᴰ.tail m)))

  Sim-give : {A : Type 0} (r : Result A) → Sim apart (give r) (λ w. (r, w))
  Sim-give r = record { at = λ d c. (refl, c) }

  no_tree_after :
      (s : Option TxDir) (trees : ℕ → Option Tree) (i : ℕ)
      → trees i ≡ none
      → trees_after os s trees i ≡ none
  no_tree_after none trees i h = refl
  no_tree_after (some t) trees i h = h

  pub Sim-remove_transaction : Sim apart (remove_transaction os) durable_remove_dir_all
  unfolding remove_transaction durable_remove_dir_all
  Sim-remove_transaction = record {
    at = λ d c.
        let o = next_fault d.world.faults in
        let same = removal-files o (advance d.world) in
        (
          refl,
          record {
            no_dir = c.no_dir;
            no_file_above = λ p a m n. ap (λ f. f a) same ∙ c.no_file_above p a m n;
            no_tree = λ i.
                no_tree_after (settle_removal o (advance d.world)).1.store d.trees i (c.no_tree i);
          },
        );
  }

  module _ (planned : List PlannedChange)
      (listed : (p : Text) → Memᴰ p (paths_of planned) → Memᴰ p paths) where
    pub Sim-rollback :
        Sim apart
          (rollback_on_disk os (journal_of planned))
          (rollback_transaction (journal_of planned))
    unfolding rollback_on_disk rollback_transaction
    Sim-rollback =
        Sim-restore_each (reverse (enumerate 0 (journal_of planned)))
          (AllListed-reverse (enumerate 0 (journal_of planned)) (all_listed 0 planned listed))

    pub Sim-closure : Sim apart (apply_closure planned) (apply_all planned)
    Sim-closure = Sim-apply_closure apart planned (all_planned 0 planned listed)

    Sim-removed :
        Sim apart
          (then_do (remove_transaction os) (drop_error os))
          (ignore_error durable_remove_dir_all)
    Sim-removed =
        Sim-then apart {m' = remove_transaction os} {m = durable_remove_dir_all}
          {k' = drop_error os} {k = λ r w. (was_ok r, w)} Sim-remove_transaction
          (λ r. Sim-give (was_ok r))

    Sim-fail :
        (e : Failure) (r : Result Bool)
        → Sim apart (fail_after os e r) (λ w. continue r (λ cleaned. fail e) w)
    Sim-fail e (ok cleaned) = Sim-err apart
    Sim-fail e (err f) = Sim-err apart
    Sim-fail e crashed = Sim-crashed apart

    Sim-remove_then_fail : (e : Failure) → Sim apart (remove_then_fail os e) (remove_and_report e)
    Sim-remove_then_fail e =
        Sim-then apart {m' = then_do (remove_transaction os) (drop_error os)}
          {m = ignore_error durable_remove_dir_all} {k' = fail_after os e}
          {k = λ r w. continue r (λ cleaned. fail e) w} Sim-removed (Sim-fail e)

    Sim-after_restore : (r : Result (Unit {0})) → Sim apart (after_restore os r) (after_roll_back r)
    Sim-after_restore (ok u) = Sim-remove_then_fail rolled_back
    Sim-after_restore (err e) = Sim-remove_then_fail rollback_failed
    Sim-after_restore crashed = Sim-crashed apart

    Sim-after_closure :
        (r : Result (Unit {0}))
        → Sim apart (after_closure os planned r) (after_application planned r)
    Sim-after_closure (ok u) = Sim-removed
    Sim-after_closure (err e) =
        Sim-then apart {m' = rollback_on_disk os (journal_of planned)}
          {m = rollback_transaction (journal_of planned)} {k' = after_restore os}
          {k = after_roll_back} Sim-rollback Sim-after_restore
    Sim-after_closure crashed = Sim-crashed apart

    pub Sim-commit : Sim apart (commit_on_disk os planned) (commit_transaction planned)
    unfolding commit_on_disk commit_transaction
    Sim-commit =
        Sim-bind apart {m' = lift (prepare planned)} {m = prepare planned}
          {f' = λ u. then_do (apply_closure planned) (after_closure os planned)}
          {f = λ u w. after_application planned (apply_all planned w).0 (apply_all planned w).1}
          (Sim-prepare apart planned)
          (λ u.
            Sim-then apart {m' = apply_closure planned} {m = apply_all planned}
              {k' = after_closure os planned} {k = after_application planned} Sim-closure
              Sim-after_closure)

    pub Sim-write :
        Sim apart
          (λ d. then_do (lift (prepare planned)) (if_ok (λ u. apply_closure planned)) d)
          (prepare planned >> apply_all planned)
    Sim-write =
        Sim-bind apart {m' = lift (prepare planned)} {m = prepare planned}
          {f' = λ u. apply_closure planned} {f = λ u. apply_all planned} (Sim-prepare apart planned)
          (λ u. Sim-closure)
