-- ===== src/Examples/PatchExamples.antt =====
-- src-tauri/src/coding_patch.rs: a replacement, and a creation in a new directory, in one transaction.
use mathlib.Core.List.{Memᴰ}
use open_mind_ai.Base.{
  ℕ, zero, suc, ◌≡◌, refl, sym, ◌∙◌, ap, subst, ◌≢◌, true, false, Option, none, some, List, [], ◌∷◌,
  ◌==◌, if◌then◌else◌,
}
use open_mind_ai.Base.Text.{Text, text, text_eq}
use open_mind_ai.Patch.World.{
  World, Outcome, ok, done, failed, crash, rollback_failed, err, crashed, perform, write_new,
  durable_remove_dir_all,
}
use open_mind_ai.Patch.Commit.{
  move_from_stage, write_marker, PlannedChange, commit_transaction, rollback_transaction,
  rollback_entry, rollback_by, roll_back, remove_file, put_file, create_parents, move_from_backup,
  prepare, apply_all,
}
use open_mind_ai.Patch.Commit.Invariant.{IsPlanFor, get_elem?}
use open_mind_ai.Patch.Commit.Atomic.{Leaves}
use open_mind_ai.Patch.Recovery.Crash.{IsRecovered, write_changes}
use open_mind_ai.Patch.Paths.{Platform, Component, normal_component, directories_of, resolve_target}
use open_mind_ai.Patch.Disk.{
  Disk, commit_on_disk, create_parent_dirs, rollback_on_disk, remove_transaction,
}
use open_mind_ai.Patch.Disk.Recover.{recover_on_disk}
use open_mind_ai.Patch.Disk.Simulation.{NoNesting, Clear}
use open_mind_ai.Patch.Disk.Undo.{paths_of}
use open_mind_ai.Patch.Disk.Theorems.{
  IsStable, restart_disk, write_on_disk, commit_on_disk-Leaves, recover_on_disk-IsRecovered,
}

abbrev main_change : PlannedChange
main_change = record {
  path = text "main.rs";
  original_bytes = some (1 ∷ []);
  replacement = some (2 ∷ []);
}

abbrev util_change : PlannedChange
util_change = record {
  path = text "src/util.rs";
  original_bytes = none;
  replacement = some (3 ∷ []);
}

abbrev two_changes : List PlannedChange
two_changes = main_change ∷ util_change ∷ []

abbrev disk : List Outcome → World
disk faults = record {
  files = λ p. if text_eq p (text "main.rs") then some (1 ∷ []) else none;
  store = none;
  faults = faults;
}

distinct_paths : text "main.rs" ≢ text "src/util.rs"
distinct_paths e = let h : true ≡ false = ap (text_eq (text "main.rs")) e in absurd (cc h)

two_originals :
    (faults : List Outcome) (k : ℕ) (c : PlannedChange)
    → get_elem? two_changes k ≡ some c
    → (disk faults).files c.path ≡ c.original_bytes
two_originals faults zero c h =
    let same : main_change ≡ c = cc h in
    subst (λ (c : PlannedChange). (disk faults).files c.path ≡ c.original_bytes) same refl
two_originals faults (suc zero) c h =
    let same : util_change ≡ c = cc h in
    subst (λ (c : PlannedChange). (disk faults).files c.path ≡ c.original_bytes) same refl
two_originals faults (suc (suc k)) c h = absurd (cc h)

abbrev path_at : ℕ → Option Text
path_at k = elim (get_elem? two_changes k) as (λ _. Option Text) [
  | none ↦ none
  | some c ↦ some c.path
]

path_at-some :
    (k : ℕ) (c : PlannedChange) → get_elem? two_changes k ≡ some c → path_at k ≡ some c.path
path_at-some k c h = rw h refl

path_at_unique : (j k : ℕ) (p : Text) → path_at j ≡ some p → path_at k ≡ some p → j ≡ k
path_at_unique zero zero p e f = refl
path_at_unique (suc zero) (suc zero) p e f = refl
path_at_unique zero (suc zero) p e f =
    let h : text "main.rs" ≡ text "src/util.rs" = cc (e ∙ sym f) in absurd (distinct_paths h)
path_at_unique (suc zero) zero p e f =
    let h : text "main.rs" ≡ text "src/util.rs" = cc (f ∙ sym e) in absurd (distinct_paths h)
path_at_unique (suc (suc j)) k p e f = absurd (cc e)
path_at_unique j (suc (suc k)) p e f = absurd (cc f)

two_plan : (faults : List Outcome) → IsPlanFor (disk faults).files two_changes
two_plan faults = record {
  originals = two_originals faults;
  unique = λ j k c d at_j at_k same.
      path_at_unique j k c.path (path_at-some j c at_j)
        (path_at-some k d at_k ∙ ap some (sym same));
}

-- The process dies when the original is out of the way and its replacement is not in place.
abbrev in_between : List Outcome
in_between = done ∷ done ∷ done ∷ done ∷ done ∷ done ∷ done ∷ crash ∷ []

half_applied :
    ((write_changes two_changes (disk in_between)).0 ≡ crashed)
    × ((write_changes two_changes (disk in_between)).1.files (text "main.rs") ≡ none)
unfolding prepare apply_all perform write_new
half_applied = (refl, refl)

-- The replacement cannot be put in place, and neither can the backup: the transaction reports a failed
-- roll-back and still removes its directory, with the only backup of the file.
abbrev both_fail : List Outcome
both_fail = done ∷ done ∷ done ∷ done ∷ done ∷ done ∷ done ∷ failed ∷ done ∷ failed ∷ []

lost_original :
    let (r, w) = commit_transaction two_changes (disk both_fail) in
    (r ≡ err rollback_failed) × (w.files (text "main.rs") ≡ none) × (w.store ≡ none)
unfolding commit_transaction prepare apply_all perform write_new rollback_transaction roll_back
    rollback_entry rollback_by remove_file put_file create_parents move_from_backup
    durable_remove_dir_all
lost_original = (refl, refl, refl)

-- Paths in the form of Unix, all in scope.
abbrev before_name : ℕ → List Text → List Text
before_name c [] = (c ∷ []) ∷ []
before_name c (name ∷ names) = (c ∷ name) ∷ names

abbrev split_path : Text → List Text
split_path [] = [] ∷ []
split_path (c ∷ rest) =
    let names = split_path rest in if c == 47 then [] ∷ names else before_name c names

abbrev normal_components : List Text → List Component
normal_components [] = []
normal_components (name ∷ names) = normal_component name ∷ normal_components names

abbrev unix : Platform
unix = record {
  components = λ p. normal_components (split_path p);
  is_absolute = λ p. false;
  in_scope = λ p. true;
}

abbrev whole_disk : List Outcome → Disk
whole_disk faults = record { world = disk faults; dirs = λ p. false; trees = λ i. none }

one_of_two :
    (P : Text → Type 0) (p : Text)
    → P (text "main.rs")
    → P (text "src/util.rs")
    → Memᴰ p (paths_of two_changes)
    → P p
one_of_two P p h k (Memᴰ.head e) = subst P (sym e) h
one_of_two P p h k (Memᴰ.tail (Memᴰ.head e)) = subst P (sym e) k
one_of_two P p h k (Memᴰ.tail (Memᴰ.tail m)) = elim m [ ]

above_main : (Q : Text → Type 0) (a : Text) → Memᴰ a (directories_of (text "main.rs")) → Q a
above_main Q a m = elim m [ ]

above_util :
    (Q : Text → Type 0) (a : Text)
    → Q (text "src")
    → Memᴰ a (directories_of (text "src/util.rs"))
    → Q a
above_util Q a h (Memᴰ.head e) = subst Q (sym e) h
above_util Q a h (Memᴰ.tail m) = elim m [ ]

src_not_planned : Memᴰ (text "src") (paths_of two_changes) → ⊥
src_not_planned (Memᴰ.head e) = let h : true ≡ false = ap (text_eq (text "src")) e in absurd (cc h)
src_not_planned (Memᴰ.tail (Memᴰ.head e)) =
    let h : true ≡ false = ap (text_eq (text "src")) e in absurd (cc h)
src_not_planned (Memᴰ.tail (Memᴰ.tail m)) = elim m [ ]

two_apart : NoNesting (paths_of two_changes)
two_apart p a m =
    one_of_two (λ p. Memᴰ a (directories_of p) → Memᴰ a (paths_of two_changes) → ⊥) p
      (above_main (λ a. Memᴰ a (paths_of two_changes) → ⊥) a)
      (above_util (λ a. Memᴰ a (paths_of two_changes) → ⊥) a src_not_planned) m

two-IsStable : IsStable unix two_changes
two-IsStable p m = one_of_two (λ p. resolve_target unix p ≡ some p) p refl refl m

two-Clear : (faults : List Outcome) → Clear (paths_of two_changes) (whole_disk faults)
two-Clear faults = record {
  no_dir = λ p m. refl;
  no_file_above = λ p a m.
      one_of_two (λ p. Memᴰ a (directories_of p) → (disk faults).files a ≡ none) p
        (above_main (λ a. (disk faults).files a ≡ none) a)
        (above_util (λ a. (disk faults).files a ≡ none) a refl) m;
  no_tree = λ i. refl;
}

-- The replacement cannot be put in place.
abbrev one_fails : List Outcome
one_fails = done ∷ done ∷ done ∷ done ∷ done ∷ done ∷ done ∷ failed ∷ []

commit_on_disk-Leaves_example :
    let (r, d) = commit_on_disk unix two_changes (whole_disk one_fails) in
    Leaves (two_plan one_fails) r d.world.files × Clear (paths_of two_changes) d
commit_on_disk-Leaves_example =
    commit_on_disk-Leaves unix (whole_disk one_fails) two_changes (two_plan one_fails) two_apart
      two-IsStable (two-Clear one_fails) refl

recover_on_disk-IsRecovered_example :
    let (n, d) =
      recover_on_disk unix (restart_disk (write_on_disk two_changes (whole_disk in_between)).1) in
    IsRecovered (two_plan in_between) (n, d.world)
recover_on_disk-IsRecovered_example =
    recover_on_disk-IsRecovered unix (whole_disk in_between) two_changes (two_plan in_between)
      two_apart two-IsStable (two-Clear in_between) refl refl

-- A file below a second planned path: the transaction reports success, and the first file is lost.
abbrev nested_changes : List PlannedChange
nested_changes =
    (record { path = text "a/b"; original_bytes = none; replacement = some (4 ∷ []) })
    ∷ (record { path = text "a"; original_bytes = none; replacement = some (5 ∷ []) })
    ∷ []

lost_creation :
    let (r, d) = commit_on_disk unix nested_changes (whole_disk []) in
    (r ≡ ok true) × (d.world.files (text "a/b") ≡ none)
unfolding commit_on_disk create_parent_dirs rollback_on_disk remove_transaction prepare perform
    write_new durable_remove_dir_all move_from_stage write_marker
lost_creation = (refl, refl)

-- A path with a blank in front is another one for the roll-back.
blank_dropped : resolve_target unix (text " main.rs") ≡ some (text "main.rs")
blank_dropped = refl
