-- ===== src/Patch/Disk/Simulation.antt =====
-- The program of src-tauri/src/coding_patch.rs on a disk with directories does the same as the one on
-- regular files, as long as no directory is in the way of a planned path.
use mathlib.Core.List.{Memᴰ}
use open_mind_ai.Base.{
  ℕ, zero, suc, false, Option, none, List, [], ◌∷◌, any, length, take, ◌≡◌, refl, sym, subst, ◌∙◌,
  ap, Bool-cases, inl, inr,
}
use open_mind_ai.Base.Text.{Text, text_eq, text_eq→eq, any-text_eq}
use open_mind_ai.Patch.World.{
  Bytes, World, Outcome, done, failed, failed_after, crash, crash_after, torn, torn_failed,
  crash_removing, Result, ok, err, crashed, M, pure, continue, ◌>>=◌, settle, perform, settle_write,
  write_new, set_file, next_fault, advance,
}
use open_mind_ai.Patch.Commit.{create_parents}
use open_mind_ai.Patch.Paths.{directories_of}
use open_mind_ai.Patch.Disk.{
  Disk, D, lift, give, then_do, if_ok, any_file, created, result_of, create_parent_dirs,
}

-- No planned path stands below another one.
abbrev pub NoNesting : List Text → Type 0
NoNesting paths = (p a : Text) → Memᴰ p paths → Memᴰ a (directories_of p) → Memᴰ a paths → ⊥

-- No directory at a planned path, no regular file above one, and no directory in a backup.
pub record Clear (paths : List Text) (d : Disk) : Type 0 where
  pub no_dir : (p : Text) → Memᴰ p paths → d.dirs p ≡ false
  pub no_file_above :
      (p a : Text) → Memᴰ p paths → Memᴰ a (directories_of p) → d.world.files a ≡ none
  pub no_tree : (i : ℕ) → d.trees i ≡ none

module _ {paths : List Text} (apart : NoNesting paths) where
  -- In a clear state, the action on the disk does what the one on regular files does.
  pub record Sim {A : Type 0} (m' : D A) (m : M A) : Type 0 where
    pub at :
        (d : Disk) → Clear paths d → (m d.world ≡ ((m' d).0, (m' d).1.world)) × Clear paths (m' d).1

  module _ {A B : Type 0} where
    pub Sim-then :
        {m' : D A} {m : M A} {k' : Result A → D B} {k : Result A → M B}
        → Sim m' m
        → ((r : Result A) → Sim (k' r) (k r))
        → Sim (then_do m' k') (λ w. k (m w).0 (m w).1)
    Sim-then {m' = m'} {m = m} {k' = k'} {k = k} h hs = record {
      at = λ d c.
          let (e, c') = h.at d c in
          let (f, c'') = (hs (m' d).0).at (m' d).1 c' in (ap (λ r. k r.0 r.1) e ∙ f, c'');
    }

  pub Sim-err : {A : Type 0} {e : _} → Sim {A = A} (give (err e)) (λ w. (err e, w))
  Sim-err = record { at = λ d c. (refl, c) }

  pub Sim-crashed : {A : Type 0} → Sim {A = A} (give crashed) (λ w. (crashed, w))
  Sim-crashed = record { at = λ d c. (refl, c) }

  pub Sim-ok : {A : Type 0} (a : A) → Sim (give (ok a)) (pure a)
  Sim-ok a = record { at = λ d c. (refl, c) }

  if_ok-Sim :
      {A B : Type 0} {f' : A → D B} {f : A → M B}
      → ((a : A) → Sim (f' a) (f a))
      → (r : Result A) → Sim (if_ok f' r) (λ w. continue r f w)
  if_ok-Sim h (ok a) = h a
  if_ok-Sim h (err e) = Sim-err
  if_ok-Sim h crashed = Sim-crashed

  pub Sim-bind :
      {A B : Type 0} {m' : D A} {m : M A} {f' : A → D B} {f : A → M B}
      → Sim m' m
      → ((a : A) → Sim (f' a) (f a))
      → Sim (then_do m' (if_ok f')) (m >>= f)
  Sim-bind h hs = Sim-then h (if_ok-Sim hs)

  -- Only files at planned paths change.
  abbrev pub Frames : {A : Type 0} → M A → Type 0
  Frames m = (w : World) (a : Text) → (Memᴰ a paths → ⊥) → (m w).1.files a ≡ w.files a

  pub Sim-lift : {A : Type 0} (m : M A) → Frames m → Sim (lift m) m
  Sim-lift m frames = record {
    at = λ d c. (
      refl,
      record {
        no_dir = c.no_dir;
        no_file_above = λ p a m n. frames d.world a (apart p a m n) ∙ c.no_file_above p a m n;
        no_tree = c.no_tree;
      },
    );
  }

  pub Frames-then :
      {A B : Type 0} (m : M A) (f : A → M B)
      → Frames m
      → ((a : A) → Frames (f a))
      → Frames (m >>= f)
  Frames-then m f h hs w a other = after (m w).0 (m w).1 ∙ h w a other
    where
      after : (r : Result _) (v : World) → (continue r f v).1.files a ≡ v.files a
      after (ok x) v = hs x v a other
      after (err e) v = refl
      after crashed v = refl

  settle-files :
      (o : Outcome) (effect : World → World) (w : World) (a : Text)
      → (effect w).files a ≡ w.files a
      → (settle o effect w).1.files a ≡ w.files a
  settle-files done effect w a h = h
  settle-files failed effect w a h = refl
  settle-files failed_after effect w a h = h
  settle-files crash effect w a h = refl
  settle-files crash_after effect w a h = h
  settle-files (torn b) effect w a h = refl
  settle-files (torn_failed b) effect w a h = refl
  settle-files (crash_removing j m s k o) effect w a h = refl

  pub Frames-perform :
      (effect : World → World)
      → ((w : World) (a : Text) → (Memᴰ a paths → ⊥) → (effect w).files a ≡ w.files a)
      → Frames (perform effect)
  unfolding perform
  Frames-perform effect h w a other =
      settle-files (next_fault w.faults) effect (advance w) a (h (advance w) a other)

  settle_write-files :
      (o : Outcome) (put : Bytes → World → World) (bytes : Bytes) (w : World) (a : Text)
      → ((b : Bytes) → (put b w).files a ≡ w.files a)
      → (settle_write o put bytes w).1.files a ≡ w.files a
  settle_write-files done put bytes w a h = h bytes
  settle_write-files failed put bytes w a h = refl
  settle_write-files failed_after put bytes w a h = h bytes
  settle_write-files crash put bytes w a h = refl
  settle_write-files crash_after put bytes w a h = h bytes
  settle_write-files (torn b) put bytes w a h = h b
  settle_write-files (torn_failed b) put bytes w a h = h b
  settle_write-files (crash_removing j m s k o) put bytes w a h = refl

  pub Frames-write_new :
      (put : Bytes → World → World) (bytes : Bytes)
      → ((b : Bytes) (w : World) (a : Text) → (Memᴰ a paths → ⊥) → (put b w).files a ≡ w.files a)
      → Frames (write_new put bytes)
  unfolding write_new
  Frames-write_new put bytes h w a other =
      settle_write-files (next_fault w.faults) put bytes (advance w) a
        (λ b. h b (advance w) a other)

  pub set_file-other :
      (p a : Text) (v : Option Bytes) (files : Text → Option Bytes)
      → Memᴰ p paths
      → (Memᴰ a paths → ⊥)
      → set_file p v files a ≡ files a
  set_file-other p a v files m other = elim (Bool-cases (text_eq a p)) [
    | inr e ↦ rw e refl
    | inl e ↦
        let same : p ≡ a = sym (text_eq→eq a p e) in
        absurd (other (subst (λ q. Memᴰ q paths) same m))
  ]

  -- The creation of the directories above a planned path.
  no_file_among :
      (d : Disk) (ps : List Text)
      → ((a : Text) → Memᴰ a ps → d.world.files a ≡ none)
      → any_file ps d ≡ false
  no_file_among d [] h = refl
  no_file_among d (p ∷ ps) h =
      rw (h p (Memᴰ.head refl)) (no_file_among d ps (λ a m. h a (Memᴰ.tail m)))

  take-Memᴰ : (n : ℕ) (a : Text) (ps : List Text) → Memᴰ a (take n ps) → Memᴰ a ps
  take-Memᴰ zero a ps m = elim m [ ]
  take-Memᴰ (suc n) a [] m = elim m [ ]
  take-Memᴰ (suc n) a (p ∷ ps) (Memᴰ.head e) = Memᴰ.head e
  take-Memᴰ (suc n) a (p ∷ ps) (Memᴰ.tail m) = Memᴰ.tail (take-Memᴰ n a ps m)

  created-Memᴰ : (o : Outcome) (a : Text) (ps : List Text) → Memᴰ a (created o ps) → Memᴰ a ps
  created-Memᴰ done a ps m = m
  created-Memᴰ failed a ps m = elim m [ ]
  created-Memᴰ failed_after a ps m = m
  created-Memᴰ crash a ps m = elim m [ ]
  created-Memᴰ crash_after a ps m = m
  created-Memᴰ (torn b) a ps m = take-Memᴰ (length b) a ps m
  created-Memᴰ (torn_failed b) a ps m = take-Memᴰ (length b) a ps m
  created-Memᴰ (crash_removing j q s k o) a ps m = elim m [ ]

  settle-nothing : (o : Outcome) (w : World) → settle o (λ w. w) w ≡ (result_of o, w)
  settle-nothing done w = refl
  settle-nothing failed w = refl
  settle-nothing failed_after w = refl
  settle-nothing crash w = refl
  settle-nothing crash_after w = refl
  settle-nothing (torn b) w = refl
  settle-nothing (torn_failed b) w = refl
  settle-nothing (crash_removing j m s k o) w = refl

  pub Sim-create_parents : (p : Text) → Memᴰ p paths → Sim (create_parent_dirs p) create_parents
  unfolding create_parent_dirs create_parents perform
  Sim-create_parents p planned = record {
    at = λ d c.
        let way : any_file (directories_of p) d ≡ false =
          no_file_among d (directories_of p) (λ a m. c.no_file_above p a planned m) in
        let o = next_fault d.world.faults in
        rw way (
          settle-nothing o (advance d.world),
          record {
            no_dir = λ q m. elim (Bool-cases (any (text_eq q) (created o (directories_of p)))) [
              | inr e ↦ rw e (c.no_dir q m)
              | inl e ↦ absurd (
                  apart p q planned
                    (created-Memᴰ o q (directories_of p)
                      (any-text_eq q (created o (directories_of p)) e))
                    m)
            ];
            no_file_above = c.no_file_above;
            no_tree = c.no_tree;
          },
        );
  }
