-- ===== src/Patch/Recovery/Smooth.antt =====
-- File operations that all go well: a roll-back then returns.
use open_mind_ai.Base.{
  ℕ, Bool, true, false, not, Option, none, some, List, [], ◌∷◌, ◌≡◌, refl, ◌∙◌, reverse,
}
use open_mind_ai.Base.Text.{Text}
use open_mind_ai.Patch.World.{Bytes, JournalEntry, World, ok, M, pure, ◌>>◌, perform, write_new}
use open_mind_ai.Patch.Commit.{
  when, when_some, exists, create_parents, move_from_backup, remove_file, put_file, rollback_by,
  rollback_entry, roll_back, rollback_transaction, enumerate,
}

-- With no fault to come the action returns, and leaves none.
pub record Smooth (m : M (Unit {0})) : Type 0 where
  pub returns : (w : World) → w.faults ≡ [] → (m w).0 ≡ ok tt
  pub quiet : (w : World) → w.faults ≡ [] → (m w).1.faults ≡ []

Smooth-pure : Smooth (pure tt)
Smooth-pure = record { returns = λ w h. refl; quiet = λ w h. h }

Smooth-perform :
    (effect : World → World)
    → ((w : World) → (effect w).faults ≡ w.faults)
    → Smooth (perform effect)
unfolding perform
Smooth-perform effect keeps = record {
  returns = λ w h. rw h refl;
  quiet = λ w h. rw h (keeps _ ∙ refl);
}

Smooth-write_new :
    (put : Bytes → World → World) (b : Bytes)
    → ((w : World) → (put b w).faults ≡ w.faults)
    → Smooth (write_new put b)
unfolding write_new
Smooth-write_new put b keeps = record {
  returns = λ w h. rw h refl;
  quiet = λ w h. rw h (keeps _ ∙ refl);
}

Smooth-then : (m k : M (Unit {0})) → Smooth m → Smooth k → Smooth (m >> k)
Smooth-then m k f g = record {
  returns = λ w h. rw (f.returns w h) (g.returns (m w).1 (f.quiet w h));
  quiet = λ w h. rw (f.returns w h) (g.quiet (m w).1 (f.quiet w h));
}

Smooth-when : (b : Bool) (m : M (Unit {0})) → Smooth m → Smooth (when b m)
Smooth-when true m h = h
Smooth-when false m h = Smooth-pure

Smooth-when_some :
    (o : Option Bytes) (f : Bytes → M (Unit {0}))
    → ((b : Bytes) → Smooth (f b))
    → Smooth (when_some o f)
Smooth-when_some none f h = Smooth-pure
Smooth-when_some (some b) f h = h b

-- An action that is chosen by the present world.
Smooth-chosen : (f : World → M (Unit {0})) → ((v : World) → Smooth (f v)) → Smooth (λ w. f w w)
Smooth-chosen f h = record { returns = λ w e. (h w).returns w e; quiet = λ w e. (h w).quiet w e }

rollback_by-Smooth :
    (existed backup : Bool) (original : Option Bytes) (i : ℕ) (p : Text)
    → Smooth (rollback_by existed backup original i p)
unfolding rollback_by move_from_backup remove_file put_file create_parents
rollback_by-Smooth true true original i p =
    Smooth-then (λ w. when (exists p w) (perform (remove_file p)) w) _
      (Smooth-chosen (λ v. when (exists p v) (perform (remove_file p)))
        (λ v. Smooth-when (exists p v) _ (Smooth-perform (remove_file p) (λ w. refl))))
      (Smooth-then (perform (λ w. w)) _ (Smooth-perform (λ w. w) (λ w. refl))
        (Smooth-perform (move_from_backup i p) (λ w. refl)))
rollback_by-Smooth true false original i p = Smooth-chosen _ (λ v.
    Smooth-when (not (exists p v)) _ (
      Smooth-when_some original _ (λ b.
        Smooth-then (perform (λ w. w)) _ (Smooth-perform (λ w. w) (λ w. refl))
          (Smooth-write_new (put_file p) b (λ w. refl)))))
rollback_by-Smooth false backup original i p =
    Smooth-chosen (λ v. when (exists p v) (perform (remove_file p)))
      (λ v. Smooth-when (exists p v) _ (Smooth-perform (remove_file p) (λ w. refl)))

roll_back-Smooth : (entries : List (ℕ × JournalEntry)) → Smooth (roll_back entries)
unfolding roll_back rollback_entry
roll_back-Smooth [] = Smooth-pure
roll_back-Smooth ((i, entry) ∷ entries) =
    Smooth-then (rollback_entry i entry) (roll_back entries)
      (Smooth-chosen _ (λ v. rollback_by-Smooth entry.original_existed _ _ i entry.relative_path))
      (roll_back-Smooth entries)

pub rollback_transaction-Smooth :
    (journal : List JournalEntry) → Smooth (rollback_transaction journal)
unfolding rollback_transaction
rollback_transaction-Smooth journal = roll_back-Smooth (reverse (enumerate 0 journal))
