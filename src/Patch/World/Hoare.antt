-- ===== src/Patch/World/Hoare.antt =====
-- Rules for what holds of the files and the store after an action, whatever its outcomes.
use open_mind_ai.Base.{Option}
use open_mind_ai.Base.Text.{Text}
use open_mind_ai.Patch.World.{
  Bytes, Outcome, done, failed, failed_after, crash, crash_after, torn, torn_failed, crash_removing,
  TxDir, World, Result, ok, err, crashed, M, pure, continue, ◌>>=◌, settle, perform, settle_write,
  write_new, next_fault, advance,
}

-- A predicate on the files and the store; the outcomes that are still to come do not matter to it.
abbrev pub Pred : Type 1
Pred = (Text → Option Bytes) → Option TxDir → Type 0

abbrev pub Holds : Pred → World → Type 0
Holds P w = P w.files w.store

-- `Q` of a result that is returned, `R` after an error or a crash.
abbrev pub After : {A : Type 0} → (A → Pred) → Pred → Result A → World → Type 0
After Q R (ok a) w = Holds (Q a) w
After Q R (err e) w = Holds R w
After Q R crashed w = Holds R w

-- From `P` the action ends in `Q`, or stops in `R`.
pub record Ends {A : Type 0} (P : Pred) (m : M A) (Q : A → Pred) (R : Pred) : Type 0 where
  pub at : (w : World) → Holds P w → After Q R (m w).0 (m w).1

module _ {A B : Type 0} (P : Pred) {Q : A → Pred} {S : B → Pred} {R : Pred} where
  After-continue :
      (f : A → M B) (r : Result A) (w : World)
      → ((a : A) → Ends (Q a) (f a) S R)
      → After Q R r w
      → After S R (continue r f w).0 (continue r f w).1
  After-continue f (ok a) w k h = (k a).at w h
  After-continue f (err e) w k h = h
  After-continue f crashed w k h = h

  pub Ends-bind :
      (m : M A) (f : A → M B)
      → Ends P m Q R
      → ((a : A) → Ends (Q a) (f a) S R)
      → Ends P (m >>= f) S R
  Ends-bind m f h k = record { at = λ w p. let (r, w') = m w in After-continue f r w' k (h.at w p) }

-- What an effect must do for each end of an operation that is made of it.
module _ (P Q R : Pred) where
  settle-Ends :
      (effect : World → World) (o : Outcome) (w : World)
      → Holds R w
      → Holds Q (effect w)
      → Holds R (effect w)
      → After (λ (u : Unit {0}). Q) R (settle o effect w).0 (settle o effect w).1
  settle-Ends effect done w r q s = q
  settle-Ends effect failed w r q s = r
  settle-Ends effect failed_after w r q s = s
  settle-Ends effect crash w r q s = r
  settle-Ends effect crash_after w r q s = s
  settle-Ends effect (torn b) w r q s = r
  settle-Ends effect (torn_failed b) w r q s = r
  settle-Ends effect (crash_removing j m st k og) w r q s = r

  pub Ends-perform :
      (effect : World → World)
      → ((w : World) → Holds P w → Holds R w)
      → ((w : World) → Holds P w → Holds Q (effect w))
      → ((w : World) → Holds P w → Holds R (effect w))
      → Ends P (perform effect) (λ u. Q) R
  unfolding perform
  Ends-perform effect r q s = record {
    at = λ w p.
        settle-Ends effect (next_fault w.faults) (advance w) (r (advance w) p) (q (advance w) p)
          (s (advance w) p);
  }

  settle_write-Ends :
      (put : Bytes → World → World) (bytes : Bytes) (o : Outcome) (w : World)
      → Holds R w
      → Holds Q (put bytes w)
      → ((b : Bytes) → Holds R (put b w))
      → After (λ (u : Unit {0}). Q) R (settle_write o put bytes w).0 (settle_write o put bytes w).1
  settle_write-Ends put bytes done w r q s = q
  settle_write-Ends put bytes failed w r q s = r
  settle_write-Ends put bytes failed_after w r q s = s bytes
  settle_write-Ends put bytes crash w r q s = r
  settle_write-Ends put bytes crash_after w r q s = s bytes
  settle_write-Ends put bytes (torn b) w r q s = s b
  settle_write-Ends put bytes (torn_failed b) w r q s = s b
  settle_write-Ends put bytes (crash_removing j m st k og) w r q s = r

  pub Ends-write_new :
      (put : Bytes → World → World) (bytes : Bytes)
      → ((w : World) → Holds P w → Holds R w)
      → ((w : World) → Holds P w → Holds Q (put bytes w))
      → ((w : World) (b : Bytes) → Holds P w → Holds R (put b w))
      → Ends P (write_new put bytes) (λ u. Q) R
  unfolding write_new
  Ends-write_new put bytes r q s = record {
    at = λ w p.
        settle_write-Ends put bytes (next_fault w.faults) (advance w) (r (advance w) p)
          (q (advance w) p) (λ b. s (advance w) b p);
  }

  pub Ends-pure : ((w : World) → Holds P w → Holds Q w) → Ends P (pure tt) (λ u. Q) R
  Ends-pure h = record { at = h }

After-weaken :
    {A : Type 0} (Q Q' : A → Pred) (R R' : Pred)
    → ((a : A) (w : World) → Holds (Q a) w → Holds (Q' a) w)
    → ((w : World) → Holds R w → Holds R' w)
    → (r : Result A) (w : World) → After Q R r w
    → After Q' R' r w
After-weaken Q Q' R R' q s (ok a) w h = q a w h
After-weaken Q Q' R R' q s (err e) w h = s w h
After-weaken Q Q' R R' q s crashed w h = s w h

pub Ends-weaken :
    {A : Type 0} {P : Pred} {m : M A} {Q Q' : A → Pred} {R R' : Pred}
    → Ends P m Q R
    → ((a : A) (w : World) → Holds (Q a) w → Holds (Q' a) w)
    → ((w : World) → Holds R w → Holds R' w)
    → Ends P m Q' R'
Ends-weaken {m = m} {Q = Q} {Q' = Q'} {R = R} {R' = R'} h q s = record {
  at = λ w p. let (r, w') = m w in After-weaken Q Q' R R' q s r w' (h.at w p);
}
