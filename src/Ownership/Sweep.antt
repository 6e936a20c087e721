-- ===== src/Ownership/Sweep.antt =====
-- The sweep of the registry of src-tauri/src/process_ownership.rs.
use mathlib.Core.List.{Memᴰ}
use open_mind_ai.Base.{
  ℕ, suc, ◌+◌, ◌≡◌, ◌≢◌, refl, sym, ◌∙◌, ap, Bool, true, false, Option, none, some, List, [], ◌∷◌,
  length, Bool-cases, inl, inr, arith,
}
use open_mind_ai.Base.Text.{text_eq→eq, text_eq_refl}
use open_mind_ai.Ownership.{
  ProcessIdentity, OwnedRecord, same_identity, found, Swept, attempted, sweep_records, sweep_with,
}

same_identity-eq : (a b : ProcessIdentity) → same_identity a b ≡ true → a ≡ b
same_identity-eq a b h =
    let p : a.pid ≡ b.pid = ground arith in
    let s : a.started ≡ b.started = ground arith in
    let x : a.executable ≡ b.executable = text_eq→eq a.executable b.executable (ground arith) in
    cc (p, s, x)

same_identity_refl : (a : ProcessIdentity) → same_identity a a ≡ true
same_identity_refl a = ground (arith, text_eq_refl a.executable)

found-some : (o : Option ProcessIdentity) (b : ProcessIdentity) → found o b ≡ true → o ≡ some b
found-some none b h = absurd (cc h)
found-some (some a) b h = ap some (same_identity-eq a b h)

found-other : (o : Option ProcessIdentity) (b : ProcessIdentity) → found o b ≡ false → o ≢ some b
found-other o b h e =
    let yes : found o b ≡ true = rw e (same_identity_refl b) in
    let clash : true ≡ false = sym yes ∙ h in cc clash

module _ {W : Type 0} (lookup : ℕ → W → Option ProcessIdentity)
    (terminate : ProcessIdentity → W → Bool × W) where
  -- An attempt is made on the child of a record, when its owner is gone and the process with the
  -- child's id is the child.
  abbrev pub IsProper : List OwnedRecord → OwnedRecord × W → Type 0
  IsProper registry (r, w) =
      Memᴰ r registry
      × (lookup r.owner.pid w ≢ some r.owner)
      × (lookup r.child.pid w ≡ some r.child)

  abbrev pub AllProper : List OwnedRecord → List (OwnedRecord × W) → Type 0
  AllProper registry [] = Unit {0}
  AllProper registry (a ∷ attempts) = IsProper registry a × AllProper registry attempts

  abbrev pub IsSweepOf : List OwnedRecord → ℕ → Swept W → Type 0
  IsSweepOf registry n s =
      AllProper registry s.attempts
      × (length s.remaining ≡ s.report.kept)
      × (s.report.kept + s.report.dropped + length s.report.terminated ≡ n)

  sweep_records-IsSweepOf :
      (registry records : List OwnedRecord) (w : W)
      → ((r : OwnedRecord) → Memᴰ r records → Memᴰ r registry)
      → IsSweepOf registry (length records) (sweep_records lookup terminate records w)
  unfolding sweep_records
  sweep_records-IsSweepOf registry [] w h = (tt, refl, refl)
  sweep_records-IsSweepOf registry (r ∷ records) w h =
      let behind : (q : OwnedRecord) → Memᴰ q records → Memᴰ q registry =
        λ q m. h q (Memᴰ.tail m) in
      let here = h r (Memᴰ.head refl) in
      elim (Bool-cases (found (lookup r.owner.pid w) r.owner)) [
        | inl e ↦
            let (proper, k, n) = sweep_records-IsSweepOf registry records w behind in
            rw e (proper, omega arith, omega arith)
        | inr e ↦ elim (Bool-cases (found (lookup r.child.pid w) r.child)) [
          | inr f ↦
              let (proper, k, n) = sweep_records-IsSweepOf registry records w behind in
              rw (e, f) (proper, omega arith, omega arith)
          | inl f ↦
              let is_proper : IsProper registry (r, w) = (
                here,
                found-other (lookup r.owner.pid w) r.owner e,
                found-some (lookup r.child.pid w) r.child f,
              ) in
              let rest = sweep_records-IsSweepOf registry records (terminate r.child w).1 behind in
              rw (e, f) (tried r w (terminate r.child w).0 (length records) _ is_proper rest)
        ]
      ]
    where
      tried :
          (r : OwnedRecord) (w : W) (ended : Bool) (n : ℕ) (s : Swept W)
          → IsProper registry (r, w)
          → IsSweepOf registry n s
          → IsSweepOf registry (suc n) (attempted lookup terminate r w ended s)
      tried r w true n s p (proper, k, total) = ((p, proper), k, omega arith)
      tried r w false n s p (proper, k, total) = ((p, proper), k, omega arith)

  -- A sweep tries to end a process only if it is the child of a record whose owner no longer runs, by
  -- process id, start and executable. It accounts for every record once, as kept, dropped or
  -- terminated, and when the write succeeds the registry is left with as many records as are kept.
  pub sweep_with-IsSweepOf :
      (registry : List OwnedRecord) (w : W)
      → IsSweepOf registry (length registry) (sweep_with lookup terminate true registry w).0
        × (length (sweep_with lookup terminate true registry w).1
            ≡ (sweep_with lookup terminate true registry w).0.report.kept)
  unfolding sweep_with
  sweep_with-IsSweepOf registry w =
      let s = sweep_records-IsSweepOf registry registry w (λ r m. m) in (s, s.1)
