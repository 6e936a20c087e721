-- ===== src/ImageJobs/Isolation.antt =====
-- A job of src-tauri/src/image_jobs.rs is cancelled on its own.
use mathlib.Core.Option.{some-injective}
use mathlib.Core.List.{Memᴰ}
use open_mind_ai.Base.{
  ℕ, suc, ◌<◌, ◌≡◌, refl, ap, true, false, ◌||◌, Option, none, some, List, [], ◌∷◌, ◌==◌,
  Bool-cases, Option-cases, inl, inr, arith,
}
use open_mind_ai.Base.Text.{Text, text_eq, text_eq→eq}
use open_mind_ai.ImageJobs.{
  ImageJobGuard, ActiveImageJobs, no_jobs, token_of, contains_key, remove, is_cancelled, start,
  cancel_token, cancel, drop_guard, Call, start_job, cancel_job, drop_job, run_call, run_calls,
}

-- Every token is below a bound.
abbrev AllBelow : ℕ → List ImageJobGuard → Type 0
AllBelow n [] = Unit {0}
AllBelow n (g ∷ gs) = (g.cancellation < n) × AllBelow n gs

-- Each artifact has one job at most, and later jobs have larger tokens.
abbrev IsOrdered : List ImageJobGuard → Type 0
IsOrdered [] = Unit {0}
IsOrdered (g ∷ gs) =
    (contains_key g.artifact_id gs ≡ false) × AllBelow g.cancellation gs × IsOrdered gs

record IsValid (s : ActiveImageJobs) : Type 0 where
  held : s.jobs ≡ s.guards
  ordered : IsOrdered s.guards
  below : AllBelow s.next s.guards

AllBelow-suc : (n : ℕ) (gs : List ImageJobGuard) → AllBelow n gs → AllBelow (suc n) gs
AllBelow-suc n [] h = tt
AllBelow-suc n (g ∷ gs) (h, all) = (omega arith, AllBelow-suc n gs all)

remove-AllBelow :
    (n : ℕ) (a : Text) (gs : List ImageJobGuard) → AllBelow n gs → AllBelow n (remove a gs)
remove-AllBelow n a [] h = tt
remove-AllBelow n a (g ∷ gs) (h, all) = elim (Bool-cases (text_eq g.artifact_id a)) [
  | inl e ↦ rw e all
  | inr e ↦ rw e (h, remove-AllBelow n a gs all)
]

contains_key-remove :
    (b a : Text) (gs : List ImageJobGuard)
    → contains_key b gs ≡ false
    → contains_key b (remove a gs) ≡ false
contains_key-remove b a [] h = refl
contains_key-remove b a (g ∷ gs) h = elim (Bool-cases (text_eq g.artifact_id a)) [
  | inl e ↦ rw e (ground arith)
  | inr e ↦ let rest = contains_key-remove b a gs (ground arith) in rw e (ground arith)
]

remove-IsOrdered : (a : Text) (gs : List ImageJobGuard) → IsOrdered gs → IsOrdered (remove a gs)
remove-IsOrdered a [] h = tt
remove-IsOrdered a (g ∷ gs) (fresh, below, ordered) = elim (Bool-cases (text_eq g.artifact_id a)) [
  | inl e ↦ rw e ordered
  | inr e ↦ rw e (
    contains_key-remove g.artifact_id a gs fresh,
    remove-AllBelow g.cancellation a gs below,
    remove-IsOrdered a gs ordered,
  )
]

start-IsValid : (a : Text) (s : ActiveImageJobs) → IsValid s → IsValid (start a s).1
unfolding start
start-IsValid a s v = elim (Bool-cases (contains_key a s.jobs)) [
  | inl e ↦ rw e v
  | inr e ↦
      let guard : ImageJobGuard = record { artifact_id = a; cancellation = s.next } in
      let fresh : contains_key a s.guards ≡ false = rw v.held at e in
      rw e (record {
        held = ap (λ gs. guard ∷ gs) v.held;
        ordered = (fresh, v.below, v.ordered);
        below = (omega arith, AllBelow-suc s.next s.guards v.below);
      })
]

cancel_token-IsValid :
    (o : Option ℕ) (s : ActiveImageJobs) → IsValid s → IsValid (cancel_token o s).1
cancel_token-IsValid none s v = v
cancel_token-IsValid (some t) s v = record { held = v.held; ordered = v.ordered; below = v.below }

drop_guard-IsValid : (a : Text) (s : ActiveImageJobs) → IsValid s → IsValid (drop_guard a s)
unfolding drop_guard
drop_guard-IsValid a s v = elim (Bool-cases (contains_key a s.guards)) [
  | inr e ↦ rw e v
  | inl e ↦ rw e (record {
    held = ap (remove a) v.held;
    ordered = remove-IsOrdered a s.guards v.ordered;
    below = remove-AllBelow s.next a s.guards v.below;
  })
]

run_calls-IsValid :
    (calls : List Call) (s : ActiveImageJobs) → IsValid s → IsValid (run_calls calls s)
unfolding run_calls run_call cancel
run_calls-IsValid [] s v = v
run_calls-IsValid (start_job a ∷ calls) s v =
    run_calls-IsValid calls (start a s).1 (start-IsValid a s v)
run_calls-IsValid (cancel_job a ∷ calls) s v =
    run_calls-IsValid calls (cancel a s).1 (cancel_token-IsValid (token_of a s.jobs) s v)
run_calls-IsValid (drop_job a ∷ calls) s v =
    run_calls-IsValid calls (drop_guard a s) (drop_guard-IsValid a s v)

contains_key-Memᴰ :
    (b : Text) (g : ImageJobGuard) (gs : List ImageJobGuard)
    → contains_key b gs ≡ false
    → Memᴰ g gs
    → text_eq g.artifact_id b ≡ false
contains_key-Memᴰ b g [] h m = elim m [ ]
contains_key-Memᴰ b g (x ∷ gs) h (Memᴰ.head e) = rw e (ground arith)
contains_key-Memᴰ b g (x ∷ gs) h (Memᴰ.tail m) = contains_key-Memᴰ b g gs (ground arith) m

AllBelow-Memᴰ :
    (n : ℕ) (g : ImageJobGuard) (gs : List ImageJobGuard)
    → AllBelow n gs
    → Memᴰ g gs
    → g.cancellation < n
AllBelow-Memᴰ n g [] all m = elim m [ ]
AllBelow-Memᴰ n g (x ∷ gs) (h, all) (Memᴰ.head e) = rw e h
AllBelow-Memᴰ n g (x ∷ gs) (h, all) (Memᴰ.tail m) = AllBelow-Memᴰ n g gs all m

token_of-lt :
    (n t : ℕ) (a : Text) (gs : List ImageJobGuard) → AllBelow n gs → token_of a gs ≡ some t → t < n
token_of-lt n t a [] all h = absurd (cc h)
token_of-lt n t a (x ∷ gs) (b, all) h = elim (Bool-cases (text_eq x.artifact_id a)) [
  | inl e ↦
      let is : some x.cancellation ≡ some t = rw e at h in
      let same : x.cancellation ≡ t = some-injective _ _ is in omega arith
  | inr e ↦ token_of-lt n t a gs all (rw e at h)
]

token_of-key :
    (a : Text) (gs : List ImageJobGuard) → token_of a gs ≡ none → contains_key a gs ≡ false
token_of-key a [] h = refl
token_of-key a (x ∷ gs) h = elim (Bool-cases (text_eq x.artifact_id a)) [
  | inl e ↦ let clash : some x.cancellation ≡ none = rw e at h in absurd (cc clash)
  | inr e ↦ rw e (token_of-key a gs (rw e at h))
]

key-token_of :
    (a : Text) (gs : List ImageJobGuard) (t : ℕ) → token_of a gs ≡ some t → contains_key a gs ≡ true
key-token_of a [] t h = absurd (cc h)
key-token_of a (x ∷ gs) t h = elim (Bool-cases (text_eq x.artifact_id a)) [
  | inl e ↦ rw e refl
  | inr e ↦ rw e (key-token_of a gs t (rw e at h))
]

-- The token of an artifact is that of its own job only.
token_of-own :
    (a : Text) (t : ℕ) (g : ImageJobGuard) (gs : List ImageJobGuard)
    → IsOrdered gs
    → Memᴰ g gs
    → token_of a gs ≡ some t
    → (t == g.cancellation) ≡ text_eq g.artifact_id a
token_of-own a t g [] o m h = elim m [ ]
token_of-own a t g (x ∷ gs) (fresh, below, ordered) m h =
    elim (Bool-cases (text_eq x.artifact_id a)) [
      | inr e ↦
          let later : token_of a gs ≡ some t = rw e at h in
          elim m [
            | Memᴰ.head k ↦
                let lt = token_of-lt x.cancellation t a gs below later in rw (k, e) (ground arith)
            | Memᴰ.tail k ↦ token_of-own a t g gs ordered k later
          ]
      | inl e ↦
          let is : some x.cancellation ≡ some t = rw e at h in
          let same : x.cancellation ≡ t = some-injective _ _ is in
          elim m [
            | Memᴰ.head k ↦ rw (k, e) (ground arith)
            | Memᴰ.tail k ↦
                let lt = AllBelow-Memᴰ x.cancellation g gs below k in
                let key : x.artifact_id ≡ a = text_eq→eq x.artifact_id a e in
                let other : text_eq g.artifact_id x.artifact_id ≡ false =
                  contains_key-Memᴰ x.artifact_id g gs fresh k in
                rw (← key, other) (ground arith)
          ]
    ]

cancel_token-own :
    (a : Text) (g : ImageJobGuard) (s : ActiveImageJobs)
    → IsValid s
    → Memᴰ g s.guards
    → ((cancel a s).0 ≡ contains_key a s.guards)
      × (is_cancelled (cancel a s).1 g.cancellation
          ≡ (text_eq g.artifact_id a || is_cancelled s g.cancellation))
unfolding cancel
cancel_token-own a g s v m = elim (Option-cases (token_of a s.jobs)) [
  | inl e ↦
      let no_token : token_of a s.guards ≡ none = rw v.held at e in
      let no_key = token_of-key a s.guards no_token in
      let other = contains_key-Memᴰ a g s.guards no_key m in rw (e, no_key, other) (refl, refl)
  | inr (t, e) ↦
      let token : token_of a s.guards ≡ some t = rw v.held at e in
      let own = token_of-own a t g s.guards v.ordered m token in
      rw (e, key-token_of a s.guards t token, own) (refl, refl)
]

-- After any sequence of starts, cancellations and drops of guards, the cancellation of an artifact
-- reports whether it has a job, and marks the token of that job and of no other.
pub cancel-own :
    (calls : List Call) (a : Text) (g : ImageJobGuard)
    → Memᴰ g (run_calls calls no_jobs).guards
    → ((cancel a (run_calls calls no_jobs)).0 ≡ contains_key a (run_calls calls no_jobs).guards)
      × (is_cancelled (cancel a (run_calls calls no_jobs)).1 g.cancellation
          ≡ (text_eq g.artifact_id a || is_cancelled (run_calls calls no_jobs) g.cancellation))
cancel-own calls a g m =
    cancel_token-own a g (run_calls calls no_jobs)
      (run_calls-IsValid calls no_jobs (record { held = refl; ordered = tt; below = tt })) m
