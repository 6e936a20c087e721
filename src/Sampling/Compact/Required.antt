-- ===== src/Sampling/Compact/Required.antt =====
-- System messages and the newest message of the user survive every compaction.
use mathlib.Core.List.{Memᴰ}
use mathlib.Core.List.Memᴰ
use open_mind_ai.Base.{
  ℕ, ◌+◌, ◌≡◌, refl, ap, subst, Bool, true, false, ◌||◌, Option, some, none, List, [], ◌∷◌, ◌++◌,
  arith, length, any, Bool-cases, inl, inr, ◌⊎◌,
}
use open_mind_ai.Base.Text.{text}
use open_mind_ai.Json.{Json}
use open_mind_ai.Sampling.{role}
use open_mind_ai.Sampling.Compact.{
  ok, Window, Entry, is_index, latest_user, mark_mandatory, selected, omitted, insert_note,
  note_message, compact_chat_context,
}
use open_mind_ai.Sampling.Compact.Cut.{messages_of}
use open_mind_ai.Sampling.Compact.Keeps.{compact_chat_context-cut}

module _ (json : Json) where
  open json use {Value, eq_str}

  abbrev is_system : Value → Bool
  is_system m = eq_str (role json m) (text "system")

  abbrev is_user : Value → Bool
  is_user m = eq_str (role json m) (text "user")

  mem-selected :
      (m : Value) (es : List (Entry json)) → Memᴰ (m, true) es → Memᴰ m (selected json es)
  mem-selected m [] h = elim h [ ]
  mem-selected m ((n, true) ∷ es) (Memᴰ.head p) = Memᴰ.head (ap (λ (e : Entry json). e.0) p)
  mem-selected m ((n, true) ∷ es) (Memᴰ.tail h) = Memᴰ.tail (mem-selected m es h)
  mem-selected m ((n, false) ∷ es) (Memᴰ.head p) = absurd (cc (ap (λ (e : Entry json). e.1) p))
  mem-selected m ((n, false) ∷ es) (Memᴰ.tail h) = mem-selected m es h

  mem-messages_of :
      (m : Value) (es : List (Entry json)) → Memᴰ (m, true) es → Memᴰ m (messages_of json es)
  mem-messages_of m [] h = elim h [ ]
  mem-messages_of m ((n, b) ∷ es) (Memᴰ.head p) = Memᴰ.head (ap (λ (e : Entry json). e.0) p)
  mem-messages_of m ((n, b) ∷ es) (Memᴰ.tail h) = Memᴰ.tail (mem-messages_of m es h)

  mem-cut :
      (m : Value) (xs ys : List (Entry json))
      → Memᴰ (m, true) (xs ++ ys)
      → Memᴰ m (selected json xs ++ messages_of json ys)
  mem-cut m xs ys h = elim (Memᴰ.append_cases xs h) [
    | inl p ↦ Memᴰ.append_left (messages_of json ys) (mem-selected m xs p)
    | inr p ↦ Memᴰ.append_right (selected json xs) (mem-messages_of m ys p)
  ]

  mem-insert_note :
      (m note : Value) (ms : List Value) → Memᴰ m ms → Memᴰ m (insert_note json note ms)
  unfolding insert_note
  mem-insert_note m note [] h = elim h [ ]
  mem-insert_note m note (n ∷ ms) (Memᴰ.head p) = elim (Bool-cases (is_system n)) [
    | inl s ↦ rw s (Memᴰ.head p)
    | inr s ↦ rw s (Memᴰ.tail (Memᴰ.head p))
  ]
  mem-insert_note m note (n ∷ ms) (Memᴰ.tail h) =
      let ih : Memᴰ m (insert_note json note ms) = mem-insert_note m note ms h in
      elim (Bool-cases (is_system n)) [
        | inl s ↦ rw s (Memᴰ.tail ih)
        | inr s ↦ rw s (Memᴰ.tail (Memᴰ.tail h))
      ]

  -- The flag of the message at place `j`.
  mark-at :
      (latest : Option ℕ) (i : ℕ) (xs : List Value) (m : Value) (ys : List Value) (j : ℕ)
      → j ≡ i + length xs
      → Memᴰ (m, is_system m || is_index latest j) (mark_mandatory json latest i (xs ++ m ∷ ys))
  unfolding mark_mandatory
  mark-at latest i [] m ys j e =
      Memᴰ.head (ap (λ (k : ℕ). (m, is_system m || is_index latest k)) (omega arith))
  mark-at latest i (x ∷ xs) m ys j e = Memᴰ.tail (mark-at latest (i + 1) xs m ys j (omega arith))

  latest_user-none : (ys : List Value) → any is_user ys ≡ false → latest_user json ys ≡ none
  unfolding latest_user
  latest_user-none [] h = refl
  latest_user-none (y ∷ ys) h =
      let rest : latest_user json ys ≡ none = latest_user-none ys (ground arith) in
      let other : is_user y ≡ false = ground arith in rw (rest, other) refl

  latest_user-last :
      (xs : List Value) (m : Value) (ys : List Value)
      → is_user m ≡ true
      → any is_user ys ≡ false
      → latest_user json (xs ++ m ∷ ys) ≡ some (length xs)
  unfolding latest_user
  latest_user-last [] m ys u h = rw (latest_user-none ys h, u) refl
  latest_user-last (x ∷ xs) m ys u h = rw (latest_user-last xs m ys u h) refl

  mark-required :
      (xs : List Value) (m : Value) (ys : List Value)
      → (is_system m ≡ true) ⊎ ((is_user m ≡ true) × (any is_user ys ≡ false))
      → Memᴰ (m, true) (mark_mandatory json (latest_user json (xs ++ m ∷ ys)) 0 (xs ++ m ∷ ys))
  mark-required xs m ys (inl s) =
      let latest : Option ℕ = latest_user json (xs ++ m ∷ ys) in
      let flag : (is_system m || is_index latest (length xs)) ≡ true = rw s refl in
      subst (λ b. Memᴰ (m, b) (mark_mandatory json latest 0 (xs ++ m ∷ ys))) flag
        (mark-at latest 0 xs m ys (length xs) (omega arith))
  mark-required xs m ys (inr (u, h)) =
      let latest : Option ℕ = latest_user json (xs ++ m ∷ ys) in
      let flag : (is_system m || is_index latest (length xs)) ≡ true =
        rw (latest_user-last xs m ys u h) (ground arith) in
      subst (λ b. Memᴰ (m, b) (mark_mandatory json latest 0 (xs ++ m ∷ ys))) flag
        (mark-at latest 0 xs m ys (length xs) (omega arith))

  -- Every system message, and the last message whose role is `user`, is among the messages that a
  -- successful compaction returns.
  pub compact_chat_context-required :
      (xs : List Value) (m : Value) (ys : List Value) (context_size : ℕ) (w : Window json)
      → (is_system m ≡ true) ⊎ ((is_user m ≡ true) × (any is_user ys ≡ false))
      → compact_chat_context json (xs ++ m ∷ ys) context_size ≡ ok w
      → Memᴰ m w.messages
  compact_chat_context-required xs m ys context_size w required e =
      let (before, after, marked, _, _, sent) =
        compact_chat_context-cut json (xs ++ m ∷ ys) context_size w e in
      let kept : Memᴰ m (selected json before ++ messages_of json after) =
        mem-cut m before after
          (subst (λ es. Memᴰ (m, true) es) marked (mark-required xs m ys required)) in
      elim sent [
        | inl p ↦ rw p kept
        | inr (_, p) ↦ rw p (
            mem-insert_note m (note_message json (omitted json before))
              (selected json before ++ messages_of json after) kept)
      ]
