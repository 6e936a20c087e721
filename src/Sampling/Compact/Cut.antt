-- ===== src/Sampling/Compact/Cut.antt =====
-- The loop cuts the conversation at one place: all messages after it are kept, and of those before
-- it the mandatory ones.
use mathlib.Core.List.{reverse-reverse, reverse-cons, reverse-append}
use open_mind_ai.Base.{
  ℕ, ◌+◌, ◌-◌, ◌≤◌, ◌≡◌, refl, sym, ap, ◌∙◌, true, false, List, [], ◌∷◌, ◌++◌, reverse, arith, ltb,
  Bool-cases, inl, inr, le→ltb,
}
use open_mind_ai.Json.{Json}
use open_mind_ai.Sampling.{estimated_prompt_tokens}
use open_mind_ai.Sampling.Estimate.{cost, cost-cons, estimated_prompt_tokens-eq}
use open_mind_ai.Sampling.Compact.{
  Entry, latest_user, mark_mandatory, selected, omitted, room, fill, kept_entries,
}

module _ (json : Json) where
  open json use {Value}

  abbrev pub keep_all : List (Entry json) → List (Entry json)
  keep_all [] = []
  keep_all ((m, b) ∷ es) = (m, true) ∷ keep_all es

  abbrev pub messages_of : List (Entry json) → List Value
  messages_of [] = []
  messages_of ((m, b) ∷ es) = m ∷ messages_of es

  keep_all-append : (xs ys : List (Entry json)) → keep_all (xs ++ ys) ≡ keep_all xs ++ keep_all ys
  keep_all-append [] ys = refl
  keep_all-append ((m, b) ∷ xs) ys = ap (λ l. (m, true) ∷ l) (keep_all-append xs ys)

  pub keep_all-reverse : (es : List (Entry json)) → reverse (keep_all es) ≡ keep_all (reverse es)
  keep_all-reverse [] = refl
  keep_all-reverse ((m, b) ∷ es) = simp (reverse-cons, keep_all-append, keep_all-reverse es)

  pub messages_of-append :
      (xs ys : List (Entry json)) → messages_of (xs ++ ys) ≡ messages_of xs ++ messages_of ys
  messages_of-append [] ys = refl
  messages_of-append ((m, b) ∷ xs) ys = ap (λ l. m ∷ l) (messages_of-append xs ys)

  pub messages_of-mark :
      (latest : _) (i : ℕ) (ms : List Value) → messages_of (mark_mandatory json latest i ms) ≡ ms
  unfolding mark_mandatory
  messages_of-mark latest i [] = refl
  messages_of-mark latest i (m ∷ ms) = ap (λ l. m ∷ l) (messages_of-mark latest (i + 1) ms)

  pub selected-keep_all : (es : List (Entry json)) → selected json (keep_all es) ≡ messages_of es
  selected-keep_all [] = refl
  selected-keep_all ((m, b) ∷ es) = ap (λ l. m ∷ l) (selected-keep_all es)

  -- Newest first, the loop keeps a first part whole and leaves the rest as it is.
  fill-cut :
      (r : ℕ) (es : List (Entry json))
      → (xs ys : List (Entry json)) × (es ≡ xs ++ ys) × (fill json r es ≡ keep_all xs ++ ys)
  unfolding fill
  fill-cut r [] = ([], [], refl, refl)
  fill-cut r ((m, true) ∷ es) =
      let (xs, ys, p, q) = fill-cut r es in
      ((m, true) ∷ xs, ys, ap (λ l. (m, true) ∷ l) p, ap (λ l. (m, true) ∷ l) q)
  fill-cut r ((m, false) ∷ es) =
      let tokens : ℕ = estimated_prompt_tokens json (m ∷ []) - 128 in
      let (xs, ys, p, q) = fill-cut (r - tokens) es in
      elim (Bool-cases (ltb r tokens)) [
        | inl stop ↦ ([], (m, false) ∷ es, refl, rw stop refl)
        | inr go ↦
            ((m, false) ∷ xs, ys, ap (λ l. (m, false) ∷ l) p, rw go (ap (λ l. (m, true) ∷ l) q))
      ]

  -- Oldest first: the flags of the messages before the cut are left alone.
  pub kept_entries-cut :
      (messages : List Value) (cap : ℕ)
      → (before after : List (Entry json)) × (mark_mandatory json
            (latest_user json messages)
            0
            messages
          ≡ before ++ after)
        × (kept_entries json messages cap ≡ before ++ keep_all after)
  unfolding kept_entries
  kept_entries-cut messages cap =
      let es : List (Entry json) = mark_mandatory json (latest_user json messages) 0 messages in
      let (xs, ys, p, q) = fill-cut (room json cap es) (reverse es) in
      (
        reverse ys,
        reverse xs,
        sym (reverse-reverse es) ∙ ap reverse p ∙ reverse-append xs ys,
        ap reverse q
            ∙ reverse-append (keep_all xs) ys
            ∙ ap (λ l. reverse ys ++ l) (keep_all-reverse xs),
      )

  -- With room for every optional message the loop keeps all.
  pub fill_all :
      (r : ℕ) (es : List (Entry json))
      → cost json (omitted json es) ≤ r
      → fill json r es ≡ keep_all es
  unfolding fill
  fill_all r [] h = refl
  fill_all r ((m, true) ∷ es) h = ap (λ l. (m, true) ∷ l) (fill_all r es h)
  fill_all r ((m, false) ∷ es) h =
      let tokens : ℕ = estimated_prompt_tokens json (m ∷ []) - 128 in
      let small : tokens ≤ cost json (m ∷ []) =
        omega (arith, estimated_prompt_tokens-eq json (m ∷ [])) in
      let c : cost json (m ∷ omitted json es) ≡ cost json (m ∷ []) + cost json (omitted json es) =
        cost-cons json m (omitted json es) in
      rw (le→ltb r tokens (omega arith))
        (ap (λ l. (m, true) ∷ l) (fill_all (r - tokens) es (omega arith)))
