-- ===== src/Sampling/Compact/Unchanged.antt =====
-- `compact_chat_context` (src-tauri/src/sampling.rs) on conversations that fit into the window.
use mathlib.Core.List.{reverse-reverse, reverse-cons}
use open_mind_ai.Base.{
  ℕ, ◌+◌, ◌-◌, ◌≤◌, ◌≡◌, refl, ap, ◌∙◌, true, false, not, List, [], ◌∷◌, ◌++◌, reverse, arith, any,
  Bool-cases, inl, inr, u32_max, le→ltb,
}
use open_mind_ai.Json.{Json}
use open_mind_ai.Sampling.{estimated_prompt_tokens}
use open_mind_ai.Sampling.Estimate.{
  cost, cost-nil, cost-cons, cost-append, estimated_prompt_tokens-eq,
}
use open_mind_ai.Sampling.Compact.{
  ok, Entry, latest_user, mark_mandatory, selected, omitted, room, with_note, kept_entries,
  compact_chat_context,
}
use open_mind_ai.Sampling.Compact.Cut.{
  keep_all, messages_of, messages_of-mark, selected-keep_all, fill_all, keep_all-reverse,
}
use open_mind_ai.Sampling.Compact.Keeps.{omitted-cut}

module _ (json : Json) where
  open json use {Value}

  omitted-append :
      (xs ys : List (Entry json)) → omitted json (xs ++ ys) ≡ omitted json xs ++ omitted json ys
  omitted-append [] ys = refl
  omitted-append ((m, false) ∷ xs) ys = ap (λ l. m ∷ l) (omitted-append xs ys)
  omitted-append ((m, true) ∷ xs) ys = omitted-append xs ys

  cost-omitted-reverse :
      (es : List (Entry json)) → cost json (omitted json (reverse es)) ≡ cost json (omitted json es)
  cost-omitted-reverse [] = refl
  cost-omitted-reverse ((m, false) ∷ es) =
      rw (reverse-cons, omitted-append, cost-append)
        (omega (arith, cost-omitted-reverse es, cost-cons json m (omitted json es)))
  cost-omitted-reverse ((m, true) ∷ es) =
      rw (reverse-cons, omitted-append, cost-append)
        (omega (arith, cost-omitted-reverse es, cost-nil json))

  cost-parts :
      (es : List (Entry json))
      → cost json (omitted json es) + cost json (selected json es) ≡ cost json (messages_of json es)
  cost-parts [] = omega (arith, cost-nil json)
  cost-parts ((m, false) ∷ es) = omega (
    arith,
    cost-parts es,
    cost-cons json m (omitted json es),
    cost-cons json m (messages_of json es),
  )
  cost-parts ((m, true) ∷ es) = omega (
    arith,
    cost-parts es,
    cost-cons json m (selected json es),
    cost-cons json m (messages_of json es),
  )

  room-enough :
      (cap : ℕ) (es : List (Entry json))
      → cap ≤ u32_max
      → 128 + cost json (messages_of json es) + 256 ≤ cap
      → cost json (omitted json es) ≤ room json cap es
  unfolding room
  room-enough cap es small h =
      let e : estimated_prompt_tokens json (selected json es) ≡ _ =
        estimated_prompt_tokens-eq json (selected json es) in
      elim (Bool-cases (any (λ (e : Entry json). not e.1) es)) [
        | inl some_optional ↦ rw some_optional (omega (arith, e, cost-parts es))
        | inr all_mandatory ↦ rw all_mandatory (omega (arith, e, cost-parts es))
      ]

  kept_entries_all :
      (messages : List Value) (cap : ℕ)
      → cap ≤ u32_max
      → 128 + cost json messages + 256 ≤ cap
      → kept_entries json messages cap
        ≡ keep_all json (mark_mandatory json (latest_user json messages) 0 messages)
  unfolding kept_entries
  kept_entries_all messages cap small h =
      let es : List (Entry json) = mark_mandatory json (latest_user json messages) 0 messages in
      let whole : messages_of json es ≡ messages =
        messages_of-mark json (latest_user json messages) 0 messages in
      let enough : cost json (omitted json (reverse es)) ≤ room json cap es =
        omega (arith, cost-omitted-reverse es, room-enough cap es small (rw whole h)) in
      ap reverse (fill_all json (room json cap es) (reverse es) enough)
      ∙ keep_all-reverse json (reverse es)
      ∙ ap (keep_all json) (reverse-reverse es)

  -- A conversation whose estimate leaves 1792 tokens of the context is returned as it is, with no
  -- message omitted.
  pub compact_chat_context-unchanged :
      (messages : List Value) (context_size : ℕ)
      → context_size ≤ u32_max
      → estimated_prompt_tokens json messages + 1792 ≤ context_size
      → compact_chat_context json messages context_size
        ≡ ok (record { messages = messages; omitted_messages = 0 })
  unfolding compact_chat_context with_note
  compact_chat_context-unchanged messages context_size small h =
      let cap : ℕ = context_size - 1536 in
      let es : List (Entry json) = mark_mandatory json (latest_user json messages) 0 messages in
      let whole : messages_of json es ≡ messages =
        messages_of-mark json (latest_user json messages) 0 messages in
      let fits : 128 + cost json messages + 256 ≤ cap =
        omega (arith, estimated_prompt_tokens-eq json messages) in
      let mandatory_fit : estimated_prompt_tokens json (selected json es) ≤ cap = omega (
        arith,
        estimated_prompt_tokens-eq json (selected json es),
        cost-parts es,
        ap (cost json) whole,
      ) in
      rw
        (
          le→ltb cap (estimated_prompt_tokens json (selected json es)) mandatory_fit,
          kept_entries_all messages cap (omega arith) fits,
          omitted-cut json [] es,
          selected-keep_all json es,
          whole,
        )
        refl
