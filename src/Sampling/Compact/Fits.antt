-- ===== src/Sampling/Compact/Fits.antt =====
-- The compacted conversation fits the window: the loop never spends more than its room.
use mathlib.Core.List.{reverse-cons}
use open_mind_ai.Base.{
  ℕ, ◌+◌, ◌-◌, ◌≤◌, ◌<◌, min, ◌≡◌, refl, ap, true, false, not, List, [], ◌∷◌, ◌++◌, reverse, arith,
  ltb, leb, u32_max, length, any, Bool-cases, inl, inr, ltb→le, leb→le,
}
use open_mind_ai.Base.Text.{text}
use open_mind_ai.Json.{Json}
use open_mind_ai.Sampling.{role, estimated_prompt_tokens}
use open_mind_ai.Sampling.Estimate.{
  cost, cost-nil, cost-cons, cost-append, estimated_prompt_tokens-eq,
}
use open_mind_ai.Sampling.Compact.{
  ok, Window, Entry, latest_user, mark_mandatory, selected, omitted, room, fill, note_message,
  insert_note, with_note, kept_entries, compact_chat_context,
}

module _ (json : Json) where
  open json use {Value, eq_str}

  -- The cost of the messages that are kept.
  kept_cost : List (Entry json) → ℕ
  kept_cost es = cost json (selected json es)

  pub selected-append :
      (xs ys : List (Entry json)) → selected json (xs ++ ys) ≡ selected json xs ++ selected json ys
  selected-append [] ys = refl
  selected-append ((m, true) ∷ xs) ys = ap (λ l. m ∷ l) (selected-append xs ys)
  selected-append ((m, false) ∷ xs) ys = selected-append xs ys

  pub kept_cost-reverse :
      (es : List (Entry json))
      → cost json (selected json (reverse es)) ≡ cost json (selected json es)
  kept_cost-reverse [] = refl
  kept_cost-reverse ((m, true) ∷ es) =
      rw (reverse-cons, selected-append, cost-append)
        (omega (arith, kept_cost-reverse es, cost-cons json m (selected json es)))
  kept_cost-reverse ((m, false) ∷ es) =
      rw (reverse-cons, selected-append, cost-append)
        (omega (arith, kept_cost-reverse es, cost-nil json))

  -- The loop adds at most its room.
  pub kept_cost-fill :
      (r : ℕ) (es : List (Entry json))
      → r + 128 < u32_max
      → cost json (selected json (fill json r es)) ≤ cost json (selected json es) + r
  unfolding fill
  kept_cost-fill r [] h = omega arith
  kept_cost-fill r ((m, true) ∷ es) h = omega (
    arith,
    kept_cost-fill r es h,
    cost-cons json m (selected json es),
    cost-cons json m (selected json (fill json r es)),
  )
  kept_cost-fill r ((m, false) ∷ es) h =
      let tokens : ℕ = estimated_prompt_tokens json (m ∷ []) - 128 in
      elim (Bool-cases (ltb r tokens)) [
        | inl e ↦ rw e (omega arith)
        | inr e ↦ rw e (
            omega (
              arith,
              ltb→le r tokens e,
              estimated_prompt_tokens-eq json (m ∷ []),
              kept_cost-fill (r - tokens) es (omega arith),
              cost-cons json m (selected json (fill json (r - tokens) es)),
            ))
      ]

  -- The order of a prompt does not matter to its cost.
  pub cost-insert_note :
      (n : Value) (ms : List Value) → cost json (insert_note json n ms) ≡ cost json (ms ++ n ∷ [])
  unfolding insert_note
  cost-insert_note n [] = refl
  cost-insert_note n (m ∷ ms) = elim (Bool-cases (eq_str (role json m) (text "system"))) [
    | inl e ↦ rw e (
        omega (
          arith,
          cost-insert_note n ms,
          cost-cons json m (insert_note json n ms),
          cost-cons json m (ms ++ n ∷ []),
        ))
    | inr e ↦ rw e (omega (arith, cost-cons json n (m ∷ ms), cost-append json (m ∷ ms) (n ∷ [])))
  ]

  -- The room leaves the mandatory messages within the capacity.
  room-fits :
      (cap : ℕ) (es : List (Entry json))
      → cap + 1536 ≤ u32_max
      → estimated_prompt_tokens json (selected json es) ≤ cap
      → (room json cap es + 128 < u32_max)
        × (128 + cost json (selected json es) + room json cap es ≤ cap)
  unfolding room
  room-fits cap es h fits =
      let e : estimated_prompt_tokens json (selected json es)
          ≡ min (128 + cost json (selected json es)) u32_max =
        estimated_prompt_tokens-eq json (selected json es) in
      elim (Bool-cases (any (λ (e : Entry json). not e.1) es)) [
        | inl some_optional ↦ rw some_optional (omega arith, omega arith)
        | inr all_mandatory ↦ rw all_mandatory (omega arith, omega arith)
      ]

  pub kept_entries-cost :
      (messages : List Value) (cap : ℕ)
      → cap + 1536 ≤ u32_max
      → estimated_prompt_tokens json
          (selected json (mark_mandatory json (latest_user json messages) 0 messages))
        ≤ cap
      → 128 + cost json (selected json (kept_entries json messages cap)) ≤ cap
  unfolding kept_entries
  kept_entries-cost messages cap h fits =
      let es : List (Entry json) = mark_mandatory json (latest_user json messages) 0 messages in
      let r : ℕ = room json cap es in
      let b : (r + 128 < u32_max) × (128 + cost json (selected json es) + r ≤ cap) =
        room-fits cap es h fits in
      omega (
        arith,
        kept_cost-reverse (fill json r (reverse es)),
        kept_cost-fill r (reverse es) b.0,
        kept_cost-reverse es,
      )

  pub with_note-fits :
      (cap : ℕ) (kept : List (Entry json))
      → 128 + cost json (selected json kept) ≤ cap
      → estimated_prompt_tokens json (with_note json cap kept) ≤ cap
  unfolding with_note
  with_note-fits cap kept h =
      let ms : List Value = selected json kept in
      let note : Value = note_message json (omitted json kept) in
      let plain : estimated_prompt_tokens json ms ≤ cap =
        omega (arith, estimated_prompt_tokens-eq json ms) in
      elim (Bool-cases (ltb 0 (length (omitted json kept)))) [
        | inr none_omitted ↦ rw none_omitted plain
        | inl some_omitted ↦
            rw some_omitted
              (elim (Bool-cases (leb (estimated_prompt_tokens json (ms ++ note ∷ [])) cap)) [
                | inr too_long ↦ rw too_long plain
                | inl fits ↦ rw fits (
                    omega (
                      arith,
                      leb→le _ _ fits,
                      cost-insert_note note ms,
                      estimated_prompt_tokens-eq json (ms ++ note ∷ []),
                      estimated_prompt_tokens-eq json (insert_note json note ms),
                    ))
              ])
      ]

  -- What a successful compaction returns.
  pub compact_chat_context-ok :
      (messages : List Value) (context_size : ℕ) (w : Window json)
      → compact_chat_context json messages context_size ≡ ok w
      → (estimated_prompt_tokens json
            (selected json (mark_mandatory json (latest_user json messages) 0 messages))
          ≤ context_size - 1536)
        × (w.messages
            ≡ with_note json
                (context_size - 1536)
                (kept_entries json messages (context_size - 1536)))
        × (w.omitted_messages
            ≡ length (omitted json (kept_entries json messages (context_size - 1536))))
  unfolding compact_chat_context
  compact_chat_context-ok messages context_size w e = (ground arith, ground arith, ground arith)

  -- A compaction that succeeds leaves an estimate of at most the context less 1536 tokens.
  pub compact_chat_context-fits :
      (messages : List Value) (context_size : ℕ) (w : Window json)
      → context_size ≤ u32_max
      → compact_chat_context json messages context_size ≡ ok w
      → estimated_prompt_tokens json w.messages + 1536 ≤ context_size
  compact_chat_context-fits messages context_size w h e =
      let cap : ℕ = context_size - 1536 in
      let (mandatory_fit, sent, _) = compact_chat_context-ok messages context_size w e in
      let room : 1536 ≤ context_size = omega (
        arith,
        estimated_prompt_tokens-eq json
            (selected json (mark_mandatory json (latest_user json messages) 0 messages)),
      ) in
      let fits : estimated_prompt_tokens json (with_note json cap (kept_entries json messages cap))
          ≤ cap =
        with_note-fits cap (kept_entries json messages cap)
          (kept_entries-cost messages cap (omega arith) mandatory_fit) in
      rw sent (omega arith)
