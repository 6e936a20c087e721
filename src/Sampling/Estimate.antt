-- ===== src/Sampling/Estimate.antt =====
-- The saturating estimate of a prompt is a capped sum of one cost for each message.
use open_mind_ai.Base.{
  ℕ, ◌+◌, ◌≤◌, min, ◌≡◌, refl, none, some, List, [], ◌∷◌, ◌++◌, arith, add_u64, u32_max, u64_max,
  Option-cases, inl, inr,
}
use open_mind_ai.Base.Text.{len}
use open_mind_ai.Json.{Json}
use open_mind_ai.Sampling.{
  div_ceil, content, part_tokens, add_parts, add_content, add_messages, estimated_prompt_tokens,
}

module _ (json : Json) where
  open json use {Value, as_str, as_array}

  parts_cost : List Value → ℕ
  parts_cost [] = 0
  parts_cost (p ∷ ps) = part_tokens json p + parts_cost ps

  content_cost : Value → ℕ
  content_cost c = elim (as_str c) [
    | some t ↦ div_ceil (len t) 3
    | none ↦ elim (as_array c) [ some parts ↦ parts_cost parts | none ↦ 0 ]
  ]

  -- The cost of the messages of a prompt, with no saturation.
  pub cost : List Value → ℕ
  unfolding content_cost
  cost [] = 0
  cost (m ∷ ms) = 32 + content_cost (content json m) + cost ms

  add_parts-eq :
      (t : ℕ) (ps : List Value)
      → t ≤ u64_max
      → add_parts json t ps ≡ min (t + parts_cost ps) u64_max
  unfolding add_parts parts_cost
  add_parts-eq t [] h = omega arith
  add_parts-eq t (p ∷ ps) h =
      omega (arith, add_parts-eq (add_u64 t (part_tokens json p)) ps (omega arith))

  add_content-eq :
      (t : ℕ) (c : Value) → t ≤ u64_max → add_content json t c ≡ min (t + content_cost c) u64_max
  unfolding add_content content_cost
  add_content-eq t c h = elim (Option-cases (as_str c)) [
    | inr (s, e) ↦ rw (e, add_content, content_cost) (omega arith)
    | inl e ↦
        rw (e, add_content, content_cost)
          (elim (Option-cases (as_array c)) [
            | inr (ps, f) ↦ rw f (add_parts-eq t ps h)
            | inl f ↦ rw f (omega arith)
          ])
  ]

  add_messages-eq :
      (t : ℕ) (ms : List Value) → t ≤ u64_max → add_messages json t ms ≡ min (t + cost ms) u64_max
  unfolding add_messages cost
  add_messages-eq t [] h = omega arith
  add_messages-eq t (m ∷ ms) h =
      let s : ℕ = add_content json (add_u64 t 32) (content json m) in
      let e : s ≡ min (add_u64 t 32 + content_cost (content json m)) u64_max =
        add_content-eq (add_u64 t 32) (content json m) (omega arith) in
      omega (arith, e, add_messages-eq s ms (omega (arith, e)))

  pub estimated_prompt_tokens-eq :
      (ms : List Value) → estimated_prompt_tokens json ms ≡ min (128 + cost ms) u32_max
  unfolding estimated_prompt_tokens
  estimated_prompt_tokens-eq ms = omega (arith, add_messages-eq 128 ms (omega arith))

  pub cost-nil : cost [] ≡ 0
  unfolding cost
  cost-nil = refl

  pub cost-cons : (m : Value) (ms : List Value) → cost (m ∷ ms) ≡ cost (m ∷ []) + cost ms
  unfolding cost
  cost-cons m ms = omega arith

  pub cost-append : (xs ys : List Value) → cost (xs ++ ys) ≡ cost xs + cost ys
  unfolding cost
  cost-append [] ys = omega arith
  cost-append (x ∷ xs) ys = omega (arith, cost-append xs ys)
