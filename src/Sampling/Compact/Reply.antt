-- ===== src/Sampling/Compact/Reply.antt =====
-- Compaction leaves room for a reply.
use open_mind_ai.Base.{ℕ, ◌+◌, ◌≤◌, ◌≡◌, some, List, arith, ◌-◌, min, u32_max, add_u32}
use open_mind_ai.Base.Text.{Text}
use open_mind_ai.Json.{Json}
use open_mind_ai.Sampling.{desired_tokens, estimated_prompt_tokens, chat_output_budget}
use open_mind_ai.Sampling.Budget.{desired_tokens_bounds}
use open_mind_ai.Sampling.Compact.{ok, Window, compact_chat_context}
use open_mind_ai.Sampling.Compact.Fits.{compact_chat_context-fits}

module _ (json : Json) where
  open json use {Value}

  -- After a successful compaction, every mode is offered a reply of at least 1024 tokens.
  pub chat_output_budget-compact_chat_context :
      (mode : Text) (messages : List Value) (context_size : ℕ) (w : Window json)
      → context_size ≤ u32_max
      → compact_chat_context json messages context_size ≡ ok w
      → (b : ℕ) × (chat_output_budget json mode context_size w.messages ≡ some b) × (1024 ≤ b)
  unfolding chat_output_budget
  chat_output_budget-compact_chat_context mode messages context_size w small e =
      let fits : estimated_prompt_tokens json w.messages + 1536 ≤ context_size =
        compact_chat_context-fits json messages context_size w small e in
      let d : 2048 ≤ desired_tokens mode = (desired_tokens_bounds mode).0 in
      (
        min (desired_tokens mode)
            (context_size - add_u32 (estimated_prompt_tokens json w.messages) 512),
        ground arith,
        ground arith,
      )
