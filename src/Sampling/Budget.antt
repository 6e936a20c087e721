-- ===== src/Sampling/Budget.antt =====
-- What the reply budget promises.
use open_mind_ai.Base.{ℕ, ◌+◌, ◌≤◌, ◌<◌, ◌≡◌, ◌⊎◌, none, some, List, arith, u32_max}
use open_mind_ai.Base.Text.{Text}
use open_mind_ai.Json.{Json}
use open_mind_ai.Sampling.{desired_tokens, estimated_prompt_tokens, chat_output_budget}

pub desired_tokens_bounds :
    (mode : Text) → (2048 ≤ desired_tokens mode) × (desired_tokens mode ≤ 4096)
unfolding desired_tokens
desired_tokens_bounds mode = ground arith

module _ (json : Json) where
  open json use {Value}

  -- Either no budget is offered, and the prompt, the reserve and the shortest reply do not fit into
  -- the context; or the budget is offered, lies between 256 and what the mode asks for, fits into the
  -- context with the prompt and the reserve, and is the most that these two bounds allow.
  pub chat_output_budget_lem :
      (mode : Text) (context_size : ℕ) (messages : List Value)
      → context_size ≤ u32_max
      → let e = estimated_prompt_tokens json messages in
        ((chat_output_budget json mode context_size messages ≡ none)
          × (context_size < e + 512 + 256))
        ⊎ ((b : ℕ) × (chat_output_budget json mode context_size messages ≡ some b)
            × (256 ≤ b)
            × (b ≤ desired_tokens mode)
            × (e + 512 + b ≤ context_size)
            × ((b ≡ desired_tokens mode) ⊎ (e + 512 + b ≡ context_size)))
  unfolding chat_output_budget
  chat_output_budget_lem mode context_size messages h =
      let d : (2048 ≤ desired_tokens mode) × (desired_tokens mode ≤ 4096) =
        desired_tokens_bounds mode in
      ground arith
