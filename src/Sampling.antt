-- ===== src/Sampling.antt =====
-- src-tauri/src/sampling.rs: the token estimate of a prompt, the reply budget, and the compaction
-- of a conversation to the context window of the loaded model.
pub mod Compact
pub mod Estimate
pub mod Budget
use open_mind_ai.Base.{
  ℕ, ◌+◌, ◌-◌, ◌/◌, min, ◌||◌, Option, none, some, List, [], ◌∷◌, ◌++◌, leb, if◌then◌else◌, add_u32,
  add_u64, u32_max,
}
use open_mind_ai.Base.Text.{Text, text, text_eq, len, trim, to_ascii_lowercase, decimal}
use open_mind_ai.Json.{Json}

abbrev pub chat_context_reserve_tokens : ℕ
chat_context_reserve_tokens = 512

abbrev pub min_response_tokens : ℕ
min_response_tokens = 256

abbrev pub chat_output_tokens : ℕ
chat_output_tokens = 2048

abbrev pub long_output_tokens : ℕ
long_output_tokens = 4096

abbrev pub search_output_tokens : ℕ
search_output_tokens = 3072

-- `div_ceil` by a positive divisor.
abbrev pub div_ceil : ℕ → ℕ → ℕ
div_ceil n d = (n + (d - 1)) / d

-- The reply length that a mode asks for.
unfoldable pub desired_tokens : Text → ℕ
desired_tokens mode =
    let m = to_ascii_lowercase (trim mode) in
    if text_eq m (text "document")
      || text_eq m (text "pdf")
      || text_eq m (text "research")
      || text_eq m (text "thinking")
    then long_output_tokens
    else if text_eq m (text "search")
    then search_output_tokens
    else chat_output_tokens

unfoldable pub context_omission_notice : ℕ → Text
context_omission_notice count =
    (10 ∷ 10 ∷ text "---")
    ++ (10 ∷ 10 ∷ text "**Context notice:** ")
    ++ (decimal count
        ++ text
            " older conversation messages were shortened or omitted to fit the current model. The recent messages and required instructions were retained; repeat an earlier detail if needed.")

module _ (json : Json) where
  open json use {Value, index, as_str, as_array, eq_str, message}

  abbrev pub role : Value → Value
  role m = index m (text "role")

  abbrev pub content : Value → Value
  content m = index m (text "content")

  -- One part of a message with several parts.
  part_tokens : Value → ℕ
  part_tokens part = elim (as_str (index part (text "text"))) [
    | some t ↦ div_ceil (len t) 3
    | none ↦ if eq_str (index part (text "type")) (text "image_url") then 2048 else 256
  ]

  add_parts : ℕ → List Value → ℕ
  add_parts tokens [] = tokens
  add_parts tokens (part ∷ parts) = add_parts (add_u64 tokens (part_tokens part)) parts

  add_content : ℕ → Value → ℕ
  add_content tokens c = elim (as_str c) [
    | some t ↦ add_u64 tokens (div_ceil (len t) 3)
    | none ↦ elim (as_array c) [ some parts ↦ add_parts tokens parts | none ↦ tokens ]
  ]

  add_messages : ℕ → List Value → ℕ
  add_messages tokens [] = tokens
  add_messages tokens (m ∷ ms) = add_messages (add_content (add_u64 tokens 32) (content m)) ms

  unfoldable pub estimated_prompt_tokens : List Value → ℕ
  unfolding part_tokens add_parts add_content add_messages
  estimated_prompt_tokens messages = min (add_messages 128 messages) u32_max

  unfoldable pub chat_output_budget : Text → ℕ → List Value → Option ℕ
  chat_output_budget mode context_size messages =
      let desired = desired_tokens mode in
      let remaining =
        context_size - add_u32 (estimated_prompt_tokens messages) chat_context_reserve_tokens in
      if leb min_response_tokens remaining then some (min desired remaining) else none
