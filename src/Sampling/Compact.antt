-- ===== src/Sampling/Compact.antt =====
-- `compact_chat_context` of src-tauri/src/sampling.rs. The two vectors `messages` and `keep` are one
-- list of messages with their flags; the loop over the indices from the last to the first is a
-- recursion on that list reversed.
pub mod Cut
pub mod Required
pub mod Unchanged
pub mod Fits
pub mod Keeps
pub mod Reply
use open_mind_ai.Base.{
  ℕ, zero, suc, ◌+◌, ◌-◌, Bool, true, false, not, ◌||◌, Option, none, some, List, [], ◌∷◌, ◌++◌,
  reverse, ltb, leb, ◌==◌, if◌then◌else◌, length, take, any,
}
use open_mind_ai.Base.Text.{Text, text, replace_char, decimal}
use open_mind_ai.Json.{Json}
use open_mind_ai.Sampling.{role, content, estimated_prompt_tokens}

-- `AppError::ContextOverflow` with its message.
pub data CompactError : Type 0 where
  context_overflow : Text → CompactError

pub data CompactResult {ℓ} (A : Type ℓ) : Type ℓ where
  ok : A → CompactResult A
  err : CompactError → CompactResult A

overflow_message : ℕ → Text
overflow_message context_size =
    text "The current request and required instructions exceed the model's "
    ++ (decimal context_size
        ++ text
            "-token context. Shorten the current input, attached content, or system instructions.")

note_header : ℕ → Text
note_header omitted =
    text "Conversation history notice: "
    ++ (decimal omitted
        ++ text
            " older messages were abbreviated to fit this model's context. These are excerpts, not complete messages. Ask the user to repeat any missing details rather than guessing.")

-- `Some(index) == latest_user`.
abbrev is_index : Option ℕ → ℕ → Bool
is_index none i = false
is_index (some j) i = i == j

module _ (json : Json) where
  open json use {Value, as_str, eq_str, message}

  -- A message and whether it is kept.
  abbrev pub Entry : Type 0
  Entry = Value × Bool

  pub record Window : Type 0 where
    pub messages : List Value
    pub omitted_messages : ℕ

  -- `iter().rposition(...)`: the place of the last message of the user.
  unfoldable pub latest_user : List Value → Option ℕ
  latest_user [] = none
  latest_user (m ∷ ms) = elim (latest_user ms) [
    | some i ↦ some (suc i)
    | none ↦ if eq_str (role json m) (text "user") then some 0 else none
  ]

  -- The messages from place `i` on, with their flags in `mandatory`.
  unfoldable pub mark_mandatory : Option ℕ → ℕ → List Value → List Entry
  mark_mandatory latest i [] = []
  mark_mandatory latest i (m ∷ ms) =
      (m, eq_str (role json m) (text "system") || is_index latest i)
      ∷ mark_mandatory latest (i + 1) ms

  abbrev pub selected : List Entry → List Value
  selected [] = []
  selected ((m, true) ∷ es) = m ∷ selected es
  selected ((m, false) ∷ es) = selected es

  abbrev pub omitted : List Entry → List Value
  omitted [] = []
  omitted ((m, true) ∷ es) = omitted es
  omitted ((m, false) ∷ es) = m ∷ omitted es

  -- The room for optional messages, less the room for a note if there is an optional message.
  unfoldable pub room : ℕ → List Entry → ℕ
  room input_capacity es =
      let remaining = input_capacity - estimated_prompt_tokens json (selected es) in
      if any (λ (e : Entry). not e.1) es then remaining - 256 else remaining

  -- The loop over the messages, newest first.
  unfoldable pub fill : ℕ → List Entry → List Entry
  fill remaining [] = []
  fill remaining ((m, true) ∷ es) = (m, true) ∷ fill remaining es
  fill remaining ((m, false) ∷ es) =
      let tokens = estimated_prompt_tokens json (m ∷ []) - 128 in
      let rest = (m, true) ∷ fill (remaining - tokens) es in
      if ltb remaining tokens then (m, false) ∷ es else rest

  -- The excerpts of the last three omitted messages whose content is a text.
  unfoldable pub excerpts : List Value → Text
  excerpts [] = []
  excerpts (m ∷ ms) = elim (as_str (content json m)) [
    | none ↦ excerpts ms
    | some c ↦
        (10 ∷ elim (as_str (role json m)) [ some r ↦ r | none ↦ text "message" ])
        ++ (text " excerpt: " ++ (replace_char 10 32 (take 120 c) ++ excerpts ms))
  ]

  unfoldable pub note_message : List Value → Value
  unfolding note_header excerpts
  note_message dropped =
      message (text "system")
        (note_header (length dropped) ++ excerpts (reverse (take 3 (reverse dropped))))

  -- Insertion before the first message that is no system message, or at the end.
  unfoldable pub insert_note : Value → List Value → List Value
  insert_note note [] = note ∷ []
  insert_note note (m ∷ ms) =
      let rest = m ∷ insert_note note ms in
      if eq_str (role json m) (text "system") then rest else note ∷ m ∷ ms

  -- The messages that are sent, given the flags.
  unfoldable pub with_note : ℕ → List Entry → List Value
  with_note input_capacity kept =
      let note = note_message (omitted kept) in
      if ltb 0 (length (omitted kept))
      then if leb (estimated_prompt_tokens json (selected kept ++ note ∷ [])) input_capacity
        then insert_note note (selected kept)
        else selected kept
      else selected kept

  -- The flags at the end of the loop.
  unfoldable pub kept_entries : List Value → ℕ → List Entry
  unfolding latest_user mark_mandatory room fill
  kept_entries messages input_capacity =
      let es = mark_mandatory (latest_user messages) 0 messages in
      reverse (fill (room input_capacity es) (reverse es))

  unfoldable pub compact_chat_context : List Value → ℕ → CompactResult Window
  unfolding overflow_message
  compact_chat_context messages context_size =
      let input_capacity = context_size - 1536 in
      let es = mark_mandatory (latest_user messages) 0 messages in
      let kept = kept_entries messages input_capacity in
      if ltb input_capacity (estimated_prompt_tokens json (selected es))
      then err (context_overflow (overflow_message context_size))
      else ok (record {
        messages = with_note input_capacity kept;
        omitted_messages = length (omitted kept);
      })
