-- ===== src/Examples/SamplingExamples.antt =====
-- src-tauri/src/sampling.rs at concrete conversations.
use mathlib.Core.List.{Memᴰ}
use open_mind_ai.Base.{
  ℕ, ◌+◌, ◌≤◌, ◌<◌, ◌≡◌, refl, ◌⊎◌, inl, none, some, List, [], ◌∷◌, ◌++◌, arith, length,
}
use open_mind_ai.Base.Text.{Text, text, decimal}
use open_mind_ai.Examples.ConcreteJson.{Doc, docs, message, object, field, str, arr, cons, nil, end}
use open_mind_ai.Sampling.{estimated_prompt_tokens, chat_output_budget, desired_tokens}
use open_mind_ai.Sampling.Budget.{chat_output_budget_lem}
use open_mind_ai.Sampling.Compact.{
  ok, Window, Entry, compact_chat_context, latest_user, mark_mandatory, omitted, selected,
  insert_note, note_message, kept_entries, with_note,
}
use open_mind_ai.Sampling.Compact.Fits.{compact_chat_context-fits}
use open_mind_ai.Sampling.Compact.Cut.{messages_of}
use open_mind_ai.Sampling.Compact.Keeps.{compact_chat_context-cut}
use open_mind_ai.Sampling.Compact.Required.{compact_chat_context-required}
use open_mind_ai.Sampling.Compact.Unchanged.{compact_chat_context-unchanged}
use open_mind_ai.Sampling.Compact.Reply.{chat_output_budget-compact_chat_context}

abbrev write_a_report : List Doc
write_a_report = message (text "user") (text "Write a short report") ∷ []

-- `response_budget_grows_for_writing_but_respects_context`.
budget_chat : chat_output_budget docs (text "chat") 8192 write_a_report ≡ some 2048
unfolding chat_output_budget estimated_prompt_tokens desired_tokens
budget_chat = refl

budget_document : chat_output_budget docs (text " PDF ") 8192 write_a_report ≡ some 4096
unfolding chat_output_budget estimated_prompt_tokens desired_tokens
budget_document = refl

abbrev a_photo : List Doc
a_photo =
    object (
      field (text "role") (str (text "user")) (
        field (text "content")
          (arr (cons (object (field (text "type") (str (text "image_url")) end)) nil)) end))
    ∷ []

photo_tokens : estimated_prompt_tokens docs a_photo ≡ 2208
unfolding estimated_prompt_tokens
photo_tokens = refl

chat_output_budget_lem_example :
    let e = estimated_prompt_tokens docs write_a_report in
    ((chat_output_budget docs (text "search") 900 write_a_report ≡ none) × (900 < e + 512 + 256))
    ⊎ ((b : ℕ) × (chat_output_budget docs (text "search") 900 write_a_report ≡ some b)
        × (256 ≤ b)
        × (b ≤ desired_tokens (text "search"))
        × (e + 512 + b ≤ 900)
        × ((b ≡ desired_tokens (text "search")) ⊎ (e + 512 + b ≡ 900)))
chat_output_budget_lem_example =
    chat_output_budget_lem docs (text "search") 900 write_a_report (omega arith)

-- The older turn of 390 characters costs 32 + 130 tokens; after the mandatory messages, the note
-- and the answer `Yes.` the room is 7 tokens.
abbrev long_text : Text
long_text = rep (text "abcdefghijklmnopqrstuvwxyz")
  where
    rep : Text → Text
    rep t =
        t
        ++ (t
            ++ (t
                ++ (t ++ (t ++ (t ++ (t ++ (t ++ (t ++ (t ++ (t ++ (t ++ (t ++ (t ++ t)))))))))))))

abbrev history : List Doc
history =
    message (text "system") (text "Be brief.")
    ∷ message (text "user") long_text
    ∷ message (text "assistant") (text "Yes.")
    ∷ message (text "user") (text "Go on")
    ∷ []

abbrev short_window : Window docs
short_window = record {
  messages = insert_note docs (note_message docs (message (text "user") long_text ∷ [])) (
      message (text "system") (text "Be brief.")
      ∷ message (text "assistant") (text "Yes.")
      ∷ message (text "user") (text "Go on")
      ∷ []);
  omitted_messages = 1;
}

short : compact_chat_context docs history 2030 ≡ ok short_window
unfolding compact_chat_context kept_entries with_note note_message estimated_prompt_tokens
    insert_note decimal
short = refl

compact_chat_context-fits_example : estimated_prompt_tokens docs short_window.messages + 1536 ≤ 2030
compact_chat_context-fits_example =
    compact_chat_context-fits docs history 2030 short_window (omega arith) short

compact_chat_context-cut_example :
    (before after : List (Entry docs)) × (mark_mandatory docs (latest_user docs history) 0 history
      ≡ before ++ after)
    × (1 ≡ length (omitted docs before))
    × (1 + length (selected docs before ++ messages_of docs after) ≡ 4)
    × ((short_window.messages ≡ selected docs before ++ messages_of docs after)
        ⊎ ((0 < 1)
            × (short_window.messages
                ≡ insert_note docs
                    (note_message docs (omitted docs before))
                    (selected docs before ++ messages_of docs after))))
compact_chat_context-cut_example = compact_chat_context-cut docs history 2030 short_window short

compact_chat_context-required_example :
    Memᴰ (message (text "system") (text "Be brief.")) short_window.messages
compact_chat_context-required_example =
    compact_chat_context-required docs [] (message (text "system") (text "Be brief."))
      (message (text "user") long_text
        ∷ message (text "assistant") (text "Yes.")
        ∷ message (text "user") (text "Go on")
        ∷ [])
      2030 short_window (inl refl) short

compact_chat_context-unchanged_example :
    compact_chat_context docs history 4096
    ≡ ok (record { messages = history; omitted_messages = 0 })
unfolding estimated_prompt_tokens
compact_chat_context-unchanged_example =
    compact_chat_context-unchanged docs history 4096 (omega arith) (omega arith)

chat_output_budget-compact_chat_context_example :
    (b : ℕ) × (chat_output_budget docs (text "chat") 2030 short_window.messages ≡ some b)
    × (1024 ≤ b)
chat_output_budget-compact_chat_context_example =
    chat_output_budget-compact_chat_context docs (text "chat") history 2030 short_window
      (omega arith) short
