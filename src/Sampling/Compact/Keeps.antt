-- ===== src/Sampling/Compact/Keeps.antt =====
-- Which messages a compaction keeps.
use open_mind_ai.Base.{
  ℕ, ◌+◌, ◌-◌, ◌<◌, ◌≡◌, refl, sym, ap, ◌∙◌, Bool, true, false, List, [], ◌∷◌, ◌++◌, arith, length,
  length-append, inl, inr, ◌⊎◌,
}
use open_mind_ai.Base.Text.{text}
use open_mind_ai.Json.{Json}
use open_mind_ai.Sampling.{role}
use open_mind_ai.Sampling.Compact.{
  ok, Window, Entry, latest_user, mark_mandatory, selected, omitted, insert_note, note_message,
  with_note, kept_entries, compact_chat_context,
}
use open_mind_ai.Sampling.Compact.Cut.{
  keep_all, messages_of, messages_of-append, messages_of-mark, selected-keep_all, kept_entries-cut,
}
use open_mind_ai.Sampling.Compact.Fits.{selected-append, compact_chat_context-ok}

module _ (json : Json) where
  open json use {Value, eq_str}

  abbrev is_system : Value → Bool
  is_system m = eq_str (role json m) (text "system")

  abbrev is_user : Value → Bool
  is_user m = eq_str (role json m) (text "user")

  pub omitted-cut :
      (xs ys : List (Entry json)) → omitted json (xs ++ keep_all json ys) ≡ omitted json xs
  omitted-cut [] [] = refl
  omitted-cut [] ((m, b) ∷ ys) = omitted-cut [] ys
  omitted-cut ((m, true) ∷ xs) ys = omitted-cut xs ys
  omitted-cut ((m, false) ∷ xs) ys = ap (λ l. m ∷ l) (omitted-cut xs ys)

  pub length-omitted :
      (es : List (Entry json))
      → length (omitted json es) + length (selected json es) ≡ length (messages_of json es)
  length-omitted [] = omega arith
  length-omitted ((m, true) ∷ es) = omega (arith, length-omitted es)
  length-omitted ((m, false) ∷ es) = omega (arith, length-omitted es)

  with_note-cases :
      (cap : ℕ) (kept : List (Entry json))
      → (with_note json cap kept ≡ selected json kept)
        ⊎ ((0 < length (omitted json kept))
            × (with_note json cap kept
                ≡ insert_note json (note_message json (omitted json kept)) (selected json kept)))
  unfolding with_note
  with_note-cases cap kept = ground arith

  -- A successful compaction splits the messages in two. Of the first part the messages that are not
  -- mandatory are omitted, and they are all that is omitted; the rest of it and the whole second part
  -- are sent in order, with at most one notice about the omitted messages, and that only if there are
  -- any.
  pub compact_chat_context-cut :
      (messages : List Value) (context_size : ℕ) (w : Window json)
      → compact_chat_context json messages context_size ≡ ok w
      → (before after : List (Entry json)) × (mark_mandatory json
            (latest_user json messages)
            0
            messages
          ≡ before ++ after)
        × (w.omitted_messages ≡ length (omitted json before))
        × (w.omitted_messages + length (selected json before ++ messages_of json after)
            ≡ length messages)
        × ((w.messages ≡ selected json before ++ messages_of json after)
            ⊎ ((0 < w.omitted_messages)
                × (w.messages
                    ≡ insert_note json
                        (note_message json (omitted json before))
                        (selected json before ++ messages_of json after))))
  compact_chat_context-cut messages context_size w e =
      let cap : ℕ = context_size - 1536 in
      let (_, sent, dropped) = compact_chat_context-ok json messages context_size w e in
      let (before, after, marked, kept) = kept_entries-cut json messages cap in
      let chosen : selected json (kept_entries json messages cap)
          ≡ selected json before ++ messages_of json after =
        ap (selected json) kept
        ∙ selected-append json before (keep_all json after)
        ∙ ap (λ l. selected json before ++ l) (selected-keep_all json after) in
      let lost : omitted json (kept_entries json messages cap) ≡ omitted json before =
        ap (omitted json) kept ∙ omitted-cut before after in
      let all : messages_of json before ++ messages_of json after ≡ messages =
        sym (messages_of-append json before after)
        ∙ ap (messages_of json) (sym marked)
        ∙ messages_of-mark json (latest_user json messages) 0 messages in
      (
        before,
        after,
        marked,
        dropped ∙ ap length lost,
        omega (
          arith,
          dropped,
          ap length lost,
          length-append (selected json before) (messages_of json after),
          length-omitted before,
          ap length all,
          length-append (messages_of json before) (messages_of json after),
        ),
        elim (with_note-cases cap (kept_entries json messages cap)) [
          | inl p ↦ inl (sent ∙ p ∙ chosen)
          | inr (l, p) ↦ inr (
            rw dropped l,
            sent
                ∙ p
                ∙ ap
                    (λ d.
                      insert_note json (note_message json d)
                        (selected json (kept_entries json messages cap)))
                    lost
                ∙ ap (insert_note json (note_message json (omitted json before))) chosen,
          )
        ],
      )
