-- ===== src/PromptContext/Transcript.antt =====
-- The tool history is never longer than its share.
use open_mind_ai.Base.{
  ℕ, ◌+◌, ◌-◌, ◌≤◌, ◌≡◌, refl, List, [], ◌∷◌, reverse, leb, ◌==◌, length, length-append, arith,
  Bool-cases, inl, inr,
}
use open_mind_ai.Base.Text.{Text}
use open_mind_ai.PromptContext.{
  join_lines, Selection, skip_entry, choose_entry, separator_of, is_empty, select_entries,
  omission_marker, compress_middle, compress_tail, compress_transcript,
}
use open_mind_ai.PromptContext.Compress.{compress_middle-le, compress_tail-le}

-- The characters used are those of the joined entries, and within the limit.
abbrev IsWithin : ℕ → Selection → Type 0
IsWithin limit s = (length (join_lines s.chosen) ≡ s.used) × (s.used ≤ limit)

join-choose :
    (bounded : Text) (chosen : List Text)
    → length (join_lines (bounded ∷ chosen))
      ≡ length (join_lines chosen) + (separator_of chosen + length bounded)
join-choose bounded [] = omega arith
join-choose bounded (x ∷ xs) =
    omega (arith, length-append bounded (10 ∷ (10 ∷ join_lines (x ∷ xs))))

select_entries-IsWithin :
    (total limit : ℕ) (items : List Text) (s : Selection)
    → IsWithin limit s
    → IsWithin limit (select_entries total limit items s)
unfolding select_entries
select_entries-IsWithin total limit [] s h = h
select_entries-IsWithin total limit (item ∷ items) s h =
    let remaining : ℕ = limit - (s.used + separator_of s.chosen) in
    let bounded : Text = compress_middle item remaining in
    let next : (length (join_lines (bounded ∷ s.chosen))
        ≡ s.used + (separator_of s.chosen + length bounded)) =
      omega (arith, join-choose bounded s.chosen, h.0) in
    let skipped : IsWithin limit (select_entries total limit items (skip_entry s)) =
      select_entries-IsWithin total limit items (skip_entry s) h in
    elim (Bool-cases (remaining == 0)) [
      | inl z ↦ rw z skipped
      | inr z ↦
          let room : s.used + (separator_of s.chosen + length bounded) ≤ limit =
            ground (arith, compress_middle-le item remaining) in
          let kept : IsWithin limit (choose_entry bounded s) = (next, room) in
          elim (Bool-cases (is_empty bounded)) [
            | inl e ↦ rw (z, e) skipped
            | inr e ↦
                elim (Bool-cases (leb limit (s.used + (separator_of s.chosen + length bounded)))) [
                  | inl full ↦ rw (z, e, full) kept
                  | inr more ↦
                      rw (z, e, more)
                        (select_entries-IsWithin total limit items (choose_entry bounded s) kept)
                ]
          ]
    ]

pub compress_transcript-le :
    (transcript : List Text) (limit : ℕ) → length (compress_transcript transcript limit) ≤ limit
unfolding compress_transcript
compress_transcript-le transcript limit =
    let start : Selection = record { chosen = []; used = 0; omitted = 0 } in
    let s : Selection = select_entries (length transcript) limit (reverse transcript) start in
    let (used, within) =
      select_entries-IsWithin (length transcript) limit (reverse transcript) start
        (refl, omega arith) in
    let marker : Text = omission_marker s.omitted in
    let body : Text = join_lines s.chosen in
    ground (
      arith,
      compress_tail-le body limit,
      compress_tail-le body (limit - length marker),
      length-append marker (compress_tail body (limit - length marker)),
    )
