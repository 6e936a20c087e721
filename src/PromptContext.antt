-- ===== src/PromptContext.antt =====
-- src-tauri/src/openagent_prompt_context.rs: how the parts of the coding agent's prompt share the context
-- window, and how each part is cut to its share. Lengths are counted in characters. The numbers stay
-- far below 2 ^ 64, so the saturating operations are written as plain ones.
pub mod Compress
pub mod Allocate
pub mod Transcript
pub mod Fits
use open_mind_ai.Base.{
  ℕ, zero, suc, ◌+◌, ◌-◌, ◌*◌, ◌/◌, min, max, Bool, true, false, List, [], ◌∷◌, ◌++◌, reverse, ltb,
  leb, ◌==◌, if◌then◌else◌, length, take,
}
use open_mind_ai.Base.Text.{Text, text, decimal}

abbrev pub clamp : ℕ → ℕ → ℕ → ℕ
clamp lo hi x = if ltb x lo then lo else if ltb hi x then hi else x

-- `join("\n\n")`.
abbrev pub join_lines : List Text → Text
join_lines [] = []
join_lines (x ∷ []) = x
join_lines (x ∷ (y ∷ ys)) = x ++ (10 ∷ (10 ∷ join_lines (y ∷ ys)))

-- `chars().rev().take(n).collect().chars().rev().collect()`.
abbrev pub take_last : ℕ → Text → Text
take_last n value = reverse (take n (reverse value))

abbrev pub head_marker : Text
head_marker = 10 ∷ text "[context truncated]"

abbrev pub tail_marker : Text
tail_marker = text "[earlier context truncated]" ++ (10 ∷ [])

abbrev pub middle_marker : Text
middle_marker = 10 ∷ (text "[context middle omitted]" ++ (10 ∷ []))

-- The three ways to cut a text, with the marker as an argument.
abbrev pub cut_head : Text → Text → ℕ → Text
cut_head marker value limit =
    if leb (length value) limit
    then value
    else if limit == 0
    then []
    else if leb limit (length marker)
    then take limit value
    else take (limit - length marker) value ++ marker

abbrev pub cut_tail : Text → Text → ℕ → Text
cut_tail marker value limit =
    if leb (length value) limit
    then value
    else if limit == 0
    then []
    else if leb limit (length marker)
    then take_last limit value
    else marker ++ take_last (limit - length marker) value

abbrev pub cut_middle : Text → Text → ℕ → Text
cut_middle marker value limit =
    let payload = limit - length marker in
    let head_len = payload * 2 / 3 in
    if leb (length value) limit
    then value
    else if limit == 0
    then []
    else if leb limit (length marker + 2)
    then take limit value
    else take head_len value ++ (marker ++ take_last (payload - head_len) value)

unfoldable pub compress_head : Text → ℕ → Text
compress_head value limit = cut_head head_marker value limit

unfoldable pub compress_tail : Text → ℕ → Text
compress_tail value limit = cut_tail tail_marker value limit

unfoldable pub compress_middle : Text → ℕ → Text
compress_middle value limit = cut_middle middle_marker value limit

-- The state of the loop of `compress_transcript`: the entries that are selected, oldest first,
-- the characters used, and the number omitted.
pub record Selection : Type 0 where
  pub chosen : List Text
  pub used : ℕ
  pub omitted : ℕ

abbrev pub is_empty {ℓ} : {A : Type ℓ} → List A → Bool
is_empty [] = true
is_empty (x ∷ xs) = false

abbrev pub separator_of : List Text → ℕ
separator_of [] = 0
separator_of (x ∷ xs) = 2

abbrev pub skip_entry : Selection → Selection
skip_entry s = record s { omitted = suc s.omitted }

abbrev pub choose_entry : Text → Selection → Selection
choose_entry bounded s = record s {
  chosen = bounded ∷ s.chosen;
  used = s.used + (separator_of s.chosen + length bounded);
}

-- The loop over the entries, newest first; `total` is their number.
unfoldable pub select_entries : ℕ → ℕ → List Text → Selection → Selection
select_entries total limit [] s = s
select_entries total limit (item ∷ items) s =
    let remaining = limit - (s.used + separator_of s.chosen) in
    let bounded = compress_middle item remaining in
    let chosen = choose_entry bounded s in
    let after_skip = select_entries total limit items (skip_entry s) in
    let after_choice = select_entries total limit items chosen in
    if remaining == 0
    then after_skip
    else if is_empty bounded
    then after_skip
    else if leb limit chosen.used
    then record chosen { omitted = chosen.omitted + (total - length chosen.chosen) }
    else after_choice

unfoldable pub omission_marker : ℕ → Text
unfolding decimal
omission_marker omitted =
    text "[older tool history omitted: "
    ++ (decimal omitted ++ (text " entries]" ++ (10 ∷ (10 ∷ []))))

unfoldable pub compress_transcript : List Text → ℕ → Text
compress_transcript transcript limit =
    let s =
      select_entries (length transcript) limit (reverse transcript)
        (record { chosen = []; used = 0; omitted = 0 }) in
    let body = join_lines s.chosen in
    let marker = omission_marker s.omitted in
    if limit == 0
    then []
    else if is_empty transcript
    then []
    else if s.omitted == 0
    then body
    else if leb limit (length marker)
    then compress_tail body limit
    else marker ++ compress_tail body (limit - length marker)
