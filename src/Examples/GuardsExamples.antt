-- ===== src/Examples/GuardsExamples.antt =====
-- src-tauri/src/runtime_guards.rs: the code's own test, in two pieces.
use open_mind_ai.Base.{ℕ, ◌≡◌, refl, true, List, [], ◌∷◌, ltb, length, take}
use open_mind_ai.Base.Text.{text}
use open_mind_ai.Guards.{capped_loop, read_capped, all_bytes, read_capped-take}

abbrev digits_read : List (ℕ × List ℕ)
digits_read = (48, text "12345") ∷ (54, text "789abcdef") ∷ []

first_eight : (read_capped 8 digits_read).bytes ≡ text "01234567"
unfolding read_capped capped_loop
first_eight = refl

marked : (read_capped 8 digits_read).truncated ≡ true
unfolding read_capped capped_loop
marked = refl

read_capped-take_example :
    ((read_capped 8 digits_read).bytes ≡ take 8 (all_bytes digits_read))
    × ((read_capped 8 digits_read).truncated ≡ ltb 8 (length (all_bytes digits_read)))
read_capped-take_example = read_capped-take 8 digits_read
