-- ===== src/Examples/PromptContextExamples.antt =====
-- src-tauri/src/openagent_prompt_context.rs: a small window and short parts.
use open_mind_ai.Base.{ℕ, ◌≡◌, refl, min, List, [], ◌∷◌}
use open_mind_ai.Base.Text.{text}
use open_mind_ai.PromptContext.Allocate.{sum, AllLe, pass, allocate_budgets, allocate_budgets_lem}
use open_mind_ai.PromptContext.Fits.{PromptContextInput}

abbrev lengths : List ℕ
lengths = 100 ∷ 20 ∷ 500 ∷ []

abbrev shares : List ℕ
shares = 50 ∷ 30 ∷ 20 ∷ []

leftover_moves : allocate_budgets lengths shares 200 ≡ 100 ∷ 20 ∷ 80 ∷ []
unfolding allocate_budgets pass
leftover_moves = refl

allocate_budgets_lem_example :
    AllLe (allocate_budgets lengths shares 200) lengths
    × (sum (allocate_budgets lengths shares 200) ≡ min 200 (sum lengths))
allocate_budgets_lem_example = allocate_budgets_lem lengths shares 200 refl

abbrev small_input : PromptContextInput
small_input = record {
  project_instructions = text "Use tabs.";
  repository_context = text "src/main.rs";
  workspace_context = text "";
  conversation_context = text "hello";
  goal = text "Fix the test.";
  transcript = text "ran cargo test" ∷ text "failed" ∷ [];
  context_window_tokens = 4096;
  system_chars = 300;
}
