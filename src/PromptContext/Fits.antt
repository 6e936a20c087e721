-- ===== src/PromptContext/Fits.antt =====
-- `build_prompt_context` of src-tauri/src/openagent_prompt_context.rs, and that its parts fit together.
use open_mind_ai.Base.{ℕ, zero, suc, ◌+◌, ◌-◌, ◌*◌, ◌/◌, min, Bool, List, [], ◌∷◌, ltb, length}
use open_mind_ai.Base.Text.{Text}
use open_mind_ai.PromptContext.{
  clamp, join_lines, compress_head, compress_tail, compress_middle, compress_transcript,
}
use open_mind_ai.PromptContext.Allocate.{allocate_budgets}

pub record PromptContextInput : Type 0 where
  pub project_instructions : Text
  pub repository_context : Text
  pub workspace_context : Text
  pub conversation_context : Text
  pub goal : Text
  pub transcript : List Text
  pub context_window_tokens : ℕ
  pub system_chars : ℕ

pub record PromptContextPack : Type 0 where
  pub project_instructions : Text
  pub repository_context : Text
  pub workspace_context : Text
  pub conversation_context : Text
  pub goal : Text
  pub transcript : Text
  pub max_output_tokens : ℕ
  pub budget_chars : ℕ
  pub selected_chars : ℕ
  pub compressed : Bool

abbrev pub window_of : PromptContextInput → ℕ
window_of input = clamp 4096 32768 input.context_window_tokens

abbrev pub output_of : PromptContextInput → ℕ
output_of input = clamp 640 1536 (window_of input / 6)

abbrev pub budget_of : PromptContextInput → ℕ
budget_of input =
    min ((window_of input - output_of input - 256) * 3 - input.system_chars - 900) 24000

abbrev pub raw_parts : PromptContextInput → List Text
raw_parts input =
    input.goal
    ∷ join_lines input.transcript
    ∷ input.repository_context
    ∷ input.project_instructions
    ∷ input.conversation_context
    ∷ input.workspace_context
    ∷ []

abbrev pub caps : List ℕ
caps = 6000 ∷ 8000 ∷ 10000 ∷ 5000 ∷ 5000 ∷ 5000 ∷ []

abbrev pub weights : List ℕ
weights = 30 ∷ 25 ∷ 22 ∷ 10 ∷ 8 ∷ 5 ∷ []

abbrev pub capped_lengths : List Text → List ℕ → List ℕ
capped_lengths [] limits = []
capped_lengths (v ∷ vs) [] = []
capped_lengths (v ∷ vs) (c ∷ cs) = min (length v) c ∷ capped_lengths vs cs

abbrev pub sum_lengths : List Text → ℕ
sum_lengths [] = 0
sum_lengths (v ∷ vs) = length v + sum_lengths vs

-- `budgets[i]`.
abbrev pub nth : List ℕ → ℕ → ℕ
nth [] i = 0
nth (b ∷ bs) zero = b
nth (b ∷ bs) (suc i) = nth bs i

abbrev pub selected_parts : PromptContextInput → List ℕ → List Text
selected_parts input budgets =
    compress_middle input.goal (nth budgets 0)
    ∷ compress_transcript input.transcript (nth budgets 1)
    ∷ compress_middle input.repository_context (nth budgets 2)
    ∷ compress_head input.project_instructions (nth budgets 3)
    ∷ compress_tail input.conversation_context (nth budgets 4)
    ∷ compress_middle input.workspace_context (nth budgets 5)
    ∷ []

unfoldable pub build_prompt_context : PromptContextInput → PromptContextPack
build_prompt_context input =
    let budgets =
      allocate_budgets (capped_lengths (raw_parts input) caps) weights (budget_of input) in
    let selected_chars = sum_lengths (selected_parts input budgets) in
    record {
      project_instructions = compress_head input.project_instructions (nth budgets 3);
      repository_context = compress_middle input.repository_context (nth budgets 2);
      workspace_context = compress_middle input.workspace_context (nth budgets 5);
      conversation_context = compress_tail input.conversation_context (nth budgets 4);
      goal = compress_middle input.goal (nth budgets 0);
      transcript = compress_transcript input.transcript (nth budgets 1);
      max_output_tokens = output_of input;
      budget_chars = budget_of input;
      selected_chars = selected_chars;
      compressed = ltb selected_chars (sum_lengths (raw_parts input));
    }
