-- ===== src/Examples/SecurityExamples.antt =====
-- src-tauri/src/openagent_security.rs at concrete tool calls.
use open_mind_ai.Base.{◌≡◌, refl, ◌≢◌, ◌⊎◌, ◌↔◌}
use open_mind_ai.Base.Text.{Text, text}
use open_mind_ai.Examples.ConcreteJson.{Doc, docs, object, field, str, end}
use open_mind_ai.Security.{
  risk_based, always_ask, trusted_workspace, allow, deny, read_only, workspace_write,
  remote_mutation, prohibited, classify_tool, authorize_tool, is_prohibited, is_destructive,
  classify_terminal, classify_normalized, classify_tests, decide,
}
use open_mind_ai.Security.Policy.{authorize_tool-modes}

abbrev terminal_call : Text → Doc
terminal_call command = object (field (text "command") (str command) end)

authorize_tool-modes_example :
    let risk = classify_tool docs (text "terminal") (terminal_call (text "cargo test")) in
    (((authorize_tool docs (text "terminal") (terminal_call (text "cargo test")) always_ask).0
        ≡ allow)
      ↔ (risk ≡ read_only))
    × (((authorize_tool docs (text "terminal") (terminal_call (text "cargo test")) risk_based).0
          ≡ allow)
        ↔ ((risk ≡ read_only) ⊎ (risk ≡ workspace_write)))
    × (((authorize_tool docs
            (text "terminal")
            (terminal_call (text "cargo test"))
            trusted_workspace).0
          ≡ allow)
        ↔ ((risk ≢ remote_mutation) × (risk ≢ prohibited)))
    × (((authorize_tool docs (text "terminal") (terminal_call (text "cargo test")) risk_based).0
          ≡ deny)
        ↔ (risk ≡ prohibited))
authorize_tool-modes_example =
    authorize_tool-modes docs (text "terminal") (terminal_call (text "cargo test")) risk_based

-- A removal behind a listing runs unasked, even in the mode that always asks.
removes_unasked :
    (authorize_tool docs (text "terminal") (terminal_call (text "ls; rm -rf src")) always_ask).0
    ≡ allow
unfolding authorize_tool classify_tool classify_terminal classify_normalized classify_tests decide
    is_prohibited is_destructive
removes_unasked = refl
