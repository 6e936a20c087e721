-- ===== src/Security.antt =====
-- src-tauri/src/openagent_security.rs: the approval policy for the tool calls of the coding agent.
pub mod Policy
use open_mind_ai.Base.{
  Bool, true, false, ◌||◌, Option, none, some, List, [], ◌∷◌, if◌then◌else◌, any,
}
use open_mind_ai.Base.Text.{Text, text, text_eq, trim, to_ascii_lowercase, starts_with, contains}
use open_mind_ai.Json.{Json}

pub data ApprovalMode : Type 0 where
  risk_based always_ask trusted_workspace : ApprovalMode

unfoldable pub parse_approval_mode : Text → ApprovalMode
parse_approval_mode value =
    if text_eq value (text "always_ask")
    then always_ask
    else if text_eq value (text "trusted_workspace")
    then trusted_workspace
    else risk_based

pub data PolicyDecision : Type 0 where
  allow require_approval deny : PolicyDecision

pub data RiskLevel : Type 0 where
  read_only workspace_write destructive host_execution remote_mutation prohibited : RiskLevel

-- The decision for a risk level.
unfoldable pub decide : RiskLevel → ApprovalMode → PolicyDecision
decide prohibited mode = deny
decide read_only mode = allow
decide workspace_write always_ask = require_approval
decide workspace_write risk_based = allow
decide workspace_write trusted_workspace = allow
decide remote_mutation mode = require_approval
decide destructive trusted_workspace = allow
decide destructive risk_based = require_approval
decide destructive always_ask = require_approval
decide host_execution trusted_workspace = allow
decide host_execution risk_based = require_approval
decide host_execution always_ask = require_approval

explain : PolicyDecision → RiskLevel → Text
explain allow read_only = text "read-only workspace operation"
explain allow workspace_write = text "bounded workspace edit"
explain allow destructive = text "trusted-workspace destructive operation"
explain allow host_execution = text "trusted-workspace host command"
explain require_approval workspace_write =
    text "workspace edits require approval in Always Ask mode"
explain require_approval destructive = text "destructive filesystem operation requires approval"
explain require_approval host_execution = text "host command requires approval"
explain require_approval remote_mutation = text "remote repository mutation requires exact approval"
explain deny prohibited = text "command violates the non-bypassable safety policy"
explain _ _ = text "operation is not authorized by the active policy"

-- A command that is refused in every mode; the argument is trimmed and in lower case.
unfoldable pub is_prohibited : Text → Bool
is_prohibited command =
    text_eq command []
    || (contains command (text "rm -rf /")
        || (contains command (text "format c:")
            || (contains command (text "remove-item -recurse c:\\")
                || (contains command (text "shutdown ") || contains command (text "reboot")))))

abbrev pub read_only_prefixes : List Text
read_only_prefixes =
    text "git status"
    ∷ text "git diff"
    ∷ text "git log"
    ∷ text "rg "
    ∷ text "grep "
    ∷ text "ls"
    ∷ text "dir"
    ∷ []

unfoldable pub is_destructive : Text → Bool
is_destructive command =
    contains command (text "rm -rf ")
    || (starts_with command (text "remove-item ")
        || (starts_with command (text "git reset --hard")
            || starts_with command (text "git clean -")))

-- The ladder of `classify_terminal` over its four tests.
unfoldable pub classify_tests : Bool → Bool → Bool → Bool → RiskLevel
classify_tests forbidden host reads destroys =
    if forbidden
    then prohibited
    else if host
    then host_execution
    else if reads
    then read_only
    else if destroys
    then destructive
    else workspace_write

unfoldable pub classify_normalized : Text → Bool → RiskLevel
classify_normalized command host =
    classify_tests (is_prohibited command) host (any (starts_with command) read_only_prefixes)
      (is_destructive command)

unfoldable pub classify_terminal : Text → Bool → RiskLevel
classify_terminal command host = classify_normalized (to_ascii_lowercase (trim command)) host

abbrev pub read_only_tools : List Text
read_only_tools =
    text "list_dir"
    ∷ text "read_file"
    ∷ text "search_text"
    ∷ text "symbol_search"
    ∷ text "symbol_definition"
    ∷ text "symbol_references"
    ∷ text "symbol_hover"
    ∷ text "symbol_outline"
    ∷ text "symbol_incoming_calls"
    ∷ text "symbol_outgoing_calls"
    ∷ text "symbol_diagnostics"
    ∷ text "git_status"
    ∷ text "git_diff"
    ∷ []

abbrev pub write_tools : List Text
write_tools =
    text "write_file" ∷ text "replace_text" ∷ text "patch_transaction" ∷ text "create_dir" ∷ []

abbrev pub destructive_tools : List Text
destructive_tools = text "move_path" ∷ text "delete_path" ∷ []

abbrev pub delivery_reads : List Text
delivery_reads =
    text "branches"
    ∷ text "pull_request"
    ∷ text "checks"
    ∷ text "check_jobs"
    ∷ text "check_logs"
    ∷ []

abbrev pub delivery_mutations : List Text
delivery_mutations =
    text "create_branch"
    ∷ text "commit_files"
    ∷ text "create_pull_request"
    ∷ text "update_pull_request"
    ∷ text "rerun_checks"
    ∷ text "merge_pull_request"
    ∷ []

unfoldable pub classify_operation : Text → RiskLevel
classify_operation operation =
    if any (text_eq operation) delivery_reads
    then read_only
    else if any (text_eq operation) delivery_mutations
    then remote_mutation
    else prohibited

module _ (json : Json) where
  open json use {Value, get, as_str, as_bool}

  -- `get(key).and_then(Value::as_str).unwrap_or_default()`.
  abbrev pub text_field : Value → Text → Text
  text_field action key = elim (get action key) [
    | none ↦ []
    | some v ↦ elim (as_str v) [ none ↦ [] | some t ↦ t ]
  ]

  abbrev pub bool_field : Value → Text → Bool
  bool_field action key = elim (get action key) [
    | none ↦ false
    | some v ↦ elim (as_bool v) [ none ↦ false | some b ↦ b ]
  ]

  unfoldable pub classify_tool : Text → Value → RiskLevel
  classify_tool tool action =
      if any (text_eq tool) read_only_tools
      then read_only
      else if any (text_eq tool) write_tools
      then workspace_write
      else if any (text_eq tool) destructive_tools
      then destructive
      else if text_eq tool (text "delivery")
      then classify_operation (text_field action (text "operation"))
      else if text_eq tool (text "terminal")
      then classify_terminal (text_field action (text "command"))
          (bool_field action (text "hostExecution"))
      else prohibited

  unfoldable pub authorize_tool : Text → Value → ApprovalMode → PolicyDecision × Text
  unfolding explain
  authorize_tool tool action mode =
      let risk = classify_tool tool action in
      let decision = decide risk mode in (decision, explain decision risk)
