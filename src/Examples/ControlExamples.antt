-- ===== src/Examples/ControlExamples.antt =====
-- src-tauri/src/coding_control.rs: an action that is asked for, approved, and started twice.
use open_mind_ai.Base.{◌+◌, ◌≡◌, refl, List, [], ◌∷◌, ◌++◌}
use open_mind_ai.Base.Text.{Text, text}
use open_mind_ai.Control.{
  empty_database, hash_action, record_event, link_runs, request_approval, consume_exact_approval,
  decide_approval, find_approval, lineage,
}
use open_mind_ai.Control.Approvals.{count_ready}
use open_mind_ai.Control.Trace.{
  Command, ask, approve, start_action, continue_run, run_commands, actions_started, approvals_given,
  actions_started-approvals_given,
}
use open_mind_ai.Control.Events.{IsNumbered, run_commands-IsNumbered}

-- A stand-in for the hash function.
abbrev same_text : Text → Text
same_text t = t

abbrev write_hash : Text
write_hash = text "write_file" ++ (0 ∷ text "{}")

abbrev session : List Command
session =
    ask 1 10 (text "run-1") (text "write_file") (text "{}") (text "to fix the test")
    ∷ start_action 11 (text "run-1") (text "write_file") (text "{}")
    ∷ approve 12 1
    ∷ continue_run (text "run-1") (text "run-2")
    ∷ start_action 13 (text "run-2") (text "write_file") (text "{}")
    ∷ start_action 14 (text "run-1") (text "write_file") (text "{}")
    ∷ []

started_once : actions_started same_text write_hash session empty_database ≡ 1
unfolding actions_started link_runs request_approval consume_exact_approval decide_approval
    hash_action find_approval lineage record_event
started_once = refl

actions_started-approvals_given_example :
    actions_started same_text write_hash session empty_database
      + count_ready write_hash (run_commands same_text write_hash session empty_database).approvals
    ≡ approvals_given same_text write_hash session empty_database
actions_started-approvals_given_example =
    actions_started-approvals_given same_text write_hash session

run_commands-IsNumbered_example :
    IsNumbered (run_commands same_text write_hash session empty_database).events
run_commands-IsNumbered_example =
    run_commands-IsNumbered same_text write_hash session empty_database (λ run. refl)

abbrev wanted : List Text
wanted = text " read the code " ∷ text "  " ∷ text "fix it" ∷ []
