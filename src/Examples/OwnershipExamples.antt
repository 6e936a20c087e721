-- ===== src/Examples/OwnershipExamples.antt =====
-- src-tauri/src/process_ownership.rs: a sweep of three records, and output with progress lines.
use open_mind_ai.Base.{
  ℕ, ◌≤◌, ◌≡◌, refl, Bool, true, Option, some, List, [], ◌∷◌, ◌++◌, if◌then◌else◌, ◌==◌, length,
  find,
}
use open_mind_ai.Base.Text.{text}
use open_mind_ai.Ownership.{
  ProcessIdentity, OwnedRecord, sweep_records, sweep_with, max_renderer_log_bytes, keep_last,
  pass_line, read_bytes, capture_loop, capture_renderer_stream, record_child, forget,
}
use open_mind_ai.Ownership.Sweep.{IsSweepOf, sweep_with-IsSweepOf}
use open_mind_ai.Ownership.Capture.{joined, AllShort, capture_renderer_stream_lem}

-- The running processes are the state of the system.
abbrev running : ℕ → List ProcessIdentity → Option ProcessIdentity
running p = find (λ i. i.pid == p)

abbrev ended : ProcessIdentity → List ProcessIdentity → List ProcessIdentity
ended i [] = []
ended i (j ∷ processes) = let rest = ended i processes in if j.pid == i.pid then rest else j ∷ rest

abbrev end_process : ProcessIdentity → List ProcessIdentity → Bool × List ProcessIdentity
end_process i processes = (true, ended i processes)

abbrev process : ℕ → ℕ → ProcessIdentity
process p t = record { pid = p; started = t; executable = text "llama-server" }

abbrev registry : List OwnedRecord
registry =
    record { owner = process 1 10; child = process 2 11 }
    ∷ record { owner = process 3 12; child = process 4 13 }
    ∷ record { owner = process 3 12; child = process 5 14 }
    ∷ []

-- The second owner is gone, and the id 5 belongs to another process.
abbrev processes : List ProcessIdentity
processes = process 1 10 ∷ process 2 11 ∷ process 4 13 ∷ process 5 99 ∷ []

one_terminated :
    (sweep_with running end_process true registry processes).0.report.terminated ≡ 4 ∷ []
unfolding sweep_with sweep_records
one_terminated = refl

kept_own :
    (sweep_with running end_process true registry processes).1
    ≡ record { owner = process 1 10; child = process 2 11 } ∷ []
unfolding sweep_with sweep_records
kept_own = refl

recorded_once :
    length (record_child true (some (process 1 10)) (some (process 4 13)) 4 registry) ≡ 3
unfolding record_child
recorded_once = refl

forgotten : length (forget true 4 registry) ≡ 2
unfolding forget
forgotten = refl

sweep_with-IsSweepOf_example :
    IsSweepOf running end_process registry 3
      (sweep_with running end_process true registry processes).0
    × (length (sweep_with running end_process true registry processes).1
        ≡ (sweep_with running end_process true registry processes).0.report.kept)
sweep_with-IsSweepOf_example = sweep_with-IsSweepOf running end_process registry processes

abbrev output : List (List ℕ)
output = text "step 1" ∷ (13 ∷ text "st") ∷ (text "ep 2" ++ (10 ∷ [])) ∷ []

two_lines : (capture_renderer_stream output).1.lines ≡ text "step 2" ∷ text "step 1" ∷ []
unfolding capture_renderer_stream capture_loop
two_lines = refl

capture_renderer_stream_lem_example :
    ((capture_renderer_stream output).0 ≡ keep_last max_renderer_log_bytes (joined output))
    × (length (capture_renderer_stream output).0 ≤ max_renderer_log_bytes)
    × ((capture_renderer_stream output).1
        ≡ pass_line (read_bytes (joined output) (record { partial_line = []; lines = [] })))
    × AllShort (capture_renderer_stream output).1.lines
capture_renderer_stream_lem_example = capture_renderer_stream_lem output
