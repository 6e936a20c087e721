-- ===== src/Lib.antt =====
-- OpenMindAI: the decision and transaction logic of the desktop application's Rust core (src-tauri).
--
-- The parts and how they interact.
--
-- * Sampling, Sampling.Compact (src-tauri/src/sampling.rs): `estimated_prompt_tokens`,
--   `chat_output_budget` and `compact_chat_context`. A chat request is first compacted to the context
--   window, then its reply budget is computed from what is sent. Messages are values of the JSON
--   library, which is a parameter (Json): a type of values with the operations that the code calls, and
--   no law. Texts are lists of Unicode scalar values (Base.Text); u32 and u64 sums that saturate are
--   written out (`add_u32`, `add_u64`).
-- * Hardware (src-tauri/src/hardware.rs) and Performance (src-tauri/src/performance.rs): the profile of
--   the machine as a value, the classification of adapters, and the performance profile. The detection
--   itself is input and output and not modelled.
-- * Launch (src-tauri/src/launch_planner.rs): `ModelLaunchPlanner::plan` and its helpers; it reads a
--   hardware profile and a performance profile.
-- * Placement (src-tauri/src/agent_runtime.rs): whether the coding agent's model gets its own runtime,
--   from two launch plans: `decide_placement`, `confirm_available_memory`, and as `plan_placement` the
--   end of `plan_agent_runtime`.
-- * Startup (src-tauri/src/agent_runtime.rs): `AgentStartup`, the start of the agent's model server with
--   its record, its polling loops and its time limit. The launcher's answers are a list with the time
--   of each, so the loops are structural recursion over it; a list at its end means that the caller is
--   still waiting. One caller holds the gate at a time; what others did before is in the state that
--   `acquire` starts from.
-- * Security (src-tauri/src/openagent_security.rs): `authorize_tool` for every tool, delivery and
--   terminal command of the agent.
-- * Patch (src-tauri/src/coding_patch.rs): Patch.Disk, with Patch.Disk.Recover, translates `commit_transaction`,
--   `rollback_transaction`, `recover_interrupted_transactions` and `validate_journal`, on a disk with
--   regular files, directories and the transaction directory, where each durable operation has an outcome
--   (done, failed without or after the effect, the process dies before or after it, a torn write, a
--   removal that stops half-way). Patch.Paths has the checks of paths. Patch.World, Patch.Commit and
--   Patch.Recovery are the same programs on regular files alone, over which Patch.World.Hoare reasons
--   for all outcomes; Patch.Disk.Simulation, Programs, Undo and Restart relate both for a disk where no
--   directory is in the way of a planned path. The transaction store holds one directory at most,
--   since each transaction starts with a recovery that empties the store or refuses to go on. Path
--   components and whether a path resolves inside the workspace with no symbolic link are a parameter
--   (Platform). The synchronization of directories is part of an operation's outcome, and the creation of
--   a path's missing directories counts as one operation, of which a torn outcome leaves the first ones.
--   The failure of an operation stands for every error of it, so the text of an error is not modelled.
-- * PromptContext (src-tauri/src/openagent_prompt_context.rs): `build_prompt_context`, with
--   `allocate_budgets` in PromptContext.Allocate and the cuts of the parts. Lengths are counted in
--   characters, as in the code.
-- * Control (src-tauri/src/coding_control.rs): the tables of a coding run as lists of rows, with
--   `record_event`, `request_approval`, `consume_exact_approval`, `decide_approval`, `link_runs`, and in
--   Control.Plan `update_plan` and `replan_after_failure`. Control.Trace runs sequences of these calls.
-- * Glob (src-tauri/src/net.rs, src-tauri/src/model_package.rs): the patterns with stars of the proxy
--   bypass list, `glob_match` and `bypass_matches`, and of package files, `wildcard_match`, against one
--   reference definition of a match, `matches` of Glob.Suffixes.
-- * Gateway (src-tauri/src/coding_agent_gateway.rs): the loopback endpoint of the coding agent.
--   `read_request` runs over the list of the reads from a stream, `parse_head` over the decoded head;
--   Gateway.Route has `reject_untrusted` and `route`, Gateway.Trust the comparison of tokens, and
--   Gateway.Budget `output_budget` and `post_with_retry`. UTF-8 is a parameter. Chat requests end at
--   the handlers' names: what a handler does is in the other parts or not modelled.
-- * Ownership (src-tauri/src/process_ownership.rs): the registry of started processes with `record`,
--   `forget` and `sweep_with`, and `capture_renderer_stream`. The operating system is a parameter: a
--   type of its states, the identity that it gives for a process id, and the attempt to end a process.
-- * ImageJobs (src-tauri/src/image_jobs.rs): the registry of `ActiveImageJobs`, with the guards that the
--   callers hold and the tokens that are cancelled as part of the state.
-- * Guards (src-tauri/src/runtime_guards.rs): `read_capped`, the bounded reading of a process's output.
--
-- Three definitions use fuel. The digits of a number `n` (`decimal`) are printed in `n + 1` rounds at most,
-- since each divides by ten. The loop that shares out the budget of a prompt (`passes`) gets two passes:
-- the first one satisfies every part or uses the budget up, and the second one finds nothing to do. The
-- runs that a run continues (`lineage`) are followed for as many steps as there are links, which reach
-- the first run unless the links have a cycle. All other loops run over finite lists and are structural
-- recursion.
-- The transaction limit is 64 operations, as in the code.
--
-- Examples has tests, and each theorem at a concrete input; Examples.ConcreteJson is a concrete JSON
-- library.
--
-- Not modelled: the processes, sockets, pipes and databases around these parts (the native worker and
-- its supervisor, the chat and inference runtimes, downloads, connectors, settings), the user interface,
-- the planning of a patch (`preflight`), the Go gateway (services/inference-api), scripts, and the copies
-- of other projects under vendor.
pub mod Base
pub mod Control
pub mod Glob
pub mod Gateway
pub mod Ownership
pub mod ImageJobs
pub mod Guards
pub mod Hardware
pub mod Json
pub mod Launch
pub mod Patch
pub mod Performance
pub mod Placement
pub mod PromptContext
pub mod Sampling
pub mod Security
pub mod Startup
mod Examples
