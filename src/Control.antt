-- ===== src/Control.antt =====
-- src-tauri/src/coding_control.rs: the plan, the events and the approvals of a coding run. The database
-- is a value: a table is a list of its rows in the order of insertion, and a statement is the change
-- that its SQL makes. Times and new identifiers are numbers that the caller passes in; SHA-256 is a
-- parameter. The step of an approval and the id, the time and the JSON detail of an event, which no
-- operation reads, are left out; an action's JSON is a text.
pub mod Approvals
pub mod Trace
pub mod Events
pub mod Plan
use open_mind_ai.Base.{
  ℕ, zero, suc, ◌+◌, max, Bool, true, false, not, ◌&&◌, ◌||◌, Option, none, some, List, [], ◌∷◌,
  ◌++◌, ltb, leb, ◌==◌, if◌then◌else◌, length, take, any,
}
use open_mind_ai.Base.Text.{Text, text, text_eq, trim, decimal}

pub data ApprovalStatus : Type 0 where
  pending approved rejected consumed : ApprovalStatus

pub data StepStatus : Type 0 where
  active_step pending_step : StepStatus

pub record CodingPlanStep : Type 0 where
  pub step_id : Text
  pub title : Text
  pub step_status : StepStatus

pub record CodingPlan : Type 0 where
  pub revision : ℕ
  pub plan_reason : Text
  pub steps : List CodingPlanStep

pub record CodingEvent : Type 0 where
  pub event_run : Text
  pub sequence : ℕ
  pub kind : Text
  pub label : Text

pub record CodingApproval : Type 0 where
  pub id : ℕ
  pub run_id : Text
  pub action_hash : Text
  pub tool : Text
  pub action_json : Text
  pub reason : Text
  pub status : ApprovalStatus
  pub requested_at : ℕ
  pub decided_at : Option ℕ
  pub consumed_at : Option ℕ

-- A link of a run to the one that it continues; the child is the key of the table.
pub record RunLink : Type 0 where
  pub parent_run : Text
  pub child_run : Text

pub record Database : Type 0 where
  pub plans : List (Text × CodingPlan)
  pub events : List CodingEvent
  pub approvals : List CodingApproval
  pub links : List RunLink

abbrev pub empty_database : Database
empty_database = record { plans = []; events = []; approvals = []; links = [] }

unfoldable pub bounded : Text → ℕ → Text
bounded value max_chars =
    if leb (length value) max_chars
    then value
    else take max_chars value ++ (8230 ∷ text "[truncated]")

-- `COALESCE(MAX(sequence), 0) WHERE run_id = ..`.
abbrev pub last_sequence : Text → List CodingEvent → ℕ
last_sequence run [] = 0
last_sequence run (e ∷ es) =
    if text_eq e.event_run run then max e.sequence (last_sequence run es) else last_sequence run es

unfoldable pub record_event : Text → Text → Text → Database → Database
record_event run kind label db = record db {
  events =
      db.events
      ++ (record {
        event_run = run;
        sequence = last_sequence run db.events + 1;
        kind = bounded kind 80;
        label = bounded label 600;
      }
          ∷ []);
}

abbrev pub is_pending : ApprovalStatus → Bool
is_pending pending = true
is_pending _ = false

abbrev pub is_approved : ApprovalStatus → Bool
is_approved approved = true
is_approved _ = false

abbrev pub newer : CodingApproval → Option CodingApproval → Option CodingApproval
newer a none = some a
newer a (some b) = if ltb a.requested_at b.requested_at then some b else some a

-- The latest row that passes a test: `ORDER BY requested_at DESC`, of which the first is taken.
abbrev pub latest : (CodingApproval → Bool) → List CodingApproval → Option CodingApproval
latest test [] = none
latest test (a ∷ rows) = let rest = latest test rows in if test a then newer a rest else rest

unfoldable pub find_approval :
    Text → Text → (ApprovalStatus → Bool) → Database → Option CodingApproval
find_approval run hash statuses db =
    latest (λ a. text_eq a.run_id run && (text_eq a.action_hash hash && statuses a.status))
      db.approvals

abbrev pub has_id : ℕ → List CodingApproval → Bool
has_id i [] = false
has_id i (a ∷ rows) = a.id == i || has_id i rows

unfoldable pub hash_action : (Text → Text) → Text → Text → Text
hash_action sha256 tool action_json = sha256 (tool ++ (0 ∷ action_json))

abbrev pub new_approval : ℕ → ℕ → Text → Text → Text → Text → Text → CodingApproval
new_approval i now run hash tool action_json reason = record {
  id = i;
  run_id = run;
  action_hash = hash;
  tool = tool;
  action_json = action_json;
  reason = bounded reason 2000;
  status = pending;
  requested_at = now;
  decided_at = none;
  consumed_at = none;
}

abbrev pub open_status : ApprovalStatus → Bool
open_status s = is_pending s || is_approved s

-- The insertion of a row whose key is taken is refused.
abbrev pub insert_approval : CodingApproval → Database → Option Database
insert_approval a db =
    if has_id a.id db.approvals
    then none
    else some (record db { approvals = db.approvals ++ (a ∷ []) })

-- The end of `request_approval`, given the database after the insertion, or `none` for its error.
abbrev pub after_insert :
    Text → Text → Text → Database → Option Database → Option CodingApproval × Database
after_insert run hash tool db none = (none, db)
after_insert run hash tool db (some db') =
    let db'' = record_event run (text "approval") (text "Approval required for " ++ tool) db' in
    (find_approval run hash is_pending db'', db'')

abbrev pub request_with :
    CodingApproval → Database → Option CodingApproval → Option CodingApproval × Database
request_with a db (some existing) = (some existing, db)
request_with a db none = after_insert a.run_id a.action_hash a.tool db (insert_approval a db)

-- `none` is an error. `i` and `now` are the new id and the time.
unfoldable pub request_approval :
    (Text → Text) → ℕ → ℕ → Text → Text → Text → Text → Database → Option CodingApproval × Database
request_approval sha256 i now run tool action_json reason db =
    let hash = hash_action sha256 tool action_json in
    request_with (new_approval i now run hash tool action_json reason) db
      (find_approval run hash open_status db)

-- The runs that a run continues, itself first. A run has one parent at most, so on links without a
-- cycle as many steps as there are links reach the first.
abbrev pub parent_of : Text → List RunLink → Option Text
parent_of run [] = none
parent_of run (l ∷ links) =
    if text_eq l.child_run run then some l.parent_run else parent_of run links

unfoldable pub lineage : ℕ → List RunLink → Text → List Text
lineage zero links run = run ∷ []
lineage (suc fuel) links run =
    run ∷ elim (parent_of run links) [ none ↦ [] | some parent ↦ lineage fuel links parent ]

abbrev pub put_row : CodingApproval → Option (List CodingApproval) → Option (List CodingApproval)
put_row a none = none
put_row a (some rows) = some (a ∷ rows)

-- The update of the row with a key, where it passes a test; `none` if no row changes.
abbrev pub update_row :
    ℕ
    → (ApprovalStatus → Bool)
    → (CodingApproval → CodingApproval)
    → List CodingApproval
    → Option (List CodingApproval)
update_row i test f [] = none
update_row i test f (a ∷ rows) =
    if a.id == i
    then (if test a.status then some (f a ∷ rows) else none)
    else put_row a (update_row i test f rows)

abbrev pub consume_at : ℕ → CodingApproval → CodingApproval
consume_at now a = record a { status = consumed; consumed_at = some now }

abbrev pub decide_at : ℕ → ApprovalStatus → CodingApproval → CodingApproval
decide_at now decision a = record a { status = decision; decided_at = some now }

abbrev pub after_consume : Text → Text → Database → Option (List CodingApproval) → Bool × Database
after_consume run tool db none = (false, db)
after_consume run tool db (some rows) = (
  true,
  record_event run (text "approval") (text "Consumed exact approval for " ++ tool)
      (record db { approvals = rows }),
)

abbrev pub consume_with : ℕ → Text → Text → Database → Option CodingApproval → Bool × Database
consume_with now run tool db none = (false, db)
consume_with now run tool db (some a) =
    after_consume run tool db (update_row a.id is_approved (consume_at now) db.approvals)

-- An approved row of a run of the lineage with this hash.
abbrev pub is_usable : List Text → Text → CodingApproval → Bool
is_usable runs hash a =
    any (text_eq a.run_id) runs && (text_eq a.action_hash hash && is_approved a.status)

unfoldable pub consume_exact_approval :
    (Text → Text) → ℕ → Text → Text → Text → Database → Bool × Database
consume_exact_approval sha256 now run tool action_json db =
    let hash = hash_action sha256 tool action_json in
    let runs = lineage (length db.links) db.links run in
    consume_with now run tool db (latest (is_usable runs hash) db.approvals)

abbrev pub row_at : ℕ → List CodingApproval → Option CodingApproval
row_at i [] = none
row_at i (a ∷ rows) = if a.id == i then some a else row_at i rows

abbrev pub decision_name : ApprovalStatus → Text
decision_name approved = text "approved"
decision_name _ = text "rejected"

abbrev pub announce_decision :
    ApprovalStatus → Database → Option CodingApproval → Option CodingApproval × Database
announce_decision decision db none = (none, db)
announce_decision decision db (some a) = (
  some a,
  record_event a.run_id (text "approval") (a.tool ++ (text " action " ++ decision_name decision))
      db,
)

abbrev pub after_decision :
    ℕ → ApprovalStatus → Database → Option (List CodingApproval) → Option CodingApproval × Database
after_decision i decision db none = (none, db)
after_decision i decision db (some rows) =
    announce_decision decision (record db { approvals = rows }) (row_at i rows)

-- `none` is an error; the decision is `approved` or `rejected`.
unfoldable pub decide_approval :
    ℕ → ℕ → ApprovalStatus → Database → Option CodingApproval × Database
decide_approval now i decision db =
    after_decision i decision db (update_row i is_pending (decide_at now decision) db.approvals)

abbrev pub without_child : Text → List RunLink → List RunLink
without_child child [] = []
without_child child (l ∷ links) =
    if text_eq l.child_run child then without_child child links else l ∷ without_child child links

-- `INSERT OR REPLACE`.
unfoldable pub link_runs : Text → Text → Database → Database
link_runs parent child db =
    record_event child (text "resume") (text "Continuation linked to interrupted run") (record db {
      links =
          without_child child db.links ++ (record { parent_run = parent; child_run = child } ∷ []);
    })
