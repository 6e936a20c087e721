-- ===== src/Control/Plan.antt =====
-- The plan of a coding run in src-tauri/src/coding_control.rs: `load_plan`, `update_plan` and
-- `replan_after_failure`.
use open_mind_ai.Base.{
  ℕ, zero, suc, ◌≤◌, min, Bool, true, false, Option, none, some, List, [], ◌∷◌, ◌++◌, if◌then◌else◌,
  ◌≡◌, length, take,
}
use open_mind_ai.Base.Text.{Text, text, text_eq, trim, decimal}
use open_mind_ai.Control.{
  StepStatus, active_step, pending_step, CodingPlanStep, CodingPlan, Database, bounded,
  record_event,
}

abbrev pub max_plan_steps : ℕ
max_plan_steps = 12

abbrev pub max_revision : ℕ
max_revision = 9223372036854775807

abbrev pub plan_of : Text → List (Text × CodingPlan) → Option CodingPlan
plan_of run [] = none
plan_of run ((r, p) ∷ plans) = if text_eq r run then some p else plan_of run plans

unfoldable pub load_plan : Text → Database → Option CodingPlan
load_plan run db = plan_of run db.plans

-- The upsert of a row.
abbrev pub put_plan : Text → CodingPlan → List (Text × CodingPlan) → List (Text × CodingPlan)
put_plan run p [] = (run, p) ∷ []
put_plan run p ((r, q) ∷ plans) =
    let rest = (r, q) ∷ put_plan run p plans in if text_eq r run then (r, p) ∷ plans else rest

-- Trimmed, without the empty ones.
abbrev pub cleaned : List Text → List Text
cleaned [] = []
cleaned (raw ∷ raws) =
    let rest = trim raw ∷ cleaned raws in if text_eq (trim raw) [] then cleaned raws else rest

abbrev pub status_at : ℕ → StepStatus
status_at zero = active_step
status_at (suc i) = pending_step

abbrev pub numbered_steps : ℕ → List Text → List CodingPlanStep
numbered_steps i [] = []
numbered_steps i (value ∷ values) =
    record {
      step_id = text "step-" ++ decimal (suc i);
      title = bounded value 500;
      step_status = status_at i;
    }
    ∷ numbered_steps (suc i) values

abbrev pub revision_of : Option CodingPlan → ℕ
revision_of none = 0
revision_of (some p) = p.revision

abbrev pub store_plan : Text → Text → List CodingPlanStep → Database → Option CodingPlan × Database
store_plan run reason [] db = (none, db)
store_plan run reason (s ∷ steps) db =
    let plan : CodingPlan = record {
      revision = min (suc (revision_of (load_plan run db))) max_revision;
      plan_reason = bounded reason 1000;
      steps = s ∷ steps;
    } in
    (
      some plan,
      record_event run (text "plan") (text "Plan revised to revision " ++ decimal plan.revision)
          (record db { plans = put_plan run plan db.plans }),
    )

-- `none` is the error for a plan without steps.
unfoldable pub update_plan : Text → List Text → Text → Database → Option CodingPlan × Database
update_plan run raw_steps reason db =
    store_plan run reason (numbered_steps 0 (take max_plan_steps (cleaned raw_steps))) db

abbrev pub titles : List CodingPlanStep → List Text
titles [] = []
titles (s ∷ steps) = s.title ∷ titles steps

abbrev pub replan_with : Text → Text → Database → Option CodingPlan → Bool × Database
replan_with run failure db none = (true, db)
replan_with run failure db (some current) =
    let first =
      text "Diagnose the latest failure without repeating the same action: "
      ++ bounded failure 500 in
    let (r, db') =
      update_plan run (take max_plan_steps (first ∷ titles current.steps))
        (text "automatic recovery replan") db in
    (elim r as (λ _. Bool) [ none ↦ false | some p ↦ true ], db')

-- `false` is an error.
unfoldable pub replan_after_failure : Text → Text → Database → Bool × Database
replan_after_failure run failure db = replan_with run failure db (load_plan run db)

-- The first step of a plan is active and the others wait, each with a short title.
abbrev pub AllWait : List CodingPlanStep → Type 0
AllWait [] = Unit {0}
AllWait (s ∷ steps) = (s.step_status ≡ pending_step) × (length s.title ≤ 512) × AllWait steps

abbrev pub IsFreshPlan : List CodingPlanStep → Type 0
IsFreshPlan [] = ⊥
IsFreshPlan (s ∷ steps) = (s.step_status ≡ active_step) × (length s.title ≤ 512) × AllWait steps

-- The wanted steps, each cut to the size of a title.
abbrev pub shortened : List Text → List Text
shortened [] = []
shortened (v ∷ values) = bounded v 500 ∷ shortened values
