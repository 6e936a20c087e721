-- ===== src/Control/Events.antt =====
-- The events of a run in src-tauri/src/coding_control.rs are numbered without a gap.
use open_mind_ai.Base.{
  ℕ, zero, suc, max, Option, none, some, List, [], ◌∷◌, ◌++◌, if◌then◌else◌, ◌≡◌, refl, sym, ◌∙◌,
  ap, subst, inl, inr, Bool-cases, arith,
}
use open_mind_ai.Base.Text.{Text, text_eq, text_eq→eq}
use open_mind_ai.Control.{
  CodingEvent, CodingApproval, ApprovalStatus, approved, rejected, Database, last_sequence,
  record_event, insert_approval, after_insert, request_with, request_approval, after_consume,
  consume_with, consume_exact_approval, announce_decision, after_decision, decide_approval,
  link_runs, update_row, row_at, consume_at, is_approved, has_id,
}
use open_mind_ai.Control.Trace.{
  Command, ask, approve, reject, start_action, continue_run, run_command, run_commands,
}

abbrev pub sequences_of : Text → List CodingEvent → List ℕ
sequences_of run [] = []
sequences_of run (e ∷ es) =
    if text_eq e.event_run run then e.sequence ∷ sequences_of run es else sequences_of run es

abbrev pub up_to : ℕ → List ℕ
up_to zero = []
up_to (suc n) = up_to n ++ (suc n ∷ [])

-- The events of each run bear the numbers from 1 on, in order.
abbrev pub IsNumbered : List CodingEvent → Type 0
IsNumbered es = (run : Text) → sequences_of run es ≡ up_to (last_sequence run es)

sequences-append :
    (run : Text) (es : List CodingEvent) (e : CodingEvent)
    → sequences_of run (es ++ (e ∷ [])) ≡ (
        if text_eq e.event_run run
        then sequences_of run es ++ (e.sequence ∷ [])
        else sequences_of run es)
sequences-append run [] e = ground arith
sequences-append run (d ∷ es) e = ground (arith, sequences-append run es e)

last_sequence-append :
    (run : Text) (es : List CodingEvent) (e : CodingEvent)
    → last_sequence run (es ++ (e ∷ [])) ≡ (
        if text_eq e.event_run run
        then max e.sequence (last_sequence run es)
        else last_sequence run es)
last_sequence-append run [] e = ground arith
last_sequence-append run (d ∷ es) e = ground (arith, last_sequence-append run es e)

append-IsNumbered :
    (es : List CodingEvent) (e : CodingEvent)
    → e.sequence ≡ suc (last_sequence e.event_run es)
    → IsNumbered es
    → IsNumbered (es ++ (e ∷ []))
append-IsNumbered es e next h run = elim (Bool-cases (text_eq e.event_run run)) [
  | inr other ↦ ground (arith, sequences-append run es e, last_sequence-append run es e, h run)
  | inl same ↦
      let here : e.event_run ≡ run = text_eq→eq e.event_run run same in
      let number : e.sequence ≡ suc (last_sequence run es) =
        next ∙ ap (λ r. suc (last_sequence r es)) here in
      let top : max e.sequence (last_sequence run es) ≡ suc (last_sequence run es) = omega arith in
      let left : sequences_of run (es ++ (e ∷ [])) ≡ up_to (suc (last_sequence run es)) =
        rw (sequences-append run es e, same, number, h run) refl in
      let right : last_sequence run (es ++ (e ∷ [])) ≡ suc (last_sequence run es) =
        rw (last_sequence-append run es e, same) top in
      left ∙ ap up_to (sym right)
]

record_event-IsNumbered :
    (run kind label : Text) (db : Database)
    → IsNumbered db.events
    → IsNumbered (record_event run kind label db).events
unfolding record_event
record_event-IsNumbered run kind label db h = append-IsNumbered db.events _ (omega arith) h

insert-events :
    (a : CodingApproval) (db db' : Database)
    → insert_approval a db ≡ some db'
    → db'.events ≡ db.events
insert-events a db db' h = elim (Bool-cases (has_id a.id db.approvals)) [
  | inl e ↦ let g : none ≡ some db' = rw e at h in absurd (cc g)
  | inr e ↦
      let g : some (record db { approvals = db.approvals ++ (a ∷ []) }) ≡ some db' = rw e at h in
      let same : (record db { approvals = db.approvals ++ (a ∷ []) }) ≡ db' = cc g in
      ap (λ (d : Database). d.events) (sym same)
]

after_insert-IsNumbered :
    (run hash tool : Text) (db : Database) (o : Option Database)
    → ((db' : Database) → o ≡ some db' → db'.events ≡ db.events)
    → IsNumbered db.events
    → IsNumbered (after_insert run hash tool db o).1.events
after_insert-IsNumbered run hash tool db none same h = h
after_insert-IsNumbered run hash tool db (some db') same h =
    record_event-IsNumbered run _ _ db' (subst IsNumbered (sym (same db' refl)) h)

request_with-IsNumbered :
    (a : CodingApproval) (db : Database) (o : Option CodingApproval)
    → IsNumbered db.events
    → IsNumbered (request_with a db o).1.events
request_with-IsNumbered a db (some existing) h = h
request_with-IsNumbered a db none h =
    after_insert-IsNumbered a.run_id a.action_hash a.tool db (insert_approval a db)
      (insert-events a db) h

after_consume-IsNumbered :
    (run tool : Text) (db : Database) (o : Option (List CodingApproval))
    → IsNumbered db.events
    → IsNumbered (after_consume run tool db o).1.events
after_consume-IsNumbered run tool db none h = h
after_consume-IsNumbered run tool db (some rows) h =
    record_event-IsNumbered run _ _ (record db { approvals = rows }) h

consume_with-IsNumbered :
    (now : ℕ) (run tool : Text) (db : Database) (o : Option CodingApproval)
    → IsNumbered db.events
    → IsNumbered (consume_with now run tool db o).1.events
consume_with-IsNumbered now run tool db none h = h
consume_with-IsNumbered now run tool db (some a) h =
    after_consume-IsNumbered run tool db (update_row a.id is_approved (consume_at now) db.approvals)
      h

announce_decision-IsNumbered :
    (decision : ApprovalStatus) (db : Database) (o : Option CodingApproval)
    → IsNumbered db.events
    → IsNumbered (announce_decision decision db o).1.events
announce_decision-IsNumbered decision db none h = h
announce_decision-IsNumbered decision db (some a) h = record_event-IsNumbered a.run_id _ _ db h

after_decision-IsNumbered :
    (i : ℕ) (decision : ApprovalStatus) (db : Database) (o : Option (List CodingApproval))
    → IsNumbered db.events
    → IsNumbered (after_decision i decision db o).1.events
after_decision-IsNumbered i decision db none h = h
after_decision-IsNumbered i decision db (some rows) h =
    announce_decision-IsNumbered decision (record db { approvals = rows }) (row_at i rows) h

run_command-IsNumbered :
    (sha256 : Text → Text) (k : Text) (c : Command) (db : Database)
    → IsNumbered db.events
    → IsNumbered (run_command sha256 k c db).events
unfolding request_approval consume_exact_approval decide_approval link_runs
run_command-IsNumbered sha256 k (ask i now run tool action_json reason) db h =
    request_with-IsNumbered _ db _ h
run_command-IsNumbered sha256 k (approve now i) db h = after_decision-IsNumbered i approved db _ h
run_command-IsNumbered sha256 k (reject now i) db h = after_decision-IsNumbered i rejected db _ h
run_command-IsNumbered sha256 k (start_action now run tool action_json) db h =
    consume_with-IsNumbered now run tool db _ h
run_command-IsNumbered sha256 k (continue_run parent child) db h =
    record_event-IsNumbered child _ _ _ h

-- The calls on approvals and links keep the events of each run numbered from 1 on without a gap, so
-- that an insertion never meets a number that is taken.
pub run_commands-IsNumbered :
    (sha256 : Text → Text) (k : Text) (cs : List Command) (db : Database)
    → IsNumbered db.events
    → IsNumbered (run_commands sha256 k cs db).events
unfolding run_commands
run_commands-IsNumbered sha256 k [] db h = h
run_commands-IsNumbered sha256 k (c ∷ cs) db h =
    run_commands-IsNumbered sha256 k cs (run_command sha256 k c db)
      (run_command-IsNumbered sha256 k c db h)
