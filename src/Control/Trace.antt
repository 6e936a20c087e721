-- ===== src/Control/Trace.antt =====
-- Sequences of the approval operations of src-tauri/src/coding_control.rs: each approval that the user
-- gives lets its action run once.
use mathlib.Core.List.{Memᴰ}
use open_mind_ai.Base.{
  ℕ, ◌+◌, Bool, true, false, ◌&&◌, ◌||◌, Option, none, some, List, [], ◌∷◌, ◌++◌, ◌==◌,
  if◌then◌else◌, ◌≡◌, refl, sym, ◌∙◌, ap, subst, inl, inr, Bool-cases, Option-cases, arith, any,
  length,
}
use open_mind_ai.Base.Text.{Text, text_eq, text_eq→eq}
use open_mind_ai.Control.{
  CodingApproval, ApprovalStatus, approved, rejected, is_approved, is_pending, Database,
  empty_database, latest, has_id, update_row, row_at, consume_at, decide_at, hash_action,
  new_approval, insert_approval, open_status, after_insert, is_usable, find_approval, lineage,
  record_event, request_approval, consume_exact_approval, decide_approval, link_runs,
}
use open_mind_ai.Control.Approvals.{
  ready, count_ready, IsKeyed, latest-Memᴰ, row_at-Memᴰ, Updated, update_row-Updated,
  update_row-found,
}

-- The calls: a request with its new id, a decision of the user, the start of an action, and a link.
pub data Command : Type 0 where
  ask : (i now : ℕ) (run tool action_json reason : Text) → Command
  approve reject : (now i : ℕ) → Command
  start_action : (now : ℕ) (run tool action_json : Text) → Command
  continue_run : (parent child : Text) → Command

count-append :
    (k : Text) (rows : List CodingApproval) (a : CodingApproval)
    → count_ready k (rows ++ (a ∷ [])) ≡ count_ready k rows + ready k a
count-append k [] a = omega arith
count-append k (b ∷ rows) a = omega (arith, count-append k rows a)

has_id-append :
    (j : ℕ) (rows : List CodingApproval) (a : CodingApproval)
    → has_id j (rows ++ (a ∷ [])) ≡ has_id j rows || a.id == j
has_id-append j [] a = ground arith
has_id-append j (b ∷ rows) a = ground (arith, has_id-append j rows a)

IsKeyed-append :
    (rows : List CodingApproval) (a : CodingApproval)
    → has_id a.id rows ≡ false
    → IsKeyed rows
    → IsKeyed (rows ++ (a ∷ []))
IsKeyed-append [] a h k = (refl, tt)
IsKeyed-append (b ∷ rows) a h (fresh, k) =
    (ground (arith, has_id-append b.id rows a), IsKeyed-append rows a (ground arith) k)

-- What an operation keeps of the rows: `used` approvals are spent and `given` ones are new, for the
-- hash `k`.
record Balanced (k : Text) (before after : List CodingApproval) (used given : ℕ) : Type 0 where
  balance : count_ready k after + used ≡ count_ready k before + given
  keyed : IsKeyed before → IsKeyed after

same_rows : (k : Text) (rows : List CodingApproval) → Balanced k rows rows 0 0
same_rows k rows = record { balance = refl; keyed = λ h. h }

module _ (sha256 : Text → Text) (k : Text) where
  insert-Balanced :
      (a : CodingApproval) (db db' : Database)
      → ready k a ≡ 0
      → insert_approval a db ≡ some db'
      → Balanced k db.approvals db'.approvals 0 0
  insert-Balanced a db db' zero_ready h = elim (Bool-cases (has_id a.id db.approvals)) [
    | inl e ↦ let g : none ≡ some db' = rw e at h in absurd (cc g)
    | inr e ↦
        let g : some (record db { approvals = db.approvals ++ (a ∷ []) }) ≡ some db' = rw e at h in
        let same : (record db { approvals = db.approvals ++ (a ∷ []) }) ≡ db' = cc g in
        subst (λ (db' : Database). Balanced k db.approvals db'.approvals 0 0) same
          (record {
            balance = omega (arith, count-append k db.approvals a, zero_ready);
            keyed = λ h. IsKeyed-append db.approvals a e h;
          })
  ]

  request-Balanced :
      (i now : ℕ) (run tool action_json reason : Text) (db : Database)
      → Balanced k db.approvals
          (request_approval sha256 i now run tool action_json reason db).1.approvals
          0
          0
  unfolding request_approval record_event
  request-Balanced i now run tool action_json reason db =
      let hash : Text = hash_action sha256 tool action_json in
      let a : CodingApproval = new_approval i now run hash tool action_json reason in
      elim (Option-cases (find_approval run hash open_status db)) [
        | inr (existing, e) ↦ rw e (same_rows k db.approvals)
        | inl e ↦
            rw e
              (inserted (insert_approval a db) (λ db' f. insert-Balanced a db db' (ground arith) f))
      ]
    where
      inserted :
          (o : Option Database)
          → ((db' : Database) → o ≡ some db' → Balanced k db.approvals db'.approvals 0 0)
          → Balanced k db.approvals
              (after_insert run (hash_action sha256 tool action_json) tool db o).1.approvals
              0
              0
      inserted none h = same_rows k db.approvals
      inserted (some db') h = h db' refl

  ready-consumed : (now : ℕ) (a : CodingApproval) → ready k (consume_at now a) ≡ 0
  ready-consumed now a = ground arith

  ready-approved :
      (a : CodingApproval)
      → is_approved a.status ≡ true
      → ready k a ≡ (if text_eq a.action_hash k then 1 else 0)
  ready-approved a h = ground arith

  abbrev used_by : Bool × Database → Text → ℕ
  used_by (ran, db) hash = if ran && text_eq hash k then 1 else 0

  consume-rows :
      (now : ℕ) (hash : Text) (rows : List CodingApproval) (a : CodingApproval)
      → IsKeyed rows
      → Memᴰ a rows
      → text_eq a.action_hash hash ≡ true
      → is_approved a.status ≡ true
      → (rows' : List CodingApproval) × (update_row a.id is_approved (consume_at now) rows
          ≡ some rows')
        × Balanced k rows rows' (if text_eq hash k then 1 else 0) 0
  consume-rows now hash rows a keyed m same_hash approved_now =
      let there : row_at a.id rows ≡ some a = row_at-Memᴰ a rows keyed m in
      let (rows', e) =
        update_row-found a.id is_approved (consume_at now) rows a there approved_now in
      let u : Updated a.id is_approved (consume_at now) rows rows' =
        update_row-Updated a.id is_approved (consume_at now) (λ b. refl) rows rows' e in
      let row_is : u.row ≡ a = cc (sym u.found ∙ there) in
      let was_ready : ready k u.row ≡ (if text_eq hash k then 1 else 0) =
        ap (ready k) row_is
        ∙ ready-approved a approved_now
        ∙ ap (λ h. if text_eq h k then 1 else 0) (text_eq→eq a.action_hash hash same_hash) in
      (
        rows',
        e,
        record {
          balance = omega (arith, u.counted k, ready-consumed now u.row, was_ready);
          keyed = u.keyed;
        },
      )

  usable-parts :
      (runs : List Text) (hash : Text) (a : CodingApproval)
      → is_usable runs hash a ≡ true
      → (any (text_eq a.run_id) runs ≡ true)
        × (text_eq a.action_hash hash ≡ true)
        × (is_approved a.status ≡ true)
  usable-parts runs hash a h = (ground arith, ground arith, ground arith)

  consume-Balanced :
      (now : ℕ) (run tool action_json : Text) (db : Database)
      → IsKeyed db.approvals
      → let r = consume_exact_approval sha256 now run tool action_json db in
        Balanced k db.approvals r.1.approvals (used_by r (hash_action sha256 tool action_json)) 0
  unfolding consume_exact_approval record_event
  consume-Balanced now run tool action_json db keyed =
      let hash : Text = hash_action sha256 tool action_json in
      let runs : List Text = lineage (length db.links) db.links run in
      elim (Option-cases (latest (is_usable runs hash) db.approvals)) [
        | inl e ↦ rw e (same_rows k db.approvals)
        | inr (a, e) ↦
            let (m, usable) = latest-Memᴰ (is_usable runs hash) db.approvals a e in
            let (in_lineage, same_hash, approved_now) = usable-parts runs hash a usable in
            let (rows', updated, b) =
              consume-rows now hash db.approvals a keyed m same_hash approved_now in
            rw (e, updated) b
      ]

  -- 1 for an approval of the user for this hash.
  abbrev given_by : ApprovalStatus → Option CodingApproval × Database → ℕ
  given_by decision (none, db) = 0
  given_by decision (some a, db) = if is_approved decision && text_eq a.action_hash k then 1 else 0

  ready-pending : (a : CodingApproval) → is_pending a.status ≡ true → ready k a ≡ 0
  ready-pending a h = ground arith

  ready-decided :
      (now : ℕ) (decision : ApprovalStatus) (a : CodingApproval)
      → ready k (decide_at now decision a)
        ≡ (if is_approved decision && text_eq a.action_hash k then 1 else 0)
  ready-decided now decision a = ground arith

  decide-Balanced :
      (now i : ℕ) (decision : ApprovalStatus) (db : Database)
      → let r = decide_approval now i decision db in
        Balanced k db.approvals r.1.approvals 0 (given_by decision r)
  unfolding decide_approval record_event
  decide-Balanced now i decision db =
      elim (Option-cases (update_row i is_pending (decide_at now decision) db.approvals)) [
        | inl e ↦ rw e (same_rows k db.approvals)
        | inr (rows', e) ↦
            let u : Updated i is_pending (decide_at now decision) db.approvals rows' =
              update_row-Updated i is_pending (decide_at now decision) (λ a. refl) db.approvals
                rows' e in
            rw (e, u.now_there)
              (record {
                balance = omega (
                  arith,
                  u.counted k,
                  ready-pending u.row u.passed,
                  ready-decided now decision u.row,
                );
                keyed = u.keyed;
              })
      ]

  -- The database after a call, and what the call used and gave.
  abbrev pub run_command : Command → Database → Database
  run_command (ask i now run tool action_json reason) db =
      (request_approval sha256 i now run tool action_json reason db).1
  run_command (approve now i) db = (decide_approval now i approved db).1
  run_command (reject now i) db = (decide_approval now i rejected db).1
  run_command (start_action now run tool action_json) db =
      (consume_exact_approval sha256 now run tool action_json db).1
  run_command (continue_run parent child) db = link_runs parent child db

  abbrev pub used_at : Command → Database → ℕ
  used_at (start_action now run tool action_json) db =
      used_by (consume_exact_approval sha256 now run tool action_json db)
        (hash_action sha256 tool action_json)
  used_at (ask i now run tool action_json reason) db = 0
  used_at (approve now i) db = 0
  used_at (reject now i) db = 0
  used_at (continue_run parent child) db = 0

  abbrev pub given_at : Command → Database → ℕ
  given_at (approve now i) db = given_by approved (decide_approval now i approved db)
  given_at (reject now i) db = given_by rejected (decide_approval now i rejected db)
  given_at (ask i now run tool action_json reason) db = 0
  given_at (start_action now run tool action_json) db = 0
  given_at (continue_run parent child) db = 0

  command-Balanced :
      (c : Command) (db : Database)
      → IsKeyed db.approvals
      → Balanced k db.approvals (run_command c db).approvals (used_at c db) (given_at c db)
  unfolding link_runs record_event
  command-Balanced (ask i now run tool action_json reason) db h =
      request-Balanced i now run tool action_json reason db
  command-Balanced (approve now i) db h = decide-Balanced now i approved db
  command-Balanced (reject now i) db h = decide-Balanced now i rejected db
  command-Balanced (start_action now run tool action_json) db h =
      consume-Balanced now run tool action_json db h
  command-Balanced (continue_run parent child) db h = same_rows k db.approvals

  unfoldable pub run_commands : List Command → Database → Database
  run_commands [] db = db
  run_commands (c ∷ cs) db = run_commands cs (run_command c db)

  -- How many actions with the hash have started, and how many approvals of it the user gave.
  unfoldable pub actions_started : List Command → Database → ℕ
  actions_started [] db = 0
  actions_started (c ∷ cs) db = used_at c db + actions_started cs (run_command c db)

  unfoldable pub approvals_given : List Command → Database → ℕ
  approvals_given [] db = 0
  approvals_given (c ∷ cs) db = given_at c db + approvals_given cs (run_command c db)

  balance_from :
      (cs : List Command) (db : Database)
      → IsKeyed db.approvals
      → actions_started cs db + count_ready k (run_commands cs db).approvals
        ≡ count_ready k db.approvals + approvals_given cs db
  unfolding run_commands actions_started approvals_given
  balance_from [] db h = omega arith
  balance_from (c ∷ cs) db h =
      let b : Balanced k db.approvals (run_command c db).approvals (used_at c db) (given_at c db) =
        command-Balanced c db h in
      omega (arith, b.balance, balance_from cs (run_command c db) (b.keyed h))

  -- In any sequence of requests, decisions, starts and links from an empty database, the actions of a
  -- hash that have started and its approvals that are still ready are together as many as the
  -- approvals that the user gave for it: each approval lets its action start once at most.
  pub actions_started-approvals_given :
      (cs : List Command)
      → actions_started cs empty_database + count_ready k (run_commands cs empty_database).approvals
        ≡ approvals_given cs empty_database
  actions_started-approvals_given cs = omega (arith, balance_from cs empty_database tt)
