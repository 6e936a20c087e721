-- ===== src/Ownership.antt =====
-- src-tauri/src/process_ownership.rs: the registry of the processes that the application has started, and
-- the output that is captured from a renderer. The registry's file is a list of records; whether a
-- write of it succeeds is an argument. The operating system is a parameter: a type of its states, with
-- the identity that it gives for a process id, and the attempt to end a process.
pub mod Sweep
pub mod Capture
use open_mind_ai.Base.{
  ℕ, zero, suc, ◌+◌, ◌-◌, ◌*◌, Bool, true, false, not, ◌&&◌, ◌||◌, Option, none, some, List, [],
  ◌∷◌, ◌++◌, if◌then◌else◌, ltb, ◌==◌, length,
}
use open_mind_ai.Base.Text.{Text, text_eq}

pub record ProcessIdentity : Type 0 where
  pub pid : ℕ
  pub started : ℕ
  pub executable : Text

pub record OwnedRecord : Type 0 where
  pub owner : ProcessIdentity
  pub child : ProcessIdentity

pub record SweepReport : Type 0 where
  pub terminated : List ℕ
  pub kept : ℕ
  pub dropped : ℕ

abbrev pub same_identity : ProcessIdentity → ProcessIdentity → Bool
same_identity a b = a.pid == b.pid && (a.started == b.started && text_eq a.executable b.executable)

abbrev pub found : Option ProcessIdentity → ProcessIdentity → Bool
found none b = false
found (some a) b = same_identity a b

-- The registry after a write of new records; an empty one has no file.
abbrev pub write_records : Bool → List OwnedRecord → List OwnedRecord → List OwnedRecord
write_records true registry records = records
write_records false registry records = registry

-- `retain` of the records of other processes.
abbrev pub without_child : ℕ → List OwnedRecord → List OwnedRecord
without_child p [] = []
without_child p (r ∷ records) =
    let rest = without_child p records in if r.child.pid == p then rest else r ∷ rest

-- `record`, given the identities of this process and of the child.
unfoldable pub record_child :
    Bool → Option ProcessIdentity → Option ProcessIdentity → ℕ → List OwnedRecord → List OwnedRecord
record_child wrote (some owner) (some child) child_pid registry =
    write_records wrote registry
      (without_child child_pid registry ++ (record { owner = owner; child = child } ∷ []))
record_child wrote (some owner) none child_pid registry = registry
record_child wrote none child child_pid registry = registry

unfoldable pub forget : Bool → ℕ → List OwnedRecord → List OwnedRecord
forget wrote child_pid registry =
    let records = without_child child_pid registry in
    if length records == length registry then registry else write_records wrote registry records

-- What a sweep has done: its report, the records that it keeps, and each attempt to end a child, with
-- the state in which it was made.
pub record Swept (W : Type 0) : Type 0 where
  pub report : SweepReport
  pub remaining : List OwnedRecord
  pub attempts : List (OwnedRecord × W)
  pub after : W

module _ {W : Type 0} (lookup : ℕ → W → Option ProcessIdentity)
    (terminate : ProcessIdentity → W → Bool × W) where
  abbrev pub nothing_swept : W → Swept W
  nothing_swept w = record {
    report = record { terminated = []; kept = 0; dropped = 0 };
    remaining = [];
    attempts = [];
    after = w;
  }

  abbrev pub keep : OwnedRecord → Swept W → Swept W
  keep r s = record s {
    report = record s.report { kept = suc s.report.kept };
    remaining = r ∷ s.remaining;
  }

  abbrev pub dropping : Swept W → Swept W
  dropping s = record s { report = record s.report { dropped = suc s.report.dropped } }

  abbrev pub attempted : OwnedRecord → W → Bool → Swept W → Swept W
  attempted r w true s = record s {
    report = record s.report { terminated = r.child.pid ∷ s.report.terminated };
    attempts = (r, w) ∷ s.attempts;
  }
  attempted r w false s = dropping (record s { attempts = (r, w) ∷ s.attempts })

  unfoldable pub sweep_records : List OwnedRecord → W → Swept W
  sweep_records [] w = nothing_swept w
  sweep_records (r ∷ records) w =
      let unchanged = sweep_records records w in
      let (ended, w') = terminate r.child w in
      let tried = sweep_records records w' in
      if found (lookup r.owner.pid w) r.owner
      then keep r unchanged
      else if found (lookup r.child.pid w) r.child
      then attempted r w ended tried
      else dropping unchanged

  -- The sweep of the registry, with the registry that it leaves.
  unfoldable pub sweep_with : Bool → List OwnedRecord → W → Swept W × List OwnedRecord
  sweep_with wrote registry w =
      let s = sweep_records registry w in (s, write_records wrote registry s.remaining)

abbrev pub max_renderer_log_bytes : ℕ
max_renderer_log_bytes = 32 * 1024

abbrev pub max_renderer_line_bytes : ℕ
max_renderer_line_bytes = 2048

-- `captured.drain(..captured.len() - n)`, where more than `n` bytes are captured.
abbrev pub drop : ℕ → List ℕ → List ℕ
drop zero bs = bs
drop (suc n) [] = []
drop (suc n) (b ∷ bs) = drop n bs

abbrev pub keep_last : ℕ → List ℕ → List ℕ
keep_last n bs = drop (length bs - n) bs

-- The bytes of the current line, and the lines that were passed on, the latest first.
pub record Progress : Type 0 where
  pub partial_line : List ℕ
  pub lines : List (List ℕ)

abbrev pub pass_parts : List ℕ → List (List ℕ) → Progress
pass_parts [] ls = record { partial_line = []; lines = ls }
pass_parts (b ∷ bs) ls = record { partial_line = []; lines = (b ∷ bs) ∷ ls }

abbrev pub pass_line : Progress → Progress
pass_line p = pass_parts p.partial_line p.lines

abbrev pub read_byte : ℕ → Progress → Progress
read_byte byte p =
    if byte == 13 || byte == 10
    then pass_line p
    else if ltb (length p.partial_line) max_renderer_line_bytes
    then record p { partial_line = p.partial_line ++ (byte ∷ []) }
    else record p { partial_line = [] }

abbrev pub read_bytes : List ℕ → Progress → Progress
read_bytes [] p = p
read_bytes (byte ∷ bs) p = read_bytes bs (read_byte byte p)

-- The loop over the reads, which are not empty, until the stream is closed.
unfoldable pub capture_loop : List (List ℕ) → List ℕ → Progress → List ℕ × Progress
capture_loop [] captured p = (captured, pass_line p)
capture_loop (chunk ∷ chunks) captured p =
    capture_loop chunks (keep_last max_renderer_log_bytes (captured ++ chunk)) (read_bytes chunk p)

unfoldable pub capture_renderer_stream : List (List ℕ) → List ℕ × Progress
capture_renderer_stream chunks = capture_loop chunks [] (record { partial_line = []; lines = [] })
