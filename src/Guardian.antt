-- ===== src/Guardian.antt =====
-- native/src/guardian.rs: the header that carries a command to the guardian, and what the guardian
-- ends when its owner or its child does. Processes, pipes and time are parameters: a killed process is
-- one in a list.
pub mod Handshake
pub mod Ended
use repl_mcp.Json.{Value}
use repl_mcp.Base.{
  Option, Bool, Bytes, ℕ, true, List, false, Result, ◌∷◌, some, if◌then◌else◌, [], err, ◌==◌, ltb,
  length, take, nat_eq, ◌&&◌, ◌||◌, ok, ◌++◌, not, none, leb, ◌-◌,
}
use repl_mcp.Supervisor.Jobs.{is_type, track_job}

pub data Fault : Type 0 where
  cannot_encode too_long : Fault
  missing_or_oversized : Fault

abbrev pub header_limit : ℕ
header_limit = 1048576

abbrev pub newline : ℕ
newline = 10

-- spawn_owned, up to the write; serde_json::to_vec of the command is a parameter.
unfoldable pub send_spec : Option Bytes → Result Fault Bytes
send_spec none = err cannot_encode
send_spec (some bytes) =
    if ltb header_limit (length bytes) then err too_long else ok (bytes ++ newline ∷ [])

-- read_until(b'\n', ..)
abbrev pub read_until : Bytes → Bytes
read_until [] = []
read_until (b ∷ bs) = if b == newline then b ∷ [] else b ∷ read_until bs

abbrev pub ends_line : Bytes → Bool
ends_line [] = false
ends_line (b ∷ []) = b == newline
ends_line (b ∷ c ∷ bs) = ends_line (c ∷ bs)

abbrev pub check_header : Bytes → Result Fault Bytes
check_header header =
    if length header == 0 || (ltb header_limit (length header) || not (ends_line header))
    then err missing_or_oversized
    else ok header

-- The header of the input, of which at most 1048577 bytes are taken; `stopped` is the owner's end.
unfoldable pub read_header : Bool → Bytes → Result Fault Bytes
read_header stopped input = check_header (if stopped then [] else read_until (take 1048577 input))

-- A frame of the child that was read: what it is as JSON, and whether it could be written on.
pub record Frame : Type 0 where
  pub event : Option Value
  pub written : Bool

abbrev pub note_event : Bool → Option Value → List ℕ → List ℕ
note_event worker none jobs = jobs
note_event worker (some event) jobs =
    if worker && is_type "job" event then track_job event jobs else jobs

-- The output task, up to where it is when the groups are ended.
unfoldable pub forward_output : Bool → List Frame → List ℕ → List ℕ
forward_output worker [] jobs = jobs
forward_output worker (frame ∷ frames) jobs =
    let noted = note_event worker frame.event jobs in
    let rest = forward_output worker frames noted in if frame.written then rest else noted

-- How the select ends: the owner is gone or a pipe is broken, or the child has ended.
pub data Cause : Type 0 where
  stopped child_ended : Cause

-- What the guardian has ended when it ends itself: the child; the process groups and the processes
-- that it has signalled; its own group.
pub record Killed : Type 0 where
  pub child : Bool
  pub groups : List ℕ
  pub processes : List ℕ
  pub own_group : Bool

abbrev pub kills_child : Cause → Bool
kills_child stopped = true
kills_child child_ended = false

-- kill(-(pid as i32)) of a u32: up to 2^31 a group (the negation of i32::MIN wraps); above, `as i32` is
-- negative, and the signal goes to one process.
abbrev pub is_group : ℕ → Bool
is_group pid = leb pid 2147483648

abbrev pub signalled_groups : List ℕ → List ℕ
signalled_groups [] = []
signalled_groups (pid ∷ jobs) =
    let rest = signalled_groups jobs in if is_group pid then pid ∷ rest else rest

abbrev pub signalled_processes : List ℕ → List ℕ
signalled_processes [] = []
signalled_processes (pid ∷ jobs) =
    let rest = signalled_processes jobs in if is_group pid then rest else (4294967296 - pid) ∷ rest

abbrev pub nothing_killed : Killed
nothing_killed = record { child = false; groups = []; processes = []; own_group = false }

-- The end of `owner`, for a child that runs.
unfoldable pub end_child : Bool → Cause → List Frame → Killed
unfolding forward_output
end_child worker cause frames =
    let jobs = forward_output worker frames [] in
    record {
      child = kills_child cause;
      groups = signalled_groups jobs;
      processes = signalled_processes jobs;
      own_group = true;
    }

-- What comes before the child: whether the owner ended while the header was read, or its reading failed,
-- the input, whether the header is a CommandSpec and that of a worker, whether the owner has ended by
-- then, and whether the child can be spawned.
pub record Start : Type 0 where
  pub stopped : Bool
  pub input : Bytes
  pub from_slice : Bytes → Option Bool
  pub stopped_late : Bool
  pub spawned : Bool

-- Whether a child runs, and is a worker.
unfoldable pub launch : Start → Option Bool
unfolding read_header
launch st = elim (read_header st.stopped st.input) [
  | err e ↦ none
  | ok header ↦ elim (st.from_slice header) [
    | none ↦ none
    | some worker ↦ if st.stopped_late || not st.spawned then none else some worker
  ]
]

abbrev pub when_launched : Cause → List Frame → Option Bool → Killed
when_launched cause frames none = nothing_killed
when_launched cause frames (some worker) = end_child worker cause frames

-- `owner`, which ends early without a child.
unfoldable pub own : Start → Cause → List Frame → Killed
unfolding launch end_child
own st cause frames = when_launched cause frames (launch st)
