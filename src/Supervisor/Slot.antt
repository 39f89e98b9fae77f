-- ===== src/Supervisor/Slot.antt =====
-- One run at a time in native/src/supervisor.rs: `reserve`, the end of a run, an abandoned run,
-- `cancel` and `run`. What the worker answers for a run is a parameter.
pub mod Ends
use repl_mcp.Base.{
  Bool, String, Option, Result, List, if◌then◌else◌, true, not, none, some, false, err, ◌==◌, ok,
  string_eq, ◌&&◌,
}
use repl_mcp.Supervisor.History.{Run, last_run, remember}
use repl_mcp.Json.{Value}
use repl_mcp.Artifacts.Registry.{register_run, abort_unfinished_uploads}
use repl_mcp.Artifacts.State.{Store}

pub record Active : Type 0 where
  pub id : String
  pub cancelled : Bool
  pub request_cancelled : Bool

pub record Supervisor : Type 0 where
  pub session_id : String
  pub busy : Bool
  pub active : Option Active
  pub records : List Run
  pub artifacts : Store

pub data Refusal : Type 0 where
  bad_limits already_running no_matching_run run_not_found : Refusal

-- Supervisor::reserve
unfoldable pub reserve : String → Supervisor → Bool × Supervisor
reserve id s = if s.busy then (false, s) else (
  true,
  record s {
    busy = true;
    active = some (record { id = id; cancelled = false; request_cancelled = false });
  },
)

-- start_request, up to the spawned task; `valid` is its test of the code's length and the timeout.
unfoldable pub start_request : Bool → String → Supervisor → Result Refusal String × Supervisor
unfolding reserve
start_request valid id s =
    if not valid
    then (err bad_limits, s)
    else let (reserved, s') = reserve id s in
      if reserved then (ok id, s') else (err already_running, s')

-- Supervisor::register_artifact_run
unfoldable pub register_artifact_run :
    String → Supervisor → Result repl_mcp.Artifacts.State.Error (Unit {0}) × Supervisor
register_artifact_run id s =
    let (outcome, store) = register_run s.session_id id s.artifacts in
    (outcome, record s { artifacts = store })

abbrev pub remember_failure : Bool → String → Value → Option Active → List Run → List Run
remember_failure recorded id failure none records = records
remember_failure recorded id failure (some a) records =
    if recorded then remember (id, failure) records else records

-- Drop for Reservation
unfoldable pub drop_reservation : Bool → String → Value → Supervisor → Supervisor
drop_reservation recorded id failure s = record s {
  artifacts = (abort_unfinished_uploads s.session_id id s.artifacts).1;
  records = remember_failure recorded id failure s.active s.records;
  active = none;
  busy = false;
}

-- Drop for ExecutionGuard: armed while the worker has the command or is about to get it, disarmed from
-- then on, also while a worker that is not kept is terminated. `failure` is its own report.
unfoldable pub drop_guard : Bool → Bool → String → Value → Supervisor → Supervisor
drop_guard armed recorded id failure s = record s {
  records = if armed && recorded then remember (id, failure) s.records else s.records;
  active = none;
}

-- How far an abandoned run had come: before its guard, or with it.
pub data Stage : Type 0 where
  before_guard armed disarmed : Stage

abbrev pub drop_stage : Stage → Bool → String → Value → Supervisor → Supervisor
drop_stage before_guard recorded id failure s = s
drop_stage armed recorded id failure s = drop_guard true recorded id failure s
drop_stage disarmed recorded id failure s = drop_guard false recorded id failure s

-- A future of a run that is dropped: its guard first, then its reservation, each with its own report.
unfoldable pub abandon : Stage → Bool → String → Value → Value → Supervisor → Supervisor
unfolding drop_guard drop_reservation
abandon stage recorded id killed failure s =
    drop_reservation recorded id failure (drop_stage stage recorded id killed s)

-- The end of a run in execute_request and in the task of start_request, and the drop after it.
unfoldable pub finish : Bool → String → Value → Value → Supervisor → Supervisor
unfolding drop_reservation
finish recorded id result failure s = drop_reservation recorded id failure (record s {
  active = none;
  records = if recorded then remember (id, result) s.records else s.records;
})

abbrev pub matches : Option String → Active → Bool
matches none a = true
matches (some id) a = id == a.id

-- Supervisor::cancel
unfoldable pub cancel : Option String → Supervisor → Result Refusal String × Supervisor
cancel id s = elim s.active [
  | none ↦ (err no_matching_run, s)
  | some a ↦
      if matches id a
      then (ok a.id, record s { active = some (record a { cancelled = true }) })
      else (err no_matching_run, s)
]

-- What Supervisor::run reports: the active run, or a remembered one.
pub data Report : Type 0 where
  running : Active → Report
  finished : Run → Report

abbrev pub from_history : Option String → List Run → Result Refusal Report
from_history id records = elim (last_run id records) [
  | none ↦ err run_not_found
  | some r ↦ ok (finished r)
]

-- Supervisor::run
unfoldable pub run : Option String → Supervisor → Result Refusal Report
run id s = elim s.active [
  | none ↦ from_history id s.records
  | some a ↦ if matches id a then ok (running a) else from_history id s.records
]
