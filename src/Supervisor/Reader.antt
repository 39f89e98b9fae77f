-- ===== src/Supervisor/Reader.antt =====
-- The task of native/src/supervisor.rs that reads a worker's frames (`Supervisor::spawn`), with the
-- tasks of the worker's calls, and what a run does to them. Sending an answer to the worker is recording
-- it; where a call goes is `target`.
pub mod Gate
pub mod Reachable
use repl_mcp.Json.{Value, get, get_str, and_then, object, null, put_field}
use repl_mcp.Base.Map.{Map, insert}
use repl_mcp.Broker.Failures.{starts_with}
use repl_mcp.Config.Normal.{or_else}
use repl_mcp.Supervisor.Jobs.{is_type, track_job}
use repl_mcp.Base.{
  Option, String, ◌∷◌, retain, ℕ, Bool, none, List, [], if◌then◌else◌, false, some, not, map, true,
  ◌&&◌, leb, pair_eq, string_eq, ◌||◌, ◌++◌, ◌+◌, ◌==◌, length, nat_eq,
}

-- Where the task of a call takes it.
pub data Target : Type 0 where
  forwards : Value → Target
  stores : String → Value → Target
  brokers : String → Value → Target
  bad_params no_store : Target

pub record Task : Type 0 where
  pub handle : ℕ
  pub finished : Bool

pub record Reader : Type 0 where
  pub jobs : List ℕ
  -- The run, and whether its token is cancelled.
  pub run : Option (String × Bool)
  pub tasks : Map (String × String) Task
  -- The handle that the next task gets; the tasks that were spawned, for a run, and that were aborted.
  pub next : ℕ
  pub spawned : List (String × Target)
  pub aborted : List ℕ
  -- The ids of the calls that were refused, the events that were passed on, and reader_live.
  pub refused : List (Option Value)
  pub passed : List Value
  pub live : Bool

abbrev pub task_limit : ℕ
task_limit = 64

-- event["run_id"] == *id
abbrev pub is_for : Value → String → Bool
is_for event id = elim (get_str "run_id" event) [ none ↦ false | some r ↦ r == id ]

abbrev pub may_cancel : Value → Option (String × Bool) → Bool
may_cancel event none = false
may_cancel event (some (id, cancelled)) = is_for event id

abbrev pub may_call : Value → Option (String × Bool) → Bool
may_call event none = false
may_call event (some (id, cancelled)) = is_for event id && not cancelled

-- event["run_id"].as_str().zip(event["id"].as_str())
abbrev pub zip : Option String → Option String → Option (String × String)
zip (some run) (some id) = some (run, id)
zip _ _ = none

abbrev pub key_of : Value → Option (String × String)
key_of event = zip (get_str "run_id" event) (get_str "id" event)

-- The params of an operation on artifacts, marked with the run; other values have no operation.
abbrev pub artifact_target : Bool → String → Value → Value → Target
artifact_target store op run (object fields) =
    let params = object (put_field "_run_id" run fields) in
    if store
    then (if op == "artifact.forward" then forwards params else stores op params)
    else no_store
artifact_target store op run _ = if store then bad_params else no_store

-- The body of the task; `store` is whether the supervisor has an artifact store.
unfoldable pub target : Bool → Value → Target
target store event =
    let op = or_else (get_str "op" event) "" in
    let params = or_else (get "params" event) null in
    if starts_with "artifact." op
    then artifact_target store op (or_else (get "run_id" event) null) params
    else brokers op params

abbrev pub refuse : Value → Reader → Reader
refuse event r = record r { refused = get "id" event ∷ r.refused }

-- The task of an admitted call.
abbrev pub spawn_task : Bool → Value → String × String → Reader → Reader
spawn_task store event key r = record r {
  tasks = insert key (record { handle = r.next; finished = false }) r.tasks;
  next = r.next + 1;
  spawned = (or_else (get_str "run_id" event) "", target store event) ∷ r.spawned;
}

abbrev pub admit : Bool → Value → Option (String × String) → Reader → Reader
admit store event none r = refuse event r
admit store event (some key) r =
    if leb task_limit (length r.tasks)
      || (repl_mcp.Base.Map.contains_key key r.tasks || not (may_call event r.run))
    then refuse event r
    else spawn_task store event key r

-- pending.retain(|_, task| !task.is_finished())
abbrev pub forget_finished : Reader → Reader
forget_finished r = record r {
  tasks = retain (λ (t : (String × String) × Task). not t.1.finished) r.tasks;
}

-- A call of the worker.
unfoldable pub on_call : Bool → Value → Reader → Reader
unfolding target
on_call store event r = admit store event (key_of event) (forget_finished r)

abbrev pub abort_at : String × String → Option Task → Reader → Reader
abort_at key none r = r
abort_at key (some task) r = record r {
  tasks = repl_mcp.Base.Map.remove key r.tasks;
  aborted = task.handle ∷ r.aborted;
}

abbrev pub abort_key : Option (String × String) → Reader → Reader
abort_key none r = r
abort_key (some key) r = abort_at key (repl_mcp.Base.Map.get key r.tasks) r

-- The worker gives a call up.
unfoldable pub on_cancel : Value → Reader → Reader
on_cancel event r = if may_cancel event r.run then abort_key (key_of event) r else r

-- A frame that is JSON; `receiving` is whether the channel of events has its receiver.
unfoldable pub read_event : Bool → Bool → Value → Reader → Reader
unfolding on_call on_cancel
read_event store receiving event r =
    if is_type "job" event
    then record r { jobs = track_job event r.jobs }
    else if is_type "rpc_cancel" event
    then on_cancel event r
    else if is_type "rpc" event
    then on_call store event r
    else if receiving
    then record r { passed = event ∷ r.passed }
    else record r { live = false }

-- *worker.run.lock() = Some((id, cancel))
abbrev pub start_run : String → Reader → Reader
start_run id r = record r { run = some (id, false) }

abbrev pub cancel_token : Option (String × Bool) → Option (String × Bool)
cancel_token none = none
cancel_token (some (id, cancelled)) = some (id, true)

abbrev pub cancel_run : Reader → Reader
cancel_run r = record r { run = cancel_token r.run }

-- The end of a run: its tasks are aborted, and then it is no longer the worker's.
abbrev pub drain : Reader → Reader
drain r = record r {
  tasks = [];
  aborted = map (λ (t : (String × String) × Task). t.1.handle) r.tasks ++ r.aborted;
}

abbrev pub clear_run : Reader → Reader
clear_run r = record r { run = none }

-- A task ends by itself.
abbrev pub finish_task : ℕ → Task → Task
finish_task handle task = record task { finished = task.finished || task.handle == handle }

abbrev pub finish : ℕ → Reader → Reader
finish handle r = record r {
  tasks = map (λ (t : (String × String) × Task). (t.0, finish_task handle t.1)) r.tasks;
}

abbrev pub new_reader : Reader
new_reader = record {
  jobs = [];
  run = none;
  tasks = [];
  next = 0;
  spawned = [];
  aborted = [];
  refused = [];
  passed = [];
  live = true;
}
