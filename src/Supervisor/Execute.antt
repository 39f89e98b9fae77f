-- ===== src/Supervisor/Execute.antt =====
-- `execute_inner` in native/src/supervisor.rs: the gates before a run is sent to the worker, and the
-- wait for its result among the worker's events, cancellations and deadlines, in the order in which
-- the select loops take them.
pub mod Ends
use repl_mcp.Base.{
  ◌∷◌, ℕ, Bool, Result, String, Option, Bytes, ◌>>=◌, false, List, ◌>>◌, none, refuse_if, some,
  ◌||◌, not, if◌then◌else◌, ◌==◌, ltb, nat_eq, [], string_eq,
}
use repl_mcp.Json.{Value}
use repl_mcp.Supervisor.Output.{Event, collect_output}

pub data Fault : Type 0 where
  session_closed state_changed cancelled_before bad_limits already_running : Fault
  over_memory worker_crashed : Fault

-- What the gates read; `valid_timeout` is is_finite and the range 0.01..=3600.
pub record Gates : Type 0 where
  pub closed : Bool
  pub generation : ℕ
  pub expected_generation : Option ℕ
  pub cancelled : Bool
  pub request_cancelled : Bool
  pub code_len : ℕ
  pub valid_timeout : Bool
  pub worker_free : Bool

abbrev pub code_limit : ℕ
code_limit = 262144

abbrev pub is_stale : Option ℕ → ℕ → Bool
is_stale none generation = false
is_stale (some expected) generation = not (expected == generation)

unfoldable pub pass_gates : Gates → Result Fault (Unit {0})
pass_gates g = do
  refuse_if g.closed session_closed
  refuse_if (is_stale g.expected_generation g.generation) state_changed
  refuse_if (g.cancelled || g.request_cancelled) cancelled_before
  refuse_if (ltb code_limit g.code_len || not g.valid_timeout) bad_limits
  refuse_if (not g.worker_free) already_running

pub data Reason : Type 0 where
  execution_cancelled timed_out : Reason

-- What a select may take next.
pub data Happening : Type 0 where
  request_cancelled cancelled deadline grace_over closed : Happening
  -- A poll of the worker's memory, and whether it is over the budget.
  memory : Bool → Happening
  result : String → Value → Happening
  event : Event → Happening

-- How the wait ends: with the worker's result, with its result after an interruption, or cleared.
pub data Conclusion : Type 0 where
  returned : Value → Conclusion
  interrupted : Reason → Value → Conclusion
  unresponsive exited : Reason → Conclusion
  failed : Fault → Conclusion

abbrev pub Streams : Type 0
Streams = Bytes × Bytes

-- The loop after an interruption, with its grace of two seconds; `none` is a wait that goes on.
unfoldable pub settle : String → Reason → List Happening → Streams → Option (Conclusion × Streams)
settle id reason [] out = none
settle id reason (grace_over ∷ hs) out = some (unresponsive reason, out)
settle id reason (closed ∷ hs) out = some (exited reason, out)
settle id reason (result j v ∷ hs) out =
    let more = settle id reason hs out in if j == id then some (interrupted reason v, out) else more
settle id reason (event e ∷ hs) out = settle id reason hs (collect_output e out)
settle id reason (request_cancelled ∷ hs) out = settle id reason hs out
settle id reason (cancelled ∷ hs) out = settle id reason hs out
settle id reason (deadline ∷ hs) out = settle id reason hs out
settle id reason (memory over ∷ hs) out = settle id reason hs out

-- The loop of a run that was sent.
unfoldable pub await_result : String → List Happening → Streams → Option (Conclusion × Streams)
unfolding settle
await_result id [] out = none
await_result id (request_cancelled ∷ hs) out = settle id execution_cancelled hs out
await_result id (cancelled ∷ hs) out = settle id execution_cancelled hs out
await_result id (deadline ∷ hs) out = settle id timed_out hs out
await_result id (memory over ∷ hs) out =
    let more = await_result id hs out in if over then some (failed over_memory, out) else more
await_result id (result j v ∷ hs) out =
    let more = await_result id hs out in if j == id then some (returned v, out) else more
await_result id (event e ∷ hs) out = await_result id hs (collect_output e out)
await_result id (closed ∷ hs) out = some (failed worker_crashed, out)
await_result id (grace_over ∷ hs) out = await_result id hs out
