-- ===== src/Supervisor/Life.antt =====
-- `execute_inner` of native/src/supervisor.rs: the life of the worker around a run. What starting a
-- worker gives, whether the command is sent, and what happens while its result is awaited are
-- parameters of a run; terminating a worker is taking it out of the slot.
pub mod Kept
pub mod Generation
use repl_mcp.Supervisor.Execute.{
  Fault, Gates, Reason, worker_crashed, Streams, Happening, pass_gates, Conclusion, returned,
  await_result, state_changed, interrupted, cancelled_before, unresponsive, exited, failed, event,
}
use repl_mcp.Base.{
  String, ℕ, Option, Bytes, Bool, if◌then◌else◌, some, Result, true, ◌+◌, false, [], ◌%◌, ltb, List,
  ok, none, not, err, ◌∷◌, ◌>>=◌, ◌&&◌, ◌^◌, ◌||◌, ◌==◌, ◌++◌, leb, string_eq, nat_eq, length,
}
use repl_mcp.Supervisor.Output.{collect_output, Outcome, bound_execution_output, stream_limit}
use repl_mcp.Json.{Value, get_str, and_then, get, as_bool}

pub record Worker : Type 0 where
  pub pid : ℕ
  pub live : Bool
  pub raw_stderr : Bytes

-- The slot and the counter that a run works on.
pub record Life : Type 0 where
  pub slot : Option Worker
  pub generation : ℕ

pub record Execution : Type 0 where
  pub id : String
  pub code_len : ℕ
  pub reset : Bool
  pub valid_timeout : Bool
  pub expected_generation : Option ℕ
  pub fresh : Bool

-- A worker that was not started: for an error, or because the future of the run was dropped while it
-- was started, with what its record then says.
pub record NotStarted : Type 0 where
  pub dropped : Bool
  pub error : Bytes

-- What a run meets on its way.
pub record Course : Type 0 where
  pub closed : Bool
  pub cancelled : Bool
  pub request_cancelled : Bool
  pub worker_free : Bool
  pub spawned : Result NotStarted Worker
  pub cancelled_late : Bool
  pub sent : Result Bytes (Unit {0})
  pub happenings : List Happening
  pub raw_stderr : Bytes

-- A result, with the fields that execute_inner sets.
pub record Report : Type 0 where
  pub outcome : Outcome
  pub cleared : Bool
  pub success : Bool
  pub state_reset : Bool
  pub generation : ℕ
  pub dispatched : Bool

abbrev pub is_none : {A : Type 0} → Option A → Bool
is_none none = true
is_none (some a) = false

-- fetch_add on a u64
abbrev pub next_generation : ℕ → ℕ
next_generation g = (g + 1) % 2 ^ 64

abbrev pub empty_outcome : Outcome
empty_outcome = record {
  stdout = some [];
  stderr = some [];
  return_value = none;
  error = none;
  cut_stdout = false;
  cut_stderr = false;
  cut_return = false;
  cut_error = false;
}

-- failure(..)
abbrev pub failure : Bytes → Bool → Life → Report
failure error cleared l = record {
  outcome = record empty_outcome { error = some error };
  cleared = cleared;
  success = false;
  state_reset = false;
  generation = l.generation;
  dispatched = false;
}

abbrev pub not_sent : Bytes → Life → Report
not_sent error l = record (failure error true l) { dispatched = true }

abbrev pub gates_of : Execution → Course → Life → Gates
gates_of x c l = record {
  closed = c.closed;
  generation = l.generation;
  expected_generation = x.expected_generation;
  cancelled = c.cancelled;
  request_cancelled = c.request_cancelled;
  code_len = x.code_len;
  valid_timeout = x.valid_timeout;
  worker_free = c.worker_free;
}

-- A reset, and a worker whose reader has ended, empty the slot.
abbrev pub drop_dead : Option Worker → Option Worker
drop_dead none = none
drop_dead (some w) = if w.live then some w else none

unfoldable pub stop_old : Execution → Option Worker → Option Worker
stop_old x slot = if x.fresh then slot else if x.reset then none else drop_dead slot

-- The worker of the slot, or a new one in it, with the counter.
abbrev pub fill_slot : Course → Life → Option Worker → Result NotStarted (Worker × ℕ)
fill_slot c l (some w) = ok (w, l.generation)
fill_slot c l none = c.spawned >>= λ w. ok (w, next_generation l.generation)

-- expected.is_some_and(|expected| expected > 0 && expected != generation)
abbrev pub has_moved : Option ℕ → ℕ → Bool
has_moved none generation = false
has_moved (some expected) generation = ltb 0 expected && not (expected == generation)

-- The messages, and what a value of the worker has in the fields of an outcome.
pub record Texts : Type 0 where
  pub fault : Fault → Bytes
  pub reason : Reason → Bytes
  pub did_not_stop : Reason → Bytes
  pub worker_exited : Reason → Bytes
  pub request_abandoned : Bytes
  pub outcome_of : Value → Outcome

module _ (texts : Texts) where
  abbrev pub says_cleared : Value → Bool
  says_cleared v = elim (get_str "state" v) [ none ↦ false | some s ↦ s == "cleared" ]

  abbrev pub says_success : Value → Bool
  says_success v = elim (and_then (get "success" v) as_bool) [ none ↦ false | some b ↦ b ]

  abbrev pub returned_report : Life → Value → Report
  returned_report l v = record {
    outcome = texts.outcome_of v;
    cleared = says_cleared v;
    success = says_success v;
    state_reset = false;
    generation = l.generation;
    dispatched = true;
  }

  -- The result that a conclusion makes.
  abbrev pub report_of : Life → Conclusion → Report
  report_of l (returned v) = returned_report l v
  report_of l (interrupted reason v) =
      let r = returned_report l v in
      record r {
        success = false;
        outcome = record r.outcome { error = some (texts.reason reason) };
      }
  report_of l (unresponsive reason) = record (failure (texts.did_not_stop reason) true l) {
    dispatched = true;
  }
  report_of l (exited reason) = record (failure (texts.worker_exited reason) true l) {
    dispatched = true;
  }
  report_of l (failed fault) = record (failure (texts.fault fault) true l) { dispatched = true }

  abbrev pub or_output : Option Bytes → Bytes → Option Bytes
  or_output none out = some out
  or_output (some []) out = some out
  or_output (some (b ∷ bs)) out = some (b ∷ bs)

  abbrev pub text_of : Option Bytes → Bytes
  text_of none = []
  text_of (some bs) = bs

  abbrev pub is_nil : Bytes → Bool
  is_nil [] = true
  is_nil (b ∷ bs) = false

  -- The output that was captured, where the result has none, and the raw standard error behind it.
  unfoldable pub add_output : Streams → Bytes → Outcome → Outcome
  add_output (out, errors) raw o =
      let stderr = or_output o.stderr errors in
      let behind = if is_nil raw then stderr else some (text_of stderr ++ raw) in
      record o {
        stdout = or_output o.stdout out;
        stderr = or_output behind errors;
        cut_stderr = o.cut_stderr || (not (is_nil raw) && leb stream_limit (length raw));
      }

  -- The end of a run whose worker has answered or is gone.
  unfoldable pub conclude :
      Execution → Course → Life → Option Worker → Bool → Worker → Report × Streams → Report × Life
  unfolding add_output bound_execution_output
  conclude x c l rest restarted w (r, out) = (
    record r {
      outcome = bound_execution_output (add_output out c.raw_stderr r.outcome);
      cleared = not x.fresh && r.cleared;
      state_reset = restarted && not x.fresh;
      generation = l.generation;
    },
    record l { slot = if x.fresh || r.cleared then rest else some w },
  )

  -- What the events of a wait that did not end have put in the streams.
  abbrev pub captured : List Happening → Streams → Streams
  captured [] out = out
  captured (event e ∷ hs) out = captured hs (collect_output e out)
  captured (_ ∷ hs) out = captured hs out

  -- A future that is dropped while it waits: ExecutionGuard and Worker::drop end the worker.
  abbrev pub abandoned : Execution → Course → Life → Option Worker → Report × Life
  abandoned x c l rest =
      let (out, errors) = captured c.happenings ([], []) in
      let r = failure texts.request_abandoned (not x.fresh) l in
      (
        record r {
          outcome =
              bound_execution_output
                (record r.outcome { stdout = some out; stderr = some (errors ++ c.raw_stderr) });
          dispatched = true;
        },
        record l { slot = rest },
      )

  abbrev pub after_wait :
      Execution
      → Course
      → Life
      → Option Worker
      → Bool
      → Worker
      → Option (Conclusion × Streams)
      → Report × Life
  after_wait x c l rest restarted w none = abandoned x c l rest
  after_wait x c l rest restarted w (some (conclusion, out)) =
      conclude x c l rest restarted w (report_of l conclusion, out)

  -- The command is sent, and its result awaited.
  unfoldable pub dispatch :
      Execution → Course → Life → Option Worker → Bool → Worker → Report × Life
  unfolding conclude
  dispatch x c l rest restarted w = elim c.sent [
    | err e ↦ conclude x c l rest restarted w (not_sent e l, ([], []))
    | ok u ↦ after_wait x c l rest restarted w (await_result x.id c.happenings ([], []))
  ]

  -- With a worker; `rest` is what the slot holds while the run has it.
  unfoldable pub run_on : Execution → Course → Life → Option Worker → Bool → Worker → Report × Life
  unfolding dispatch
  run_on x c l rest restarted w =
      let back = record l { slot = if x.fresh then rest else some w } in
      if not x.fresh && (not x.reset && has_moved x.expected_generation l.generation)
      then (failure (texts.fault state_changed) false l, back)
      else if c.cancelled_late
      then (failure (texts.fault cancelled_before) false l, back)
      else dispatch x c l rest restarted w

  -- A fresh child beside the slot. Drop for Reservation calls the state cleared, of a fresh run too.
  abbrev pub fresh_child :
      Execution → Course → Life → Option Worker → Result NotStarted Worker → Report × Life
  fresh_child x c l slot (err e) = (failure e.error e.dropped l, record l { slot = slot })
  fresh_child x c l slot (ok w) = run_on x c (record l { slot = slot }) slot false w

  -- The slot's worker, which the run takes out of it.
  abbrev pub own_worker :
      Execution → Course → Life → Bool → Result NotStarted (Worker × ℕ) → Report × Life
  own_worker x c l restarted (err e) = (failure e.error true l, record l { slot = none })
  own_worker x c l restarted (ok (w, g)) =
      run_on x c (record { slot = none; generation = g }) none restarted w

  unfoldable pub with_worker : Execution → Course → Life → Option Worker → Report × Life
  unfolding run_on
  with_worker x c l slot =
      if x.fresh
      then fresh_child x c l slot c.spawned
      else own_worker x c l (is_none slot) (fill_slot c l slot)

  -- Supervisor::execute_inner
  unfoldable pub execute_inner : Execution → Course → Life → Report × Life
  unfolding stop_old with_worker
  execute_inner x c l = elim (pass_gates (gates_of x c l)) [
    | err fault ↦ (failure (texts.fault fault) false l, l)
    | ok u ↦ with_worker x c l (stop_old x l.slot)
  ]
