-- ===== src/Examples/Lives.antt =====
-- The theorems on the worker's life and on the reader of its frames (native/src/supervisor.rs), applied.
use repl_mcp.Supervisor.Life.Kept.{Ending, execute_inner-Ending}
use repl_mcp.Supervisor.Life.{
  Worker, Course, Life, Texts, Execution, execute_inner, empty_outcome, with_worker, run_on,
  dispatch, conclude,
}
use repl_mcp.Json.{object, Value, obj, str, end}
use repl_mcp.Supervisor.Reader.Reachable.{reads, starts, fresh, after, IsSound, Reaches-IsSound}
use repl_mcp.Supervisor.Reader.Gate.{Verdict, on_call-Verdict}
use repl_mcp.Base.{true, false, some, [], ◌∷◌, ok, refl, arith, ◌≡◌}
use repl_mcp.Supervisor.Life.Generation.{IsApart, fresh-IsApart, dispatched_lem, dispatched_lem}
use repl_mcp.Supervisor.Reader.{Reader, read_event, start_run, new_reader, on_call}
use repl_mcp.Supervisor.Execute.{result, pass_gates, await_result}

abbrev toy_texts : Texts
toy_texts = record {
  fault = λ f. [];
  reason = λ r. 114 ∷ [];
  did_not_stop = λ r. [];
  worker_exited = λ r. [];
  request_abandoned = [];
  outcome_of = λ v. empty_outcome;
}

abbrev a_run : Execution
a_run = record {
  id = "r";
  code_len = 1;
  reset = false;
  valid_timeout = true;
  expected_generation = some 3;
  fresh = false;
}

abbrev the_worker : Worker
the_worker = record { pid = 7; live = true; raw_stderr = [] }

abbrev a_course : Course
a_course = record {
  closed = false;
  cancelled = false;
  request_cancelled = false;
  worker_free = true;
  spawned = ok (record the_worker { pid = 8 });
  cancelled_late = false;
  sent = ok tt;
  happenings = result "r" (object end) ∷ [];
  raw_stderr = [];
}

abbrev a_life : Life
a_life = record { slot = some the_worker; generation = 3 }

execute_inner-Ending_example :
    Ending a_course a_life (execute_inner toy_texts a_run a_course a_life)
execute_inner-Ending_example = execute_inner-Ending toy_texts a_run a_course a_life refl

dispatched_lem_example :
    (a_life.generation ≡ 3) × ((w : Worker) × (a_life.slot ≡ some w) × (w.live ≡ true))
unfolding execute_inner pass_gates with_worker run_on dispatch conclude await_result
dispatched_lem_example =
    let (r, l') = execute_inner toy_texts a_run a_course a_life in
    dispatched_lem toy_texts a_run a_course 3 a_life l' r refl refl refl (omega arith) refl refl

fresh-IsApart_example :
    IsApart a_course a_life
      (execute_inner toy_texts (record a_run { fresh = true }) a_course a_life)
fresh-IsApart_example = fresh-IsApart toy_texts (record a_run { fresh = true }) a_course a_life refl

abbrev a_call : Value
a_call = obj (
    ("type", str "rpc")
    ∷ ("run_id", str "r")
    ∷ ("id", str "1")
    ∷ ("op", str "artifact.read")
    ∷ ("params", obj (("_run_id", str "other") ∷ []))
    ∷ [])

abbrev in_flight : Reader
in_flight = read_event true true a_call (start_run "r" new_reader)

on_call-Verdict_example :
    Verdict true a_call (start_run "r" new_reader) (on_call true a_call (start_run "r" new_reader))
on_call-Verdict_example = on_call-Verdict true a_call (start_run "r" new_reader)

Reaches-IsSound_example : IsSound in_flight
Reaches-IsSound_example =
    Reaches-IsSound true in_flight (after (after fresh (starts "r")) (reads true a_call refl))
