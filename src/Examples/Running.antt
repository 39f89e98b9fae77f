-- ===== src/Examples/Running.antt =====
-- The theorems on the supervisor of native/src/supervisor.rs, applied.
use repl_mcp.Supervisor.Output.{Outcome}
use repl_mcp.Supervisor.Output.Cuts.{IsBounded, bound_execution_output_lem}
use repl_mcp.Artifacts.State
use repl_mcp.Supervisor.Slot.{Active, Supervisor, finish, abandon, before_guard, armed, disarmed}
use repl_mcp.Base.{Bytes, ◌∷◌, true, some, false, [], none, refl, arith, string_eq, ◌≡◌}
use repl_mcp.Supervisor.Output.{bound_execution_output}
use repl_mcp.Supervisor.Slot.Ends.{IsEnded, run_ends, IsOver}
use repl_mcp.Json.{null, unsigned}
use repl_mcp.Supervisor.Execute.Ends.{IsOwn, await_result-IsOwn}
use repl_mcp.Supervisor.Execute.{memory, result, await_result}

-- "aé": the second character is two bytes.
abbrev accented : Bytes
accented = 97 ∷ 195 ∷ 169 ∷ []

abbrev an_outcome : Outcome
an_outcome = record {
  stdout = some accented;
  stderr = some [];
  return_value = none;
  error = none;
  cut_stdout = false;
  cut_stderr = false;
  cut_return = false;
  cut_error = false;
}

bound_execution_output_example :
    let b = bound_execution_output an_outcome in
    IsBounded 50000 (some accented) false (b.stdout, b.cut_stdout)
    × IsBounded 50000 (some []) false (b.stderr, b.cut_stderr)
    × IsBounded 20000 none false (b.return_value, b.cut_return)
    × IsBounded 20000 none false (b.error, b.cut_error)
bound_execution_output_example = bound_execution_output_lem an_outcome

abbrev an_active : Active
an_active = record { id = "r2"; cancelled = false; request_cancelled = false }

abbrev at_work : Supervisor
at_work = record {
  session_id = "s";
  busy = true;
  active = some an_active;
  records = ("r1", null) ∷ [];
  artifacts = State.new;
}

run_ends_example :
    IsEnded "r2" (unsigned 1) (finish true "r2" (unsigned 1) null at_work)
    × IsEnded "r2" null (abandon before_guard true "r2" (unsigned 2) null at_work)
    × IsEnded "r2" (unsigned 2) (abandon armed true "r2" (unsigned 2) null at_work)
    × IsOver "r2" (abandon disarmed true "r2" (unsigned 2) null at_work)
    × ((abandon disarmed true "r2" (unsigned 2) null at_work).records ≡ ("r1", null) ∷ [])
run_ends_example = run_ends "r2" (unsigned 1) (unsigned 2) null an_active at_work refl (tt, tt)

await_result-IsOwn_example :
    IsOwn "r"
      (memory false ∷ result "q" null ∷ result "r" null ∷ [])
      (await_result "r" (memory false ∷ result "q" null ∷ result "r" null ∷ []) ([], []))
await_result-IsOwn_example =
    await_result-IsOwn "r" (memory false ∷ result "q" null ∷ result "r" null ∷ []) ([], [])
      (omega arith, omega arith)
