-- ===== src/Supervisor/Execute/Ends.antt =====
-- The gates and the conclusions of execute_inner (native/src/supervisor.rs).

use repl_mcp.Supervisor.Execute.{
  returned, deadline, cancelled, request_cancelled, closed, result, event, memory, grace_over,
  failed, settle, Conclusion, await_result, Happening, Reason, Streams, interrupted, unresponsive,
  exited, execution_cancelled, timed_out, pass_gates, Gates, is_stale, code_limit,
}
use mathlib.Core.List.Memᴰ.{head, tail}
use repl_mcp.Supervisor.Output.{collect_output, Event, stream_limit}
use repl_mcp.Base.{
  Memᴰ, String, Option, List, ◌∷◌, length, some, ◌≤◌, none, ◌≡◌, Option-cases, Bool-cases, inl,
  ◌==◌, inr, arith, string_eq, [], true, false, ok, ◌↔◌,
}
use repl_mcp.Json.{Value}
use repl_mcp.Supervisor.Output.Cuts.{collect_lem}

-- The value that a conclusion passes on, if it passes one on.
abbrev pub value_of : Conclusion → Option Value
value_of (returned v) = some v
value_of (interrupted reason v) = some v
value_of (unresponsive reason) = none
value_of (exited reason) = none
value_of (failed fault) = none

abbrev pub IsOwn : String → List Happening → Option (Conclusion × Streams) → Type 0
IsOwn id hs none = Unit
IsOwn id hs (some (c, out)) =
    ((v : Value) → value_of c ≡ some v → Memᴰ (result id v) hs)
    × (length out.0 ≤ stream_limit)
    × (length out.1 ≤ stream_limit)

IsOwn-later :
    (id : String) (h : Happening) (hs : List Happening) (r : Option (Conclusion × Streams))
    → IsOwn id hs r
    → IsOwn id (h ∷ hs) r
IsOwn-later id h hs none own = tt
IsOwn-later id h hs (some (c, out)) (from, first, second) =
    ((λ v e. tail (from v e)), first, second)

collect_output-small :
    (e : Event) (out : Streams)
    → (length out.0 ≤ stream_limit) × (length out.1 ≤ stream_limit)
    → (length (collect_output e out).0 ≤ stream_limit)
      × (length (collect_output e out).1 ≤ stream_limit)
unfolding collect_output
collect_output-small e (a, b) (sa, sb) = elim (Option-cases e.text) [
  | inl no_text ↦ rw no_text (sa, sb)
  | inr (text, there) ↦ elim (Bool-cases e.is_output) [
    | inl output ↦ elim (Bool-cases e.is_stderr) [
      | inl stderr ↦ rw (there, output, stderr) (sa, (collect_lem text b sb).2)
      | inr stdout ↦ rw (there, output, stdout) ((collect_lem text a sa).2, sb)
    ]
    | inr other ↦ rw (there, other) (sa, sb)
  ]
]

settle-IsOwn :
    (id : String) (reason : Reason) (hs : List Happening) (out : Streams)
    → (length out.0 ≤ stream_limit) × (length out.1 ≤ stream_limit)
    → IsOwn id hs (settle id reason hs out)
unfolding settle
settle-IsOwn id reason [] out small = tt
settle-IsOwn id reason (grace_over ∷ hs) out small = ((λ v e. cc), small.0, small.1)
settle-IsOwn id reason (closed ∷ hs) out small = ((λ v e. cc), small.0, small.1)
settle-IsOwn id reason (result j v ∷ hs) out small = elim (Bool-cases (j == id)) [
  | inl own ↦ rw own ((λ w e. head (ground (arith, e, string_eq.test_iff j id))), small.0, small.1)
  | inr other ↦ rw other (IsOwn-later id (result j v) hs _ (settle-IsOwn id reason hs out small))
]
settle-IsOwn id reason (event e ∷ hs) out small =
    IsOwn-later id _ hs _ (settle-IsOwn id reason hs _ (collect_output-small e out small))
settle-IsOwn id reason (request_cancelled ∷ hs) out small =
    IsOwn-later id _ hs _ (settle-IsOwn id reason hs out small)
settle-IsOwn id reason (cancelled ∷ hs) out small =
    IsOwn-later id _ hs _ (settle-IsOwn id reason hs out small)
settle-IsOwn id reason (deadline ∷ hs) out small =
    IsOwn-later id _ hs _ (settle-IsOwn id reason hs out small)
settle-IsOwn id reason (memory over ∷ hs) out small =
    IsOwn-later id _ hs _ (settle-IsOwn id reason hs out small)

-- Whatever happens while a run is awaited: a value that it passes on is one that the worker gave for
-- this run, and each stream of its output stays within 64 KiB, if it was.
pub await_result-IsOwn :
    (id : String) (hs : List Happening) (out : Streams)
    → (length out.0 ≤ stream_limit) × (length out.1 ≤ stream_limit)
    → IsOwn id hs (await_result id hs out)
unfolding await_result
await_result-IsOwn id [] out small = tt
await_result-IsOwn id (request_cancelled ∷ hs) out small =
    IsOwn-later id _ hs _ (settle-IsOwn id execution_cancelled hs out small)
await_result-IsOwn id (cancelled ∷ hs) out small =
    IsOwn-later id _ hs _ (settle-IsOwn id execution_cancelled hs out small)
await_result-IsOwn id (deadline ∷ hs) out small =
    IsOwn-later id _ hs _ (settle-IsOwn id timed_out hs out small)
await_result-IsOwn id (memory true ∷ hs) out small = ((λ v e. cc), small.0, small.1)
await_result-IsOwn id (memory false ∷ hs) out small =
    IsOwn-later id _ hs _ (await_result-IsOwn id hs out small)
await_result-IsOwn id (result j v ∷ hs) out small = elim (Bool-cases (j == id)) [
  | inl own ↦ rw own ((λ w e. head (ground (arith, e, string_eq.test_iff j id))), small.0, small.1)
  | inr other ↦ rw other (IsOwn-later id (result j v) hs _ (await_result-IsOwn id hs out small))
]
await_result-IsOwn id (event e ∷ hs) out small =
    IsOwn-later id _ hs _ (await_result-IsOwn id hs _ (collect_output-small e out small))
await_result-IsOwn id (closed ∷ hs) out small = ((λ v e. cc), small.0, small.1)
await_result-IsOwn id (grace_over ∷ hs) out small =
    IsOwn-later id _ hs _ (await_result-IsOwn id hs out small)

-- The gates let a run through exactly when its session is open, the generation is the expected one if
-- one is expected, nothing is cancelled, the code and the timeout are within their limits, and the
-- worker is free.
pub pass_gates_iff :
    (g : Gates)
    → (pass_gates g ≡ ok tt) ↔ (
        (g.closed ≡ false)
        × (is_stale g.expected_generation g.generation ≡ false)
        × (g.cancelled ≡ false)
        × (g.request_cancelled ≡ false)
        × (g.code_len ≤ code_limit)
        × (g.valid_timeout ≡ true)
        × (g.worker_free ≡ true))
unfolding pass_gates
pass_gates_iff g = ground arith
