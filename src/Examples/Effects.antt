-- ===== src/Examples/Effects.antt =====
-- The theorems on the effect journal of native/src/broker.rs, applied.
use repl_mcp.Broker.Budget.Within.{size, height, bounded_json_lem}
use repl_mcp.Json.{Value, object, field, str, array, cons, null, nil, end}
use repl_mcp.Base.{String, ◌∷◌, ℕ, none, ◌*◌, [], arith, length, ◌≤◌, refl, ◌≢◌, ◌≡◌, true, some}
use mathlib.Core.List.Memᴰ.{head}
use repl_mcp.Broker.Writer.{
  configure, notify, wake, finish, replace, request, World, start, copied, picked, written,
  schedule, end_round, complete, Reachable, answer, after, at_start, change, ask, pick, copy,
}
use repl_mcp.Broker.Journal.Kept.{Entered, enter_lem}
use repl_mcp.Broker.Journal.{Journal, Record, enter}
use repl_mcp.Broker.Writer.Awake.{none_stranded}
use repl_mcp.Broker.Writer.Durable.{acknowledged_durable}
use repl_mcp.Broker.Budget.{bounded_json, visit}

abbrev sample : String → String → Record
sample id status = record {
  id = id;
  session_id = "s";
  project = "p";
  run_id = "r";
  server = "files";
  tool = "read";
  started = 5;
  finished = none;
  status = status;
}

abbrev bytes_of : Journal → ℕ
bytes_of j = 100 * length j

abbrev two_calls : Journal
two_calls = sample "a" "completed" ∷ sample "b" "dispatched" ∷ []

enter_lem_example :
    Entered bytes_of two_calls
      (sample "c" "dispatched")
      (enter bytes_of (sample "c" "dispatched") two_calls)
enter_lem_example = enter_lem bytes_of two_calls (sample "c" "dispatched") refl (omega arith)

abbrev w0 : World
w0 = record start { changes = 1 }

abbrev w1 : World
w1 = record start { changes = 1; configured = true }

abbrev w2 : World
w2 = request w1

abbrev w3 : World
w3 = record w2 { task = picked w2.io.requested }

abbrev w4 : World
w4 = record w3 { task = copied 1 w3.changes }

abbrev w5 : World
w5 = record w4 { task = written 1 none; disk = 1 }

abbrev w6 : World
w6 = end_round 1 none w5

w6-Reachable : Reachable w6
unfolding request schedule
w6-Reachable =
    after w5 w6
      (after w4 w5
        (after w3 w4
          (after w2 w3
            (after w1 w2 (after w0 w1 (after start w0 at_start (change start)) (configure w0))
              (ask w1))
            (pick w2 refl))
          (copy w3 1 refl))
        (replace w4 1 1 refl))
      (finish w5 1 none refl)

acknowledged_durable_example : 1 ≤ w6.disk
unfolding request schedule end_round complete answer
acknowledged_durable_example =
    acknowledged_durable w6 1 1 w6-Reachable (omega arith) (head refl) refl

abbrev w7 : World
w7 = notify w6

none_stranded_example : (w7.asleep ≡ []) × (answer (some 1) w7.io ≢ none)
unfolding request schedule end_round complete notify
none_stranded_example =
    none_stranded w7 1 1 (after w6 w7 w6-Reachable (wake w6 refl)) (omega arith) refl refl
      (head refl)

abbrev a_schema : Value
a_schema = object (field "type" (str "object") (field "anyOf" (array (cons null nil)) end))

bounded_json_example : (100 ≤ 1000) × (size a_schema ≤ 10) × (height a_schema ≤ 4)
unfolding bounded_json visit
bounded_json_example = bounded_json_lem (λ s. 6) 4 10 (λ v. 100) 1000 a_schema refl
