-- ===== src/Examples/Serving.antt =====
-- The theorems on the MCP server of native/src/server.rs, applied.
use repl_mcp.Sessions.Prepare.{Error}
use repl_mcp.Server.Envelope.Presented.{IsWhole, IsPresented, answer_lem}
use repl_mcp.Server.Route.{
  forwarding, System, executing, Call, route, Known, get_tool, session_for, call_of, closing,
  forwarded_params,
}
use repl_mcp.Sessions.{SessionManager, start, get_session, close}
use repl_mcp.Server.Envelope.{Identity, Printing, Response, answer, value_of, is_failure}
use repl_mcp.Base.{
  Result, ◌∷◌, String, false, none, [], some, err, length, true, ◌≡◌, refl, ok, if◌then◌else◌, ◌==◌,
  string_eq, Option,
}
use repl_mcp.Json.{Fields, field, Value, str, end, object, bool}
use repl_mcp.Server.Route.Sound.{Named, route-Named}
use repl_mcp.Server.Route.Total.{route-IsSafe, Blocked}
use repl_mcp.Examples.Validating.{validates-IsValidator, validates}
use repl_mcp.Server.Envelope.Marked.{IsMarked}
use repl_mcp.Server.Call.{Backend, call_tool}
use repl_mcp.Server.Call.Served.{IsServed, call_tool-IsServed}
use repl_mcp.Supervisor.Forward.{forward_request}
use repl_mcp.Server.Route.Forwarded.{forward_request_lem}

abbrev toy_system : System
toy_system = record { validates = validates; is_absolute = λ p. false; join = λ p q. none }

abbrev one_session : SessionManager
one_session = start "a" "/p" "python"

abbrev code_given : Fields
code_given = field "session_id" (str "a") (field "code" (str "1 + 1") end)

abbrev path_given : Fields
path_given = field "session_id" (str "a") (field "id" (str "x") (field "path" (str "out.txt") end))

route-IsSafe_example : Blocked toy_system path_given "artifact_save" one_session
unfolding route get_tool session_for call_of get_session start
route-IsSafe_example =
    route-IsSafe toy_system validates-IsValidator path_given "artifact_save" true one_session refl

abbrev the_session : Known
the_session = record { id = "a"; project = "/p" }

abbrev the_run : Call
the_run = executing the_session (record {
  code = "1 + 1";
  reset = false;
  timeout = none;
  expected_generation = none;
  source_path = none;
  argv = none;
  fresh = false;
})

route-Named_example : Named toy_system (object code_given) one_session the_session
unfolding route get_tool session_for call_of get_session start
route-Named_example =
    route-Named toy_system "execute_python" code_given true one_session the_run the_session refl
      refl

abbrev toy_printing : Printing
toy_printing = record {
  utf8 = λ s. 97 ∷ [];
  to_string = λ v. 123 ∷ 125 ∷ [];
  encoded = λ r. length r.content;
}

abbrev identity : Identity
identity = record { server_id = "server"; session_id = "a"; generation = 1 }

abbrev failed_value : Result String Value
failed_value = err "Forwarding cancelled before dispatch"

answer_lem_example :
    (marked : Fields) × ((whole : Response) × ((r : Response) × (answer toy_printing
            (some identity)
            failed_value
          ≡ some r)
        × IsMarked (some identity) (value_of failed_value) (object marked)
        × (r.is_error ≡ is_failure (object marked))
        × IsWhole toy_printing (object marked) whole
        × IsPresented toy_printing whole r))
answer_lem_example = answer_lem toy_printing (some identity) failed_value tt

abbrev perform_close :
    Result Error (Unit {0}) × SessionManager → Option (Result String Value) × SessionManager
perform_close (err e, m) = (some (err "Session not found or already closed"), m)
perform_close (ok u, m) = (some (ok (object (field "closed" (bool true) end))), m)

abbrev toy_perform : Call → SessionManager → Option (Result String Value) × SessionManager
toy_perform (closing id) m = perform_close (close id m)
toy_perform call m = (some (ok (object end)), m)

abbrev toy_backend : Backend SessionManager
toy_backend = record {
  manager = λ m. m;
  perform = toy_perform;
  server_id = "server";
  generation = λ id m. 1;
}

abbrev close_given : Fields
close_given = field "session_id" (str "b") end

call_tool-IsServed_example :
    IsServed toy_system toy_backend "python_session_close" close_given true one_session (
      call_tool toy_system toy_printing toy_backend "python_session_close" close_given true
        one_session)
call_tool-IsServed_example =
    call_tool-IsServed toy_system validates-IsValidator toy_printing toy_backend
      "python_session_close" close_given true one_session

abbrev forward_given : Fields
forward_given = field "session_id" (str "a") (
    field "id" (str "x")
      (field "server" (str "s") (field "tool" (str "t") (field "argument" (str "body") end))))

abbrev toy_payload : String → String → Result String Value
toy_payload id format = if id == "x" then ok (str "text") else err "Artifact not found"

forward_request_lem_example :
    (sent : Value) × (forward_request toy_payload (object forward_given) ≡ ok sent)
    × (forwarded_params toy_system (str "text") (object forward_given) ≡ ok sent)
unfolding route get_tool session_for call_of get_session start
forward_request_lem_example =
    forward_request_lem toy_system validates-IsValidator forward_given toy_payload true one_session
      (forwarding the_session "x" "json" (object forward_given)) "x" (str "text") refl refl refl
