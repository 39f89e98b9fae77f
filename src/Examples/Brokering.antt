-- ===== src/Examples/Brokering.antt =====
-- The theorems on the broker of native/src/broker.rs, applied.
use repl_mcp.Json.{str, null, object, array, cons, nil, field, end, Value}
use repl_mcp.Config.Types.{ServerConfig, Registry}
use repl_mcp.Broker.Transports.{
  Broker, Slot, connected, session, refresh, Fault, kept, has_key, refresh_if_due, claim, retire,
  transport_key,
}
use repl_mcp.Broker.Explain.{
  Probe, explain, explain_status, server_status, not_granted, configuration,
}
use repl_mcp.Broker.Catalogue.{
  list_pages, tools, read_page, add_page, add_tool, list_tools, evict_oldest,
}
use repl_mcp.Broker.Call.{Peer, call, Sent, admit_call, dispatched, call_refreshed, check_tool}
use repl_mcp.Base.{
  Result, none, Bool, some, List, String, Option, ◌∷◌, ok, ℕ, err, true, [], ◌≡◌, false,
  if◌then◌else◌, length, ◌≤◌, arith, false≢true, retain, sym, refl, string_eq, ap, ◌==◌, sum_by,
  ◌≢◌,
}
use repl_mcp.Broker.Journal.{trim, Record, Journal, enter}
use repl_mcp.Broker.Transports.Claims.{IsWithin, IsGiven, session_lem, IsBusy}
use repl_mcp.Broker.Call.Granted.{Passed, call-Passed}
use repl_mcp.Broker.Explain.Refused.{explain_refused}
use repl_mcp.Broker.Transports.Refreshed.{refresh_lem}
use repl_mcp.Broker.Validate.{validate, Schemas, bounded_schema}
use repl_mcp.Broker.Budget.{bounded_json}
use repl_mcp.Broker.Answer.{Lost, Finish, whole_call, call_key}
use repl_mcp.Broker.Journal.Kept.{in_flights}
use repl_mcp.Broker.Answer.Closed.{status_at, whole_call_lem, IsLeft, IsTold}

abbrev a_server : ServerConfig
a_server = record {
  transport = some "stdio";
  command = some "ls";
  args = [];
  env = [];
  cwd = some "/p";
  url = none;
  headers = [];
  disabled = false;
  broker_allowed = false;
  allowed_tools = some ("read" ∷ []);
  oauth = none;
}

abbrev a_registry : Registry
a_registry = record {
  servers = ("s", a_server) ∷ [];
  config = none;
  scope = "project";
  project = "/p";
  present = true;
  excluded = [];
}

-- Configurations by their command.
abbrev name_of : ServerConfig → Option String
name_of cfg = cfg.command

abbrev busy_slot : Slot
busy_slot = record { live = some (record { id = 7; closed = false; users = 2 }); locked = false }

abbrev a_broker : Broker
a_broker = record {
  registry = a_registry;
  config_error = none;
  sessions = ("cat", busy_slot) ∷ [];
  failures = [];
  catalogue = [];
  validators = [];
  refresh_at = 0;
}

session_lem_example :
    let b' = (session 5 "ls" (connected 8) a_broker).1 in
    IsWithin b'.sessions
    × IsGiven "ls" b' (session 5 "ls" (connected 8) a_broker).0
    × ((j : String) (slot : Slot)
        → "ls" ≢ j
        → repl_mcp.Base.Map.get j a_broker.sessions ≡ some slot
        → IsBusy slot
        → repl_mcp.Base.Map.get j b'.sessions ≡ some slot)
session_lem_example = session_lem 5 "ls" (connected 8) a_broker ((refl, tt), omega arith)

refresh_lem_example :
    let fresh = (refresh name_of 9 (ok a_registry) a_broker).1 in
    let failed = (refresh name_of 9 (err "bad") a_broker).1 in
    (fresh.registry ≡ a_registry)
    × (fresh.config_error ≡ none)
    × (repl_mcp.Base.Map.get "cat" fresh.sessions ≡ (
        if has_key (kept name_of a_registry.servers) "cat"
        then repl_mcp.Base.Map.get "cat" a_broker.sessions
        else none))
    × (fresh.failures ≡ [])
    × (fresh.catalogue ≡ [])
    × (failed.registry.servers ≡ [])
    × (failed.config_error ≡ some "bad")
    × (repl_mcp.Base.Map.get "cat" failed.sessions ≡ none)
    × (failed.catalogue ≡ [])
refresh_lem_example = refresh_lem name_of 9 a_broker a_registry "bad" "cat"

abbrev tool_named : String → Value
tool_named n = object (field "name" (str n) (field "inputSchema" null end))

-- A peer of two pages.
abbrev answer_to : ℕ → Option String → Result Fault Value
answer_to n none = ok (
    object (
      field "tools" (array (cons (tool_named "read") (cons (tool_named "write") nil)))
        (field "nextCursor" (str "2") end)))
answer_to n (some c) = ok (object (field "tools" (array nil) end))

abbrev readers : List Value
readers = tool_named "read" ∷ []

read_only : list_tools (λ t. 9) answer_to (some ("read" ∷ [])) ≡ ok readers
unfolding list_pages read_page add_page add_tool
read_only = refl

abbrev request : Value
request = object (field "server" (str "s") (field "tool" (str "read") end))

abbrev a_peer : Peer
a_peer = record {
  now = 5;
  loaded = err "unread";
  queued_out = false;
  attempt = connected 8;
  listed = ok readers;
  id = "c1";
  persisted = true;
}

abbrev never : Value → Bool
never v = false

abbrev any_schema : Schemas
any_schema = record {
  byte_len = λ s. 1;
  size = λ v. 1;
  to_text = λ v. some "schema";
  compile = λ v. some (λ arguments. true);
}

abbrev empty_size : Journal → ℕ
empty_size j = 2

abbrev after_call : Result Fault Sent × Broker × Journal
after_call = call name_of never any_schema empty_size "session" "run" request a_peer a_broker []

abbrev a_record : Record
a_record = dispatched name_of never any_schema empty_size "c1" "session" "run" 5 "/p" "s" "read"

abbrev a_sent : Sent
a_sent = record { transport = 8; name = "read"; arguments = object end }

called :
    call name_of never any_schema empty_size "session" "run" request a_peer a_broker []
    ≡ (ok a_sent, after_call.1, a_record ∷ [])
unfolding call call_refreshed admit_call check_tool refresh_if_due session claim retire tools
    evict_oldest enter trim transport_key validate bounded_schema bounded_json
called = refl

call-Passed_example :
    Passed name_of never any_schema empty_size "session" "run" request a_peer a_broker []
      (object end)
      (a_record ∷ [])
      "read"
      after_call.1
call-Passed_example =
    call-Passed name_of never any_schema empty_size "session" "run" request a_peer a_broker
      after_call.1 [] (a_record ∷ []) a_sent (omega arith) called

abbrev a_probe : Probe
a_probe = record { now = 5; no_bridge = false; is_missing = λ p. false; has_control = λ s. false }

abbrev write_request : Value
write_request = object (field "server" (str "s") (field "tool" (str "write") end))

explained : explain name_of a_probe write_request a_broker ≡ ok (not_granted, configuration)
unfolding explain explain_status server_status
explained = refl

explain_refused_example :
    (e : Fault) × (admit_call name_of never any_schema empty_size false write_request a_broker
      ≡ err e)
explain_refused_example =
    explain_refused name_of a_probe never any_schema empty_size false write_request a_broker
      not_granted configuration explained refl

abbrev a_finish : Finish
a_finish = record { now = 6; persisted = true; size = some 2; closed = true }

whole_call_lem_example :
    (out : Option (Result Lost Value)) × ((left : Broker) × ((after : Journal) × (whole_call name_of
            never any_schema empty_size "session" "run" request a_peer a_finish
            (some (ok (object end)))
            a_broker
            []
          ≡ (out, left, after))
        × (in_flights after ≡ [])
        × (length after ≡ 1)
        × (status_at "c1" after ≡ some "completed")
        × IsLeft a_finish
            (call_key name_of never any_schema empty_size request after_call.1)
            out
            after_call.1
            left
        × IsTold a_finish (some (ok (object end))) out))
whole_call_lem_example =
    whole_call_lem name_of never any_schema empty_size "session" "run" request a_peer a_finish
      (some (ok (object end))) a_broker after_call.1 [] (a_record ∷ []) a_sent (omega arith)
      (tt, tt) tt called
