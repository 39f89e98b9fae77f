-- ===== src/Broker/Call.antt =====
-- The operation `call` of dispatch_with_context in native/src/broker.rs, up to the request to the
-- peer. Serialization, jsonschema and the encoded size of the journal are parameters, and so
-- are what becomes of the connection, the peer's listing, and the range test on a timeout, a float.
pub mod Alike
pub mod Checks
pub mod Granted
use repl_mcp.Config.Types.{ServerConfig, Registry}
use repl_mcp.Json.{Value, get_str, object, is_object, end}
use repl_mcp.Base.{
  String, Option, ℕ, Bool, Result, List, false, some, not, err, ◌>>=◌, ◌>>◌, none, refuse_if, ok_or,
  ◌==◌, ok, find, string_eq, if◌then◌else◌,
}
use repl_mcp.Broker.Journal.{Journal, Record, Refusal, enter, close}
use repl_mcp.Broker.Transports.{
  Broker, Session, Attempt, Fault, refresh_if_due, has_key, bad_config, not_journaled, no_key,
  transport_key, bad_name, session, unknown_tool, invalid, unknown_server, bad_timeout, no_budget,
  bad_tool, denied, bad_arguments,
}
use repl_mcp.Config.Normal.{or_else, is_some}
use repl_mcp.Broker.Catalogue.{tools}
use repl_mcp.Broker.Validate.{Schemas, validate, Validators}

-- cfg.allowed_tools.as_ref().is_some_and(|allow| !allow.iter().any(..))
abbrev pub is_denied : Option (List String) → String → Bool
is_denied none tool = false
is_denied (some allow) tool = not (has_key allow tool)

-- params.get("arguments").is_some_and(|arguments| !arguments.is_object())
abbrev pub no_object : Option Value → Bool
no_object none = false
no_object (some v) = not (is_object v)

abbrev pub is_bad_timeout : (Value → Bool) → Option Value → Bool
is_bad_timeout out_of_range none = false
is_bad_timeout out_of_range (some v) = out_of_range v

-- t["name"] == tool
abbrev pub is_named : String → Value → Bool
is_named tool t = elim (get_str "name" t) [ none ↦ false | some n ↦ n == tool ]

-- The request that goes to the peer.
pub record Sent : Type 0 where
  pub transport : ℕ
  pub name : String
  pub arguments : Value

-- What the call finds on its way.
pub record Peer : Type 0 where
  pub now : ℕ
  pub loaded : Result String Registry
  pub queued_out : Bool
  pub attempt : Attempt
  pub listed : Result Fault (List Value)
  pub id : String
  pub persisted : Bool

module _ (to_string : ServerConfig → Option String) (out_of_range : Value → Bool)
    (schemas : Schemas) (encoded : Journal → ℕ) where
  -- The checks before a connection.
  unfoldable pub admit_call : Bool → Value → Broker → Result Fault (ServerConfig × String)
  admit_call queued_out params b = do
    refuse_if (is_some b.config_error) bad_config
    name ← ok_or (get_str "server" params) bad_name
    cfg ← ok_or (repl_mcp.Base.Map.get name b.registry.servers) unknown_server
    refuse_if (is_bad_timeout out_of_range (repl_mcp.Json.get "timeout" params)) bad_timeout
    refuse_if queued_out no_budget
    tool ← ok_or (get_str "tool" params) bad_tool
    refuse_if (is_denied cfg.allowed_tools tool) denied
    refuse_if (no_object (repl_mcp.Json.get "arguments" params)) bad_arguments
    ok (cfg, tool)

  abbrev pub arguments_of : Value → Value
  arguments_of params = or_else (repl_mcp.Json.get "arguments" params) (object end)

  -- The tool in the catalogue, whose schema the arguments must fit.
  unfoldable pub check_tool :
      Value → Option Value → Validators → Result Fault (Unit {0}) × Validators
  unfolding validate
  check_tool arguments none vs = (err unknown_tool, vs)
  check_tool arguments (some definition) vs =
      validate schemas (repl_mcp.Json.get "inputSchema" definition) arguments vs

  -- The journal is written before the request; when that fails, `CallRecord::drop` closes the record.
  abbrev pub journaled :
      Sent
      → Broker
      → Peer
      → Result Refusal (Unit {0}) × Journal
      → Result Fault Sent × Broker × Journal
  journaled sent b p (err e, j) = (err not_journaled, b, j)
  journaled sent b p (ok u, j) =
      if p.persisted
      then (ok sent, b, j)
      else (err not_journaled, b, close p.id repl_mcp.Broker.Journal.dropped p.now j)

  abbrev pub dispatched : String → String → String → ℕ → String → String → String → Record
  dispatched id session_id run_id now project server tool = record {
    id = id;
    session_id = session_id;
    project = project;
    run_id = run_id;
    server = server;
    tool = tool;
    started = now;
    finished = none;
    status = "dispatched";
  }

  -- From the check of the arguments on.
  abbrev pub call_checked :
      String
      → String
      → Value
      → Peer
      → String
      → Session
      → Journal
      → Broker
      → Result Fault (Unit {0}) × Validators
      → Result Fault Sent × Broker × Journal
  call_checked session_id run_id params p tool s j b (err e, vs) =
      (err e, record b { validators = vs }, j)
  call_checked session_id run_id params p tool s j b (ok u, vs) =
      journaled (record { transport = s.id; name = tool; arguments = arguments_of params })
        (record b { validators = vs }) p
        (enter encoded
          (dispatched p.id session_id run_id p.now b.registry.project
            (or_else (get_str "server" params) "") tool)
          j)

  -- From the catalogue on.
  abbrev pub call_tool :
      String
      → String
      → Value
      → Peer
      → String
      → Session
      → Journal
      → Result Fault (List Value) × Broker
      → Result Fault Sent × Broker × Journal
  call_tool session_id run_id params p tool s j (err e, b) = (err e, b, j)
  call_tool session_id run_id params p tool s j (ok ts, b) =
      call_checked session_id run_id params p tool s j b
        (check_tool (arguments_of params) (find (is_named tool) ts) b.validators)

  -- From the connection on.
  abbrev pub call_with :
      String
      → String
      → Value
      → Peer
      → ServerConfig
      → String
      → Journal
      → Result Fault Session × Broker
      → Result Fault Sent × Broker × Journal
  call_with session_id run_id params p cfg tool j (err e, b) = (err e, b, j)
  call_with session_id run_id params p cfg tool j (ok s, b) = elim (to_string cfg) [
    | none ↦ (err no_key, b, j)
    | some key ↦ call_tool session_id run_id params p tool s j (tools p.now key p.listed b)
  ]

  -- After the refresh of the registry.
  unfoldable pub call_refreshed :
      String → String → Value → Peer → Broker → Journal → Result Fault Sent × Broker × Journal
  unfolding admit_call check_tool
  call_refreshed session_id run_id params p b j = elim (admit_call p.queued_out params b) [
    | err e ↦ (err e, b, j)
    | ok (cfg, tool) ↦ elim (transport_key to_string cfg) [
      | none ↦ (err no_key, b, j)
      | some key ↦ call_with session_id run_id params p cfg tool j (session p.now key p.attempt b)
    ]
  ]

  abbrev pub when_fresh :
      String
      → String
      → Value
      → Peer
      → Journal
      → Result String (Unit {0}) × Broker
      → Result Fault Sent × Broker × Journal
  when_fresh session_id run_id params p j (err e, b) = (err bad_config, b, j)
  when_fresh session_id run_id params p j (ok u, b) = call_refreshed session_id run_id params p b j

  unfoldable pub call :
      String → String → Value → Peer → Broker → Journal → Result Fault Sent × Broker × Journal
  unfolding call_refreshed
  call session_id run_id params p b j =
      when_fresh session_id run_id params p j (refresh_if_due to_string p.now p.loaded b)
