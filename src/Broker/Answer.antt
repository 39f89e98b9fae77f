-- ===== src/Broker/Answer.antt =====
-- The end of a call in dispatch_with_context (native/src/broker.rs): what the peer's answer, or its
-- failure, does to the call's record and what the caller gets. Whether the journal could be persisted
-- and what the answer takes as JSON are parameters.
pub mod Closed
use repl_mcp.Base.Map
use repl_mcp.Broker.Transports.{Broker, Fault, transport_key, invalidate}
use repl_mcp.Broker.Journal.{Journal, Ending, failed, returned, dropped, close}
use repl_mcp.Json.{Value, get, and_then, as_bool, get_str}
use repl_mcp.Base.{
  ℕ, String, Bool, Result, Option, ok, false, if◌then◌else◌, err, some, ltb, none, true, ◌&&◌,
  string_eq,
}
use repl_mcp.Config.Types.{ServerConfig}
use repl_mcp.Config.Normal.{or_else}
use repl_mcp.Broker.Validate.{Schemas}
use repl_mcp.Broker.Call.{Peer, Sent, call}

-- What the caller is told in place of an answer.
pub data Lost : Type 0 where
  not_sent : Fault → Lost
  not_durable cannot_encode : Lost
  -- The result exceeds the delivery budget of the call's id.
  too_large : String → Lost
  -- The error of the request, or that its outcome is unknown and the journal is not durable.
  request_failed : String → Lost
  unknown_not_durable : Lost

pub record Finish : Type 0 where
  pub now : ℕ
  pub persisted : Bool
  pub size : Option ℕ
  -- Whether the session is closed by then.
  pub closed : Bool

abbrev pub delivery_limit : ℕ
delivery_limit = 900000

-- envelope.get("isError").and_then(Value::as_bool) == Some(true)
abbrev pub is_tool_error : Value → Bool
is_tool_error envelope = or_else (and_then (get "isError" envelope) as_bool) false

abbrev pub ending_of : Result String Value → Ending
ending_of (ok envelope) = returned (is_tool_error envelope)
ending_of (err e) = failed

abbrev pub deliver : String → Option ℕ → Value → Result Lost Value
deliver id none envelope = err cannot_encode
deliver id (some n) envelope = if ltb delivery_limit n then err (too_large id) else ok envelope

abbrev pub reply : String → Finish → Result String Value → Result Lost Value
reply id f (ok envelope) = if f.persisted then deliver id f.size envelope else err not_durable
reply id f (err e) = if f.persisted then err (request_failed e) else err unknown_not_durable

-- From the answer on.
unfoldable pub settle :
    String → Finish → Result String Value → Journal → Result Lost Value × Journal
settle id f answer j = (reply id f answer, close id (ending_of answer) f.now j)

-- What becomes of the request of a call: its answer or its failure, or the call's future is dropped while
-- it waits.
abbrev pub outcome_of : Option (Result String Value) → Ending
outcome_of none = dropped
outcome_of (some answer) = ending_of answer

-- Whether the call gets past its own early returns, to the test of its session.
abbrev pub reaches_end : Option (Result Lost Value) → Bool
reaches_end (some (ok v)) = true
reaches_end (some (err (request_failed e))) = true
reaches_end _ = false

-- `if session.is_closed()`
abbrev pub leave_session : Bool → Option String → Broker → Broker
leave_session true (some key) b = invalidate key b
leave_session _ _ b = b

module _ (to_string : ServerConfig → Option String) (out_of_range : Value → Bool)
    (schemas : Schemas) (encoded : Journal → ℕ) where
  -- The key of the call's server, in the registry that the call has read.
  abbrev pub call_key : Value → Broker → Option String
  call_key params b = elim (get_str "server" params) [
    | none ↦ none
    | some name ↦ elim (Map.get name b.registry.servers) [
      | none ↦ none
      | some cfg ↦ transport_key to_string cfg
    ]
  ]

  abbrev pub when_sent :
      Value
      → Peer
      → Finish
      → Option (Result String Value)
      → Result Fault Sent × Broker × Journal
      → Option (Result Lost Value) × Broker × Journal
  when_sent params p f answer (err e, b, j) = (some (err (not_sent e)), b, j)
  when_sent params p f none (ok sent, b, j) = (none, b, close p.id dropped f.now j)
  when_sent params p f (some answer) (ok sent, b, j) =
      let (out, j') = settle p.id f answer j in
      (some out, leave_session (f.closed && reaches_end (some out)) (call_key params b) b, j')

  -- A call from its checks to its end; `answer` is what becomes of its request. A dropped call has no
  -- result.
  unfoldable pub whole_call :
      String
      → String
      → Value
      → Peer
      → Finish
      → Option (Result String Value)
      → Broker
      → Journal
      → Option (Result Lost Value) × Broker × Journal
  unfolding settle
  whole_call session_id run_id params p f answer b j =
      when_sent params p f answer
        (call to_string out_of_range schemas encoded session_id run_id params p b j)
