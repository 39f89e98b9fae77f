-- ===== src/Server/Call.antt =====
-- `call_tool` of native/src/server.rs as a whole: the route, the component that answers, the answer. The
-- components are an interface.
pub mod Served
use repl_mcp.Server.Route.{System, Call, Stop, panicked, route, session_for, Known}
use repl_mcp.Json.{Value, Fields, object}
use repl_mcp.Sessions.{SessionManager}
use repl_mcp.Server.Envelope.{Printing, answer, Response, Identity, IsResult}
use repl_mcp.Base.{String, Result, Option, Bool, ℕ, err, ok, some, none}

-- The components behind the server, with their state. A call of them that panics has no result.
pub record Backend (S : Type 0) : Type 0 where
  pub manager : S → SessionManager
  pub perform : Call → S → Option (Result String Value) × S
  pub server_id : String
  pub generation : String → S → ℕ

module _ {S : Type 0} (sys : System) (printing : Printing) (backend : Backend S) where
  abbrev pub identity_at : S → Result Stop (Option Known) → Option Identity
  identity_at after (ok (some k)) = some (record {
    server_id = backend.server_id;
    session_id = k.id;
    generation = backend.generation k.id after;
  })
  identity_at after _ = none

  -- The marks of the session, read when the call has been made.
  abbrev pub identity_of : String → Fields → S → S → Option Identity
  identity_of name fields s after =
      identity_at after (session_for name (object fields) (backend.manager s))

  abbrev pub or_panic : Option Response → Result Stop Response
  or_panic none = err panicked
  or_panic (some r) = ok r

  abbrev pub respond :
      String → Fields → S → Option (Result String Value) × S → Result Stop Response × S
  respond name fields s (none, after) = (err panicked, after)
  respond name fields s (some result, after) =
      (or_panic (answer printing (identity_of name fields s after) result), after)

  abbrev pub after_route : String → Fields → S → Result Stop Call → Result Stop Response × S
  after_route name fields s (err stop) = (err stop, s)
  after_route name fields s (ok call) = respond name fields s (backend.perform call s)

  -- ServerHandler::call_tool
  unfoldable pub call_tool : String → Fields → Bool → S → Result Stop Response × S
  unfolding route answer
  call_tool name fields latest s =
      after_route name fields s (route sys name fields latest (backend.manager s))
