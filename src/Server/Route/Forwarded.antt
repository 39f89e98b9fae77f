-- ===== src/Server/Route/Forwarded.antt =====
-- A forwarding from the tool artifact_forward (native/src/server.rs) and one from a cell
-- (`forward_artifact` of native/src/supervisor.rs).
use repl_mcp.Json.{Value, Fields, object, get, get_str, str, end, put_field}
use repl_mcp.Base.{
  String, ◌≡◌, some, Result, ok, refl, true, Bool, sym, ◌∙◌, ok-chain, refuse_if, subst, ap, arith,
  not,
}
use repl_mcp.Supervisor.Forward.{forward_request, call_params}
use repl_mcp.Server.Route.{
  forwarded_params, forwarded_arguments, System, route, get_tool, Call, refused, invalid_arguments,
}
use repl_mcp.Config.Normal.{or_else}
use repl_mcp.Server.Route.Schema.{IsValidator, requires, type_of}
use repl_mcp.Sessions.{SessionManager}
use repl_mcp.Server.Route.Safe.{not_refused}
use repl_mcp.Server.Route.Total.{given_fields, text_given}

-- The arguments hold the texts that a forwarding reads, and `arguments` is an object.
abbrev Texts : Fields → Fields → Type 0
Texts fields inner =
    ((id : String) × (get_str "id" (object fields) ≡ some id))
    × ((argument : String) × (get_str "argument" (object fields) ≡ some argument))
    × ((server : String) × (get "server" (object fields) ≡ some (str server)))
    × ((tool : String) × (get "tool" (object fields) ≡ some (str tool)))
    × (or_else (get "arguments" (object fields)) (object end) ≡ object inner)

forwarded_same :
    (sys : System) (payload : String → String → Result String Value) (fields inner : Fields)
    (v : Value)
    → (t : Texts fields inner)
    → payload t.0.0 (or_else (get_str "format" (object fields)) "json") ≡ ok v
    → (sent : Value) × (forward_request payload (object fields) ≡ ok sent)
      × (forwarded_params sys v (object fields) ≡ ok sent)
unfolding forward_request forwarded_params forwarded_arguments
forwarded_same sys payload fields inner v ((id, i), (argument, a), (server, s), (tool, t), whole)
      found =
    (
      call_params (str server) (str tool) (object (put_field argument v inner)),
      simp (i, a, s, t, whole, found) refl,
      simp (a, s, t, whole) refl,
    )

module _ (sys : System) (valid : IsValidator sys.validates) (fields : Fields) where
  -- A required text is there, as a value.
  value_given :
      (schema : Value) (key : String)
      → sys.validates schema (object fields) ≡ true
      → requires key schema ≡ true
      → type_of key schema ≡ some "string"
      → (s : String) × (get key (object fields) ≡ some (str s))
  value_given schema key accepted required typed =
      let (v, there) = valid.present schema fields key accepted required in
      let (s, e) = valid.is_text schema fields key v accepted typed there in
      (s, there ∙ ap (λ (w : Value). some w) e)

  forward_accepted :
      (latest : Bool) (m : SessionManager) (call : Call)
      → route sys "artifact_forward" fields latest m ≡ ok call
      → (inner : Fields) × Texts fields inner
  unfolding route get_tool
  forward_accepted latest m call h =
      let (u, _, checked) =
        ok-chain _ (refuse_if (not (sys.validates _ (object fields))) (refused invalid_arguments))
          call h in
      let accepted = not_refused _ _ u checked in
      let (inner, whole) =
        given_fields (get "arguments" (object fields))
          (λ v there. valid.has_fields _ fields "arguments" v accepted refl there) in
      (
        inner,
        (
          text_given sys valid fields _ "id" accepted refl refl,
          text_given sys valid fields _ "argument" accepted refl refl,
          value_given _ "server" accepted refl refl,
          value_given _ "tool" accepted refl refl,
          whole,
        ),
      )

  -- When the server routes a forwarding whose artifact has a payload, a cell that forwards with the same
  -- arguments asks the broker for the same call: the same server and tool, and the given arguments with
  -- the payload under the given name. Neither panics or is refused.
  pub forward_request_lem :
      (payload : String → String → Result String Value) (latest : Bool) (m : SessionManager)
      (call : Call) (id : String) (v : Value)
      → route sys "artifact_forward" fields latest m ≡ ok call
      → get_str "id" (object fields) ≡ some id
      → payload id (or_else (get_str "format" (object fields)) "json") ≡ ok v
      → (sent : Value) × (forward_request payload (object fields) ≡ ok sent)
        × (forwarded_params sys v (object fields) ≡ ok sent)
  forward_request_lem payload latest m call id v routed named found =
      let (inner, texts) = forward_accepted latest m call routed in
      let same : some id ≡ some texts.0.0 = sym named ∙ texts.0.1 in
      forwarded_same sys payload fields inner v texts (
        subst (λ i. payload i (or_else (get_str "format" (object fields)) "json") ≡ ok v)
          (ground (arith, same)) found)
