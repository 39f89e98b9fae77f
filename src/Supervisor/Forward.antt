-- ===== src/Supervisor/Forward.antt =====
-- `forward_artifact` of native/src/supervisor.rs, up to the call of the broker. The payload of an
-- artifact in a format is a parameter.
use repl_mcp.Json.{Value, get, get_str, obj, object, set_field, end, is_object, str}
use repl_mcp.Base.{Result, String, ◌∷◌, ◌>>=◌, err, ◌>>◌, ok_or, [], ok, refuse_if, not}
use repl_mcp.Config.Normal.{or_else}

pub data Refused : Type 0 where
  not_a_string : String → Refused
  no_payload : String → Refused
  bad_arguments : Refused

abbrev pub text_field : String → Value → Result Refused String
text_field key params = ok_or (get_str key params) (not_a_string key)

abbrev pub payload_or : Result String Value → Result Refused Value
payload_or (err e) = err (no_payload e)
payload_or (ok v) = ok v

-- arguments[argument] = payload, where the arguments are an object.
abbrev pub fill : String → Value → Value → Value
fill argument payload arguments = or_else (set_field argument payload arguments) arguments

-- json!({"server":..,"tool":..,"arguments":..})
abbrev pub call_params : Value → Value → Value → Value
call_params server tool arguments =
    obj (("server", server) ∷ ("tool", tool) ∷ ("arguments", arguments) ∷ [])

-- The params of the broker's call.
unfoldable pub forward_request :
    (String → String → Result String Value) → Value → Result Refused Value
forward_request payload params = do
  id ← text_field "id" params
  v ← payload_or (payload id (or_else (get_str "format" params) "json"))
  let arguments = or_else (get "arguments" params) (object end)
  refuse_if (not (is_object arguments)) bad_arguments
  argument ← text_field "argument" params
  server ← text_field "server" params
  tool ← text_field "tool" params
  ok (call_params (str server) (str tool) (fill argument v arguments))
