-- ===== src/Server/Route.antt =====
-- `call_tool` of native/src/server.rs up to the call of the component that answers, with a panic as
-- an error of its own. The validator of jsonschema and the paths of std are parameters.
pub mod Schema
pub mod Safe
pub mod Sound
pub mod Total
pub mod Forwarded
use repl_mcp.Sessions.Prepare.{Error}
use repl_mcp.Json.{
  Value, get, get_str, unsigned, Fields, and_then, as_u64, set_field, as_bool, str, object, number,
  array, end, nil, obj, null,
}
use repl_mcp.Base.{
  Result, Bool, String, Option, ◌>>=◌, ◌&&◌, if◌then◌else◌, not, ◌>>◌, ◌==◌, ℕ, ok_or, false, some,
  ◌||◌, find, refuse_if, ok, string_eq, true, err, none, ◌∷◌, [],
}
use repl_mcp.Config.Normal.{is_some, or_else}
use repl_mcp.Server.Tools.{Tool, build_tools}
use repl_mcp.Sessions.{SessionManager, get_session}

-- The messages of ErrorData::invalid_params.
pub data Refusal : Type 0 where
  unknown_tool invalid_arguments no_session_id bad_generation : Refusal
  bad_u64 : String → Refusal
  bad_session : Error → Refusal

pub data Stop : Type 0 where
  refused : Refusal → Stop
  panicked : Stop

-- Option::unwrap
abbrev pub unwrap : {A : Type 0} → Option A → Result Stop A
unwrap o = ok_or o panicked

-- What is read of jsonschema::validate (schema, then instance), Path::is_absolute and Path::join. A
-- joined path that is not UTF-8, for a project directory that is not, is none: it has no JSON, and
-- `json!` of it panics.
pub record System : Type 0 where
  pub validates : Value → Value → Bool
  pub is_absolute : String → Bool
  pub join : String → String → Option String

-- The session of a call.
pub record Known : Type 0 where
  pub id : String
  pub project : String

-- An Execution; no timeout is 120 seconds, and `source_path` and `argv` are in `extra`, beside
-- artifact_enabled.
pub record Run : Type 0 where
  pub code : String
  pub reset : Bool
  pub timeout : Option Value
  pub expected_generation : Option ℕ
  pub source_path : Option String
  pub argv : Option Value
  pub fresh : Bool

-- The call of a component, with the session that it is made for.
pub data Call : Type 0 where
  opening : String → String → Option String → Call
  closing : String → Call
  listing health : Call
  inspecting : Option String → Bool → Call
  starting executing : Known → Run → Call
  finding cancelling : Known → Option String → Call
  -- The artifact, its format, and the arguments of the call.
  forwarding : Known → String → String → Value → Call
  -- Artifacts::dispatch of an operation with its params.
  storing : Known → String → Value → Call

-- Value::as_f64
abbrev pub as_number : Value → Option Value
as_number (unsigned n) = some (unsigned n)
as_number (number n) = some (number n)
as_number _ = none

-- args.get(field).is_some() && args[field].as_u64().is_none()
abbrev pub is_bad_u64 : String → Value → Bool
is_bad_u64 key args = is_some (get key args) && not (is_some (and_then (get key args) as_u64))

abbrev pub has_text : String → String → Value → Bool
has_text key text args = elim (get_str key args) [ none ↦ false | some t ↦ t == text ]

abbrev pub flag : String → Value → Bool
flag key args = or_else (and_then (get key args) as_bool) false

abbrev pub is_routed : String → Bool
is_routed name = not (
    name == "python_session_open"
    || (name == "python_session_close"
        || (name == "python_session_list" || name == "python_health")))

-- get_tool
unfoldable pub get_tool : String → Option Tool
get_tool name = find (λ (t : Tool). t.name == name) build_tools

-- The session id that is given, or the default session's.
abbrev pub session_key : Option String → SessionManager → String
session_key none m = m.default_id
session_key (some id) m = id

unfoldable pub session_for : String → Value → SessionManager → Result Stop (Option Known)
session_for name args m =
    if is_routed name
    then elim (get_session (get_str "session_id" args) m) [
      | err e ↦ err (refused (bad_session e))
      | ok s ↦
          ok (some (record { id = session_key (get_str "session_id" args) m; project = s.project }))
    ]
    else ok none

module _ (sys : System) where
  -- A path of the arguments, below the session's project unless it is absolute, as `json!` has it.
  abbrev pub resolve : Known → String → Option String
  resolve session path = if sys.is_absolute path then some path else sys.join session.project path

  abbrev pub open_call : Value → Result Stop Call
  open_call args = do
    name ← unwrap (get_str "name" args)
    project ← unwrap (get_str "project" args)
    ok (opening name project (get_str "python" args))

  abbrev pub close_call : Value → Result Stop Call
  close_call args = do id ← unwrap (get_str "session_id" args); ok (closing id)

  abbrev pub code_of : Value → Run
  code_of args = record {
    code = or_else (get_str "code" args) "";
    reset = flag "reset" args;
    timeout = and_then (get "timeout" args) as_number;
    expected_generation = and_then (get "expected_generation" args) as_u64;
    source_path = none;
    argv = none;
    fresh = false;
  }

  abbrev pub code_call : (Known → Run → Call) → Option Known → Value → Result Stop Call
  code_call call session args = do s ← unwrap session; ok (call s (code_of args))

  abbrev pub file_call : Option Known → Value → Result Stop Call
  file_call session args = do
    s ← unwrap session
    path ← unwrap (get_str "path" args)
    whole ← unwrap (resolve s path)
    ok (
        executing s (record (code_of args) {
          source_path = some whole;
          argv = some (or_else (get "argv" args) (array nil));
          fresh = has_text "mode" "fresh" args;
        }))

  abbrev pub run_call : (Known → Option String → Call) → Option Known → Value → Result Stop Call
  run_call call session args = do s ← unwrap session; ok (call s (get_str "run_id" args))

  abbrev pub forward_call : Option Known → Value → Result Stop Call
  forward_call session args = do
    s ← unwrap session
    id ← unwrap (get_str "id" args)
    ok (forwarding s id (or_else (get_str "format" args) "json") args)

  abbrev pub store_call : String → Option Known → Value → Result Stop Call
  store_call op session args = do s ← unwrap session; ok (storing s op args)

  -- The operations that take a path.
  abbrev pub path_call : String → Option Known → Value → Result Stop Call
  path_call op session args = do
    s ← unwrap session
    path ← unwrap (get_str "path" args)
    whole ← unwrap (resolve s path)
    params ← unwrap (set_field "path" (str whole) args)
    ok (storing s op (if sys.is_absolute path then args else params))

  -- The match on the name; its last arm is unreachable!().
  unfoldable pub call_of : String → Option Known → Value → Result Stop Call
  call_of name session args =
      if name == "python_session_open"
      then open_call args
      else if name == "python_session_close"
      then close_call args
      else if name == "python_session_list"
      then ok listing
      else if name == "python_session_inspect"
      then ok (inspecting (get_str "session_id" args) (flag "include_namespace" args))
      else if name == "python_health"
      then ok health
      else if name == "python_start"
      then code_call starting session args
      else if name == "execute_python"
      then code_call executing session args
      else if name == "python_execute_file"
      then file_call session args
      else if name == "python_run"
      then run_call finding session args
      else if name == "python_cancel"
      then run_call cancelling session args
      else if name == "artifact_forward"
      then forward_call session args
      else if name == "artifact_create"
      then path_call "artifact.create" session args
      else if name == "artifact_read"
      then store_call "artifact.read" session args
      else if name == "artifact_save"
      then path_call "artifact.save" session args
      else if name == "artifact_delete"
      then store_call "artifact.drop" session args
      else err panicked

  -- The clients of the latest protocol keep no state between requests.
  abbrev pub lacks_session : String → Bool → Value → Bool
  lacks_session name latest args =
      (name == "execute_python" || name == "python_start")
      && (latest && not (is_some (get_str "session_id" args)))

  -- The arguments are an object; `latest` is whether the request's protocol is 2026-07-28.
  unfoldable pub route : String → Fields → Bool → SessionManager → Result Stop Call
  route name fields latest m = do
    tool ← ok_or (get_tool name) (refused unknown_tool)
    refuse_if (not (sys.validates tool.input_schema (object fields))) (refused invalid_arguments)
    refuse_if (lacks_session name latest (object fields)) (refused no_session_id)
    refuse_if (is_bad_u64 "expected_generation" (object fields)) (refused bad_generation)
    refuse_if (is_bad_u64 "offset" (object fields)) (refused (bad_u64 "offset"))
    refuse_if (is_bad_u64 "length" (object fields)) (refused (bad_u64 "length"))
    session ← session_for name (object fields) m
    call_of name session (object fields)

  -- What is forwarded: the arguments with the payload of the artifact under the name of one.
  unfoldable pub forwarded_arguments : Value → Value → Result Stop Value
  forwarded_arguments payload args = do
    argument ← unwrap (get_str "argument" args)
    unwrap (set_field argument payload (or_else (get "arguments" args) (object end)))

  -- The params of the broker's call for a forwarding, when the payload is there.
  unfoldable pub forwarded_params : Value → Value → Result Stop Value
  unfolding forwarded_arguments
  forwarded_params payload args = do
    arguments ← forwarded_arguments payload args
    ok (
        obj (
          ("server", or_else (get "server" args) null)
          ∷ ("tool", or_else (get "tool" args) null)
          ∷ ("arguments", arguments)
          ∷ []))
