-- ===== src/Server/Tools.antt =====
-- `build_tools` of native/src/server.rs, without the descriptions.
mod Inputs
mod Outputs
use repl_mcp.Json.{Value, obj, arr, strs, str, object, end}
use repl_mcp.Server.Tools.Outputs.{
  start_output, health_output, execute_output, run_output, cancel_output, metadata, listed, closed,
  reference, page, saved, deleted, forwarded,
}
use repl_mcp.Base.{
  String, Bool, List, true, false, ◌==◌, if◌then◌else◌, ◌∷◌, map, not, ◌||◌, [], string_eq,
}
use repl_mcp.Server.Tools.Inputs.{
  execute_input, run_input, cancel_input, health_input, open_input, close_input, list_input,
  inspect_input, file_input, create_input, read_input, save_input, delete_input, forward_input,
}

pub record Annotations : Type 0 where
  pub read_only : Bool
  pub destructive : Bool
  pub idempotent : Bool
  pub open_world : Bool

pub record Tool : Type 0 where
  pub name : String
  pub input_schema : Value
  pub output_schema : Value
  pub annotations : Annotations

abbrev writing : Annotations
writing = record { read_only = false; destructive = true; idempotent = false; open_world = true }

abbrev observing : Annotations
observing = record { read_only = true; destructive = false; idempotent = true; open_world = false }

abbrev execute : Tool
execute = record {
  name = "execute_python";
  input_schema = execute_input;
  output_schema = execute_output;
  annotations = writing;
}

-- execute.clone()
abbrev start : Tool
start = record execute { name = "python_start"; output_schema = start_output }

abbrev health : Tool
health = record {
  name = "python_health";
  input_schema = health_input;
  output_schema = health_output;
  annotations = observing;
}

abbrev run : Tool
run = record {
  name = "python_run";
  input_schema = run_input;
  output_schema = run_output;
  annotations = observing;
}

abbrev cancel : Tool
cancel = record {
  name = "python_cancel";
  input_schema = cancel_input;
  output_schema = cancel_output;
  annotations = writing;
}

abbrev definitions : List (String × Value)
definitions =
    ("python_session_open", open_input)
    ∷ ("python_session_close", close_input)
    ∷ ("python_session_list", list_input)
    ∷ ("python_session_inspect", inspect_input)
    ∷ ("python_execute_file", file_input)
    ∷ ("artifact_create", create_input)
    ∷ ("artifact_read", read_input)
    ∷ ("artifact_save", save_input)
    ∷ ("artifact_delete", delete_input)
    ∷ ("artifact_forward", forward_input)
    ∷ []

-- The schema of a tool's result when it succeeds.
abbrev success : String → Value
success name =
    if name == "python_session_open" || name == "python_session_inspect"
    then metadata
    else if name == "python_session_list"
    then listed
    else if name == "python_session_close"
    then closed
    else if name == "artifact_create"
    then reference
    else if name == "artifact_read"
    then page
    else if name == "artifact_save"
    then saved
    else if name == "artifact_delete"
    then deleted
    else if name == "artifact_forward"
    then forwarded
    else object end

abbrev only_reads : String → Bool
only_reads name =
    name == "python_session_list" || (name == "python_session_inspect" || name == "artifact_read")

-- {"type":"object","oneOf":[success,{"required":["error"],..}]}
abbrev or_error : Value → Value
or_error schema = obj (
    ("type", str "object")
    ∷ (
      "oneOf",
      arr (
          schema
          ∷ obj (
              ("required", strs ("error" ∷ []))
              ∷ ("properties", obj (("error", obj (("type", str "string") ∷ [])) ∷ []))
              ∷ [])
          ∷ []),
    )
    ∷ [])

-- A round of the loop over `definitions`.
abbrev define : String × Value → Tool
define (name, input) = record {
  name = name;
  input_schema = input;
  output_schema = if name == "python_execute_file" then execute_output else or_error (success name);
  annotations = record {
    read_only = only_reads name;
    destructive = not (only_reads name);
    idempotent = false;
    open_world = true;
  };
}

abbrev pub build_tools : List Tool
build_tools = execute ∷ start ∷ health ∷ run ∷ cancel ∷ map define definitions
