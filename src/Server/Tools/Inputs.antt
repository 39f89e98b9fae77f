-- ===== src/Server/Tools/Inputs.antt =====
-- The input schemas of `build_tools` (native/src/server.rs).
-- 0.01, the least timeout.
use repl_mcp.Json.{Value, obj, number, str, bool, strs, unsigned, object, end}
use repl_mcp.Base.{◌∷◌, [], false}

abbrev pub one_hundredth : Value
one_hundredth = number 0

abbrev pub execute_input : Value
execute_input = obj (
    ("type", str "object")
    ∷ ("required", strs ("code" ∷ []))
    ∷ ("additionalProperties", bool false)
    ∷ (
      "properties",
      obj (
          (
            "session_id",
            obj (
                ("type", str "string")
                ∷ (
                  "description",
                  str
                      "Get from python_health.server.session_id; required for MCP 2026-07-28 stateless requests",
                )
                ∷ []),
          )
          ∷ ("code", obj (("type", str "string") ∷ ("maxLength", unsigned 262144) ∷ []))
          ∷ (
            "expected_generation",
            obj (
                ("type", str "integer")
                ∷ ("minimum", unsigned 0)
                ∷ (
                  "description",
                  str "Reject STATE_CHANGED before executing code if Python state changed",
                )
                ∷ []),
          )
          ∷ ("reset", obj (("type", str "boolean") ∷ ("default", bool false) ∷ []))
          ∷ (
            "timeout",
            obj (
                ("type", str "number")
                ∷ ("minimum", one_hundredth)
                ∷ ("maximum", unsigned 3600)
                ∷ ("default", unsigned 120)
                ∷ []),
          )
          ∷ []),
    )
    ∷ [])

abbrev pub health_input : Value
health_input = obj (
    ("type", str "object") ∷ ("additionalProperties", bool false) ∷ ("properties", object end) ∷ [])

abbrev pub run_input : Value
run_input = obj (
    ("type", str "object")
    ∷ ("additionalProperties", bool false)
    ∷ (
      "properties",
      obj (
          ("session_id", obj (("type", str "string") ∷ []))
          ∷ ("run_id", obj (("type", str "string") ∷ []))
          ∷ []),
    )
    ∷ [])

abbrev pub cancel_input : Value
cancel_input = obj (
    ("type", str "object")
    ∷ ("additionalProperties", bool false)
    ∷ (
      "properties",
      obj (
          ("session_id", obj (("type", str "string") ∷ []))
          ∷ ("run_id", obj (("type", str "string") ∷ []))
          ∷ []),
    )
    ∷ [])

abbrev pub open_input : Value
open_input = obj (
    ("type", str "object")
    ∷ ("required", strs ("name" ∷ "project" ∷ []))
    ∷ ("additionalProperties", bool false)
    ∷ (
      "properties",
      obj (
          (
            "name",
            obj (
                ("type", str "string")
                ∷ ("minLength", unsigned 1)
                ∷ ("maxLength", unsigned 128)
                ∷ []),
          )
          ∷ ("project", obj (("type", str "string") ∷ []))
          ∷ ("python", obj (("type", str "string") ∷ []))
          ∷ []),
    )
    ∷ [])

abbrev pub close_input : Value
close_input = obj (
    ("type", str "object")
    ∷ ("required", strs ("session_id" ∷ []))
    ∷ ("additionalProperties", bool false)
    ∷ ("properties", obj (("session_id", obj (("type", str "string") ∷ [])) ∷ []))
    ∷ [])

abbrev pub list_input : Value
list_input = obj (
    ("type", str "object") ∷ ("additionalProperties", bool false) ∷ ("properties", object end) ∷ [])

abbrev pub inspect_input : Value
inspect_input = obj (
    ("type", str "object")
    ∷ ("additionalProperties", bool false)
    ∷ (
      "properties",
      obj (
          ("session_id", obj (("type", str "string") ∷ []))
          ∷ ("include_namespace", obj (("type", str "boolean") ∷ ("default", bool false) ∷ []))
          ∷ []),
    )
    ∷ [])

abbrev pub file_input : Value
file_input = obj (
    ("type", str "object")
    ∷ ("required", strs ("session_id" ∷ "path" ∷ []))
    ∷ ("additionalProperties", bool false)
    ∷ (
      "properties",
      obj (
          ("session_id", obj (("type", str "string") ∷ []))
          ∷ ("path", obj (("type", str "string") ∷ []))
          ∷ (
            "argv",
            obj (
                ("type", str "array")
                ∷ ("maxItems", unsigned 128)
                ∷ ("items", obj (("type", str "string") ∷ []))
                ∷ []),
          )
          ∷ (
            "mode",
            obj (("enum", strs ("persistent" ∷ "fresh" ∷ [])) ∷ ("default", str "persistent") ∷ []),
          )
          ∷ (
            "timeout",
            obj (
                ("type", str "number")
                ∷ ("minimum", one_hundredth)
                ∷ ("maximum", unsigned 3600)
                ∷ ("default", unsigned 120)
                ∷ []),
          )
          ∷ ("expected_generation", obj (("type", str "integer") ∷ ("minimum", unsigned 0) ∷ []))
          ∷ []),
    )
    ∷ [])

abbrev pub create_input : Value
create_input = obj (
    ("type", str "object")
    ∷ ("required", strs ("session_id" ∷ "path" ∷ "format" ∷ []))
    ∷ ("additionalProperties", bool false)
    ∷ (
      "properties",
      obj (
          ("session_id", obj (("type", str "string") ∷ []))
          ∷ ("path", obj (("type", str "string") ∷ []))
          ∷ ("format", obj (("enum", strs ("json" ∷ "text" ∷ "binary" ∷ [])) ∷ []))
          ∷ []),
    )
    ∷ [])

abbrev pub read_input : Value
read_input = obj (
    ("type", str "object")
    ∷ ("required", strs ("session_id" ∷ "id" ∷ []))
    ∷ ("additionalProperties", bool false)
    ∷ (
      "properties",
      obj (
          ("session_id", obj (("type", str "string") ∷ []))
          ∷ ("id", obj (("type", str "string") ∷ []))
          ∷ (
            "offset",
            obj (("type", str "integer") ∷ ("minimum", unsigned 0) ∷ ("default", unsigned 0) ∷ []),
          )
          ∷ (
            "length",
            obj (
                ("type", str "integer")
                ∷ ("minimum", unsigned 0)
                ∷ ("maximum", unsigned 65536)
                ∷ ("default", unsigned 65536)
                ∷ []),
          )
          ∷ (
            "encoding",
            obj (("enum", strs ("text" ∷ "base64" ∷ "hex" ∷ [])) ∷ ("default", str "text") ∷ []),
          )
          ∷ []),
    )
    ∷ [])

abbrev pub save_input : Value
save_input = obj (
    ("type", str "object")
    ∷ ("required", strs ("session_id" ∷ "id" ∷ "path" ∷ []))
    ∷ ("additionalProperties", bool false)
    ∷ (
      "properties",
      obj (
          ("session_id", obj (("type", str "string") ∷ []))
          ∷ ("id", obj (("type", str "string") ∷ []))
          ∷ ("path", obj (("type", str "string") ∷ []))
          ∷ ("overwrite", obj (("type", str "boolean") ∷ ("default", bool false) ∷ []))
          ∷ []),
    )
    ∷ [])

abbrev pub delete_input : Value
delete_input = obj (
    ("type", str "object")
    ∷ ("required", strs ("session_id" ∷ "id" ∷ []))
    ∷ ("additionalProperties", bool false)
    ∷ (
      "properties",
      obj (
          ("session_id", obj (("type", str "string") ∷ []))
          ∷ ("id", obj (("type", str "string") ∷ []))
          ∷ []),
    )
    ∷ [])

abbrev pub forward_input : Value
forward_input = obj (
    ("type", str "object")
    ∷ ("required", strs ("session_id" ∷ "id" ∷ "server" ∷ "tool" ∷ "argument" ∷ []))
    ∷ ("additionalProperties", bool false)
    ∷ (
      "properties",
      obj (
          ("session_id", obj (("type", str "string") ∷ []))
          ∷ ("id", obj (("type", str "string") ∷ []))
          ∷ ("server", obj (("type", str "string") ∷ []))
          ∷ ("tool", obj (("type", str "string") ∷ []))
          ∷ ("argument", obj (("type", str "string") ∷ []))
          ∷ (
            "format",
            obj (("enum", strs ("json" ∷ "text" ∷ "base64" ∷ [])) ∷ ("default", str "json") ∷ []),
          )
          ∷ ("arguments", obj (("type", str "object") ∷ []))
          ∷ []),
    )
    ∷ [])
