-- ===== src/Server/Tools/Outputs.antt =====
-- The output schemas of `build_tools` (native/src/server.rs).
use repl_mcp.Json.{Value, obj, str, strs, arr, bool, unsigned, object, end}
use repl_mcp.Base.{◌∷◌, [], true}

abbrev pub execute_output : Value
execute_output = obj (
    ("type", str "object")
    ∷ (
      "required",
      strs (
          "run_id" ∷ "success" ∷ "stdout" ∷ "stderr" ∷ "return_value" ∷ "error" ∷ "elapsed_ms"
          ∷ "truncated" ∷ "state" ∷ []),
    )
    ∷ (
      "properties",
      obj (
          ("run_id", obj (("type", str "string") ∷ []))
          ∷ ("success", obj (("type", str "boolean") ∷ []))
          ∷ ("stdout", obj (("type", str "string") ∷ []))
          ∷ ("stderr", obj (("type", str "string") ∷ []))
          ∷ ("return_value", object end)
          ∷ ("error", obj (("type", strs ("string" ∷ "null" ∷ [])) ∷ []))
          ∷ ("elapsed_ms", obj (("type", str "number") ∷ []))
          ∷ ("truncated", obj (("type", str "object") ∷ []))
          ∷ ("state", obj (("enum", strs ("preserved" ∷ "cleared" ∷ [])) ∷ []))
          ∷ []),
    )
    ∷ [])

abbrev pub start_output : Value
start_output = obj (
    ("type", str "object")
    ∷ (
      "oneOf",
      arr (
          obj (
            ("required", strs ("run_id" ∷ "session_id" ∷ "status" ∷ []))
            ∷ (
              "properties",
              obj (
                  ("run_id", obj (("type", str "string") ∷ []))
                  ∷ ("session_id", obj (("type", str "string") ∷ []))
                  ∷ ("status", obj (("enum", strs ("starting" ∷ [])) ∷ []))
                  ∷ []),
            )
            ∷ [])
          ∷ obj (
              ("required", strs ("error" ∷ []))
              ∷ ("properties", obj (("error", obj (("type", str "string") ∷ [])) ∷ []))
              ∷ [])
          ∷ []),
    )
    ∷ [])

abbrev pub health_output : Value
health_output = obj (
    ("type", str "object")
    ∷ ("required", strs ("server" ∷ "broker" ∷ []))
    ∷ (
      "properties",
      obj (
          ("server", obj (("type", str "object") ∷ []))
          ∷ ("broker", obj (("type", str "object") ∷ []))
          ∷ []),
    )
    ∷ [])

abbrev pub run_output : Value
run_output = obj (
    ("type", str "object")
    ∷ (
      "oneOf",
      arr (
          obj (
            ("required", strs ("run_id" ∷ "status" ∷ []))
            ∷ (
              "properties",
              obj (
                  ("run_id", obj (("type", str "string") ∷ []))
                  ∷ ("status", obj (("enum", strs ("starting" ∷ "running" ∷ [])) ∷ []))
                  ∷ []),
            )
            ∷ [])
          ∷ obj (
              ("required", strs ("run_id" ∷ "success" ∷ []))
              ∷ (
                "properties",
                obj (
                    ("run_id", obj (("type", str "string") ∷ []))
                    ∷ ("success", obj (("type", str "boolean") ∷ []))
                    ∷ []),
              )
              ∷ [])
          ∷ obj (
              ("required", strs ("error" ∷ []))
              ∷ ("not", obj (("required", strs ("success" ∷ [])) ∷ []))
              ∷ ("properties", obj (("error", obj (("type", str "string") ∷ [])) ∷ []))
              ∷ [])
          ∷ []),
    )
    ∷ [])

abbrev pub cancel_output : Value
cancel_output = obj (
    ("type", str "object")
    ∷ ("required", strs ("cancel_requested" ∷ []))
    ∷ (
      "properties",
      obj (
          ("cancel_requested", obj (("type", str "boolean") ∷ []))
          ∷ ("run_id", obj (("type", str "string") ∷ []))
          ∷ ("error", obj (("type", str "string") ∷ []))
          ∷ []),
    )
    ∷ [])

abbrev pub reference : Value
reference = obj (
    ("type", str "object")
    ∷ ("required", strs ("id" ∷ "size" ∷ "format" ∷ "sha256" ∷ "lifetime" ∷ "eviction" ∷ []))
    ∷ (
      "properties",
      obj (
          ("id", obj (("type", str "string") ∷ []))
          ∷ ("size", obj (("type", str "integer") ∷ ("minimum", unsigned 0) ∷ []))
          ∷ ("format", obj (("enum", strs ("json" ∷ "text" ∷ "binary" ∷ [])) ∷ []))
          ∷ ("sha256", obj (("type", str "string") ∷ []))
          ∷ ("lifetime", obj (("enum", strs ("server" ∷ [])) ∷ []))
          ∷ ("eviction", obj (("enum", strs ("oldest-first" ∷ [])) ∷ []))
          ∷ []),
    )
    ∷ [])

abbrev pub metadata : Value
metadata = obj (
    (
      "required",
      strs ("server_id" ∷ "session_id" ∷ "generation" ∷ "environment" ∷ "project" ∷ "name" ∷ []),
    )
    ∷ (
      "properties",
      obj (
          ("server_id", obj (("type", str "string") ∷ []))
          ∷ ("session_id", obj (("type", str "string") ∷ []))
          ∷ ("generation", obj (("type", str "integer") ∷ ("minimum", unsigned 0) ∷ []))
          ∷ ("environment", obj (("type", str "object") ∷ []))
          ∷ ("project", obj (("type", str "string") ∷ []))
          ∷ ("name", obj (("type", str "string") ∷ []))
          ∷ ("namespace", obj (("type", str "object") ∷ []))
          ∷ []),
    )
    ∷ [])

abbrev pub listed : Value
listed = obj (
    ("required", strs ("server_id" ∷ "sessions" ∷ []))
    ∷ (
      "properties",
      obj (
          ("server_id", obj (("type", str "string") ∷ []))
          ∷ (
            "sessions",
            obj (
                ("type", str "array")
                ∷ (
                  "items",
                  obj (
                      ("type", str "object")
                      ∷ (
                        "required",
                        strs
                            ("session_id" ∷ "generation" ∷ "environment" ∷ "project" ∷ "name" ∷ []),
                      )
                      ∷ []),
                )
                ∷ []),
          )
          ∷ ("limit", obj (("type", str "integer") ∷ []))
          ∷ []),
    )
    ∷ [])

abbrev pub closed : Value
closed = obj (
    ("required", strs ("closed" ∷ "server_id" ∷ "session_id" ∷ "generation" ∷ []))
    ∷ (
      "properties",
      obj (
          ("closed", obj (("const", bool true) ∷ []))
          ∷ ("server_id", obj (("type", str "string") ∷ []))
          ∷ ("session_id", obj (("type", str "string") ∷ []))
          ∷ ("generation", obj (("type", str "integer") ∷ []))
          ∷ []),
    )
    ∷ [])

abbrev pub page : Value
page = obj (
    ("required", strs ("artifact" ∷ "offset" ∷ "length" ∷ "encoding" ∷ "content" ∷ "has_more" ∷ []))
    ∷ (
      "properties",
      obj (
          ("artifact", reference)
          ∷ ("offset", obj (("type", str "integer") ∷ ("minimum", unsigned 0) ∷ []))
          ∷ ("length", obj (("type", str "integer") ∷ ("minimum", unsigned 0) ∷ []))
          ∷ ("encoding", obj (("enum", strs ("text" ∷ "base64" ∷ "hex" ∷ [])) ∷ []))
          ∷ ("content", obj (("type", str "string") ∷ []))
          ∷ ("has_more", obj (("type", str "boolean") ∷ []))
          ∷ []),
    )
    ∷ [])

abbrev pub saved : Value
saved = obj (
    ("required", strs ("artifact" ∷ "saved" ∷ "path" ∷ []))
    ∷ (
      "properties",
      obj (
          ("artifact", reference)
          ∷ ("saved", obj (("const", bool true) ∷ []))
          ∷ ("path", obj (("type", str "string") ∷ []))
          ∷ []),
    )
    ∷ [])

abbrev pub deleted : Value
deleted = obj (
    ("required", strs ("id" ∷ "deleted" ∷ []))
    ∷ (
      "properties",
      obj (
          ("id", obj (("type", str "string") ∷ []))
          ∷ ("deleted", obj (("const", bool true) ∷ []))
          ∷ []),
    )
    ∷ [])

abbrev pub forwarded : Value
forwarded = obj (
    ("required", strs ("content" ∷ []))
    ∷ (
      "properties",
      obj (
          ("content", obj (("type", str "array") ∷ []))
          ∷ ("structuredContent", obj (("type", str "object") ∷ []))
          ∷ ("isError", obj (("type", str "boolean") ∷ []))
          ∷ ("_meta", obj (("type", str "object") ∷ []))
          ∷ []),
    )
    ∷ [])
