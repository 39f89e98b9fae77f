-- ===== src/Server/Route/Schema.antt =====
-- What the tools of native/src/server.rs rely on of JSON Schema.
use repl_mcp.Json.{Value, Fields, Items, get, and_then, object, get_str, array, cons, str, nil}
use repl_mcp.Base.{Option, String, Bool, some, ◌≡◌, false, true, ◌==◌, ◌||◌, string_eq}

-- The word is among the strings of an array.
abbrev pub has_item : String → Items → Bool
has_item word nil = false
has_item word (cons (str s) rest) = s == word || has_item word rest
has_item word (cons _ rest) = has_item word rest

abbrev pub has_word : String → Option Value → Bool
has_word word (some (array words)) = has_item word words
has_word word _ = false

-- schema["required"] names the key.
abbrev pub requires : String → Value → Bool
requires key schema = has_word key (get "required" schema)

-- schema["properties"][key]["type"]
abbrev pub type_of : String → Value → Option String
type_of key schema = and_then (and_then (get "properties" schema) (get key)) (get_str "type")

-- What JSON Schema promises of an object that is valid: `required`, and the types `string` and
-- `object` of its properties.
pub record IsValidator (validates : Value → Value → Bool) : Type 0 where
  pub present :
      (schema : Value) (fields : Fields) (key : String)
      → validates schema (object fields) ≡ true
      → requires key schema ≡ true
      → (v : Value) × (get key (object fields) ≡ some v)
  pub is_text :
      (schema : Value) (fields : Fields) (key : String) (v : Value)
      → validates schema (object fields) ≡ true
      → type_of key schema ≡ some "string"
      → get key (object fields) ≡ some v
      → (s : String) × (v ≡ str s)
  pub has_fields :
      (schema : Value) (fields : Fields) (key : String) (v : Value)
      → validates schema (object fields) ≡ true
      → type_of key schema ≡ some "object"
      → get key (object fields) ≡ some v
      → (inner : Fields) × (v ≡ object inner)
