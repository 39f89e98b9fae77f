-- ===== src/Broker/Validate.antt =====
-- `validate` of native/src/broker.rs: the schema of a tool, its cached validator, and the arguments.
-- The blocking jobs are taken to end in time.
use repl_mcp.Base.{
  if◌then◌else◌, Option, String, Result, leb, Bool, ℕ, length, err, some, [], refuse_if, not, none,
  ◌>>◌, ok, string_eq,
}
use repl_mcp.Json.{Value}
use repl_mcp.Base.Map.{Map, insert, get}
use repl_mcp.Broker.Transports.{Fault, invalid}
use repl_mcp.Broker.Budget.{Excess, bounded_json}

-- Functions of other crates: serde_json's lengths and text, and jsonschema's compilation.
pub record Schemas : Type 0 where
  pub byte_len : String → ℕ
  pub size : Value → ℕ
  pub to_text : Value → Option String
  pub compile : Value → Option (Value → Bool)

abbrev pub Validators : Type 0
Validators = Map String (Value → Bool)

-- validators.clear() when there are 1024
abbrev pub make_room : Validators → Validators
make_room vs = if leb 1024 (length vs) then [] else vs

abbrev pub conclude : (Value → Bool) → Value → Validators → Result Fault (Unit {0}) × Validators
conclude is_valid arguments vs = (refuse_if (not (is_valid arguments)) invalid, vs)

module _ (s : Schemas) where
  -- bounded_json of the schema and of the arguments, and the schema's text.
  unfoldable pub bounded_schema : Value → Value → Result Excess (Unit {0})
  bounded_schema schema arguments =
      bounded_json s.byte_len 32 2048 s.size 65536 schema
      >> bounded_json s.byte_len 64 16384 s.size 262144 arguments

  abbrev pub compiled :
      String → Option (Value → Bool) → Value → Validators → Result Fault (Unit {0}) × Validators
  compiled key none arguments vs = (err invalid, vs)
  compiled key (some is_valid) arguments vs =
      conclude is_valid arguments (insert key is_valid (make_room vs))

  abbrev pub cached :
      Value
      → String
      → Option (Value → Bool)
      → Value
      → Validators
      → Result Fault (Unit {0}) × Validators
  cached schema key none arguments vs = compiled key (s.compile schema) arguments vs
  cached schema key (some is_valid) arguments vs = conclude is_valid arguments vs

  abbrev pub keyed :
      Value
      → Result Excess (Unit {0})
      → Option String
      → Value
      → Validators
      → Result Fault (Unit {0}) × Validators
  keyed schema (err e) key arguments vs = (err invalid, vs)
  keyed schema (ok u) none arguments vs = (err invalid, vs)
  keyed schema (ok u) (some key) arguments vs = cached schema key (get key vs) arguments vs

  unfoldable pub validate : Option Value → Value → Validators → Result Fault (Unit {0}) × Validators
  unfolding bounded_schema
  validate none arguments vs = (err invalid, vs)
  validate (some schema) arguments vs =
      keyed schema (bounded_schema schema arguments) (s.to_text schema) arguments vs
