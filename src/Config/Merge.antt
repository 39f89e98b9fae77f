-- ===== src/Config/Merge.antt =====
-- `merge` and `record_excluded` of native/src/config.rs: one registry's entries into the servers.
use Prim.Native.String.{len}
pub mod Overlay
pub mod Origin
use repl_mcp.Config.Types.{Env, ServerConfig}
use repl_mcp.Base.{
  String, Bool, Option, ltb, some, Result, ◌||◌, if◌then◌else◌, refuse_if, none, ok, ◌&&◌, err,
  false, not, ◌>>=◌, string_eq, ◌>>◌, ok_or,
}
use repl_mcp.Json.{Value, Fields, and_then, field, as_bool, object, end}
use repl_mcp.Base.Map.{Map, insert, remove}
use repl_mcp.Config.Expand.{ConfigError, is_empty, bad_name, not_an_object, bad_entry}
use repl_mcp.Config.Normal.{normalize}

-- entry.get("brokerAllowed").and_then(Value::as_bool) != Some(true), and so for "disabled"
abbrev pub says : String → Value → Bool
says key entry = elim (and_then (repl_mcp.Json.get key entry) as_bool) [ none ↦ false | some b ↦ b ]

module _ (env : Env) where
  unfoldable pub is_bad_name : String → Bool
  is_bad_name name = ltb 200 (len name) || (is_empty name || env.has_control name)

  -- The end of the loop's body: nothing, or an insert.
  abbrev pub put_server :
      String → Map String ServerConfig → Option ServerConfig → Map String ServerConfig
  put_server name out none = out
  put_server name out (some cfg) = insert name cfg out

  -- An entry that is not passed over.
  unfoldable pub merge_config :
      String
      → String
      → ServerConfig
      → Map String ServerConfig
      → Result ConfigError (Map String ServerConfig)
  merge_config base name cfg out =
      if cfg.disabled
      then ok (remove name out)
      else normalize env base cfg >>= λ c. ok (put_server name out c)

  -- The body of the loop.
  unfoldable pub merge_entry :
      Bool
      → String
      → String
      → Value
      → Map String ServerConfig
      → Result ConfigError (Map String ServerConfig)
  unfolding merge_config is_bad_name
  merge_entry foreign base name entry out =
      refuse_if (is_bad_name name) bad_name
      >> (if foreign && not (says "brokerAllowed" entry)
          then ok out
          else ok_or (env.from_value entry) bad_entry >>= λ cfg. merge_config base name cfg out)

  unfoldable pub merge_fields :
      Bool
      → String
      → Fields
      → Map String ServerConfig
      → Result ConfigError (Map String ServerConfig)
  unfolding merge_entry
  merge_fields foreign base end out = ok out
  merge_fields foreign base (field name entry rest) out =
      merge_entry foreign base name entry out >>= merge_fields foreign base rest

  unfoldable pub merge :
      Bool
      → String
      → Option Value
      → Map String ServerConfig
      → Result ConfigError (Map String ServerConfig)
  unfolding merge_fields
  merge foreign base none out = ok out
  merge foreign base (some (object fields)) out = merge_fields foreign base fields out
  merge foreign base (some _) out = err not_an_object

unfoldable pub exclude_fields : Bool → Fields → Map String String → Map String String
exclude_fields foreign end out = out
exclude_fields foreign (field name entry rest) out = exclude_fields foreign rest (
    if foreign && not (says "brokerAllowed" entry)
    then insert name "not_granted" out
    else if says "disabled" entry
    then insert name "disabled" out
    else remove name out)

unfoldable pub record_excluded : Bool → Option Value → Map String String → Map String String
unfolding exclude_fields
record_excluded foreign (some (object fields)) out = exclude_fields foreign fields out
record_excluded foreign _ out = out
