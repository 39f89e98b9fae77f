-- ===== src/Config/Load.antt =====
-- `Registry::load_project`, `load_at`, `reload` and `read_document` of native/src/config.rs.
use repl_mcp.Config.Types.{missing, failing, special, file}
pub mod Granted
use repl_mcp.Config.Types.{Env, ServerConfig, Registry}
use repl_mcp.Base.{
  String, [], ℕ, Bool, Option, false, List, ◌==◌, some, Result, any, if◌then◌else◌, none, ◌∷◌,
  string_eq, ◌||◌, ok_or, ok, ◌>>=◌, true, ◌>>◌, refuse_if, not, err, ltb, length,
}
use repl_mcp.Base.Map.{Map}
use repl_mcp.Json.{Value, and_then}
use repl_mcp.Config.Normal.{or_else, is_some}
use repl_mcp.Config.Expand.{
  ConfigError, bad_project, no_home, no_servers, bad_scope, unreadable, not_regular, too_large,
  bad_json,
}
use repl_mcp.Config.Merge.{merge, record_excluded}

abbrev pub file_limit : ℕ
file_limit = 1048576

-- The two maps that the registries are merged into, and whether one was found.
pub record Loading : Type 0 where
  pub servers : Map String ServerConfig
  pub excluded : Map String String
  pub present : Bool

abbrev pub fresh : Loading
fresh = record { servers = []; excluded = []; present = false }

abbrev pub is_scope : String → Bool
is_scope s = s == "project" || (s == "user" || s == "local")

abbrev pub has_scope : String → List String → Bool
has_scope s scopes = any (λ t. t == s) scopes

module _ (env : Env) where
  unfoldable pub read_document : String → Bool → Result ConfigError (Option Value)
  read_document path required = elim (env.open_file path) [
    | missing ↦ if required then err unreadable else ok none
    | failing ↦ err unreadable
    | special ↦ err not_regular
    | file bytes ↦
        if ltb file_limit (length bytes)
        then err too_large
        else (ok_or (env.from_slice bytes) bad_json >>= λ doc. ok (some doc))
  ]

  -- record_excluded, and merge
  unfoldable pub add_entries : Bool → String → Option Value → Loading → Result ConfigError Loading
  add_entries foreign base entries l = do
    servers ← merge env foreign base entries l.servers
    ok (record l { servers = servers; excluded = record_excluded foreign entries l.excluded })

  abbrev pub add_if : Bool → String → Option Value → Loading → Result ConfigError Loading
  add_if wanted cwd entries l = if wanted then add_entries true cwd entries l else ok l

  -- The entries of the project under "projects".
  abbrev pub local_entries : String → Value → Option Value
  local_entries cwd doc =
      and_then
        (and_then (and_then (some doc) (repl_mcp.Json.get "projects")) (repl_mcp.Json.get cwd))
        (repl_mcp.Json.get "mcpServers")

  abbrev pub from_foreign :
      List String → String → Loading → Option Value → Result ConfigError Loading
  from_foreign scopes cwd l none = ok l
  from_foreign scopes cwd l (some doc) =
      add_if (has_scope "user" scopes) cwd (repl_mcp.Json.get "mcpServers" doc)
        (record l { present = true })
      >>= add_if (has_scope "local" scopes) cwd (local_entries cwd doc)

  -- ~/.claude.json, for the scopes user and local.
  unfoldable pub load_foreign : List String → String → Loading → Result ConfigError Loading
  unfolding read_document add_entries
  load_foreign scopes cwd l =
      if has_scope "user" scopes || has_scope "local" scopes
      then (ok_or env.home no_home >>= λ home.
          read_document (env.join home ".claude.json") false >>= from_foreign scopes cwd l)
      else ok l

  abbrev pub from_project : String → Loading → Option Value → Result ConfigError Loading
  from_project base l none = ok l
  from_project base l (some doc) =
      ok_or (repl_mcp.Json.get "mcpServers" doc) no_servers >>= λ entries.
      add_entries false base (some entries) (record l { present = true })

  -- The project's registry, or the one of --config.
  unfoldable pub load_own :
      List String → Option String → String → Loading → Result ConfigError Loading
  unfolding read_document add_entries
  load_own scopes config cwd l =
      let path = or_else config (env.join cwd ".mcp.json") in
      if has_scope "project" scopes
      then read_document path (is_some config) >>= from_project (or_else (env.parent path) cwd) l
      else ok l

  abbrev pub registry : Option String → String → String → Loading → Registry
  registry config scope cwd l = record {
    servers = l.servers;
    config = config;
    scope = scope;
    project = cwd;
    present = l.present;
    excluded = l.excluded;
  }

  abbrev pub scopes_of : String → List String
  scopes_of scope =
      if scope == "all" then "project" ∷ "user" ∷ "local" ∷ [] else env.split_commas scope

  abbrev pub is_off : String → Bool
  is_off scope = (or_else (env.var "REPL_MCP_NO_BRIDGE") "" == "1") || scope == "none"

  unfoldable pub load_at : Option String → String → String → Result ConfigError Registry
  unfolding load_foreign load_own
  load_at config scope cwd =
      let scopes = scopes_of scope in
      if is_off scope
      then ok (registry config scope cwd fresh)
      else (refuse_if (any (λ s. not (is_scope s)) scopes) bad_scope
          >> (load_foreign scopes cwd fresh >>= λ l.
              load_own scopes config cwd l >>= λ l. ok (registry config scope cwd l)))

  abbrev pub below : String → Option String → Option String
  below project none = none
  below project (some path) = some (if env.is_absolute path then path else env.join project path)

  unfoldable pub load_project : Option String → String → String → Result ConfigError Registry
  unfolding load_at
  load_project config scope path = do
    project ← ok_or (env.canonicalize path) bad_project
    refuse_if (not (env.is_dir project)) bad_project
    load_at (below project config) scope project

  -- Registry::reload
  unfoldable pub reload : Registry → Result ConfigError Registry
  unfolding load_project
  reload r = load_project r.config r.scope r.project
