-- ===== src/Broker/Explain.antt =====
-- `explain` of native/src/broker.rs: why a server or a tool is available or not.
use Prim.Native.String.{len}
pub mod Refused
use repl_mcp.Base.{
  ℕ, Option, String, List, Bool, if◌then◌else◌, ◌==◌, some, Result, false, not, ◌||◌, string_eq,
  ◌&&◌, none, ltb, ◌>>◌, ok, ◌>>=◌, ok_or, true, any, refuse_if,
}
use repl_mcp.Config.Types.{ServerConfig, OAuthConfig}
use repl_mcp.Broker.Transports.{
  Slot, Broker, Fault, is_open, transport_key, no_key, bad_name, bad_tool,
}
use repl_mcp.Json.{Value, str, null, get_str}
use repl_mcp.Broker.Failures.{contains}
use repl_mcp.Config.Expand.{is_empty}
use repl_mcp.Broker.Call.{is_denied, is_named}
use repl_mcp.Broker.Catalogue.{is_fresh}

pub data Status : Type 0 where
  credentials_missing config_invalid broker_disabled not_granted : Status
  connection_timeout disconnected catalogue_stale tool_missing catalogue_not_loaded : Status
  ready registry_absent server_absent : Status

-- What the status was taken from.
pub data Evidence : Type 0 where
  configuration last_connection_attempt transport_state cached_catalogue : Evidence

-- The environment, and the functions of other crates.
pub record Probe : Type 0 where
  pub now : ℕ
  pub no_bridge : Bool
  pub is_missing : String → Bool
  pub has_control : String → Bool

abbrev pub is_long_name : Probe → ℕ → String → Bool
is_long_name p limit name = is_empty name || (ltb limit (len name) || p.has_control name)

-- An optional tool: `none` when it is neither a string nor left out.
abbrev pub tool_param : Option Value → Option (Option String)
tool_param none = some none
tool_param (some null) = some none
tool_param (some (str tool)) = some (some tool)
tool_param (some _) = none

abbrev pub is_bad_tool : Probe → Option String → Bool
is_bad_tool p none = false
is_bad_tool p (some tool) = is_long_name p 400 tool

unfoldable pub error_status : String → Status
error_status error =
    if contains "environment variable" error
      || (contains "authorization header" error || contains "clientSecret" error)
    then credentials_missing
    else config_invalid

-- The tool is outside the entry's list.
abbrev pub lacks_tool : ServerConfig → Option String → Bool
lacks_tool cfg none = false
lacks_tool cfg (some tool) = is_denied cfg.allowed_tools tool

-- An independent grant whose credential file does not exist.
abbrev pub lacks_file : Probe → Option String → Bool
lacks_file p none = false
lacks_file p (some path) = p.is_missing path

abbrev pub lacks_credentials : Probe → Option OAuthConfig → Bool
lacks_credentials p none = false
lacks_credentials p (some o) =
    o.grant_type == "authorization_code" && lacks_file p o.credential_file

-- slot.try_lock().ok(), and an open session
abbrev pub is_connected : Option Slot → Bool
is_connected none = false
is_connected (some slot) = not slot.locked && is_open slot.live

abbrev pub attempt_status : String → Status
attempt_status failure =
    if failure == "connection_timeout"
    then connection_timeout
    else if failure == "credentials_missing"
    then credentials_missing
    else disconnected

abbrev pub catalogue_status : Probe → String → Option (ℕ × List Value) → Status × Evidence
catalogue_status p tool none = (catalogue_not_loaded, transport_state)
catalogue_status p tool (some (at, tools)) =
    if not (is_fresh p.now at)
    then (catalogue_stale, cached_catalogue)
    else if any (is_named tool) tools
    then (ready, cached_catalogue)
    else (tool_missing, cached_catalogue)

module _ (to_string : ServerConfig → Option String) (p : Probe) where
  -- With a live transport.
  abbrev pub live_status : Broker → ServerConfig → Option String → Result Fault (Status × Evidence)
  live_status b cfg none = ok (ready, transport_state)
  live_status b cfg (some tool) = ok_or (to_string cfg) no_key >>= λ key.
      ok (catalogue_status p tool (repl_mcp.Base.Map.get key b.catalogue))

  abbrev pub transport_status :
      Broker
      → ServerConfig
      → Option String
      → Bool
      → Option (ℕ × String)
      → Result Fault (Status × Evidence)
  transport_status b cfg tool true failure = live_status b cfg tool
  transport_status b cfg tool false none = ok (disconnected, transport_state)
  transport_status b cfg tool false (some (at, failure)) =
      ok (attempt_status failure, last_connection_attempt)

  -- For a server of the registry.
  unfoldable pub server_status :
      Broker → ServerConfig → Option String → Result Fault (Status × Evidence)
  server_status b cfg tool =
      if lacks_tool cfg tool
      then ok (not_granted, configuration)
      else if lacks_credentials p cfg.oauth
      then ok (credentials_missing, configuration)
      else (ok_or (transport_key to_string cfg) no_key >>= λ key.
          transport_status b cfg tool (is_connected (repl_mcp.Base.Map.get key b.sessions))
            (repl_mcp.Base.Map.get key b.failures))

  -- For a name that is no server of the registry.
  abbrev pub absent_status : Broker → Option String → Status
  absent_status b (some excluded) = not_granted
  absent_status b none = if b.registry.present then server_absent else registry_absent

  abbrev pub found_status :
      Broker → String → Option String → Option ServerConfig → Result Fault (Status × Evidence)
  found_status b name tool none =
      ok (absent_status b (repl_mcp.Base.Map.get name b.registry.excluded), configuration)
  found_status b name tool (some cfg) = server_status b cfg tool

  -- The chain of conditions.
  unfoldable pub explain_status : Broker → String → Option String → Result Fault (Status × Evidence)
  unfolding error_status server_status
  explain_status b name tool = elim b.config_error [
    | some error ↦ ok (error_status error, configuration)
    | none ↦
        if b.registry.scope == "none" || p.no_bridge
        then ok (broker_disabled, configuration)
        else found_status b name tool (repl_mcp.Base.Map.get name b.registry.servers)
  ]

  unfoldable pub explain : Value → Broker → Result Fault (Status × Evidence)
  unfolding explain_status
  explain params b = do
    name ← ok_or (get_str "server" params) bad_name
    tool ← ok_or (tool_param (repl_mcp.Json.get "tool" params)) bad_tool
    refuse_if (is_long_name p 200 name || is_bad_tool p tool) bad_name
    explain_status b name tool
