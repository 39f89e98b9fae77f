-- ===== src/Examples/Configuring.antt =====
-- The theorems on the configuration of native/src/config.rs, applied.
use Prim.Native.String.{◌++◌}
use repl_mcp.Json.{str, bool, object, field, end, Value, Fields, unsigned}
use repl_mcp.Config.Types.{Env, ServerConfig, Registry, Opened, file, missing}
use repl_mcp.Config.Expand.Pieces.{Pieces, piece, last, expand-print, meaning, print}
use repl_mcp.Config.Load.Granted.{load_at-granted, IsFrom}
use repl_mcp.Base.{
  Option, String, ◌≡◌, none, true, some, [], false, if◌then◌else◌, ok, ◌≢◌, ◌∷◌, refl, ◌==◌, err,
  string_eq,
}
use repl_mcp.Config.Merge.{merge, says, record_excluded}
use repl_mcp.Base.Map.{Map}
use repl_mcp.Config.Load.{load_at}
use repl_mcp.Config.Expand.{expand, split_open, all_key_chars}
use repl_mcp.Config.Merge.Overlay.{overlay, merge_refines}
use repl_mcp.Config.Normal.Sane.{IsSane}
use repl_mcp.Config.Normal.{or_else, normalize}

abbrev variables : String → Option String
variables k = if k == "USER" then some "ada$" else none

abbrev greeting : Pieces
greeting = piece "hi " "USER" (last "!$")

expand-print_example : expand variables (print greeting) ≡ ok (meaning variables greeting)
unfolding expand print meaning split_open all_key_chars
expand-print_example =
    expand-print variables greeting (refl, refl, refl, ("ada$", refl, refl), refl)

abbrev runs : String → ServerConfig
runs command = record {
  transport = none;
  command = some command;
  args = [];
  env = [];
  cwd = none;
  url = none;
  headers = [];
  disabled = false;
  broker_allowed = false;
  allowed_tools = none;
  oauth = none;
}

-- A parser that reads the command, or whether the entry is disabled.
abbrev parse_entry : Value → Option ServerConfig
parse_entry v = some (record (runs (or_else (repl_mcp.Json.get_str "command" v) "sh")) {
  disabled = says "disabled" v;
})

abbrev entry_of : String → Value
entry_of command = object (field "command" (str command) end)

abbrev entries : Fields
entries =
    field "a" (entry_of "ls")
      (field "b" (object (field "disabled" (bool true) end)) (field "c" (entry_of "repl-mcp") end))

abbrev disk : String → Opened
disk path = if path == "/p/.mcp.json" then file (1 ∷ []) else missing

abbrev an_env : Env
an_env = record {
  var = variables;
  home = some "/home";
  open_file = disk;
  canonicalize = some;
  is_dir = λ p. true;
  is_absolute = λ p. true;
  join = λ a b. a ++ "/" ++ b;
  parent = λ p. some "/p";
  file_name = some;
  split_commas = λ s. s ∷ [];
  has_control = λ s. false;
  trim = λ s. s;
  eq_ignore_case = λ a b. a == b;
  from_slice = λ bytes. some (object (field "mcpServers" (object entries) end));
  from_value = parse_entry;
  parse_url = λ s. none;
  is_header_name = λ s. true;
  is_header_value = λ s. true;
}

abbrev b_before : Map String ServerConfig
b_before = ("b", runs "old") ∷ []

abbrev a_only : Map String ServerConfig
a_only = ("a", record (runs "ls") { transport = some "stdio"; cwd = some "/p" }) ∷ []

a_only_lem : merge an_env false "/p" (some (object entries)) b_before ≡ ok a_only
unfolding merge normalize expand split_open
a_only_lem = refl

merge_refines_example :
    repl_mcp.Base.Map.get "b" a_only
    ≡ overlay an_env false "/p" entries (λ m. repl_mcp.Base.Map.get m b_before) "b"
merge_refines_example = merge_refines an_env false "/p" entries b_before a_only "b" a_only_lem

abbrev loaded : Registry
loaded = record {
  servers = a_only;
  config = none;
  scope = "project";
  project = "/p";
  present = true;
  excluded = ("b", "disabled") ∷ [];
}

loaded_lem : load_at an_env none "project" "/p" ≡ ok loaded
unfolding load_at merge normalize record_excluded expand split_open
loaded_lem = refl

load_at-granted_example :
    IsFrom an_env none "/p" (record (runs "ls") { transport = some "stdio"; cwd = some "/p" })
    × IsSane an_env (record (runs "ls") { transport = some "stdio"; cwd = some "/p" })
load_at-granted_example = load_at-granted an_env none "project" "/p" "a" loaded _ loaded_lem refl
