-- ===== src/Sessions/Prepare.antt =====
-- The preparation of a session in native/src/sessions.rs: the project, the interpreter that it gets,
use repl_mcp.Artifacts.State
use repl_mcp.Json.{Value, and_then, as_u64}
use repl_mcp.Base.{
  List, Option, Bytes, ℕ, String, some, Bool, Result, ok, ◌>>◌, false, ◌>>=◌, ok_or, none,
  if◌then◌else◌, ◌==◌, refuse_if, [], ltb, ◌∷◌, find, not, ◌++◌, nat_eq, true, ◌||◌, length, map,
  ◌+◌, err, ◌&&◌, leb,
}

-- and what the probe of the interpreter must answer. The file system is a parameter.
pub data Error : Type 0 where
  bad_name opening_capacity no_project not_a_directory cannot_inspect : Error
  not_on_path no_executable not_executable : Error
  probe_too_long not_python too_old : Error
  session_limit default_session not_found : Error
  no_broker : Error
  artifact_store : State.Error → Error

-- What the file system and the path functions of std answer.
pub record System : Type 0 where
  pub byte_len : String → ℕ
  pub canonicalize : String → Option String
  pub is_dir : String → Bool
  -- symlink_metadata: found, not found, or another error.
  pub symlink : String → Option Bool
  pub is_absolute : String → Bool
  pub components : String → ℕ
  pub join : String → String → String
  -- env::split_paths of PATH
  pub search_path : List String
  pub exists : String → Bool
  pub is_file : String → Bool
  pub is_executable : String → Bool
  pub parse : Bytes → Option Value
  -- Broker::from_project
  pub broker_from_project : String → Bool

abbrev pub match_number : ℕ → Option ℕ → Bool
match_number n none = false
match_number n (some m) = m == n

abbrev pub number_from : Option ℕ → ℕ
number_from none = 0
number_from (some n) = n

pub data Source : Type 0 where
  explicit project_venv server_default : Source

pub record Prepared : Type 0 where
  pub project : String
  pub selected : String
  pub source : Source

module _ (sys : System) where
  -- The candidate of resolve_python.
  unfoldable pub candidate : String → String → Result Error String
  candidate path project =
      if sys.is_absolute path
      then ok path
      else if ltb 1 (sys.components path)
      then ok (sys.join project path)
      else ok_or (find sys.is_file (map (λ p. sys.join p path) sys.search_path)) not_on_path

  unfoldable pub resolve_python : String → String → Result Error String
  unfolding candidate
  resolve_python path project = do
    chosen ← candidate path project
    refuse_if (not (sys.exists chosen)) no_executable
    refuse_if (not (sys.is_file chosen) || not (sys.is_executable chosen)) not_executable
    ok chosen

  abbrev pub has_venv : String → Result Error Bool
  has_venv project = ok_or (sys.symlink (sys.join project ".venv")) cannot_inspect

  abbrev pub selected_by : Source → Result Error String → Result Error (String × Source)
  selected_by source (err e) = err e
  selected_by source (ok path) = ok (path, source)

  -- Which interpreter, and why: the requested one, the project's, or the server's.
  unfoldable pub select : Option String → String → String → Result Error (String × Source)
  unfolding resolve_python
  select (some chosen) default_python project = selected_by explicit (resolve_python chosen project)
  select none default_python project = do
    venv_exists ← has_venv project
    if venv_exists
        then selected_by project_venv (resolve_python (sys.join project ".venv/bin/python") project)
        else selected_by server_default (resolve_python default_python project)

  -- The blocking job of SessionManager::open.
  unfoldable pub prepare : Option String → String → String → Result Error Prepared
  unfolding select
  prepare python default_python path = do
    project ← ok_or (sys.canonicalize path) no_project
    refuse_if (not (sys.is_dir project)) not_a_directory
    chosen ← select python default_python project
    refuse_if (not (sys.broker_from_project project)) no_broker
    ok (record { project = project; selected = chosen.0; source = chosen.1 })

  -- The bytes of a chunk up to and with its first line feed, and whether there is one.
  abbrev pub line : Bytes → Bytes × Bool
  line [] = ([], false)
  line (b ∷ bs) = let rest = line bs in if b == 10 then (b ∷ [], true) else (b ∷ rest.0, rest.1)

  -- The read loop of probe_python, over the chunks that fill_buf returns until the end.
  unfoldable pub read_line : List Bytes → Bytes → Result Error Bytes
  read_line [] bytes = ok bytes
  read_line ([] ∷ chunks) bytes = ok bytes
  read_line ((b ∷ bs) ∷ chunks) bytes =
      let (taken, ended) = line (b ∷ bs) in
      let more = read_line chunks (bytes ++ taken) in
      if ltb 4096 (length bytes + length taken)
      then err probe_too_long
      else if ended
      then ok (bytes ++ taken)
      else more

  -- value["major"] != 3 || value["minor"].as_u64().unwrap_or(0) < 10
  abbrev pub is_supported : Value → Bool
  is_supported v =
      match_number 3 (and_then (repl_mcp.Json.get "major" v) as_u64)
      && leb 10 (number_from (and_then (repl_mcp.Json.get "minor" v) as_u64))

  unfoldable pub probe_python : List Bytes → Result Error Value
  unfolding read_line
  probe_python chunks = do
    bytes ← read_line chunks []
    value ← ok_or (sys.parse bytes) not_python
    refuse_if (not (is_supported value)) too_old
    ok value
