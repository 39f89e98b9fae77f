-- ===== src/Config/Normal.antt =====
-- The body of `merge` in native/src/config.rs for one entry: what its configuration must be, and what
-- it becomes.
pub mod Sane
use repl_mcp.Base.{
  Result, List, Option, Bool, some, String, true, if◌then◌else◌, ◌==◌, ◌>>◌, ok, ◌>>=◌, none, false,
  ◌||◌, ◌&&◌, refuse_if, any, ◌∷◌, not, string_eq, err, [], ok_or,
}
use repl_mcp.Config.Types.{Env, Url, ServerConfig, OAuthConfig}
use repl_mcp.Base.Map.{Map}
use repl_mcp.Config.Expand.{
  ConfigError, expand, is_empty, bad_cwd, bad_stdio, bad_header_name, bad_http, oauth_conflict,
  empty_tool, bad_header_value, bad_transport, empty_credentials, no_url, empty_authorization,
  bad_grant, bad_url,
}
use repl_mcp.Json.{and_then}

abbrev pub is_some : {A : Type 0} → Option A → Bool
is_some none = false
is_some (some a) = true

abbrev pub is_nil : {A : Type 0} → List A → Bool
is_nil [] = true
is_nil (x ∷ xs) = false

abbrev pub or_else : {A : Type 0} → Option A → A → A
or_else none a = a
or_else (some b) a = b

-- cfg.args.windows(2).any(..): `-m` and one of the modules.
abbrev pub runs_module : List String → Bool
runs_module [] = false
runs_module (a ∷ []) = false
runs_module (a ∷ b ∷ rest) =
    (a == "-m" && (b == "repl_mcp.repl_mcp_server" || b == "repl_mcp")) || runs_module (b ∷ rest)

-- Iterator::map(..).collect::<Result<..>>()
abbrev pub traverse :
    {A B : Type 0} → (A → Result ConfigError B) → List A → Result ConfigError (List B)
traverse f [] = ok []
traverse f (x ∷ xs) = f x >>= λ y. traverse f xs >>= λ ys. ok (y ∷ ys)

-- Option::map(..).transpose()
abbrev pub transpose :
    {A B : Type 0} → (A → Result ConfigError B) → Option A → Result ConfigError (Option B)
transpose f none = ok none
transpose f (some a) = f a >>= λ b. ok (some b)

module _ (env : Env) where
  unfoldable pub is_self : ServerConfig → Bool
  is_self cfg =
      let executable = or_else (and_then cfg.command env.file_name) "" in
      (executable == "repl-mcp" || executable == "repl-mcp.exe")
      || (runs_module cfg.args
          || ((executable == "uvx" || executable == "uv") && any (λ a. a == "repl-mcp") cfg.args))

  abbrev pub expand_value : String × String → Result ConfigError (String × String)
  expand_value kv = expand env.var kv.1 >>= λ v. ok (kv.0, v)

  -- An expanded path, below the registry's directory if it is relative.
  unfoldable pub expand_path : String → String → Result ConfigError String
  expand_path base path = do
    expanded ← expand env.var path
    ok (if env.is_absolute expanded then expanded else env.join base expanded)

  -- cfg.transport, or the one that the command implies
  abbrev pub transport_of : ServerConfig → String
  transport_of cfg = or_else cfg.transport (if is_some cfg.command then "stdio" else "http")

  abbrev pub lacks_command : Option String → Bool
  lacks_command none = true
  lacks_command (some c) = is_empty c

  -- The stdio arm of the match; `none` is the server itself, which is passed over.
  unfoldable pub stdio_arm : String → ServerConfig → Result ConfigError (Option ServerConfig)
  unfolding is_self
  stdio_arm base cfg = do
    refuse_if
        (lacks_command cfg.command
          || (is_some cfg.url || (not (is_nil cfg.headers) || is_some cfg.oauth)))
        bad_stdio
    command ← transpose (expand env.var) cfg.command
    args ← traverse (expand env.var) cfg.args
    let expanded = record cfg { command = command; args = args; cwd = some (or_else cfg.cwd base) }
    ok (if is_self expanded then none else some expanded)

  abbrev pub is_plain_url : Url → Bool
  is_plain_url u =
      (u.scheme == "https" || u.scheme == "http")
      && (u.has_host && (is_empty u.username && not u.has_password))

  -- The http arm of the match.
  unfoldable pub http_arm : ServerConfig → Result ConfigError (Option ServerConfig)
  http_arm cfg = do
    refuse_if
        (is_some cfg.command
          || (not (is_nil cfg.args) || (not (is_nil cfg.env) || is_some cfg.cwd)))
        bad_http
    given ← ok_or cfg.url no_url
    url ← expand env.var given
    parsed ← ok_or (env.parse_url url) bad_url
    refuse_if (not (is_plain_url parsed)) bad_url
    ok (some (record cfg { url = some url }))

  -- match transport
  unfoldable pub transport_arm :
      String → String → ServerConfig → Result ConfigError (Option ServerConfig)
  unfolding stdio_arm http_arm
  transport_arm transport base cfg =
      if transport == "stdio"
      then stdio_arm base cfg
      else if transport == "http" || transport == "streamable-http"
      then http_arm cfg
      else err bad_transport

  abbrev pub is_authorization : String × String → Bool
  is_authorization kv = env.eq_ignore_case kv.0 "authorization"

  abbrev pub is_blank : Option String → Bool
  is_blank none = false
  is_blank (some s) = is_empty s

  abbrev pub is_granted : OAuthConfig → Bool
  is_granted o =
      (o.grant_type == "client_credentials" && (is_some o.client_id && is_some o.client_secret))
      || (o.grant_type == "authorization_code" && is_some o.credential_file)

  unfoldable pub check_oauth :
      String → Map String String → OAuthConfig → Result ConfigError OAuthConfig
  unfolding expand_path
  check_oauth base headers o = do
    refuse_if (any is_authorization headers) oauth_conflict
    client_id ← transpose (expand env.var) o.client_id
    client_secret ← transpose (expand env.var) o.client_secret
    refuse_if (is_blank client_id || is_blank client_secret) empty_credentials
    let expanded = record o { client_id = client_id; client_secret = client_secret }
    refuse_if (not (is_granted expanded)) bad_grant
    credential_file ← transpose (expand_path base) o.credential_file
    ok (record expanded { credential_file = credential_file })

  -- The loop over the headers.
  unfoldable pub check_headers : Map String String → Result ConfigError (Unit {0})
  check_headers [] = ok tt
  check_headers ((k, v) ∷ rest) =
      refuse_if (not (env.is_header_name k)) bad_header_name
      >> (refuse_if (not (env.is_header_value v)) bad_header_value
          >> (refuse_if
                (is_authorization (k, v)
                  && (is_empty (env.trim v) || env.eq_ignore_case (env.trim v) "Bearer"))
                empty_authorization
              >> check_headers rest))

  abbrev pub lacks_dir : Option String → Bool
  lacks_dir none = false
  lacks_dir (some dir) = not (env.is_dir dir)

  abbrev pub allows_empty : Option (List String) → Bool
  allows_empty none = false
  allows_empty (some names) = any is_empty names

  -- What follows the match.
  unfoldable pub complete : String → String → ServerConfig → Result ConfigError ServerConfig
  unfolding check_oauth check_headers expand_path
  complete transport base cfg = do
    vars ← traverse expand_value cfg.env
    headers ← traverse expand_value cfg.headers
    oauth ← transpose (check_oauth base headers) cfg.oauth
    check_headers headers
    cwd ← transpose (expand_path base) cfg.cwd
    refuse_if (lacks_dir cwd) bad_cwd
    refuse_if (allows_empty cfg.allowed_tools) empty_tool
    ok (record cfg {
      transport = some transport;
      env = vars;
      headers = headers;
      oauth = oauth;
      cwd = cwd;
    })

  abbrev pub then_complete :
      String → String → Option ServerConfig → Result ConfigError (Option ServerConfig)
  then_complete transport base none = ok none
  then_complete transport base (some cfg) = complete transport base cfg >>= λ c. ok (some c)

  -- An entry that is granted and not disabled.
  unfoldable pub normalize : String → ServerConfig → Result ConfigError (Option ServerConfig)
  unfolding transport_arm complete
  normalize base cfg =
      transport_arm (transport_of cfg) base cfg >>= then_complete (transport_of cfg) base
