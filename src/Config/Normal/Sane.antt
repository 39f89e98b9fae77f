-- ===== src/Config/Normal/Sane.antt =====
-- What a configuration is after `normalize` (native/src/config.rs).
use repl_mcp.Config.Types.{Env, ServerConfig, OAuthConfig}
use repl_mcp.Config.Normal.{
  stdio_arm, http_arm, allows_empty, is_some, is_granted, lacks_dir, complete, check_oauth,
  transpose, traverse, expand_value, expand_path, normalize, transport_arm, transport_of,
  then_complete,
}
use repl_mcp.Base.{
  Option, ◌≡◌, String, some, none, false, ok, true, [], ◌⊎◌, arith, ok-chain, subst, Result,
  string_eq,
}
use repl_mcp.Base.Map.{Map}
use repl_mcp.Config.Expand.{ConfigError}

module _ (env : Env) where
  abbrev pub IsStdio : ServerConfig → Type 0
  IsStdio c = (is_some c.command ≡ true) × (c.url ≡ none) × (c.headers ≡ []) × (c.oauth ≡ none)

  abbrev pub IsHttp : ServerConfig → Type 0
  IsHttp c =
      (c.command ≡ none) × (c.args ≡ []) × (c.env ≡ []) × (c.cwd ≡ none) × (is_some c.url ≡ true)

  abbrev pub GrantOk : Option OAuthConfig → Type 0
  GrantOk none = Unit
  GrantOk (some o) = is_granted env o ≡ true

  -- The transport and the fields that go with it.
  abbrev pub Shape : Option String → ServerConfig → Type 0
  Shape t c =
      ((t ≡ some "stdio") × IsStdio c)
      ⊎ (((t ≡ some "http") ⊎ (t ≡ some "streamable-http")) × IsHttp c)

  pub record IsSane (c : ServerConfig) : Type 0 where
    pub shape : Shape c.transport c
    pub tools : allows_empty env c.allowed_tools ≡ false
    pub dir : lacks_dir env c.cwd ≡ false
    pub grant : GrantOk c.oauth

  stdio_arm-IsStdio :
      (base : String) (cfg c : ServerConfig) → stdio_arm env base cfg ≡ ok (some c) → IsStdio c
  unfolding stdio_arm
  stdio_arm-IsStdio base cfg c h = ground arith

  http_arm-IsHttp : (cfg c : ServerConfig) → http_arm env cfg ≡ ok (some c) → IsHttp c
  unfolding http_arm
  http_arm-IsHttp cfg c h = ground arith

  check_oauth-GrantOk :
      (base : String) (headers : Map String String) (o o' : OAuthConfig)
      → check_oauth env base headers o ≡ ok o'
      → is_granted env o' ≡ true
  unfolding check_oauth
  check_oauth-GrantOk base headers o o' h = ground arith

  inner :
      (a b : OAuthConfig)
      → ◌≡◌ {A = Result ConfigError (Option OAuthConfig)} (ok (some a)) (ok (some b))
      → a ≡ b
  inner a b h = cc

  transpose-GrantOk :
      (base : String) (headers : Map String String) (o o' : Option OAuthConfig)
      → transpose (check_oauth env base headers) o ≡ ok o'
      → GrantOk o'
  transpose-GrantOk base headers none none h = tt
  transpose-GrantOk base headers none (some o') h = cc
  transpose-GrantOk base headers (some o) none h = tt
  transpose-GrantOk base headers (some o) (some o') h =
      let (got, same, done) = ok-chain _ (check_oauth env base headers o) (some o') h in
      subst (λ x. GrantOk (some x)) (inner got o' same)
        (check_oauth-GrantOk base headers o got done)

  -- The fields that `complete` keeps, and where the others come from.
  complete-fields :
      (t base : String) (cfg c : ServerConfig)
      → complete env t base cfg ≡ ok c
      → (c.transport ≡ some t)
        × (c.command ≡ cfg.command)
        × (c.args ≡ cfg.args)
        × (c.url ≡ cfg.url)
        × (c.disabled ≡ cfg.disabled)
        × (traverse (expand_value env) cfg.env ≡ ok c.env)
        × (traverse (expand_value env) cfg.headers ≡ ok c.headers)
        × (transpose (check_oauth env base c.headers) cfg.oauth ≡ ok c.oauth)
        × (transpose (expand_path env base) cfg.cwd ≡ ok c.cwd)
        × (lacks_dir env c.cwd ≡ false)
        × (allows_empty env c.allowed_tools ≡ false)
  unfolding complete
  complete-fields t base cfg c h = ground arith

  complete-Shape :
      (t base : String) (cfg c : ServerConfig)
      → Shape (some t) cfg
      → complete env t base cfg ≡ ok c
      → Shape c.transport c
  complete-Shape t base cfg c shape h = ground (arith, shape, complete-fields t base cfg c h)

  complete-IsSane :
      (t base : String) (cfg c : ServerConfig)
      → Shape (some t) cfg
      → complete env t base cfg ≡ ok c
      → IsSane c
  complete-IsSane t base cfg c shape h =
      let f = complete-fields t base cfg c h in
      record {
        shape = complete-Shape t base cfg c shape h;
        tools = ground (arith, f);
        dir = ground (arith, f);
        grant = transpose-GrantOk base c.headers cfg.oauth c.oauth (ground (arith, f));
      }

  transport_arm-Shape :
      (t base : String) (cfg c : ServerConfig)
      → transport_arm env t base cfg ≡ ok (some c)
      → Shape (some t) c
  unfolding transport_arm
  transport_arm-Shape t base cfg c h = ground (
    arith,
    h,
    stdio_arm-IsStdio base cfg c,
    http_arm-IsHttp cfg c,
    string_eq.test_iff t "stdio",
    string_eq.test_iff t "http",
    string_eq.test_iff t "streamable-http",
  )

  unwrapped :
      (a b : ServerConfig)
      → ◌≡◌ {A = Result ConfigError (Option ServerConfig)} (ok (some a)) (ok (some b))
      → a ≡ b
  unwrapped a b h = cc

  then_complete-IsSane :
      (t base : String) (cfg : ServerConfig) (made : Option ServerConfig) (c : ServerConfig)
      → transport_arm env t base cfg ≡ ok made
      → then_complete env t base made ≡ ok (some c)
      → IsSane c
  then_complete-IsSane t base cfg none c armed h = cc
  then_complete-IsSane t base cfg (some m) c armed h =
      let (d, same, done) = ok-chain _ (complete env t base m) (some c) h in
      subst IsSane (unwrapped d c same)
        (complete-IsSane t base m d (transport_arm-Shape t base cfg m armed) done)

  pub normalize-IsSane :
      (base : String) (cfg c : ServerConfig) → normalize env base cfg ≡ ok (some c) → IsSane c
  unfolding normalize
  normalize-IsSane base cfg c h =
      let (made, done, armed) =
        ok-chain _ (transport_arm env (transport_of env cfg) base cfg) (some c) h in
      then_complete-IsSane (transport_of env cfg) base cfg made c armed done
