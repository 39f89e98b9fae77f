-- ===== src/Config/Load/Granted.antt =====
-- The servers of a loaded registry (native/src/config.rs).
use repl_mcp.Config.Types.{Env, ServerConfig, Registry}
use repl_mcp.Config.Load.{
  load_at, Loading, load_own, add_entries, load_foreign, add_if, from_project, from_foreign,
  has_scope, read_document, is_off, registry, local_entries, fresh, is_scope, scopes_of,
}
use repl_mcp.Base.{
  Option, ◌≡◌, String, All, Result, List, Bool, false, true, ok, subst, ok-chain, ◌⊎◌, Bool-cases,
  some, ◌||◌, ok_or, inl, none, inr, string_eq, arith, refuse_if, any, not, ok_or-some, sym,
}
use repl_mcp.Json.{Value, get}
use repl_mcp.Config.Normal.{or_else, is_some}
use repl_mcp.Config.Expand.{ConfigError, no_servers, no_home, bad_scope}
use repl_mcp.Config.Merge.Origin.{Origin, IsListed, merge-All}
use repl_mcp.Config.Merge.{merge}
use repl_mcp.Config.Normal.Sane.{IsSane, normalize-IsSane}
use repl_mcp.Base.Map.{All-get}

module _ (env : Env) where
  -- The directory of the broker's own registry.
  abbrev pub own_base : Option String → String → String
  own_base config cwd = or_else (env.parent (or_else config (env.join cwd ".mcp.json"))) cwd

  -- An entry of ~/.claude.json, of the user or of the project.
  abbrev pub Foreign : String → Value → Type 0
  Foreign cwd entry =
      (home : String) × ((doc : Value) × (env.home ≡ some home)
        × (read_document env (env.join home ".claude.json") false ≡ ok (some doc))
        × (IsListed entry (get "mcpServers" doc) ⊎ IsListed entry (local_entries env cwd doc)))

  -- An entry of the project's registry, or of the one of --config.
  abbrev pub Own : Option String → String → Value → Type 0
  Own config cwd entry =
      (doc : Value) × (read_document env (or_else config (env.join cwd ".mcp.json"))
          (is_some config)
        ≡ ok (some doc))
      × IsListed entry (get "mcpServers" doc)

  -- A server of a foreign registry, granted by its entry, or of the broker's own registry.
  abbrev pub IsFrom : Option String → String → ServerConfig → Type 0
  IsFrom config cwd c =
      ((o : Origin env true cwd c) × Foreign cwd o.entry)
      ⊎ ((o : Origin env false (own_base config cwd) c) × Own config cwd o.entry)

  abbrev AllFrom : Option String → String → Loading → Type 0
  AllFrom config cwd l = All (λ s. IsFrom config cwd s.1) l.servers

  loaded : (a b : Loading) → ◌≡◌ {A = Result ConfigError Loading} (ok a) (ok b) → a ≡ b
  loaded a b h = cc

  module _ (config : Option String) (cwd : String) where
    add-Foreign :
        (entries : Option Value) (l l' : Loading)
        → ((entry : Value) → IsListed entry entries → Foreign cwd entry)
        → AllFrom config cwd l
        → add_entries env true cwd entries l ≡ ok l'
        → AllFrom config cwd l'
    unfolding add_entries
    add-Foreign entries l l' held a h =
        let (servers, same, merged) = ok-chain _ (merge env true cwd entries l.servers) l' h in
        subst (AllFrom config cwd) (loaded _ l' same) (
          merge-All env (IsFrom config cwd) true cwd (Foreign cwd) (λ c o from. inl (o, from))
            entries l.servers servers held a merged)

    add-Own :
        (entries : Option Value) (l l' : Loading)
        → ((entry : Value) → IsListed entry entries → Own config cwd entry)
        → AllFrom config cwd l
        → add_entries env false (own_base config cwd) entries l ≡ ok l'
        → AllFrom config cwd l'
    unfolding add_entries
    add-Own entries l l' held a h =
        let (servers, same, merged) =
          ok-chain _ (merge env false (own_base config cwd) entries l.servers) l' h in
        subst (AllFrom config cwd) (loaded _ l' same) (
          merge-All env (IsFrom config cwd) false (own_base config cwd) (Own config cwd)
            (λ c o from. inr (o, from)) entries l.servers servers held a merged)

    add_if-From :
        (wanted : Bool) (entries : Option Value) (l l' : Loading)
        → ((entry : Value) → IsListed entry entries → Foreign cwd entry)
        → AllFrom config cwd l
        → add_if env wanted cwd entries l ≡ ok l'
        → AllFrom config cwd l'
    add_if-From true entries l l' held a h = add-Foreign entries l l' held a h
    add_if-From false entries l l' held a h = subst (AllFrom config cwd) (loaded l l' h) a

    from_foreign-From :
        (scopes : List String) (home : String) (doc : Option Value) (l l' : Loading)
        → env.home ≡ some home
        → read_document env (env.join home ".claude.json") false ≡ ok doc
        → AllFrom config cwd l
        → from_foreign env scopes cwd l doc ≡ ok l'
        → AllFrom config cwd l'
    from_foreign-From scopes home none l l' at opened a h =
        subst (AllFrom config cwd) (loaded l l' h) a
    from_foreign-From scopes home (some doc) l l' at opened a h =
        let (mid, later, first) =
          ok-chain _
            (add_if env (has_scope "user" scopes) cwd (repl_mcp.Json.get "mcpServers" doc)
              (record l { present = true }))
            l' h in
        add_if-From (has_scope "local" scopes) _ mid l'
          (λ entry there. (home, (doc, at, opened, inr there)))
          (add_if-From (has_scope "user" scopes) _ (record l { present = true }) mid
            (λ entry there. (home, (doc, at, opened, inl there))) a first)
          later

    load_foreign-From :
        (scopes : List String) (l l' : Loading)
        → AllFrom config cwd l
        → load_foreign env scopes cwd l ≡ ok l'
        → AllFrom config cwd l'
    unfolding load_foreign
    load_foreign-From scopes l l' a h =
        elim (Bool-cases (has_scope "user" scopes || has_scope "local" scopes)) [
          | inl wanted ↦
              let (home, later, at_home) =
                ok-chain _ (ok_or env.home no_home) l' (rw wanted at h) in
              let (doc, last, opened) =
                ok-chain _ (read_document env (env.join home ".claude.json") false) l' later in
              from_foreign-From scopes home doc l l' (ok_or-some env.home no_home at_home) opened a
                last
          | inr out ↦ subst (AllFrom config cwd) (loaded l l' (rw out at h)) a
        ]

    from_project-From :
        (doc : Option Value) (l l' : Loading)
        → read_document env (or_else config (env.join cwd ".mcp.json")) (is_some config) ≡ ok doc
        → AllFrom config cwd l
        → from_project env (own_base config cwd) l doc ≡ ok l'
        → AllFrom config cwd l'
    from_project-From none l l' opened a h = subst (AllFrom config cwd) (loaded l l' h) a
    from_project-From (some doc) l l' opened a h =
        let (entries, last, first) =
          ok-chain _ (ok_or (repl_mcp.Json.get "mcpServers" doc) no_servers) l' h in
        let there = ok_or-some (repl_mcp.Json.get "mcpServers" doc) no_servers first in
        add-Own (some entries) (record l { present = true }) l'
          (λ entry held. (doc, opened, subst (IsListed entry) (sym there) held)) a last

    load_own-From :
        (scopes : List String) (l l' : Loading)
        → AllFrom config cwd l
        → load_own env scopes config cwd l ≡ ok l'
        → AllFrom config cwd l'
    unfolding load_own
    load_own-From scopes l l' a h = elim (Bool-cases (has_scope "project" scopes)) [
      | inl wanted ↦
          let (doc, last, opened) =
            ok-chain _
              (read_document env (or_else config (env.join cwd ".mcp.json")) (is_some config)) l'
              (rw wanted at h) in
          from_project-From doc l l' opened a last
      | inr out ↦ subst (AllFrom config cwd) (loaded l l' (rw out at h)) a
    ]

  servers_of :
      (config : Option String) (scope cwd : String) (l : Loading) (r : Registry)
      → ◌≡◌ {A = Result ConfigError Registry} (ok (registry env config scope cwd l)) (ok r)
      → l.servers ≡ r.servers
  servers_of config scope cwd l r h = ground (arith, h)

  from_IsSane :
      (config : Option String) (cwd : String) (c : ServerConfig)
      → IsFrom config cwd c
      → IsSane env c
  from_IsSane config cwd c (inl (o, _)) = normalize-IsSane env cwd o.cfg c o.normal
  from_IsSane config cwd c (inr (o, _)) =
      normalize-IsSane env (own_base config cwd) o.cfg c o.normal

  load_at-From :
      (config : Option String) (scope cwd : String) (r : Registry)
      → load_at env config scope cwd ≡ ok r
      → All (λ s. IsFrom config cwd s.1) r.servers
  unfolding load_at
  load_at-From config scope cwd r h = elim (Bool-cases (is_off env scope)) [
    | inl off ↦
        subst (All (λ s. IsFrom config cwd s.1)) (servers_of config scope cwd fresh r (rw off at h))
          tt
    | inr on ↦
        let (u, checked, known) =
          ok-chain _ (refuse_if (any (λ s. not (is_scope s)) (scopes_of env scope)) bad_scope) r
            (rw on at h) in
        let (l, later, foreign) =
          ok-chain _ (load_foreign env (scopes_of env scope) cwd fresh) r checked in
        let (l', last, own) =
          ok-chain _ (load_own env (scopes_of env scope) config cwd l) r later in
        subst (All (λ s. IsFrom config cwd s.1)) (servers_of config scope cwd l' r last) (
          load_own-From config cwd (scopes_of env scope) l l'
            (load_foreign-From config cwd (scopes_of env scope) fresh l tt foreign) own)
  ]

  -- Every server of a registry that was loaded comes from an entry of a document that was read: of the
  -- broker's own registry, or of ~/.claude.json, among its servers or those of the project there, and
  -- then the entry grants it with `brokerAllowed`. Its configuration is one of stdio or one of HTTP,
  -- with the fields of the one and none of the other, in a directory that exists, with complete OAuth
  -- credentials if it has any, and no empty name among its tools.
  pub load_at-granted :
      (config : Option String) (scope cwd name : String) (r : Registry) (c : ServerConfig)
      → load_at env config scope cwd ≡ ok r
      → repl_mcp.Base.Map.get name r.servers ≡ some c
      → IsFrom config cwd c × IsSane env c
  unfolding load_at
  load_at-granted config scope cwd name r c h found =
      let from =
        All-get (IsFrom config cwd) name c r.servers (load_at-From config scope cwd r h) found in
      (from, from_IsSane config cwd c from)
