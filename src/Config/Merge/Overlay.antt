-- ===== src/Config/Merge/Overlay.antt =====
-- The servers as a function from names, and the values of the map (native/src/config.rs, `merge`).

use repl_mcp.Config.Types.{Env, ServerConfig}
use repl_mcp.Base.{
  Bool, String, Result, Option, some, err, ◌≡◌, if◌then◌else◌, none, ◌==◌, ap, ok, ◌&&◌, not,
  string_eq, arith, Bool-cases, ok-chain, inl, ◌∙◌, inr, Result-cases, Option-cases,
}
use repl_mcp.Config.Merge.{merge, merge_config, merge_entry, merge_fields, says}
use repl_mcp.Config.Expand.{ConfigError}
use repl_mcp.Json.{Value, Fields, field, object, end}
use repl_mcp.Base.Map.{Map, get, get-remove, get-insert}
use repl_mcp.Config.Normal.{normalize}

module _ (env : Env) where
  abbrev pub decided : Result ConfigError (Option ServerConfig) → Option (Option ServerConfig)
  decided (err e) = none
  decided (ok none) = none
  decided (ok (some c)) = some (some c)

  -- What a configuration says of its name: nothing, that there is no such server, or which one.
  abbrev pub config_verdict : String → Option ServerConfig → Option (Option ServerConfig)
  config_verdict base none = none
  config_verdict base (some cfg) =
      if cfg.disabled then some none else decided (normalize env base cfg)

  -- What an entry says; a foreign one says nothing unless it is granted.
  unfoldable pub verdict : Bool → String → Value → Option (Option ServerConfig)
  verdict foreign base entry =
      if foreign && not (says "brokerAllowed" entry)
      then none
      else config_verdict base (env.from_value entry)

  abbrev pub override : Option (Option ServerConfig) → Option ServerConfig → Option ServerConfig
  override none old = old
  override (some new) old = new

  -- The entries on a function from names: for each name the last one that says something holds.
  unfoldable pub overlay :
      Bool → String → Fields → (String → Option ServerConfig) → String → Option ServerConfig
  unfolding verdict
  overlay foreign base end f n = f n
  overlay foreign base (field name entry rest) f n =
      overlay foreign base rest
        (λ m. if name == m then override (verdict foreign base entry) (f m) else f m) n

  get-put_server :
      (base name n : String) (cfg : ServerConfig) (out out' : Map String ServerConfig)
      → merge_config env base name cfg out ≡ ok out'
      → get n out'
        ≡ (if name == n then override (config_verdict base (some cfg)) (get n out) else get n out)
  unfolding merge_config
  get-put_server base name n cfg out out' h = elim (Bool-cases cfg.disabled) [
    | inl off ↦ ground (arith, h, off, get-remove name n out)
    | inr on ↦ elim (Result-cases (normalize env base cfg)) [
      | inl (none, e) ↦ ground (arith, h, on, e)
      | inl (some c, e) ↦ ground (arith, h, on, e, get-insert name n c out)
      | inr (x, e) ↦ ground (arith, h, on, e)
    ]
  ]

  get-merge_entry :
      (foreign : Bool) (base name n : String) (entry : Value) (out out' : Map String ServerConfig)
      → merge_entry env foreign base name entry out ≡ ok out'
      → get n out'
        ≡ (if name == n then override (verdict foreign base entry) (get n out) else get n out)
  unfolding merge_entry verdict
  get-merge_entry foreign base name n entry out out' h =
      elim (Bool-cases (foreign && not (says "brokerAllowed" entry))) [
        | inl inert ↦ ground (arith, h, inert)
        | inr read ↦ elim (Option-cases (env.from_value entry)) [
          | inl e ↦ ground (arith, h, read, e)
          | inr (cfg, e) ↦ ground (arith, h, read, e, get-put_server base name n cfg out out')
        ]
      ]

  overlay-ext :
      (foreign : Bool) (base : String) (fs : Fields) (f g : String → Option ServerConfig)
      (n : String)
      → ((m : String) → f m ≡ g m)
      → overlay foreign base fs f n ≡ overlay foreign base fs g n
  unfolding overlay
  overlay-ext foreign base end f g n h = h n
  overlay-ext foreign base (field name entry rest) f g n h =
      overlay-ext foreign base rest _ _ n (λ m.
        ap (λ old. if name == m then override (verdict foreign base entry) old else old) (h m))

  -- A merge that succeeds is the overlay: read at any name, the map after it is the function before it
  -- with each entry's verdict in turn. So entries that are not granted change nothing, a disabled one
  -- takes its server away, and of several for one name the last that says something holds.
  pub merge_refines :
      (foreign : Bool) (base : String) (fs : Fields) (out out' : Map String ServerConfig)
      (n : String)
      → merge env foreign base (some (object fs)) out ≡ ok out'
      → get n out' ≡ overlay foreign base fs (λ m. get m out) n
  unfolding merge merge_fields overlay
  merge_refines foreign base end out out' n h = ground (arith, h)
  merge_refines foreign base (field name entry rest) out out' n h =
      let (mid, later, first) = ok-chain _ (merge_entry env foreign base name entry out) out' h in
      merge_refines foreign base rest mid out' n later
      ∙ overlay-ext foreign base rest _ _ n
          (λ m. get-merge_entry foreign base name m entry out mid first)
