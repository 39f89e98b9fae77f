-- ===== src/Config/Merge/Origin.antt =====
-- Where the servers of a registry come from (native/src/config.rs, `merge`).
use repl_mcp.Base.Map.{Map, All-insert, remove, All-remove}
use repl_mcp.Config.Types.{Env, ServerConfig}
use repl_mcp.Base.{
  Bool, String, ◌≡◌, Option, ◌&&◌, Result, some, All, not, ok, subst, Bool-cases, inl, false, true,
  ok-chain, arith, none, inr, Option-cases, string_eq, refl, Result-cases, ◌∙◌, ap, ◌⊎◌,
}
use repl_mcp.Json.{Value, Fields, field, end, object, bool, unsigned, number, str, array, null}
use repl_mcp.Config.Merge.{merge_entry, merge_fields, merge_config, says, put_server, merge}
use repl_mcp.Config.Expand.{ConfigError}
use repl_mcp.Config.Normal.{normalize}

ok_inj :
    (a b : Map String ServerConfig)
    → ◌≡◌ {A = Result ConfigError (Map String ServerConfig)} (ok a) (ok b)
    → a ≡ b
ok_inj a b h = cc

-- An entry stands among the entries of a registry.
abbrev pub IsField : Value → Fields → Type 0
IsField entry end = ⊥
IsField entry (field name e rest) = (e ≡ entry) ⊎ IsField entry rest

abbrev pub IsListed : Value → Option Value → Type 0
IsListed entry (some (object fields)) = IsField entry fields
IsListed entry _ = ⊥

module _ (env : Env) where
  -- An entry that gives this configuration, granted if it is foreign.
  pub record Origin (foreign : Bool) (base : String) (c : ServerConfig) : Type 0 where
    pub entry : Value
    pub cfg : ServerConfig
    pub granted : (foreign && not (says "brokerAllowed" entry)) ≡ false
    pub given : env.from_value entry ≡ some cfg
    pub enabled : cfg.disabled ≡ false
    pub normal : normalize env base cfg ≡ ok (some c)

  module _ (P : ServerConfig → Type 0) (foreign : Bool) (base : String) (Held : Value → Type 0)
      (kept : (c : ServerConfig) (o : Origin foreign base c) → Held o.entry → P c) where
    put-All :
        (name : String) (out : Map String ServerConfig) (made : Option ServerConfig)
        → ((c : ServerConfig) → made ≡ some c → P c)
        → All (λ s. P s.1) out
        → All (λ s. P s.1) (put_server env name out made)
    put-All name out none new a = a
    put-All name out (some c) new a = All-insert P name c out (new c refl) a

    removed :
        (name : String) (entry : Value) (out out' : Map String ServerConfig) (cfg : ServerConfig)
        → merge_entry env foreign base name entry out ≡ ok out'
        → (foreign && not (says "brokerAllowed" entry)) ≡ false
        → env.from_value entry ≡ some cfg
        → cfg.disabled ≡ true
        → remove name out ≡ out'
    unfolding merge_entry merge_config
    removed name entry out out' cfg h read e off = ground (arith, h, read, e, off)

    added :
        (name : String) (entry : Value) (out out' : Map String ServerConfig) (cfg : ServerConfig)
        (made : Option ServerConfig)
        → merge_entry env foreign base name entry out ≡ ok out'
        → (foreign && not (says "brokerAllowed" entry)) ≡ false
        → env.from_value entry ≡ some cfg
        → cfg.disabled ≡ false
        → normalize env base cfg ≡ ok made
        → put_server env name out made ≡ out'
    unfolding merge_entry merge_config
    added name entry out out' cfg made h read e on n = ground (arith, h, read, e, on, n)

    merge_entry-All :
        (name : String) (entry : Value) (out out' : Map String ServerConfig)
        → Held entry
        → All (λ s. P s.1) out
        → merge_entry env foreign base name entry out ≡ ok out'
        → All (λ s. P s.1) out'
    unfolding merge_entry merge_config
    merge_entry-All name entry out out' held a h =
        elim (Bool-cases (foreign && not (says "brokerAllowed" entry))) [
          | inl inert ↦ subst (All (λ s. P s.1)) (ground (arith, h, inert)) a
          | inr read ↦ elim (Option-cases (env.from_value entry)) [
            | inl e ↦ ground (arith, h, read, e)
            | inr (cfg, e) ↦ elim (Bool-cases cfg.disabled) [
              | inl off ↦
                  subst (All (λ s. P s.1)) (removed name entry out out' cfg h read e off)
                    (All-remove P name out a)
              | inr on ↦ elim (Result-cases (normalize env base cfg)) [
                | inl (made, n) ↦
                    subst (All (λ s. P s.1)) (added name entry out out' cfg made h read e on n) (
                      put-All name out made
                        (λ c same.
                          kept c
                            (record {
                              entry = entry;
                              cfg = cfg;
                              granted = read;
                              given = e;
                              enabled = on;
                              normal = n ∙ ap ok same;
                            })
                            held)
                        a)
                | inr (x, n) ↦ ground (arith, h, read, e, on, n)
              ]
            ]
          ]
        ]

    merge_fields-All :
        (fs : Fields) (out out' : Map String ServerConfig)
        → ((entry : Value) → IsField entry fs → Held entry)
        → All (λ s. P s.1) out
        → merge_fields env foreign base fs out ≡ ok out'
        → All (λ s. P s.1) out'
    unfolding merge_fields
    merge_fields-All end out out' held a h = subst (All (λ s. P s.1)) (ok_inj out out' h) a
    merge_fields-All (field name entry rest) out out' held a h =
        let (mid, later, first) = ok-chain _ (merge_entry env foreign base name entry out) out' h in
        merge_fields-All rest mid out' (λ e there. held e (inr there))
          (merge_entry-All name entry out mid (held entry (inl refl)) a first) later

    pub merge-All :
        (entries : Option Value) (out out' : Map String ServerConfig)
        → ((entry : Value) → IsListed entry entries → Held entry)
        → All (λ s. P s.1) out
        → merge env foreign base entries out ≡ ok out'
        → All (λ s. P s.1) out'
    unfolding merge
    merge-All none out out' held a h = subst (All (λ s. P s.1)) (ok_inj out out' h) a
    merge-All (some (object fields)) out out' held a h = merge_fields-All fields out out' held a h
    merge-All (some null) out out' held a h = cc
    merge-All (some (bool b)) out out' held a h = cc
    merge-All (some (unsigned k)) out out' held a h = cc
    merge-All (some (number k)) out out' held a h = cc
    merge-All (some (str s)) out out' held a h = cc
    merge-All (some (array vs)) out out' held a h = cc
