-- ===== src/Broker/Transports/Refreshed.antt =====
-- The transports after a refresh (native/src/broker.rs, `refresh`).
use repl_mcp.Broker.Transports.{
  invalidate_all, invalidate, Broker, has_key, Slot, keys, refresh, kept,
}
use repl_mcp.Base.{
  List, String, ◌≡◌, if◌then◌else◌, none, ◌∷◌, arith, string_eq, [], refl, Bool, Option, retain,
  ◌&&◌, ℕ, ap, ok, err, some, not,
}
use repl_mcp.Base.Map.{get, get-remove, Map, contains_key, contains_key-get}
use repl_mcp.Config.Types.{ServerConfig, Registry}

-- Several keys taken out, one after another.
get-invalidate_all :
    (ks : List String) (b : Broker) (key : String)
    → get key (invalidate_all ks b).sessions ≡ (if has_key ks key then none else get key b.sessions)
unfolding invalidate_all invalidate
get-invalidate_all [] b key = refl
get-invalidate_all (k ∷ ks) b key =
    ground (arith, get-invalidate_all ks (invalidate k b) key, get-remove k key b.sessions)

-- The keys of a map.
has_key-keys : (m : Map String Slot) (key : String) → has_key (keys m) key ≡ contains_key key m
has_key-keys [] key = refl
has_key-keys ((k, slot) ∷ rest) key = ground (arith, has_key-keys rest key)

has_key-retain :
    (p : String → Bool) (ks : List String) (key : String)
    → has_key (retain p ks) key ≡ (p key && has_key ks key)
has_key-retain p [] key = ground arith
has_key-retain p (k ∷ ks) key =
    ground (arith, has_key-retain p ks key, string_eq.test_iff k key, ap p)

invalidate_all-registry :
    (ks : List String) (b : Broker) → (invalidate_all ks b).registry ≡ b.registry
unfolding invalidate_all invalidate
invalidate_all-registry [] b = refl
invalidate_all-registry (k ∷ ks) b = invalidate_all-registry ks (invalidate k b)

invalidate_all-error :
    (ks : List String) (b : Broker) → (invalidate_all ks b).config_error ≡ b.config_error
unfolding invalidate_all invalidate
invalidate_all-error [] b = refl
invalidate_all-error (k ∷ ks) b = invalidate_all-error ks (invalidate k b)

module _ (to_string : ServerConfig → Option String) where
  -- After a refresh that loaded a registry, the broker grants what it grants: the transports that one of
  -- its servers uses stay as they are, all others are gone, and so are all remembered failures and
  -- catalogues. After one that failed, the broker has the error and no server and no transport at all.
  pub refresh_lem :
      (now : ℕ) (b : Broker) (next : Registry) (error key : String)
      → let fresh = (refresh to_string now (ok next) b).1 in
        let failed = (refresh to_string now (err error) b).1 in
        (fresh.registry ≡ next)
        × (fresh.config_error ≡ none)
        × (get key fresh.sessions
            ≡ (if has_key (kept to_string next.servers) key then get key b.sessions else none))
        × (fresh.failures ≡ [])
        × (fresh.catalogue ≡ [])
        × (failed.registry.servers ≡ [])
        × (failed.config_error ≡ some error)
        × (get key failed.sessions ≡ none)
        × (failed.catalogue ≡ [])
  unfolding refresh
  refresh_lem now b next error key =
      let ks = keys b.sessions in
      let p = λ (k : String). not (has_key (kept to_string next.servers) k) in
      let cleared : Broker = record b {
        config_error = some error;
        registry = record b.registry { servers = [] };
      } in
      (
        refl,
        refl,
        ground (
          arith,
          get-invalidate_all (retain p ks) b key,
          has_key-retain p ks key,
          has_key-keys b.sessions key,
          contains_key-get key b.sessions,
        ),
        refl,
        refl,
        ap (λ (r : Registry). r.servers) (invalidate_all-registry ks cleared),
        invalidate_all-error ks cleared,
        ground (
          arith,
          get-invalidate_all ks cleared key,
          has_key-keys b.sessions key,
          contains_key-get key b.sessions,
        ),
        refl,
      )
