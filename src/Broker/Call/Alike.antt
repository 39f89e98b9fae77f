-- ===== src/Broker/Call/Alike.antt =====
-- What a session and a catalogue leave of the broker (native/src/broker.rs).
use repl_mcp.Base.{
  Bool, ℕ, List, ◌≡◌, String, ok, Result, find, Option, some, Result-cases, ok-chain, true,
  refuse_if, inl, ◌∷◌, err, Bool-cases, ◌∙◌, arith, inr, [], refl, none, string_eq, Option-cases,
  false, length, ◌≤◌, ◌++◌, subst, sym, ap,
}
use repl_mcp.Broker.Transports.{
  claim, Broker, session, Attempt, Fault, Session, is_cooling, settle, live_at, refused,
  recently_failed, connected, retire, not_locked,
}
use repl_mcp.Json.{Value}
use repl_mcp.Broker.Catalogue.{cached_or, tools}

-- The same registry, and no error of it that was not there.
abbrev pub AreAlike : Broker → Broker → Type 0
AreAlike b c = (b.registry ≡ c.registry) × (b.config_error ≡ c.config_error)

settle-AreAlike :
    (now : ℕ) (key : String) (attempt : Attempt) (b : Broker) (live : Option Session)
    → AreAlike b (settle now key attempt b live).1
settle-AreAlike now key not_locked b live = (refl, refl)
settle-AreAlike now key (refused e) b none = (refl, refl)
settle-AreAlike now key (connected id) b none = (refl, refl)
settle-AreAlike now key (refused e) b (some s) = elim (Bool-cases s.closed) [
  | inl gone ↦ rw gone (refl, refl)
  | inr still ↦ rw still (refl, refl)
]
settle-AreAlike now key (connected id) b (some s) = elim (Bool-cases s.closed) [
  | inl gone ↦ rw gone (refl, refl)
  | inr still ↦ rw still (refl, refl)
]

pub AreAlike-trans : (a b c : Broker) → AreAlike a b → AreAlike b c → AreAlike a c
AreAlike-trans a b c (registry, error) (registry', error') = (registry ∙ registry', error ∙ error')

claim-AreAlike : (now : ℕ) (key : String) (b c : Broker) → claim now key b ≡ ok c → AreAlike b c
unfolding claim
claim-AreAlike now key b c h =
    let (u, later, cool) =
      ok-chain _ (refuse_if (is_cooling now (repl_mcp.Base.Map.get key b.failures)) recently_failed)
        c h in
    let (m, last, retired) = ok-chain _ (retire key b.sessions) c later in
    (ground (arith, last), ground (arith, last))

pub session-AreAlike :
    (now : ℕ) (key : String) (attempt : Attempt) (b : Broker)
    → AreAlike b (session now key attempt b).1
unfolding session
session-AreAlike now key attempt b = elim (Result-cases (claim now key b)) [
  | inl (c, e) ↦
      let (r, x) = claim-AreAlike now key b c e in
      let (r', x') = settle-AreAlike now key attempt c (live_at key c) in
      rw (e, session) (r ∙ r', x ∙ x')
  | inr (x, e) ↦ rw (e, session) (refl, refl)
]

cached_or-AreAlike :
    (now : ℕ) (key : String) (listed : Result Fault (List Value)) (b : Broker)
    (hit : Option (ℕ × List Value))
    → AreAlike b (cached_or now key listed b hit).1
cached_or-AreAlike now key (err e) b none = (refl, refl)
cached_or-AreAlike now key (ok ts) b none = (refl, refl)
cached_or-AreAlike now key (err e) b (some (at, old)) = (ground arith, ground arith)
cached_or-AreAlike now key (ok ts) b (some (at, old)) = (ground arith, ground arith)

pub tools-AreAlike :
    (now : ℕ) (key : String) (listed : Result Fault (List Value)) (b : Broker)
    → AreAlike b (tools now key listed b).1
unfolding tools
tools-AreAlike now key listed b =
    cached_or-AreAlike now key listed b (repl_mcp.Base.Map.get key b.catalogue)
