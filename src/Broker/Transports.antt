-- ===== src/Broker/Transports.antt =====
-- The state of a broker in native/src/broker.rs with its transports and caches: session, invalidate,
-- refresh, refresh_if_due and shutdown. The clock counts milliseconds.
pub mod Claims
pub mod Refreshed
use repl_mcp.Json.{Items, Value}
use repl_mcp.Base.{
  ℕ, Bool, String, Option, List, suc, none, Result, any, true, some, ◌||◌, false, if◌then◌else◌,
  not, string_eq, ◌>>◌, ◌&&◌, ◌==◌, leb, ltb, ◌>>=◌, err, ok, refuse_if, length, nat_eq, ◌-◌,
  retain, ◌∷◌, [],
}
use repl_mcp.Config.Types.{ServerConfig, Registry}
use repl_mcp.Base.Map.{Map, insert, get, remove, contains_key}
use repl_mcp.Broker.Failures.{failure_status}

-- A live transport; `users` counts the owners of its Arc, the slot among them.
pub record Session : Type 0 where
  pub id : ℕ
  pub closed : Bool
  pub users : ℕ

-- Arc<Mutex<Option<..>>>: what it holds, and whether another task has locked it.
pub record Slot : Type 0 where
  pub live : Option Session
  pub locked : Bool

abbrev pub empty_slot : Slot
empty_slot = record { live = none; locked = false }

pub record Broker : Type 0 where
  pub registry : Registry
  pub config_error : Option String
  pub sessions : Map String Slot
  pub failures : Map String (ℕ × String)
  pub catalogue : Map String (ℕ × List Value)
  pub validators : Map String (Value → Bool)
  pub refresh_at : ℕ

-- Broker::new
abbrev pub new : Registry → ℕ → Broker
new registry now = record {
  registry = registry;
  config_error = none;
  sessions = [];
  failures = [];
  catalogue = [];
  validators = [];
  refresh_at = now;
}

pub data Fault : Type 0 where
  no_key recently_failed too_many no_budget no_connection : Fault
  unknown_server bad_timeout bad_tool denied bad_arguments unknown_tool : Fault
  bad_name bad_config bad_page too_large duplicate too_many_tools repeated too_many_pages : Fault
  invalid not_journaled : Fault

abbrev pub slot_limit : ℕ
slot_limit = 32

abbrev pub is_open : Option Session → Bool
is_open none = false
is_open (some s) = not s.closed

-- slot.try_lock().ok(), and guard.as_ref().is_none_or(..)
abbrev pub is_idle : Slot → Bool
is_idle slot = not slot.locked && elim slot.live [ none ↦ true | some s ↦ s.closed || s.users == 1 ]

-- sessions.iter().find_map(..)
unfoldable pub find_idle : Map String Slot → Option String
find_idle [] = none
find_idle ((key, slot) ∷ rest) = if is_idle slot then some key else find_idle rest

-- A transport that makes room for a new one.
unfoldable pub retire : String → Map String Slot → Result Fault (Map String Slot)
unfolding find_idle
retire key sessions =
    if not (contains_key key sessions) && leb slot_limit (length sessions)
    then elim (find_idle sessions) [ none ↦ err too_many | some idle ↦ ok (remove idle sessions) ]
    else ok sessions

-- sessions.entry(key).or_insert_with(..)
abbrev pub entry : String → Map String Slot → Map String Slot
entry key sessions = if contains_key key sessions then sessions else insert key empty_slot sessions

abbrev pub is_cooling : ℕ → Option (ℕ × String) → Bool
is_cooling now none = false
is_cooling now (some (at, status)) = ltb (now - at) 60000

-- The part of `session` up to the slot.
unfoldable pub claim : ℕ → String → Broker → Result Fault Broker
unfolding retire
claim now key b = do
  refuse_if (is_cooling now (get key b.failures)) recently_failed
  sessions ← retire key b.sessions
  ok (record b { sessions = entry key sessions })

-- What becomes of the wait for the slot's lock and of `connect`.
pub data Attempt : Type 0 where
  not_locked : Attempt
  refused : String → Attempt
  connected : ℕ → Attempt

abbrev pub put : String → Option Session → Broker → Broker
put key live b = record b {
  sessions = insert key (record { live = live; locked = false }) b.sessions;
}

abbrev pub shared : Session → Session
shared s = record s { users = suc s.users }

-- Some(session.clone()), which the slot and the caller own.
abbrev pub made : ℕ → Session
made id = record { id = id; closed = false; users = 2 }

-- The connection of a slot that holds no open session.
abbrev pub connect_slot : ℕ → String → Attempt → Broker → Result Fault Session × Broker
connect_slot now key not_locked b = (err no_budget, b)
connect_slot now key (refused error) b = (
  err no_connection,
  record (put key none b) { failures = insert key (now, failure_status error) b.failures },
)
connect_slot now key (connected id) b = (ok (made id), put key (some (made id)) b)

-- The rest of `session`, for what the slot holds.
abbrev pub settle : ℕ → String → Attempt → Broker → Option Session → Result Fault Session × Broker
settle now key not_locked b live = (err no_budget, b)
settle now key attempt b none = connect_slot now key attempt b
settle now key attempt b (some s) =
    if s.closed
    then connect_slot now key attempt b
    else (ok (shared s), put key (some (shared s)) b)

abbrev pub live_at : String → Broker → Option Session
live_at key b = elim (get key b.sessions) [ none ↦ none | some slot ↦ slot.live ]

abbrev pub after_claim :
    ℕ → String → Attempt → Broker → Result Fault Broker → Result Fault Session × Broker
after_claim now key attempt b (err e) = (err e, b)
after_claim now key attempt b (ok b') = settle now key attempt b' (live_at key b')

unfoldable pub session : ℕ → String → Attempt → Broker → Result Fault Session × Broker
unfolding claim failure_status
session now key attempt b = after_claim now key attempt b (claim now key b)

unfoldable pub invalidate : String → Broker → Broker
invalidate key b = record b { catalogue = []; sessions = remove key b.sessions }

unfoldable pub invalidate_all : List String → Broker → Broker
unfolding invalidate
invalidate_all [] b = b
invalidate_all (key ∷ keys) b = invalidate_all keys (invalidate key b)

abbrev pub keys : Map String Slot → List String
keys [] = []
keys ((key, slot) ∷ rest) = key ∷ keys rest

abbrev pub has_key : List String → String → Bool
has_key names key = any (λ k. k == key) names

-- serde_json::to_string of a configuration is a parameter.
module _ (to_string : ServerConfig → Option String) where
  unfoldable pub transport_key : ServerConfig → Option String
  transport_key cfg =
      to_string (record cfg { disabled = false; broker_allowed = false; allowed_tools = none })

  -- next.servers.values().filter_map(..)
  unfoldable pub kept : Map String ServerConfig → List String
  unfolding transport_key
  kept [] = []
  kept ((name, cfg) ∷ rest) = elim (transport_key cfg) [
    | none ↦ kept rest
    | some key ↦ key ∷ kept rest
  ]

  -- What the reload of the registry gave, in its job.
  unfoldable pub refresh : ℕ → Result String Registry → Broker → Result String (Unit {0}) × Broker
  unfolding kept invalidate_all
  refresh now (err error) b =
      let cleared = record b {
        config_error = some error;
        registry = record b.registry { servers = [] };
      } in
      let closed = invalidate_all (keys b.sessions) cleared in
      (err error, record closed { catalogue = []; refresh_at = now })
  refresh now (ok next) b =
      let removed = retain (λ k. not (has_key (kept next.servers) k)) (keys b.sessions) in
      let closed = invalidate_all removed b in
      (
        ok tt,
        record closed {
          registry = next;
          config_error = none;
          catalogue = [];
          failures = [];
          validators = [];
          refresh_at = now;
        },
      )

  unfoldable pub refresh_if_due :
      ℕ → Result String Registry → Broker → Result String (Unit {0}) × Broker
  unfolding refresh
  refresh_if_due now loaded b =
      if leb 30000 (now - b.refresh_at) then refresh now loaded b else (ok tt, b)

-- Broker::shutdown
abbrev pub shutdown : Broker → Broker
shutdown b = record b { sessions = [] }
