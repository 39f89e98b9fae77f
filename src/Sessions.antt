-- ===== src/Sessions.antt =====
-- The sessions of native/src/sessions.rs: the map of sessions, the map of the brokers that sessions of
-- one project share, and the artifact store's registrations.
pub mod Prepare
pub mod Sound
pub mod Sharing
pub mod Lifecycle
use repl_mcp.Artifacts.State
use repl_mcp.Sessions.Prepare.{
  System, Prepared, Error, not_found, prepare, default_session, probe_python, session_limit,
  bad_name, opening_capacity, artifact_store,
}
use repl_mcp.Base.{
  Option, map, String, ◌+◌, Result, List, [], ℕ, ◌∷◌, Bool, some, Bytes, err, ok_or, ◌++◌,
  if◌then◌else◌, ◌==◌, ok, none, leb, any, ◌||◌, string_eq, length, ltb, ◌-◌, nat_eq,
}
use repl_mcp.Artifacts.State.{Store}
use repl_mcp.Base.Map.{Map, get, insert, remove}
use repl_mcp.Artifacts.Registry.{register_owner, remove_owner}

-- Session, with the handle of its Arc<Broker>.
pub record Session : Type 0 where
  pub project : String
  pub name : String
  pub python : String
  pub broker : ℕ

pub record SessionManager : Type 0 where
  pub default_id : String
  pub sessions : Map String Session
  pub brokers : Map String ℕ
  pub artifacts : Store
  -- The permits left of `opening`.
  pub opening : ℕ
  -- The sessions whose lifetime was cancelled, and whose supervisor was closed.
  pub cancelled : List String
  pub closed : List String
  -- The brokers that were shut down, and the handle that the next Arc::new gives.
  pub stopped : List ℕ
  pub next_broker : ℕ

-- SessionManager::get
unfoldable pub get_session : Option String → SessionManager → Result Error Session
get_session none m = ok_or (get m.default_id m.sessions) not_found
get_session (some id) m = ok_or (get id m.sessions) not_found

-- The checks of `open` before the blocking job, which takes a permit with it.
unfoldable pub begin_open :
    System → String → SessionManager → Result Error (Unit {0}) × SessionManager
begin_open sys name m =
    if sys.byte_len name == 0 || ltb 128 (sys.byte_len name)
    then (err bad_name, m)
    else if m.opening == 0
    then (err opening_capacity, m)
    else (ok tt, record m { opening = m.opening - 1 })

-- The permit dropped, by `open` or by a job that outlived it.
unfoldable pub release : SessionManager → SessionManager
release m = record m { opening = m.opening + 1 }

-- The broker of the project: the one in the map, or the staged one.
unfoldable pub share_broker : String → SessionManager → ℕ × SessionManager
share_broker project m = elim (get project m.brokers) [
  | some broker ↦ (broker, m)
  | none ↦ (
    m.next_broker,
    record m { brokers = insert project m.next_broker m.brokers; next_broker = m.next_broker + 1 },
  )
]

abbrev pub with_artifacts : Store → SessionManager → SessionManager
with_artifacts store m = record m { artifacts = store }

abbrev pub registered :
    String
    → Session
    → Result State.Error (Unit {0})
    → SessionManager
    → Result Error Session × SessionManager
registered id session (err e) m = (err (artifact_store e), m)
registered id session (ok u) m = (ok session, record m { sessions = insert id session m.sessions })

-- What `open` does under the lock on the sessions, for the fresh session id `id`.
unfoldable pub install :
    String → String → Prepared → SessionManager → Result Error Session × SessionManager
unfolding share_broker
install id name p m =
    if leb 32 (length m.sessions)
    then (err session_limit, m)
    else let (broker, shared) = share_broker p.project m in
      let (outcome, store) = register_owner id shared.artifacts in
      registered id
        (record { project = p.project; name = name; python = p.selected; broker = broker }) outcome
        (with_artifacts store shared)

abbrev pub then_install :
    String → String → Result Error Prepared → SessionManager → Result Error Session × SessionManager
then_install id name (err e) m = (err e, m)
then_install id name (ok p) m = install id name p m

abbrev pub probed : {A : Type 0} → Result Error Prepared → Result Error A → Result Error Prepared
probed (err e) v = err e
probed (ok p) (err e) = err e
probed (ok p) (ok v) = ok p

abbrev pub then_open :
    String
    → String
    → Result Error Prepared
    → Result Error (Unit {0}) × SessionManager
    → Result Error Session × SessionManager
then_open id name p (err e, m) = (err e, m)
then_open id name p (ok u, m) = let (r, m') = then_install id name p m in (r, release m')

-- SessionManager::open, when it runs without another call between its parts.
unfoldable pub open_session :
    System
    → String
    → String
    → String
    → Option String
    → String
    → List Bytes
    → SessionManager
    → Result Error Session × SessionManager
unfolding begin_open release install
open_session sys id name project python default_python chunks m =
    then_open id name (probed (prepare sys python default_python project) (probe_python sys chunks))
      (begin_open sys name m)

-- sessions.values().any(|s| s.project == session.project)
abbrev pub uses_project : String → Map String Session → Bool
uses_project project sessions = any (λ s. s.1.project == project) sessions

-- What `close` does under the lock on the sessions; a broker that it returns is to be shut down.
unfoldable pub detach : String → SessionManager → Result Error (Option ℕ) × SessionManager
detach id m = if id == m.default_id then (err default_session, m) else elim (get id m.sessions) [
  | none ↦ (err not_found, m)
  | some session ↦
      let rest = remove id m.sessions in
      let gone = record m { sessions = rest; cancelled = id ∷ m.cancelled } in
      if uses_project session.project rest then (ok none, gone) else (
        ok (get session.project m.brokers),
        record gone { brokers = remove session.project m.brokers },
      )
]

abbrev pub stop_broker : Option ℕ → SessionManager → SessionManager
stop_broker none m = m
stop_broker (some b) m = record m { stopped = b ∷ m.stopped }

-- The rest of `close`: the supervisor, the artifacts of the owner, the broker.
unfoldable pub finish_close : String → Option ℕ → SessionManager → SessionManager
finish_close id broker m =
    stop_broker broker
      (record m { closed = id ∷ m.closed; artifacts = (remove_owner id m.artifacts).1 })

abbrev pub then_close :
    String → Result Error (Option ℕ) × SessionManager → Result Error (Unit {0}) × SessionManager
then_close id (err e, m) = (err e, m)
then_close id (ok broker, m) = (ok tt, finish_close id broker m)

-- SessionManager::close
unfoldable pub close : String → SessionManager → Result Error (Unit {0}) × SessionManager
unfolding detach finish_close
close id m = then_close id (detach id m)

-- SessionManager::new, from the id that its default session got and its project.
unfoldable pub start : String → String → String → SessionManager
start id project python = record {
  default_id = id;
  sessions = (id, record { project = project; name = "default"; python = python; broker = 0 }) ∷ [];
  brokers = (project, 0) ∷ [];
  artifacts = (register_owner id State.new).1;
  opening = 4;
  cancelled = [];
  closed = [];
  stopped = [];
  next_broker = 1;
}

-- SessionManager::shutdown, in its three parts: the sessions are drained and their lifetimes cancelled;
-- their supervisors are closed; the brokers are drained, under a lock of their own, and shut down.
unfoldable pub drain_sessions : SessionManager → List String × SessionManager
drain_sessions m =
    let ids = map (λ s. s.0) m.sessions in
    (ids, record m { sessions = []; cancelled = ids ++ m.cancelled })

unfoldable pub close_supervisors : List String → SessionManager → SessionManager
close_supervisors ids m = record m { closed = ids ++ m.closed }

unfoldable pub drain_brokers : SessionManager → SessionManager
drain_brokers m = record m { brokers = []; stopped = map (λ b. b.1) m.brokers ++ m.stopped }
