-- ===== src/Sessions/Lifecycle.antt =====
-- Opening and closing of sessions (native/src/sessions.rs).

-- What a close that succeeds leaves.
use repl_mcp.Artifacts.Registry.{register_run, remove_owner}
use repl_mcp.Base.{
  String, some, ◌≡◌, ℕ, Option, ok, err, ◌⊎◌, false, string_eq, Bool-cases, none, ◌∷◌, ◌==◌, arith,
  inl, inr, [], refl, Option-cases, Result, List, ==_refl, All, ap, Bytes, ◌<◌, ◌||◌, ◌-◌, ltb, leb,
  nat_eq, length, Result-cases,
}
use repl_mcp.Sessions.{
  finish_close, close, detach, get_session, SessionManager, uses_project, open_session, begin_open,
  then_close, Session, release, install, registered, share_broker, drain_sessions,
  close_supervisors, drain_brokers, then_open, with_artifacts,
}
use repl_mcp.Base.Map.{Map, remove, contains_key, get, get-remove, get-insert}
use repl_mcp.Sessions.Prepare.{Error, not_found, System, Prepared}
use repl_mcp.Artifacts.State.{Store, owner_closed}
use repl_mcp.Sessions.Sound.{
  Op, installs_id, steps, step, begins, installs, detaches, finishes, releases, drains_sessions,
  closes_supervisors, drains_brokers,
}

abbrev pub IsClosed : String → SessionManager → SessionManager → Type 0
IsClosed id m m' =
    (get_session (some id) m' ≡ err not_found)
    × ((j : String) → (id == j) ≡ false → get_session (some j) m' ≡ get_session (some j) m)
    × ((run : String) → register_run id run m'.artifacts ≡ (err owner_closed, m'.artifacts))

detached :
    (id : String) (m : SessionManager) (broker : Option ℕ)
    → (detach id m).0 ≡ ok broker
    → (detach id m).1.sessions ≡ remove id m.sessions
unfolding detach
detached id m broker h = elim (Bool-cases (id == m.default_id)) [
  | inl default ↦ ground arith
  | inr other ↦ elim (Option-cases (get id m.sessions)) [
    | inl none_there ↦ ground arith
    | inr (x, there) ↦ elim (Bool-cases (uses_project x.project (remove id m.sessions))) [
      | inl used ↦ rw (other, there, used) refl
      | inr unused ↦ rw (other, there, unused) refl
    ]
  ]
]

refused :
    (id : String) (m : SessionManager) (e : Error) → (detach id m).0 ≡ err e → (detach id m).1 ≡ m
unfolding detach
refused id m e h = elim (Bool-cases (id == m.default_id)) [
  | inl default ↦ rw default refl
  | inr other ↦ elim (Option-cases (get id m.sessions)) [
    | inl none_there ↦ rw (other, none_there) refl
    | inr (x, there) ↦ ground arith
  ]
]

contains_key-remove : (id : String) (m : Map String ℕ) → contains_key id (remove id m) ≡ false
contains_key-remove id [] = refl
contains_key-remove id ((j, v) ∷ m) = ground (arith, contains_key-remove id m)

no_run_after :
    (id run : String) (s : Store)
    → register_run id run (remove_owner id s).1 ≡ (err owner_closed, (remove_owner id s).1)
unfolding register_run remove_owner
no_run_after id run s = rw (contains_key-remove id s.owners, register_run) refl

finish_close-IsClosed :
    (id : String) (broker : Option ℕ) (m m' : SessionManager)
    → m'.sessions ≡ remove id m.sessions
    → IsClosed id m (finish_close id broker m')
unfolding finish_close get_session
finish_close-IsClosed id none m m' e = (
  ground (arith, e, get-remove id id m.sessions, ==_refl id),
  (λ j apart. ground (arith, e, get-remove id j m.sessions)),
  (λ run. no_run_after id run m'.artifacts),
)
finish_close-IsClosed id (some b) m m' e = (
  ground (arith, e, get-remove id id m.sessions, ==_refl id),
  (λ j apart. ground (arith, e, get-remove id j m.sessions)),
  (λ run. no_run_after id run m'.artifacts),
)

-- How a close ends.
abbrev pub Closing : String → SessionManager → Result Error (Unit {0}) × SessionManager → Type 0
Closing id m out = ((out.0 ≡ ok tt) × IsClosed id m out.1) ⊎ ((e : Error) × (out ≡ (err e, m)))

then_close-Closing :
    (id : String) (m : SessionManager) (out : Result Error (Option ℕ) × SessionManager)
    → ((b : Option ℕ) → out.0 ≡ ok b → out.1.sessions ≡ remove id m.sessions)
    → ((e : Error) → out.0 ≡ err e → out.1 ≡ m)
    → Closing id m (then_close id out)
then_close-Closing id m (ok b, m') done kept =
    inl (refl, finish_close-IsClosed id b m m' (done b refl))
then_close-Closing id m (err e, m') done kept = inr (e, ap (λ n. (err e, n)) (kept e refl))

-- Closing a session either succeeds: it is not found any more, every other session is found as before,
-- and its artifact owner can start no further run; or it fails and nothing has changed.
pub close-Closing : (id : String) (m : SessionManager) → Closing id m (close id m)
unfolding close
close-Closing id m = then_close-Closing id m (detach id m) (detached id m) (refused id m)

-- What an open with an id that was not in use leaves.
abbrev pub Opening : String → SessionManager → Result Error Session × SessionManager → Type 0
Opening id m (err e, m') = (m'.sessions ≡ m.sessions) × (m'.opening ≡ m.opening)
Opening id m (ok x, m') =
    (get_session (some id) m' ≡ ok x)
    × ((j : String) → (id == j) ≡ false → get_session (some j) m' ≡ get_session (some j) m)
    × (get x.project m'.brokers ≡ some x.broker)
    × (m'.opening ≡ m.opening)

registered-Opening :
    (id : String) (x : Session) (r : Result repl_mcp.Artifacts.State.Error (Unit {0}))
    (m0 m : SessionManager)
    → m0.sessions ≡ m.sessions
    → m0.opening ≡ m.opening
    → get x.project m0.brokers ≡ some x.broker
    → Opening id m (registered id x r m0)
unfolding get_session
registered-Opening id x (err e) m0 m same permit filed = (same, permit)
registered-Opening id x (ok u) m0 m same permit filed = (
  ground (arith, get-insert id id x m0.sessions, ==_refl id),
  (λ j apart. ground (arith, same, get-insert id j x m0.sessions)),
  filed,
  permit,
)

share_broker_filed :
    (project : String) (m : SessionManager)
    → ((share_broker project m).1.sessions ≡ m.sessions)
      × ((share_broker project m).1.opening ≡ m.opening)
      × (get project (share_broker project m).1.brokers ≡ some (share_broker project m).0)
unfolding share_broker
share_broker_filed project m = elim (Option-cases (get project m.brokers)) [
  | inl none_yet ↦
      rw (none_yet, share_broker)
        (
          refl,
          refl,
          ground (arith, get-insert project project m.next_broker m.brokers, ==_refl project),
        )
  | inr (b, there) ↦ rw (there, share_broker) (refl, refl, there)
]

install-Opening :
    (id name : String) (p : Prepared) (m : SessionManager) → Opening id m (install id name p m)
unfolding install
install-Opening id name p m = elim (Bool-cases (leb 32 (length m.sessions))) [
  | inl full ↦ rw full (refl, refl)
  | inr room ↦
      let (same, permit, filed) = share_broker_filed p.project m in
      rw room (
        registered-Opening id _ _ (with_artifacts _ (share_broker p.project m).1) m same permit
          filed)
]

released-Opening :
    (id : String) (m : SessionManager) (out : Result Error Session × SessionManager)
    → 0 < m.opening
    → Opening id (record m { opening = m.opening - 1 }) out
    → Opening id m (out.0, release out.1)
unfolding release get_session
released-Opening id m (err e, m') some_left (same, permit) = (same, omega arith)
released-Opening id m (ok x, m') some_left (found, others, filed, permit) =
    (found, others, filed, omega arith)

then_open-Opening :
    (id name : String) (p : Result Error Prepared) (m : SessionManager)
    → 0 < m.opening
    → Opening id m (then_open id name p (ok tt, record m { opening = m.opening - 1 }))
then_open-Opening id name (err e) m some_left =
    released-Opening id m (err e, record m { opening = m.opening - 1 }) some_left (refl, refl)
then_open-Opening id name (ok p) m some_left =
    released-Opening id m _ some_left
      (install-Opening id name p (record m { opening = m.opening - 1 }))

-- Opening a session either fails, and then no session is added and the permit is back; or it succeeds,
-- and then the session is found under its id, with the broker that is filed for its project, every
-- other session is found as before, and the permit is back.
pub open_session-Opening :
    (sys : System) (id name project : String) (python : Option String) (default_python : String)
    (chunks : List Bytes) (m : SessionManager)
    → Opening id m (open_session sys id name project python default_python chunks m)
unfolding open_session begin_open
open_session-Opening sys id name project python default_python chunks m =
    elim (Bool-cases (sys.byte_len name == 0 || ltb 128 (sys.byte_len name))) [
      | inl bad ↦ rw bad (refl, refl)
      | inr fine ↦ elim (Bool-cases (m.opening == 0)) [
        | inl busy ↦ rw (fine, busy) (refl, refl)
        | inr free ↦
            rw (fine, free)
              (then_open-Opening id name _ m (ground (arith, nat_eq.test_iff m.opening 0)))
      ]
    ]

begin_open-sessions :
    (sys : System) (name : String) (m : SessionManager)
    → (begin_open sys name m).1.sessions ≡ m.sessions
unfolding begin_open
begin_open-sessions sys name m =
    elim (Bool-cases (sys.byte_len name == 0 || ltb 128 (sys.byte_len name))) [
      | inl bad ↦ rw bad refl
      | inr fine ↦ elim (Bool-cases (m.opening == 0)) [
        | inl busy ↦ rw (fine, busy) refl
        | inr free ↦ rw (fine, free) refl
      ]
    ]

not_opened :
    (id j : String) (m : SessionManager) (out : Result Error Session × SessionManager)
    → (j == id) ≡ false
    → Opening j m out
    → get id m.sessions ≡ none
    → get id out.1.sessions ≡ none
unfolding get_session
not_opened id j m (err e, m') apart (same, permit) gone = rw same gone
not_opened id j m (ok x, m') apart (found, others, filed, permit) gone =
    ground (arith, others id apart, gone)

step-absent :
    (id : String) (op : Op) (m : SessionManager)
    → installs_id id op ≡ false
    → get id m.sessions ≡ none
    → get id (step op m).sessions ≡ none
unfolding step release finish_close drain_sessions close_supervisors drain_brokers
step-absent id (begins sys name) m fresh gone = rw (begin_open-sessions sys name m) gone
step-absent id releases m fresh gone = gone
step-absent id drains_sessions m fresh gone = refl
step-absent id (closes_supervisors ids) m fresh gone = gone
step-absent id drains_brokers m fresh gone = gone
step-absent id (installs j name p) m fresh gone =
    not_opened id j m (install j name p m) fresh (install-Opening j name p m) gone
step-absent id (detaches j) m fresh gone = elim (Result-cases (detach j m).0) [
  | inl (b, done) ↦ rw (detached j m b done) (ground (arith, get-remove j id m.sessions, gone))
  | inr (e, kept) ↦ rw (refused j m e kept) gone
]
step-absent id (finishes j none) m fresh gone = gone
step-absent id (finishes j (some b)) m fresh gone = gone

steps-absent :
    (id : String) (ops : List Op) (m : SessionManager)
    → All (λ op. installs_id id op ≡ false) ops
    → get id m.sessions ≡ none
    → get id (steps ops m).sessions ≡ none
unfolding steps
steps-absent id [] m fresh gone = gone
steps-absent id (op ∷ ops) m fresh gone =
    steps-absent id ops (step op m) fresh.1 (step-absent id op m fresh.0 gone)

-- A session that was closed is never found again, whatever happens later, since the ids of new
-- sessions are fresh.
pub closed_final :
    (id : String) (m : SessionManager) (broker : Option ℕ) (ops : List Op)
    → (detach id m).0 ≡ ok broker
    → All (λ op. installs_id id op ≡ false) ops
    → get_session (some id) (steps ops (detach id m).1) ≡ err not_found
unfolding get_session
closed_final id m broker ops gone fresh =
    rw
      (steps-absent id ops (detach id m).1 fresh
        (rw (detached id m broker gone) (ground (arith, get-remove id id m.sessions, ==_refl id))))
      refl
