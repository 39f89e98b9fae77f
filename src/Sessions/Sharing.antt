-- ===== src/Sessions/Sharing.antt =====
-- Sessions and the brokers of their projects (native/src/sessions.rs).
use repl_mcp.Sessions.{
  drain_sessions, share_broker, install, start, finish_close, get_session, detach, begin_open,
  SessionManager, Session, release, with_artifacts, uses_project, registered, close_supervisors,
}
use repl_mcp.Base.{
  String, List, Option, arith, ℕ, Bool-cases, Result, ◌==◌, some, ◌≡◌, ◌∷◌, ==_refl, leb, [], ok,
  none, string_eq, Option-cases, length, inl, ◌≤◌, inr, ◌↔◌, ◌||◌, false, ltb, err, nat_eq, refl,
  All,
}
use repl_mcp.Sessions.Sound.{
  steps, step, IsSound, Op, begins, installs, detaches, finishes, releases, Owns, drains_sessions,
  drains_brokers, closes_supervisors, is_drain, IsFiled-remove, IsFiled-share, IsFiled-drop,
  IsFiled-insert,
}
use repl_mcp.Sessions.Prepare.{Prepared, System}
use repl_mcp.Base.Map.{get, All-get, get-insert, remove}

installed-IsSound :
    (id : String) (x : Session) (r : Result repl_mcp.Artifacts.State.Error (Unit {0}))
    (m : SessionManager)
    → leb 32 (length m.sessions) ≡ false
    → Owns m.brokers x
    → IsSound m
    → IsSound (registered id x r m).1
installed-IsSound id x (err e) m room own s = s
installed-IsSound id x (ok u) m room own s =
    IsFiled-insert id x m.sessions m.brokers m.next_broker room own s

-- The broker of a project, shared or new.
share_broker-IsSound :
    (project : String) (m : SessionManager)
    → IsSound m
    → IsSound (share_broker project m).1
      × (get project (share_broker project m).1.brokers ≡ some (share_broker project m).0)
      × ((share_broker project m).1.sessions ≡ m.sessions)
unfolding share_broker
share_broker-IsSound project m s = elim (Option-cases (get project m.brokers)) [
  | inl none_yet ↦
      rw (none_yet, share_broker)
        (
          IsFiled-share project m.sessions m.brokers m.next_broker none_yet s,
          ground (arith, get-insert project project m.next_broker m.brokers, ==_refl project),
          refl,
        )
  | inr (b, there) ↦ rw (there, share_broker) (s, there, refl)
]

install-IsSound :
    (id name : String) (p : Prepared) (m : SessionManager)
    → IsSound m
    → IsSound (install id name p m).1
unfolding install
install-IsSound id name p m s = elim (Bool-cases (leb 32 (length m.sessions))) [
  | inl full ↦ rw full s
  | inr room ↦
      let (sound, own, same) = share_broker-IsSound p.project m s in
      rw room (
        installed-IsSound id _ _ (with_artifacts _ (share_broker p.project m).1) (rw same room) own
          sound)
]

detach-IsSound : (id : String) (m : SessionManager) → IsSound m → IsSound (detach id m).1
unfolding detach
detach-IsSound id m s = elim (Bool-cases (id == m.default_id)) [
  | inl default ↦ rw default s
  | inr other ↦ elim (Option-cases (get id m.sessions)) [
    | inl none_there ↦ rw (other, none_there) s
    | inr (x, there) ↦
        let gone = IsFiled-remove id m.sessions m.brokers m.next_broker s in
        elim (Bool-cases (uses_project x.project (remove id m.sessions))) [
          | inl used ↦ rw (other, there, used) gone
          | inr unused ↦
              rw (other, there, unused)
                (IsFiled-drop x.project _ m.brokers m.next_broker unused gone)
        ]
  ]
]

finish_close-IsSound :
    (id : String) (broker : Option ℕ) (m : SessionManager)
    → IsSound m
    → IsSound (finish_close id broker m)
unfolding finish_close
finish_close-IsSound id none m s = s
finish_close-IsSound id (some b) m s = s

begin_open-IsSound :
    (sys : System) (name : String) (m : SessionManager)
    → IsSound m
    → IsSound (begin_open sys name m).1
unfolding begin_open
begin_open-IsSound sys name m s =
    elim (Bool-cases (sys.byte_len name == 0 || ltb 128 (sys.byte_len name))) [
      | inl bad ↦ rw bad s
      | inr fine ↦ elim (Bool-cases (m.opening == 0)) [
        | inl busy ↦ rw (fine, busy) s
        | inr free ↦ rw (fine, free) s
      ]
    ]

drain_sessions-IsSound : (m : SessionManager) → IsSound m → IsSound (drain_sessions m).1
unfolding drain_sessions
drain_sessions-IsSound m s = record {
  limit = omega arith;
  owned = tt;
  handed = s.handed;
  single = s.single;
}

start-IsSound : (id project python : String) → IsSound (start id project python)
unfolding start
start-IsSound id project python = record {
  limit = omega arith;
  owned = (ground (arith, ==_refl project), tt);
  handed = λ p b h. ground arith;
  single = λ p q b h k. ground (arith, string_eq.test_iff project p, string_eq.test_iff project q);
}

step-IsSound :
    (op : Op) (m : SessionManager) → is_drain op ≡ false → IsSound m → IsSound (step op m)
unfolding step release close_supervisors
step-IsSound (begins sys name) m kept s = begin_open-IsSound sys name m s
step-IsSound releases m kept s = s
step-IsSound drains_sessions m kept s = drain_sessions-IsSound m s
step-IsSound (closes_supervisors ids) m kept s = s
step-IsSound drains_brokers m kept s = absurd (ground (arith, kept))
step-IsSound (installs id name p) m kept s = install-IsSound id name p m s
step-IsSound (detaches id) m kept s = detach-IsSound id m s
step-IsSound (finishes id broker) m kept s = finish_close-IsSound id broker m s

steps-IsFiled :
    (ops : List Op) (m : SessionManager)
    → All (λ op. is_drain op ≡ false) ops
    → IsSound m
    → IsSound (steps ops m)
unfolding steps
steps-IsFiled [] m kept s = s
steps-IsFiled (op ∷ ops) m kept s =
    steps-IsFiled ops (step op m) kept.1 (step-IsSound op m kept.0 s)

-- However calls of open, close and shutdown interleave, until a shutdown drains the brokers, its last
-- part, there are at most 32 sessions, and of any two of them the broker is the same exactly when the
-- project is: no broker crosses projects, and no project has two. That includes the sessions opened
-- after a shutdown has drained the earlier ones, while it closes their supervisors.
pub brokers_by_project :
    (id project python : String) (ops : List Op) (i j : String) (x y : Session)
    → All (λ op. is_drain op ≡ false) ops
    → get_session (some i) (steps ops (start id project python)) ≡ ok x
    → get_session (some j) (steps ops (start id project python)) ≡ ok y
    → (length (steps ops (start id project python)).sessions ≤ 32)
      × ((x.broker ≡ y.broker) ↔ (x.project ≡ y.project))
unfolding get_session
brokers_by_project id project python ops i j x y kept hx hy =
    let m = steps ops (start id project python) in
    let s = steps-IsFiled ops _ kept (start-IsSound id project python) in
    let ox = All-get (Owns m.brokers) i x m.sessions s.owned (ground (arith, hx)) in
    let oy = All-get (Owns m.brokers) j y m.sessions s.owned (ground (arith, hy)) in
    (
      s.limit,
      ((λ e. s.single x.project y.project x.broker ox (rw e oy)), (λ e. ground (arith, ox, oy))),
    )
