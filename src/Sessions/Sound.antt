-- ===== src/Sessions/Sound.antt =====
-- The steps of the session manager and their invariant (native/src/sessions.rs).
use repl_mcp.Base.{
  Bool, true, String, List, ℕ, ◌∷◌, Option, leb, length, ◌≡◌, ◌≤◌, arith, none, All, false, some,
  string_eq, ◌<◌, ◌+◌, [], ◌==◌,
}
use repl_mcp.Sessions.{
  begin_open, SessionManager, Session, release, uses_project, install, detach, finish_close,
  drain_sessions, close_supervisors, drain_brokers,
}
use repl_mcp.Base.Map.{
  Map, remove, get, length-remove-le, All-remove, get-remove, insert, get-insert, length-insert-le,
  All-insert,
}
use repl_mcp.Sessions.Prepare.{System, Prepared}

pub data Op : Type 0 where
  begins : System → String → Op
  releases drains_sessions drains_brokers : Op
  closes_supervisors : List String → Op
  installs : String → String → Prepared → Op
  detaches : String → Op
  finishes : String → Option ℕ → Op

-- The parts of open, close and shutdown, each atomic under its locks, in any interleaving.
unfoldable pub step : Op → SessionManager → SessionManager
unfolding begin_open release install detach finish_close drain_sessions close_supervisors
    drain_brokers
step (begins sys name) m = (begin_open sys name m).1
step releases m = release m
step drains_sessions m = (drain_sessions m).1
step (closes_supervisors ids) m = close_supervisors ids m
step drains_brokers m = drain_brokers m
step (installs id name p) m = (install id name p m).1
step (detaches id) m = (detach id m).1
step (finishes id broker) m = finish_close id broker m

unfoldable pub steps : List Op → SessionManager → SessionManager
unfolding step
steps [] m = m
steps (op ∷ ops) m = steps ops (step op m)

-- Whether a step installs a session under this id.
abbrev pub installs_id : String → Op → Bool
installs_id id (begins sys name) = false
installs_id id releases = false
installs_id id drains_sessions = false
installs_id id (closes_supervisors ids) = false
installs_id id drains_brokers = false
installs_id id (installs j name p) = j == id
installs_id id (detaches j) = false
installs_id id (finishes j broker) = false

-- Whether a step is the last part of a shutdown.
abbrev pub is_drain : Op → Bool
is_drain drains_brokers = true
is_drain _ = false

abbrev pub Owns : Map String ℕ → Session → Type 0
Owns brokers x = get x.project brokers ≡ some x.broker

pub record IsFiled (sessions : Map String Session) (brokers : Map String ℕ) (next : ℕ)
    : Type 0 where
  pub limit : length sessions ≤ 32
  pub owned : All (λ s. Owns brokers s.1) sessions
  pub handed : (p : String) (b : ℕ) → get p brokers ≡ some b → b < next
  pub single : (p q : String) (b : ℕ) → get p brokers ≡ some b → get q brokers ≡ some b → p ≡ q

abbrev pub IsSound : SessionManager → Type 0
IsSound m = IsFiled m.sessions m.brokers m.next_broker

-- A broker put in for a project that has none.
Owns-insert :
    (p : String) (b : ℕ) (brokers : Map String ℕ) (sessions : Map String Session)
    → get p brokers ≡ none
    → All (λ s. Owns brokers s.1) sessions
    → All (λ s. Owns (insert p b brokers) s.1) sessions
Owns-insert p b brokers [] fresh a = tt
Owns-insert p b brokers ((id, x) ∷ rest) fresh a = (
  ground (arith, a.0, get-insert p x.project b brokers, string_eq.test_iff p x.project),
  Owns-insert p b brokers rest fresh a.1,
)

-- A broker taken out for a project that no session uses.
Owns-remove :
    (p : String) (brokers : Map String ℕ) (sessions : Map String Session)
    → uses_project p sessions ≡ false
    → All (λ s. Owns brokers s.1) sessions
    → All (λ s. Owns (remove p brokers) s.1) sessions
Owns-remove p brokers [] unused a = tt
Owns-remove p brokers ((id, x) ∷ rest) unused a = (
  ground (
    arith,
    a.0,
    get-remove p x.project brokers,
    string_eq.test_iff p x.project,
    string_eq.test_iff x.project p,
  ),
  Owns-remove p brokers rest (ground (arith, unused)) a.1,
)

pub IsFiled-share :
    (p : String) (sessions : Map String Session) (brokers : Map String ℕ) (next : ℕ)
    → get p brokers ≡ none
    → IsFiled sessions brokers next
    → IsFiled sessions (insert p next brokers) (next + 1)
IsFiled-share p sessions brokers next fresh s = record {
  limit = s.limit;
  owned = Owns-insert p next brokers sessions fresh s.owned;
  handed = λ q b h. ground (arith, s.handed q b, get-insert p q next brokers);
  single = λ q r b hq hr. ground (
    arith,
    s.single q r b,
    s.handed q b,
    s.handed r b,
    get-insert p q next brokers,
    get-insert p r next brokers,
    string_eq.test_iff p q,
    string_eq.test_iff p r,
  );
}

pub IsFiled-insert :
    (id : String) (x : Session) (sessions : Map String Session) (brokers : Map String ℕ) (next : ℕ)
    → leb 32 (length sessions) ≡ false
    → get x.project brokers ≡ some x.broker
    → IsFiled sessions brokers next
    → IsFiled (insert id x sessions) brokers next
IsFiled-insert id x sessions brokers next room own s = record {
  limit = ground (arith, room, length-insert-le id x sessions);
  owned = All-insert (Owns brokers) id x sessions own s.owned;
  handed = s.handed;
  single = s.single;
}

pub IsFiled-remove :
    (id : String) (sessions : Map String Session) (brokers : Map String ℕ) (next : ℕ)
    → IsFiled sessions brokers next
    → IsFiled (remove id sessions) brokers next
IsFiled-remove id sessions brokers next s = record {
  limit = omega (arith, s.limit, length-remove-le id sessions);
  owned = All-remove (Owns brokers) id sessions s.owned;
  handed = s.handed;
  single = s.single;
}

pub IsFiled-drop :
    (p : String) (sessions : Map String Session) (brokers : Map String ℕ) (next : ℕ)
    → uses_project p sessions ≡ false
    → IsFiled sessions brokers next
    → IsFiled sessions (remove p brokers) next
IsFiled-drop p sessions brokers next unused s = record {
  limit = s.limit;
  owned = Owns-remove p brokers sessions unused s.owned;
  handed = λ q b h. ground (arith, s.handed q b, get-remove p q brokers);
  single =
      λ q r b hq hr. ground (arith, s.single q r b, get-remove p q brokers, get-remove p r brokers);
}
