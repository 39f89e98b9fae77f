-- ===== src/Server/Route/Sound.antt =====
-- The session that a call is made for (native/src/server.rs).
use repl_mcp.Server.Route.{
  System, Call, Known, starting, Stop, unwrap, executing, finding, cancelling, forwarding, storing,
  open_call, route, call_of, panicked, session_for, session_key, path_call, lacks_session, resolve,
  is_routed, get_tool, refused, unknown_tool, invalid_arguments, no_session_id, is_bad_u64,
  bad_generation, bad_u64,
}
use repl_mcp.Base.{
  Option, Result, ◌≡◌, Bool, none, some, if◌then◌else◌, ok, true, ◌>>=◌, false, arith, sym, String,
  err, ◌∙◌, ◌==◌, string_eq, ap, refl, ok-chain, refuse_if, ok_or-some, Bool-cases, ok_or, inl,
  Result-cases, subst, inr, not,
}
use repl_mcp.Json.{Value, get_str, Fields, object, set_field, str}
use repl_mcp.Sessions.{SessionManager, get_session, Session}
use repl_mcp.Sessions.Prepare.{not_found}

-- The session of a call.
abbrev pub session_of : Call → Option Known
session_of (starting s run) = some s
session_of (executing s run) = some s
session_of (finding s id) = some s
session_of (cancelling s id) = some s
session_of (forwarding s id format args) = some s
session_of (storing s op params) = some s
session_of _ = none

abbrev Owned : Option Known → Result Stop Call → Type 0
Owned session r =
    (call : Call) (s : Known) → r ≡ ok call → session_of call ≡ some s → session ≡ some s

either-Owned :
    (session : Option Known) (b : Bool) (p q : Result Stop Call)
    → Owned session p
    → Owned session q
    → Owned session (if b then p else q)
either-Owned session true p q first second = first
either-Owned session false p q first second = second

unwrap-Owned :
    (session : Option Known) (f : Known → Result Stop Call)
    → ((s : Known) → Owned (some s) (f s))
    → Owned session (unwrap session >>= f)
unwrap-Owned none f next = λ call s h. absurd (ground (arith, h))
unwrap-Owned (some t) f next = next t

one-Owned : (t : Known) (call : Call) → session_of call ≡ some t → Owned (some t) (ok call)
one-Owned t call owner other s h of =
    let same : call ≡ other = ground (arith, h) in sym owner ∙ (ap session_of same ∙ of)

free-Owned :
    (session : Option Known) (call : Call) → session_of call ≡ none → Owned session (ok call)
free-Owned session call free other s h of =
    let same : call ≡ other = ground (arith, h) in
    absurd (ground (arith, sym free ∙ (ap session_of same ∙ of)))

stop-Owned : (session : Option Known) (e : Stop) → Owned session (err e)
stop-Owned session e call s h = absurd (ground (arith, h))

bind-Owned :
    {A : Type 0} (session : Option Known) (o : Option A) (f : A → Result Stop Call)
    → ((a : A) → Owned session (f a))
    → Owned session (unwrap o >>= f)
bind-Owned session none f next = stop-Owned session panicked
bind-Owned session (some a) f next = next a

module _ (sys : System) (args : Value) where
  open_call-Owned : (session : Option Known) → Owned session (open_call sys args)
  open_call-Owned session =
      bind-Owned session (get_str "name" args) _ (λ name.
        bind-Owned session (get_str "project" args) _ (λ project. free-Owned session _ refl))

  path_call-Owned :
      (op : String) (session : Option Known) → Owned session (path_call sys op session args)
  path_call-Owned op session = unwrap-Owned session _ (λ s.
      bind-Owned (some s) (get_str "path" args) _ (λ path.
        bind-Owned (some s) (resolve sys s path) _ (λ whole.
          bind-Owned (some s) (set_field "path" (str whole) args) _
            (λ params. one-Owned s _ refl))))

  call_of-Owned :
      (name : String) (session : Option Known) → Owned session (call_of sys name session args)
  unfolding call_of
  call_of-Owned name session =
      either-Owned session (name == "python_session_open") _ _ (open_call-Owned session) (
        either-Owned session (name == "python_session_close") _ _
          (bind-Owned session (get_str "session_id" args) _ (λ id. free-Owned session _ refl))
          (either-Owned session (name == "python_session_list") _ _ (free-Owned session _ refl) (
            either-Owned session (name == "python_session_inspect") _ _ (free-Owned session _ refl)
              (either-Owned session (name == "python_health") _ _ (free-Owned session _ refl) (
                either-Owned session (name == "python_start") _ _
                  (unwrap-Owned session _ (λ s. one-Owned s _ refl))
                  (either-Owned session (name == "execute_python") _ _
                    (unwrap-Owned session _ (λ s. one-Owned s _ refl))
                    (either-Owned session (name == "python_execute_file") _ _
                      (unwrap-Owned session _ (λ s.
                        bind-Owned (some s) (get_str "path" args) _ (λ path.
                          bind-Owned (some s) (resolve sys s path) _
                            (λ whole. one-Owned s _ refl))))
                      (either-Owned session (name == "python_run") _ _
                        (unwrap-Owned session _ (λ s. one-Owned s _ refl))
                        (either-Owned session (name == "python_cancel") _ _
                          (unwrap-Owned session _ (λ s. one-Owned s _ refl))
                          (either-Owned session (name == "artifact_forward") _ _
                            (unwrap-Owned session _ (λ s.
                              bind-Owned (some s) (get_str "id" args) _
                                (λ path. one-Owned s _ refl)))
                            (either-Owned session (name == "artifact_create") _ _
                              (path_call-Owned "artifact.create" session)
                              (either-Owned session (name == "artifact_read") _ _
                                (unwrap-Owned session _ (λ s. one-Owned s _ refl))
                                (either-Owned session (name == "artifact_save") _ _
                                  (path_call-Owned "artifact.save" session)
                                  (either-Owned session (name == "artifact_delete") _ _
                                    (unwrap-Owned session _ (λ s. one-Owned s _ refl))
                                    (stop-Owned session panicked)))))))))))))))

  -- The session that the arguments name, or the default session, is the call's.
  abbrev pub Named : SessionManager → Known → Type 0
  Named m s =
      (s.id ≡ session_key (get_str "session_id" args) m)
      × ((found : Session) × (repl_mcp.Base.Map.get s.id m.sessions ≡ some found)
          × (s.project ≡ found.project))

  session_found :
      (key : Option String) (m : SessionManager) (found : Session)
      → get_session key m ≡ ok found
      → repl_mcp.Base.Map.get (session_key key m) m.sessions ≡ some found
  unfolding get_session
  session_found none m found h =
      ok_or-some (repl_mcp.Base.Map.get m.default_id m.sessions) not_found h
  session_found (some id) m found h = ok_or-some (repl_mcp.Base.Map.get id m.sessions) not_found h

  session_for-Named :
      (name : String) (m : SessionManager) (s : Known)
      → session_for name args m ≡ ok (some s)
      → Named m s
  unfolding session_for
  session_for-Named name m s h =
      let key = get_str "session_id" args in
      elim (Bool-cases (is_routed name)) [
        | inl routed ↦ elim (Result-cases (get_session key m)) [
          | inl (found, e) ↦
              let same : record { id = session_key key m; project = found.project } ≡ s =
                ground (arith, simp (routed, e, session_for) at h) in
              subst (Named m) same (refl, (found, session_found key m found e, refl))
          | inr (e, failed) ↦ absurd (ground (arith, simp (routed, failed, session_for) at h))
        ]
        | inr free ↦ absurd (ground (arith, simp (free, session_for) at h))
      ]

-- A call that is made for a session is made for the session that the arguments name, which is open
-- and has the call's project; with no session id that is the default session.
pub route-Named :
    (sys : System) (name : String) (fields : Fields) (latest : Bool) (m : SessionManager)
    (call : Call) (s : Known)
    → route sys name fields latest m ≡ ok call
    → session_of call ≡ some s
    → Named sys (object fields) m s
unfolding route
route-Named sys name fields latest m call s h of =
    let args = object fields in
    let (t, h1, _) = ok-chain _ (ok_or (get_tool name) (refused unknown_tool)) call h in
    let (_, h2, _) =
      ok-chain _ (refuse_if (not (sys.validates t.input_schema args)) (refused invalid_arguments))
        call h1 in
    let (_, h3, _) =
      ok-chain _ (refuse_if (lacks_session sys name latest args) (refused no_session_id)) call h2 in
    let (_, h4, _) =
      ok-chain _ (refuse_if (is_bad_u64 "expected_generation" args) (refused bad_generation)) call
        h3 in
    let (_, h5, _) =
      ok-chain _ (refuse_if (is_bad_u64 "offset" args) (refused (bad_u64 "offset"))) call h4 in
    let (_, h6, _) =
      ok-chain _ (refuse_if (is_bad_u64 "length" args) (refused (bad_u64 "length"))) call h5 in
    let (session, called, given) = ok-chain _ (session_for name args m) call h6 in
    session_for-Named sys args name m s
      (given ∙ ap ok (call_of-Owned sys args name session call s called of))
