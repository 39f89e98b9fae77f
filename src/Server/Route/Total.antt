-- ===== src/Server/Route/Total.antt =====
-- What panics while a call of a listed tool is routed (native/src/server.rs).
use repl_mcp.Json.{Value, Fields, get, object, get_str, lookup, put_field, end, get-put_field}
use repl_mcp.Server.Route.{
  System, Stop, unwrap, call_of, Known, is_routed, refused, path_call, health, get_tool,
  session_for, route, listing, unknown_tool, invalid_arguments, lacks_session, no_session_id,
  session_key, bad_session, is_bad_u64, bad_generation, bad_u64, forwarded_arguments, Call,
  panicked, resolve,
}
use repl_mcp.Base.{
  Option, String, Bool, Result, ok, some, ◌≡◌, arith, refuse_if, ◌>>=◌, ok_or, All, true, refl,
  none, ◌==◌, not, ==_sound, string_eq, Bool-cases, Result-cases, find_sound, subst, inl, All-find,
  inr, sym, ◌∙◌, ap, ok-chain, ==_refl, ok_or-some, if◌then◌else◌, err, false,
}
use repl_mcp.Server.Tools.{Tool, build_tools}
use repl_mcp.Sessions.{SessionManager, get_session}
use repl_mcp.Config.Normal.{or_else}
use repl_mcp.Server.Route.Schema.{IsValidator, requires, type_of}
use repl_mcp.Server.Route.Safe.{
  not_refused, IsSafe, IsSafe-ok, IsSafe-bind, IsSafe-refused, IsSafe-unwrap, IsSafe-ok_or,
  IsSafe-refuse_if, IsSafe-then,
}

pub given_fields :
    (o : Option Value)
    → ((v : Value) → o ≡ some v → (inner : Fields) × (v ≡ object inner))
    → (inner : Fields) × (or_else o (object end) ≡ object inner)
given_fields none typed = (end, refl)
given_fields (some v) typed = typed v refl

-- The path of the arguments is relative, and below the project of the session that they name it makes
-- a path that is not UTF-8.
abbrev pub Blocked : System → Fields → String → SessionManager → Type 0
Blocked sys fields name m =
    (s : Known) × ((path : String) × (session_for name (object fields) m ≡ ok (some s))
      × (get_str "path" (object fields) ≡ some path)
      × (sys.is_absolute path ≡ false)
      × (sys.join s.project path ≡ none))

module _ (sys : System) (valid : IsValidator sys.validates) (fields : Fields) where
  -- A required text is there.
  pub text_given :
      (schema : Value) (key : String)
      → sys.validates schema (object fields) ≡ true
      → requires key schema ≡ true
      → type_of key schema ≡ some "string"
      → (s : String) × (get_str key (object fields) ≡ some s)
  text_given schema key accepted required typed =
      let (v, there) = valid.present schema fields key accepted required in
      let (s, e) = valid.is_text schema fields key v accepted typed there in
      (s, simp (there ∙ ap (λ (w : Value). some w) e) refl)

  abbrev Accepts : Tool → Type 0
  Accepts t = sys.validates t.input_schema (object fields) ≡ true

  abbrev Given : String → Option Known → Type 0
  Given name session = is_routed name ≡ true → (s : Known) × (session ≡ some s)

  -- The path of the arguments lies below the session's project, and the two together are not UTF-8.
  abbrev Stuck : Option Known → Type 0
  Stuck session =
      (s : Known) × ((path : String) × (session ≡ some s)
        × (get_str "path" (object fields) ≡ some path)
        × (sys.is_absolute path ≡ false)
        × (sys.join s.project path ≡ none))

  -- The call of a tool panics at most for its path.
  abbrev IsRouted : Tool → Type 0
  IsRouted t =
      Accepts t
      → (session : Option Known) → Given t.name session
      → IsSafe (Stuck session) (call_of sys t.name session (object fields))

  with_session :
      {P A : Type 0} (session : Option Known) (f : Known → Result Stop A)
      → ((s : Known) × (session ≡ some s))
      → ((s : Known) → session ≡ some s → IsSafe P (f s))
      → IsSafe P (unwrap session >>= f)
  with_session session f given next =
      IsSafe-bind (unwrap session) f (IsSafe-unwrap session given)
        (λ s e. next s (ok_or-some session panicked e))

  with_text :
      {P A : Type 0} (key : String) (f : String → Result Stop A)
      → ((s : String) × (get_str key (object fields) ≡ some s))
      → ((s : String) → get_str key (object fields) ≡ some s → IsSafe P (f s))
      → IsSafe P (unwrap (get_str key (object fields)) >>= f)
  with_text key f given next =
      IsSafe-bind (unwrap (get_str key (object fields))) f
        (IsSafe-unwrap (get_str key (object fields)) given)
        (λ s e. next s (ok_or-some (get_str key (object fields)) panicked e))

  -- A path that panics is below the project.
  with_path :
      {A : Type 0} (session : Option Known) (s : Known) (path : String) (f : String → Result Stop A)
      → session ≡ some s
      → get_str "path" (object fields) ≡ some path
      → ((whole : String) → IsSafe (Stuck session) (f whole))
      → IsSafe (Stuck session) (unwrap (resolve sys s path) >>= f)
  with_path session s path f here given next =
      IsSafe-bind (unwrap (resolve sys s path)) f
        (λ h. (s, (path, here, given, ground (arith, h), ground (arith, h))))
        (λ whole _. next whole)

  path_call-IsSafe :
      (op : String) (session : Option Known)
      → ((s : Known) × (session ≡ some s))
      → ((s : String) × (get_str "path" (object fields) ≡ some s))
      → IsSafe (Stuck session) (path_call sys op session (object fields))
  path_call-IsSafe op session given path = with_session session _ given (λ s here.
      with_text "path" _ path
        (λ p there. with_path session s p _ here there (λ whole. IsSafe-ok _)))

  build_tools-IsRouted : All IsRouted build_tools
  unfolding call_of
  build_tools-IsRouted = (
    (λ accepted session given. with_session session _ (given refl) (λ s _. IsSafe-ok _)),
    (
      (λ accepted session given. with_session session _ (given refl) (λ s _. IsSafe-ok _)),
      (
        (λ accepted session given. IsSafe-ok health),
        (
          (λ accepted session given. with_session session _ (given refl) (λ s _. IsSafe-ok _)),
          (
            (λ accepted session given. with_session session _ (given refl) (λ s _. IsSafe-ok _)),
            (
              (λ accepted session given.
                  with_text "name" _ (text_given _ "name" accepted refl refl) (λ name _.
                    with_text "project" _ (text_given _ "project" accepted refl refl)
                      (λ project _. IsSafe-ok _))),
              (
                (λ accepted session given.
                    with_text "session_id" _ (text_given _ "session_id" accepted refl refl)
                      (λ id _. IsSafe-ok _)),
                (
                  (λ accepted session given. IsSafe-ok listing),
                  (
                    (λ accepted session given. IsSafe-ok _),
                    (
                      (λ accepted session given. with_session session _ (given refl) (λ s here.
                          with_text "path" _ (text_given _ "path" accepted refl refl) (λ path there.
                            with_path session s path _ here there (λ whole. IsSafe-ok _)))),
                      (
                        (λ accepted session given.
                            path_call-IsSafe "artifact.create" session (given refl)
                              (text_given _ "path" accepted refl refl)),
                        (
                          (λ accepted session given.
                              with_session session _ (given refl) (λ s _. IsSafe-ok _)),
                          (
                            (λ accepted session given.
                                path_call-IsSafe "artifact.save" session (given refl)
                                  (text_given _ "path" accepted refl refl)),
                            (
                              (λ accepted session given.
                                  with_session session _ (given refl) (λ s _. IsSafe-ok _)),
                              (
                                (λ accepted session given.
                                    with_session session _ (given refl) (λ s _.
                                      with_text "id" _ (text_given _ "id" accepted refl refl)
                                        (λ id _. IsSafe-ok _))),
                                tt,
                              ),
                            ),
                          ),
                        ),
                      ),
                    ),
                  ),
                ),
              ),
            ),
          ),
        ),
      ),
    ),
  )

  session_for-Given :
      (name : String) (m : SessionManager) (session : Option Known)
      → session_for name (object fields) m ≡ ok session
      → Given name session
  unfolding session_for
  session_for-Given name m session h routed =
      elim (Result-cases (get_session (get_str "session_id" (object fields)) m)) [
        | inl (s, e) ↦ (
          record { id = session_key (get_str "session_id" (object fields)) m; project = s.project },
          ground (arith, simp (routed, e, session_for) at h),
        )
        | inr (e, failed) ↦ absurd (ground (arith, simp (routed, failed, session_for) at h))
      ]

  session_for-IsSafe :
      {P : Type 0} (name : String) (m : SessionManager)
      → IsSafe P (session_for name (object fields) m)
  unfolding session_for
  session_for-IsSafe name m = elim (Bool-cases (is_routed name)) [
    | inl routed ↦ elim (Result-cases (get_session (get_str "session_id" (object fields)) m)) [
      | inl (s, e) ↦ simp (routed, e, session_for) (IsSafe-ok _)
      | inr (e, failed) ↦ simp (routed, failed, session_for) (IsSafe-refused (bad_session e))
    ]
    | inr free ↦ simp (free, session_for) (IsSafe-ok none)
  ]

  call_of-IsSafe :
      (name : String) (t : Tool) (session : Option Known)
      → get_tool name ≡ some t
      → Accepts t
      → Given name session
      → IsSafe (Stuck session) (call_of sys name session (object fields))
  unfolding get_tool
  call_of-IsSafe name t session found accepted given =
      let same : t.name ≡ name =
        ==_sound t.name name (find_sound (λ (t : Tool). t.name == name) build_tools t found) in
      subst (λ n. IsSafe (Stuck session) (call_of sys n session (object fields))) same
        (All-find IsRouted (λ (t : Tool). t.name == name) build_tools t build_tools-IsRouted found
          accepted session (subst (λ n. Given n session) (sym same) given))

  -- A request panics on its way to the component that answers it, whatever its name and its arguments
  -- are, for one reason only: its path is a relative one, and below the project of the session that it
  -- names, which is open, it makes a path that is not UTF-8. All else that is unwrapped is there: the
  -- arguments of a listed tool that its schema accepts hold it, the session is there for the tools
  -- that use it, and every listed tool has its arm in the match.
  pub route-IsSafe :
      (name : String) (latest : Bool) (m : SessionManager)
      → route sys name fields latest m ≡ err panicked
      → Blocked sys fields name m
  unfolding route
  route-IsSafe name latest m =
      let args = object fields in
      IsSafe-bind (ok_or (get_tool name) (refused unknown_tool)) _
        (IsSafe-ok_or (get_tool name) unknown_tool)
        (λ t found.
          IsSafe-bind
            (refuse_if (not (sys.validates t.input_schema args)) (refused invalid_arguments)) _
            (IsSafe-refuse_if _ _)
            (λ u accepted. IsSafe-then (lacks_session sys name latest args) no_session_id (
              IsSafe-then (is_bad_u64 "expected_generation" args) bad_generation (
                IsSafe-then (is_bad_u64 "offset" args) (bad_u64 "offset") (
                  IsSafe-then (is_bad_u64 "length" args) (bad_u64 "length") (
                    IsSafe-bind (session_for name args m) _ (session_for-IsSafe name m)
                      (λ session given panics.
                        let (s, (path, here, given_path, below, lost)) =
                          call_of-IsSafe name t session
                            (ok_or-some (get_tool name) (refused unknown_tool) found)
                            (not_refused (sys.validates t.input_schema args) _ u accepted)
                            (session_for-Given name m session given) panics in
                        (s, (path, given ∙ ap ok here, given_path, below, lost)))))))))

  -- What a routed forwarding sends has the payload under the name that the arguments give, whatever
  -- the payload is: putting it there does not panic.
  pub forwarded_arguments-IsSafe :
      (latest : Bool) (m : SessionManager) (payload : Value) (call : Call)
      → route sys "artifact_forward" fields latest m ≡ ok call
      → (argument : String) × ((sent : Value) × (get_str "argument" (object fields) ≡ some argument)
          × (forwarded_arguments sys payload (object fields) ≡ ok sent)
          × (get argument sent ≡ some payload))
  unfolding route get_tool forwarded_arguments
  forwarded_arguments-IsSafe latest m payload call h =
      let (u, _, checked) =
        ok-chain _ (refuse_if (not (sys.validates _ (object fields))) (refused invalid_arguments))
          call h in
      let accepted = not_refused _ _ u checked in
      let (argument, named) = text_given _ "argument" accepted refl refl in
      let (inner, whole) =
        given_fields (get "arguments" (object fields))
          (λ v there. valid.has_fields _ fields "arguments" v accepted refl there) in
      (
        argument,
        (
          object (put_field argument payload inner),
          named,
          simp (named, whole) refl,
          (get-put_field argument argument payload inner
              ∙ ap (λ (b : Bool). if b then some payload else lookup argument inner)
                  (==_refl argument)),
        ),
      )
