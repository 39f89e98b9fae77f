-- ===== src/Broker/Call/Granted.antt =====
-- What a call that is dispatched has passed (native/src/broker.rs).
use repl_mcp.Base.{
  Bool, ℕ, List, ◌≡◌, String, ok, Result, find, Option, some, Result-cases, true, inl, ◌∷◌, err,
  Bool-cases, arith, inr, [], refl, string_eq, Option-cases, length, ◌≤◌, ◌++◌, subst, sym, ap,
}
use repl_mcp.Broker.Transports.{Broker, session, Fault, Session, transport_key, refresh_if_due}
use repl_mcp.Json.{Value, get_str}
use repl_mcp.Broker.Catalogue.{tools}
use repl_mcp.Config.Types.{ServerConfig}
use repl_mcp.Broker.Journal.{Journal, Refusal, enter, Record, in_flight}
use repl_mcp.Broker.Call.{
  check_tool, is_named, admit_call, Sent, journaled, Peer, call_tool, dispatched, call_with,
  arguments_of, call_refreshed, call, when_fresh, call_checked,
}
use repl_mcp.Config.Normal.{or_else}
use repl_mcp.Broker.Journal.Kept.{in_flights, Entered, enter_lem}
use repl_mcp.Broker.Validate.{Schemas, Validators, validate}
use repl_mcp.Broker.Call.Alike.{AreAlike, tools-AreAlike, AreAlike-trans}
use repl_mcp.Broker.Call.Checks.{
  IsAdmitted, IsChecked, IsValid, admit_call-IsAdmitted, check_tool_ok,
}

module _ (to_string : ServerConfig → Option String) (out_of_range : Value → Bool)
    (schemas : Schemas) (encoded : Journal → ℕ) where
  journaled_ok :
      (sent sent' : Sent) (b b' : Broker) (j' : Journal) (p : Peer)
      (out : Result Refusal (Unit {0}) × Journal)
      → journaled to_string out_of_range schemas encoded sent b p out ≡ (ok sent', b', j')
      → (sent ≡ sent') × (b ≡ b') × (out ≡ (ok tt, j'))
  journaled_ok sent sent' b b' j' p (err e, j) h = absurd (ground (arith, h))
  journaled_ok sent sent' b b' j' p (ok u, j) h = elim (Bool-cases p.persisted) [
    | inl yes_written ↦ (
      ground (arith, h, yes_written),
      ground (arith, h, yes_written),
      ground (arith, h, yes_written),
    )
    | inr lost ↦ absurd (ground (arith, h, lost))
  ]

  -- What the part behind the connection has made.
  abbrev Made :
      String
      → String
      → Value
      → Peer
      → String
      → String
      → Broker
      → Broker
      → Journal
      → Sent
      → Broker
      → Journal
      → Type 0
  Made session_id run_id params p tool key start c j sent b' j' =
      (c ≡ b')
      × (sent.name ≡ tool)
      × IsValid to_string out_of_range schemas encoded p key start tool sent.arguments
      × (enter encoded
            (dispatched to_string out_of_range schemas encoded p.id session_id run_id p.now
              c.registry.project (or_else (get_str "server" params) "") tool)
            j
          ≡ (ok tt, j'))

  call_checked-Made :
      (session_id run_id : String) (params : Value) (p : Peer) (tool key : String) (start : Broker)
      (s : Session) (j j' : Journal) (b b' : Broker) (sent : Sent)
      (out : Result Fault (Unit {0}) × Validators)
      → IsValid to_string out_of_range schemas encoded p key start tool
          (arguments_of to_string out_of_range schemas encoded params)
      → call_checked to_string out_of_range schemas encoded session_id run_id params p tool s j b
          out
        ≡ (ok sent, b', j')
      → (c : Broker) × AreAlike b c × Made session_id run_id params p tool key start c j sent b' j'
  call_checked-Made session_id run_id params p tool key start s j j' b b' sent (err x, vs) checked
        h =
      absurd (ground (arith, h))
  call_checked-Made session_id run_id params p tool key start s j j' b b' sent (ok u, vs) checked
        h =
      let arguments = arguments_of to_string out_of_range schemas encoded params in
      let (same, stays, entered) =
        journaled_ok (record { transport = s.id; name = tool; arguments = arguments }) sent
          (record b { validators = vs }) b' j' p _ h in
      (
        record b { validators = vs },
        (refl, refl),
        (
          stays,
          ground (arith, same),
          subst (IsValid to_string out_of_range schemas encoded p key start tool)
              (ap (λ (x : Sent). x.arguments) same) checked,
          entered,
        ),
      )

  never_sent :
      (session_id run_id : String) (params : Value) (p : Peer) (tool : String) (s : Session)
      (j j' : Journal) (b b' : Broker) (sent : Sent) (x : Fault)
      (out : Result Fault (Unit {0}) × Validators)
      → out.0 ≡ err x
      → call_checked to_string out_of_range schemas encoded session_id run_id params p tool s j b
          out
        ≡ (ok sent, b', j')
      → ⊥
  never_sent session_id run_id params p tool s j j' b b' sent x (err y, vs) e h = ground (arith, h)
  never_sent session_id run_id params p tool s j j' b b' sent x (ok u, vs) e h = ground (arith, e)

  call_tool-Made :
      (session_id run_id : String) (params : Value) (p : Peer) (tool key : String) (s : Session)
      (j j' : Journal) (b b' : Broker) (sent : Sent) (out : Result Fault (List Value) × Broker)
      → tools p.now key p.listed b ≡ out
      → call_tool to_string out_of_range schemas encoded session_id run_id params p tool s j out
        ≡ (ok sent, b', j')
      → (c : Broker) × AreAlike out.1 c × Made session_id run_id params p tool key b c j sent b' j'
  call_tool-Made session_id run_id params p tool key s j j' b b' sent (err x, c) e h =
      absurd (ground (arith, h))
  call_tool-Made session_id run_id params p tool key s j j' b b' sent (ok ts, c) e h =
      let arguments = arguments_of to_string out_of_range schemas encoded params in
      let out =
        check_tool to_string out_of_range schemas encoded arguments (find (is_named tool) ts)
          c.validators in
      elim (Result-cases (out.0)) [
        | inl (u, passed) ↦
            let (t, found, valid) =
              check_tool_ok to_string out_of_range schemas encoded arguments
                (find (is_named tool) ts) c.validators passed in
            let after = ap (λ (o : Result Fault (List Value) × Broker). o.1.validators) e in
            call_checked-Made session_id run_id params p tool key b s j j' c b' sent out
              (
                ts,
                t,
                ap (λ (o : Result Fault (List Value) × Broker). o.0) e,
                found,
                subst
                    (λ vs.
                      (validate schemas (repl_mcp.Json.get "inputSchema" t) arguments vs).0 ≡ ok tt)
                    (sym after) valid,
              )
              h
        | inr (x, failed) ↦
            absurd (never_sent session_id run_id params p tool s j j' c b' sent x out failed h)
      ]

  call_with-Made :
      (session_id run_id : String) (params : Value) (p : Peer) (cfg : ServerConfig) (tool : String)
      (j j' : Journal) (b' : Broker) (sent : Sent) (out : Result Fault Session × Broker)
      → call_with to_string out_of_range schemas encoded session_id run_id params p cfg tool j out
        ≡ (ok sent, b', j')
      → (c : Broker) × ((key : String) × AreAlike out.1 c
          × (to_string cfg ≡ some key)
          × ((s : Session) × (out.0 ≡ ok s))
          × Made session_id run_id params p tool key out.1 c j sent b' j')
  call_with-Made session_id run_id params p cfg tool j j' b' sent (err x, c) h =
      absurd (ground (arith, h))
  call_with-Made session_id run_id params p cfg tool j j' b' sent (ok s, c) h =
      elim (Option-cases (to_string cfg)) [
        | inl e ↦ absurd (ground (arith, rw (e, call_with) at h))
        | inr (key, e) ↦
            let (d, alike, made) =
              call_tool-Made session_id run_id params p tool key s j j' c b' sent
                (tools p.now key p.listed c) refl (rw (e, call_with) at h) in
            (
              d,
              (
                key,
                AreAlike-trans c (tools p.now key p.listed c).1 d
                    (tools-AreAlike p.now key p.listed c) alike,
                e,
                (s, refl),
                made,
              ),
            )
      ]

  -- The record is in the journal, behind those that were in flight.
  entered_ok :
      (j j' : Journal) (r : Record)
      → in_flight r ≡ true
      → length j ≤ 256
      → enter encoded r j ≡ (ok tt, j')
      → in_flights j' ≡ in_flights j ++ r ∷ []
  entered_ok j j' r flying small h =
      elim (subst (Entered encoded j r) h (enter_lem encoded j r flying small)) [
        | inl (o, flights, short, fits) ↦ flights
        | inr (o, rest, short) ↦ elim o [
          | inl e ↦ absurd (ground (arith, e))
          | inr e ↦ absurd (ground (arith, e))
        ]
      ]

  -- What a call of the tool has passed, from the broker that the refresh of its registry left.
  abbrev PassedFrom :
      String → String → Value → Peer → Broker → Journal → Value → Journal → String → Broker → Type 0
  PassedFrom session_id run_id params p b j arguments j' tool b' =
      ((cfg : ServerConfig) × IsAdmitted to_string out_of_range schemas encoded params b cfg tool
        × IsChecked to_string out_of_range schemas encoded p b cfg tool arguments)
      × (in_flights j'
          ≡ in_flights j
            ++ dispatched to_string out_of_range schemas encoded p.id session_id run_id p.now
                b'.registry.project (or_else (get_str "server" params) "") tool
              ∷ [])

  abbrev pub Passed :
      String → String → Value → Peer → Broker → Journal → Value → Journal → String → Broker → Type 0
  Passed session_id run_id params p b =
      PassedFrom session_id run_id params p (refresh_if_due to_string p.now p.loaded b).1

  call_refreshed-Passed :
      (session_id run_id : String) (params : Value) (p : Peer) (b b' : Broker) (j j' : Journal)
      (sent : Sent)
      → length j ≤ 256
      → call_refreshed to_string out_of_range schemas encoded session_id run_id params p b j
        ≡ (ok sent, b', j')
      → PassedFrom session_id run_id params p b j sent.arguments j' sent.name b'
  unfolding call_refreshed
  call_refreshed-Passed session_id run_id params p b b' j j' sent small h =
      elim (Result-cases
        (admit_call to_string out_of_range schemas encoded p.queued_out params b)) [
          | inr (x, e) ↦ absurd (ground (arith, rw (e, call_refreshed) at h))
          | inl ((cfg, tool), e) ↦ elim (Option-cases (transport_key to_string cfg)) [
            | inl k ↦ absurd (ground (arith, rw (e, k, call_refreshed) at h))
            | inr (slot, k) ↦
                let (c, (key, alike, keyed, (s, given), (stays, named, valid, entered))) =
                  call_with-Made session_id run_id params p cfg tool j j' b' sent
                    (session p.now slot p.attempt b) (rw (e, k, call_refreshed) at h) in
                subst (λ t. PassedFrom session_id run_id params p b j sent.arguments j' t b')
                  (sym named)
                  (subst (PassedFrom session_id run_id params p b j sent.arguments j' tool) stays (
                    (
                      cfg,
                      admit_call-IsAdmitted to_string out_of_range schemas encoded p.queued_out
                          params b cfg tool e,
                      (slot, k, s, given, key, keyed, valid),
                    ),
                    entered_ok j j' _ refl small entered,
                  ))
          ]
        ]

  pub call-Passed :
      (session_id run_id : String) (params : Value) (p : Peer) (b b' : Broker) (j j' : Journal)
      (sent : Sent)
      → length j ≤ 256
      → call to_string out_of_range schemas encoded session_id run_id params p b j
        ≡ (ok sent, b', j')
      → Passed session_id run_id params p b j sent.arguments j' sent.name b'
  unfolding call
  call-Passed session_id run_id params p b b' j j' sent small h =
      fresh_call (refresh_if_due to_string p.now p.loaded b) h
    where
      fresh_call :
          (out : Result String (Unit {0}) × Broker)
          → when_fresh to_string out_of_range schemas encoded session_id run_id params p j out
            ≡ (ok sent, b', j')
          → PassedFrom session_id run_id params p out.1 j sent.arguments j' sent.name b'
      fresh_call (err x, c) e = absurd (ground (arith, e))
      fresh_call (ok u, c) e =
          call_refreshed-Passed session_id run_id params p c b' j j' sent small e
