-- ===== src/Server/Call/Served.antt =====
-- Every request is refused, answered or stopped by a panic (native/src/server.rs).
use repl_mcp.Server.Route.Schema.{IsValidator}
use repl_mcp.Server.Route.{System, route, Call, Stop, Refusal, refused, panicked}
use repl_mcp.Server.Call.{Backend, call_tool, after_route, respond, identity_of, or_panic}
use repl_mcp.Server.Envelope.{Printing, Response, Identity, answer, IsResult}
use repl_mcp.Base.{
  String, Bool, Result, ◌≡◌, ok, err, refl, inl, ◌⊎◌, inr, Option, some, none, arith, sym, ◌∙◌,
}
use repl_mcp.Json.{Fields, Value}
use repl_mcp.Server.Envelope.Presented.{answer_lem}
use repl_mcp.Server.Route.Total.{route-IsSafe, Blocked}

-- A component's call that panicked, or whose result is neither an error nor an object.
abbrev pub IsBad : Option (Result String Value) → Type 0
IsBad none = Unit
IsBad (some result) = ¬ IsResult result

-- A refusal that leaves the state alone, the answer to the one call that was made, or a panic: for the
-- path, with the state as it was, or for the result of the one call.
abbrev pub IsServed :
    {S : Type 0}
    → System
    → Backend S
    → String
    → Fields
    → Bool
    → S
    → Result Stop Response × S
    → Type 0
IsServed sys backend name fields latest s out =
    ((refusal : Refusal) × (out ≡ (err (refused refusal), s)))
    ⊎ (((call : Call) × ((r : Response) × (route sys name fields latest (backend.manager s)
              ≡ ok call)
            × (out ≡ (ok r, (backend.perform call s).1))))
        ⊎ ((Blocked sys fields name (backend.manager s) × (out ≡ (err panicked, s)))
            ⊎ ((call : Call) × (route sys name fields latest (backend.manager s) ≡ ok call)
                × IsBad (backend.perform call s).0
                × (out ≡ (err panicked, (backend.perform call s).1)))))

module _ {S : Type 0} (sys : System) (valid : IsValidator sys.validates) (printing : Printing)
    (backend : Backend S) where
  -- An answer that cannot be made is that to a result that is not one.
  not_answered :
      (by : Option Identity) (result : Result String Value)
      → answer printing by result ≡ none
      → ¬ IsResult result
  not_answered by result nothing good =
      let (_, (_, (r, made, _, _, _, _))) = answer_lem printing by result good in
      absurd (ground (arith, sym made ∙ nothing))

  -- What the answer of a call comes to.
  abbrev Answered : Option (Result String Value) → S → Result Stop Response × S → Type 0
  Answered o after out =
      ((r : Response) × (out ≡ (ok r, after))) ⊎ (IsBad o × (out ≡ (err panicked, after)))

  answered_lem :
      (by : Option Identity) (result : Result String Value) (after : S) (o : Option Response)
      → answer printing by result ≡ o
      → Answered (some result) after (or_panic sys printing backend o, after)
  answered_lem by result after none e = inr (not_answered by result e, refl)
  answered_lem by result after (some r) e = inl (r, refl)

  respond_lem :
      (name : String) (fields : Fields) (s : S) (out : Option (Result String Value) × S)
      → Answered out.0 out.1 (respond sys printing backend name fields s out)
  respond_lem name fields s (none, after) = inr (tt, refl)
  respond_lem name fields s (some result, after) =
      let by = identity_of sys printing backend name fields s after in
      answered_lem by result after (answer printing by result) refl

  after_route-IsServed :
      (name : String) (fields : Fields) (latest : Bool) (s : S) (o : Result Stop Call)
      → route sys name fields latest (backend.manager s) ≡ o
      → IsServed sys backend name fields latest s (after_route sys printing backend name fields s o)
  after_route-IsServed name fields latest s (err (refused refusal)) routed = inl (refusal, refl)
  after_route-IsServed name fields latest s (err panicked) routed =
      inr (inr (inl (route-IsSafe sys valid fields name latest (backend.manager s) routed, refl)))
  after_route-IsServed name fields latest s (ok call) routed =
      elim (respond_lem name fields s (backend.perform call s)) [
        | inl (r, e) ↦ inr (inl (call, (r, routed, e)))
        | inr (bad, e) ↦ inr (inr (inr (call, routed, bad, e)))
      ]

  pub call_tool-IsServed :
      (name : String) (fields : Fields) (latest : Bool) (s : S)
      → IsServed sys backend name fields latest s
          (call_tool sys printing backend name fields latest s)
  unfolding call_tool
  call_tool-IsServed name fields latest s =
      after_route-IsServed name fields latest s (route sys name fields latest (backend.manager s))
        refl
