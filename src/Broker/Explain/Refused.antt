-- ===== src/Broker/Explain/Refused.antt =====
-- What `explain` reports, and whether a call is admitted (native/src/broker.rs).
use repl_mcp.Broker.Explain.{
  Status, Probe, config_invalid, not_granted, Evidence, tool_param, transport_status,
  registry_absent, server_absent, server_status, explain, catalogue_status, lacks_credentials,
  is_connected, is_long_name, is_bad_tool, explain_status,
}
use repl_mcp.Config.Types.{ServerConfig}
use repl_mcp.Base.{
  Option, Bool, String, true, false, ◌≡◌, ℕ, some, ok, arith, none, ok-chain, List, Result, ok_or,
  Bool-cases, string_eq, inl, inr, refuse_if, ◌||◌, subst, err, ◌==◌, Result-cases, false≢true, sym,
  ◌∙◌,
}
use repl_mcp.Json.{
  Value, and_then, as_str, str, bool, unsigned, number, array, object, null, get_str,
}
use repl_mcp.Broker.Transports.{Broker, no_key, Fault, bad_name, bad_tool, transport_key}
use repl_mcp.Broker.Journal.{Journal}
use repl_mcp.Broker.Call.{is_denied, admit_call}
use repl_mcp.Broker.Call.Checks.{IsAdmitted, admit_call-IsAdmitted}
use repl_mcp.Broker.Validate.{Schemas}

-- The statuses that say that no call can be admitted.
abbrev pub is_refusal : Status → Bool
is_refusal config_invalid = true
is_refusal not_granted = true
is_refusal registry_absent = true
is_refusal server_absent = true
is_refusal _ = false

tool_param-some :
    (o : Option Value) (tool : String)
    → and_then o as_str ≡ some tool
    → tool_param o ≡ some (some tool)
tool_param-some none tool h = cc
tool_param-some (some (str t)) tool h = cc
tool_param-some (some null) tool h = absurd (ground (arith, h))
tool_param-some (some (bool x)) tool h = absurd (ground (arith, h))
tool_param-some (some (unsigned n)) tool h = absurd (ground (arith, h))
tool_param-some (some (number n)) tool h = absurd (ground (arith, h))
tool_param-some (some (array vs)) tool h = absurd (ground (arith, h))
tool_param-some (some (object fs)) tool h = absurd (ground (arith, h))

module _ (to_string : ServerConfig → Option String) (p : Probe) where
  catalogue_no_refusal :
      (tool : String) (hit : Option (ℕ × List Value)) (s : Status × Evidence)
      → ◌≡◌ {A = Result Fault (Status × Evidence)} (ok (catalogue_status p tool hit)) (ok s)
      → is_refusal s.0 ≡ false
  catalogue_no_refusal tool none s h = ground (arith, h)
  catalogue_no_refusal tool (some (at, tools)) s h = ground (arith, h)

  transport_no_refusal :
      (b : Broker) (cfg : ServerConfig) (tool : String) (live : Bool)
      (failure : Option (ℕ × String)) (st : Status) (ev : Evidence)
      → transport_status to_string p b cfg (some tool) live failure ≡ ok (st, ev)
      → is_refusal st ≡ false
  transport_no_refusal b cfg tool true failure st ev h =
      let (key, told, named) = ok-chain _ (ok_or (to_string cfg) no_key) (st, ev) h in
      catalogue_no_refusal tool (repl_mcp.Base.Map.get key b.catalogue) _ told
  transport_no_refusal b cfg tool false none st ev h = ground (arith, h)
  transport_no_refusal b cfg tool false (some (at, f)) st ev h = ground (arith, h)

  server_no_refusal :
      (b : Broker) (cfg : ServerConfig) (tool : String) (st : Status) (ev : Evidence)
      → is_denied cfg.allowed_tools tool ≡ false
      → server_status to_string p b cfg (some tool) ≡ ok (st, ev)
      → is_refusal st ≡ false
  unfolding server_status
  server_no_refusal b cfg tool st ev may h = elim (Bool-cases (lacks_credentials p cfg.oauth)) [
    | inl lacks ↦ ground (arith, h, may, lacks)
    | inr has ↦
        let (key, told, named) =
          ok-chain _ (ok_or (transport_key to_string cfg) no_key) (st, ev) (rw (may, has) at h) in
        transport_no_refusal b cfg tool (is_connected (repl_mcp.Base.Map.get key b.sessions))
          (repl_mcp.Base.Map.get key b.failures) st ev told
  ]

  status_no_refusal :
      (b : Broker) (name tool : String) (cfg : ServerConfig) (st : Status) (ev : Evidence)
      → b.config_error ≡ none
      → repl_mcp.Base.Map.get name b.registry.servers ≡ some cfg
      → is_denied cfg.allowed_tools tool ≡ false
      → explain_status to_string p b name (some tool) ≡ ok (st, ev)
      → is_refusal st ≡ false
  unfolding explain_status
  status_no_refusal b name tool cfg st ev error known may h =
      elim (Bool-cases (b.registry.scope == "none" || p.no_bridge)) [
        | inl off ↦ ground (arith, rw (error, off, explain_status) at h)
        | inr on ↦
            server_no_refusal b cfg tool st ev may (rw (error, on, known, explain_status) at h)
      ]

  module _ (out_of_range : Value → Bool) (schemas : Schemas) (encoded : Journal → ℕ) where
    admitted_no_refusal :
        (params : Value) (b : Broker) (cfg : ServerConfig) (tool : String) (st : Status)
        (ev : Evidence)
        → IsAdmitted to_string out_of_range schemas encoded params b cfg tool
        → explain to_string p params b ≡ ok (st, ev)
        → is_refusal st ≡ false
    unfolding explain
    admitted_no_refusal params b cfg tool st ev (error, (name, asked, known), named, may) h =
        let (n, later, server) = ok-chain _ (ok_or (get_str "server" params) bad_name) (st, ev) h in
        let (t, checked, given) =
          ok-chain _ (ok_or (tool_param (repl_mcp.Json.get "tool" params)) bad_tool) (st, ev)
            later in
        let (u, told, bounded) =
          ok-chain _ (refuse_if (is_long_name p 200 n || is_bad_tool p t) bad_name) (st, ev)
            checked in
        let same_tool : t ≡ some tool =
          ground (arith, given, tool_param-some (repl_mcp.Json.get "tool" params) tool named) in
        let same_name : n ≡ name = ground (arith, server, asked) in
        status_no_refusal b name tool cfg st ev error known may (
          subst (λ m. explain_status to_string p b m (some tool) ≡ ok (st, ev)) same_name
            (subst (λ o. explain_status to_string p b n o ≡ ok (st, ev)) same_tool told))

    -- When `explain` reports that the registry is invalid or absent, that it does not have the server, or
    -- that the server or the tool is not granted, then a call with the same parameters is refused
    -- before any connection, whatever its timeout and arguments.
    pub explain_refused :
        (queued_out : Bool) (params : Value) (b : Broker) (st : Status) (ev : Evidence)
        → explain to_string p params b ≡ ok (st, ev)
        → is_refusal st ≡ true
        → (e : Fault) × (admit_call to_string out_of_range schemas encoded queued_out params b
            ≡ err e)
    explain_refused queued_out params b st ev h r =
        elim (Result-cases
          (admit_call to_string out_of_range schemas encoded queued_out params b)) [
            | inl ((cfg, tool), e) ↦
                let admitted =
                  admit_call-IsAdmitted to_string out_of_range schemas encoded queued_out params b
                    cfg tool e in
                absurd
                  (false≢true (sym (admitted_no_refusal params b cfg tool st ev admitted h) ∙ r))
            | inr e ↦ e
          ]
