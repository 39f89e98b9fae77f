-- ===== src/Broker/Call/Checks.antt =====
-- The checks of a call (native/src/broker.rs).
use repl_mcp.Base.{
  Bool, ℕ, List, ◌≡◌, String, ok, Result, find, Option, some, Result-cases, ok-chain, true,
  refuse_if, inl, ◌∷◌, err, Bool-cases, ◌∙◌, arith, inr, [], refl, none, string_eq, Option-cases,
  false, length, ◌≤◌, ◌++◌, subst, sym, ap,
}
use repl_mcp.Broker.Transports.{Broker, Session, session, transport_key}
use repl_mcp.Json.{Value, get, get_str}
use repl_mcp.Broker.Catalogue.{tools}
use repl_mcp.Config.Types.{ServerConfig}
use repl_mcp.Broker.Journal.{Journal}
use repl_mcp.Broker.Call.{check_tool, is_named, admit_call, is_denied, Peer}
use repl_mcp.Broker.Validate.{Schemas, Validators, validate}

module _ (to_string : ServerConfig → Option String) (out_of_range : Value → Bool)
    (schemas : Schemas) (encoded : Journal → ℕ) where
  -- The registry names the server and lets it have the tool.
  abbrev pub IsAdmitted : Value → Broker → ServerConfig → String → Type 0
  IsAdmitted params b cfg tool =
      (b.config_error ≡ none)
      × ((name : String) × (get_str "server" params ≡ some name)
          × (repl_mcp.Base.Map.get name b.registry.servers ≡ some cfg))
      × (get_str "tool" params ≡ some tool)
      × (is_denied cfg.allowed_tools tool ≡ false)

  -- The catalogue under the key, cached or listed now, has the tool, and the arguments fit its schema.
  abbrev pub IsValid : Peer → String → Broker → String → Value → Type 0
  IsValid p key c tool arguments =
      (ts : List Value) × (t : Value) × ((tools p.now key p.listed c).0 ≡ ok ts)
      × (find (is_named tool) ts ≡ some t)
      × ((validate schemas (repl_mcp.Json.get "inputSchema" t) arguments
            (tools p.now key p.listed c).1.validators).0
          ≡ ok tt)

  -- The server's own transport was given, and then its own catalogue has the tool.
  abbrev pub IsChecked : Peer → Broker → ServerConfig → String → Value → Type 0
  IsChecked p b cfg tool arguments =
      (slot : String) × (transport_key to_string cfg ≡ some slot)
      × (s : Session) × ((session p.now slot p.attempt b).0 ≡ ok s)
      × (key : String) × (to_string cfg ≡ some key)
      × IsValid p key (session p.now slot p.attempt b).1 tool arguments

  pub admit_call-IsAdmitted :
      (queued_out : Bool) (params : Value) (b : Broker) (cfg : ServerConfig) (tool : String)
      → admit_call to_string out_of_range schemas encoded queued_out params b ≡ ok (cfg, tool)
      → IsAdmitted params b cfg tool
  unfolding admit_call
  admit_call-IsAdmitted queued_out params b cfg tool h =
      elim (Option-cases (get_str "server" params)) [
        | inl e ↦ absurd (ground (arith, h, e))
        | inr (name, e) ↦ elim (Option-cases (repl_mcp.Base.Map.get name b.registry.servers)) [
          | inl none_such ↦ absurd (ground (arith, h, e, none_such))
          | inr (c, known) ↦ elim (Option-cases (get_str "tool" params)) [
            | inl no_tool ↦ absurd (ground (arith, h, e, known, no_tool))
            | inr (t, asked) ↦ (
              ground (arith, h),
              (name, e, ground (arith, h, e, known, asked)),
              ground (arith, h, e, known, asked),
              ground (arith, h, e, known, asked),
            )
          ]
        ]
      ]

  pub check_tool_ok :
      (arguments : Value) (o : Option Value) (vs : Validators)
      → (check_tool to_string out_of_range schemas encoded arguments o vs).0 ≡ ok tt
      → (t : Value) × (o ≡ some t)
        × ((validate schemas (repl_mcp.Json.get "inputSchema" t) arguments vs).0 ≡ ok tt)
  unfolding check_tool
  check_tool_ok arguments none vs h = absurd (ground (arith, h))
  check_tool_ok arguments (some t) vs h = (t, refl, h)
