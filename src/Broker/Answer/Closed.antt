-- ===== src/Broker/Answer/Closed.antt =====
-- What a call leaves in the journal (native/src/broker.rs).
use repl_mcp.Broker.Answer.{settle, when_sent}
use repl_mcp.Broker.Transports.{Broker, invalidate}
use repl_mcp.Base.Map.{get, get-remove}
use repl_mcp.Broker.Journal.{Journal, Record, Ending, close, status_of, set_status}
use repl_mcp.Config.Types.{ServerConfig}
use repl_mcp.Base.{
  String, ◌==◌, All, ℕ, Option, Bool, Result, any, ◌≡◌, none, string_eq, ◌∷◌, false, true, ◌++◌,
  arith, if◌then◌else◌, retain, some, ok, err, false≢true, [], Bool-cases, ◌≤◌, ltb, inl, inr, refl,
  length, ap, ◌∙◌, ==_refl, subst, sym, ◌&&◌, ◌⊎◌,
}
use repl_mcp.Broker.Answer.{
  Finish, outcome_of, reaches_end, leave_session, call_key, reply, Lost, whole_call, deliver,
  delivery_limit,
}
use repl_mcp.Broker.Journal.Kept.{in_flights}
use repl_mcp.Json.{Value}
use repl_mcp.Broker.Validate.{Schemas}
use repl_mcp.Broker.Journal.Closing.{is_other, Distinct, close_lem}
use repl_mcp.Broker.Call.{Peer, Sent, call}
use repl_mcp.Broker.Call.Granted.{call-Passed}

-- The status of the record with the id.
abbrev pub status_at : String → Journal → Option String
status_at id [] = none
status_at id (r ∷ rs) = if r.id == id then some r.status else status_at id rs

abbrev has_record : String → Journal → Bool
has_record id j = any (λ (r : Record). r.id == id) j

close-status :
    (id : String) (e : Ending) (now : ℕ) (j : Journal)
    → has_record id j ≡ true
    → status_at id (close id e now j) ≡ some (status_of e)
unfolding close set_status
close-status id e now [] h = absurd (false≢true h)
close-status id e now (r ∷ rs) h = elim (Bool-cases (r.id == id)) [
  | inl here ↦ simp (here, here) refl
  | inr there ↦ simp (there, there) (close-status id e now rs (ground (arith, h, there)))
]

has_record-in_flights :
    (id : String) (j : Journal) → has_record id (in_flights j) ≡ true → has_record id j ≡ true
has_record-in_flights id [] h = h
has_record-in_flights id (r ∷ rs) h = ground (arith, h, has_record-in_flights id rs)

has_record-append :
    (id : String) (js : Journal) (r : Record)
    → (r.id == id) ≡ true
    → has_record id (js ++ r ∷ []) ≡ true
has_record-append id [] r same = ground (arith, same)
has_record-append id (q ∷ js) r same = ground (arith, has_record-append id js r same)

retain-append :
    (id : String) (js : Journal) (r : Record)
    → All (λ q. (q.id == id) ≡ false) js
    → (r.id == id) ≡ true
    → retain (is_other id) (js ++ r ∷ []) ≡ js
retain-append id [] r others same = ground (arith, same)
retain-append id (q ∷ js) r others same =
    ground (arith, others, retain-append id js r others.1 same)

-- What the caller gets: the answer itself, when the journal was persisted and the answer is within the
-- delivery budget, or an error.
abbrev pub IsDelivered : Finish → Result String Value → Result Lost Value → Type 0
IsDelivered f answer (err e) = Unit
IsDelivered f answer (ok v) =
    (answer ≡ ok v) × (f.persisted ≡ true) × ((n : ℕ) × (f.size ≡ some n) × (n ≤ delivery_limit))

deliver-IsDelivered :
    (id : String) (f : Finish) (size : Option ℕ) (v : Value)
    → f.persisted ≡ true
    → f.size ≡ size
    → IsDelivered f (ok v) (deliver id size v)
deliver-IsDelivered id f none v durable sized = tt
deliver-IsDelivered id f (some n) v durable sized = elim (Bool-cases (ltb delivery_limit n)) [
  | inl long ↦ rw long tt
  | inr fits ↦ rw fits (refl, durable, (n, sized, ground (arith, fits)))
]

reply-IsDelivered :
    (id : String) (f : Finish) (answer : Result String Value)
    → IsDelivered f answer (reply id f answer)
reply-IsDelivered id f (ok v) = elim (Bool-cases f.persisted) [
  | inl durable ↦ simp durable (deliver-IsDelivered id f f.size v durable refl)
  | inr lost ↦ simp lost tt
]
reply-IsDelivered id f (err e) = elim (Bool-cases f.persisted) [
  | inl durable ↦ simp durable tt
  | inr lost ↦ simp lost tt
]

-- The session that the call leaves behind: as it was, or, when it is closed and the call gets that far,
-- gone with the catalogue.
abbrev pub IsLeft : Finish → Option String → Option (Result Lost Value) → Broker → Broker → Type 0
IsLeft f key out b after =
    ((after ≡ b) × ((f.closed ≡ false) ⊎ ((reaches_end out ≡ false) ⊎ (key ≡ none))))
    ⊎ ((f.closed ≡ true)
        × ((k : String) × (key ≡ some k) × (after.catalogue ≡ []) × (get k after.sessions ≡ none)))

leave_session-IsLeft :
    (f : Finish) (key : Option String) (out : Option (Result Lost Value)) (b : Broker)
    → IsLeft f key out b (leave_session (f.closed && reaches_end out) key b)
unfolding invalidate
leave_session-IsLeft f none out b = elim (Bool-cases (f.closed && reaches_end out)) [
  | inl there ↦ simp there (inl (refl, inr (inr refl)))
  | inr early ↦ simp early (inl (refl, inr (inr refl)))
]
leave_session-IsLeft f (some k) out b = elim (Bool-cases f.closed) [
  | inl closed ↦ elim (Bool-cases (reaches_end out)) [
    | inl there ↦
        simp (closed, there)
          (inr (refl, (k, refl, refl, ground (arith, get-remove k k b.sessions, ==_refl k))))
    | inr early ↦ simp (closed, early) (inl (refl, inr (inl refl)))
  ]
  | inr opened ↦ simp opened (inl (refl, inl refl))
]

-- What the caller gets, if it is still there.
abbrev pub IsTold : Finish → Option (Result String Value) → Option (Result Lost Value) → Type 0
IsTold f none out = out ≡ none
IsTold f (some answer) none = ⊥
IsTold f (some answer) (some out) = IsDelivered f answer out

module _ (to_string : ServerConfig → Option String) (out_of_range : Value → Bool)
    (schemas : Schemas) (encoded : Journal → ℕ) where
  when_sent_lem :
      (params : Value) (p : Peer) (f : Finish) (answer : Option (Result String Value)) (b : Broker)
      (j : Journal) (sent : Sent)
      → (out : Option (Result Lost Value)) × ((after : Broker) × (when_sent to_string out_of_range
              schemas encoded params p f answer
              (ok sent, b, j)
            ≡ (out, after, close p.id (outcome_of answer) f.now j))
          × IsLeft f (call_key to_string out_of_range schemas encoded params b) out b after
          × IsTold f answer out)
  unfolding settle
  when_sent_lem params p f none b j sent = (none, (b, refl, inl (refl, inr (inl refl)), refl))
  when_sent_lem params p f (some answer) b j sent =
      let out : Option (Result Lost Value) = some (reply p.id f answer) in
      let key = call_key to_string out_of_range schemas encoded params b in
      (
        out,
        (
          leave_session (f.closed && reaches_end out) key b,
          refl,
          leave_session-IsLeft f key out b,
          reply-IsDelivered p.id f answer,
        ),
      )

  pub whole_call_lem :
      (session_id run_id : String) (params : Value) (p : Peer) (f : Finish)
      (answer : Option (Result String Value)) (b b' : Broker) (j j' : Journal) (sent : Sent)
      → length j ≤ 256
      → Distinct j'
      → All (λ q. (q.id == p.id) ≡ false) (in_flights j)
      → call to_string out_of_range schemas encoded session_id run_id params p b j
        ≡ (ok sent, b', j')
      → (out : Option (Result Lost Value)) × ((left : Broker) × ((after : Journal) × (whole_call
                to_string out_of_range schemas encoded session_id run_id params p f answer b j
              ≡ (out, left, after))
            × (in_flights after ≡ in_flights j)
            × (length after ≡ length j')
            × (status_at p.id after ≡ some (status_of (outcome_of answer)))
            × IsLeft f (call_key to_string out_of_range schemas encoded params b') out b' left
            × IsTold f answer out))
  unfolding whole_call
  whole_call_lem session_id run_id params p f answer b b' j j' sent small distinct new made =
      let (_, flying) =
        call-Passed to_string out_of_range schemas encoded session_id run_id params p b b' j j' sent
          small made in
      let ending = outcome_of answer in
      let (open_now, same_length) = close_lem p.id ending f.now j' distinct in
      let (out, (left, ends, session_left, told)) = when_sent_lem params p f answer b' j' sent in
      (
        out,
        (
          left,
          (
            close p.id ending f.now j',
            ap (when_sent to_string out_of_range schemas encoded params p f answer) made ∙ ends,
            open_now
                ∙ (ap (retain (is_other p.id)) flying
                    ∙ retain-append p.id (in_flights j) _ new (==_refl p.id)),
            same_length,
            close-status p.id ending f.now j' (
                has_record-in_flights p.id j' (
                  subst (λ (rs : Journal). has_record p.id rs ≡ true) (sym flying)
                    (has_record-append p.id (in_flights j) _ (==_refl p.id)))),
            session_left,
            told,
          ),
        ),
      )
