-- ===== src/Broker/Journal/Kept.antt =====
-- The records in flight and the limits of the journal, when a record is entered.
use repl_mcp.Broker.Journal.{
  Journal, remove_terminal, Record, pop_back, in_flight, trim, Refusal, budget_exhausted,
  all_in_flight, push, enter,
}
use repl_mcp.Base.{
  Bool, ◌≡◌, retain, ℕ, some, Result, true, ◌++◌, none, suc, ◌∷◌, length, ok, ◌+◌, arith, [],
  Bool-cases, ap, ◌<◌, inl, refl, ◌≤◌, zero, ◌⊎◌, Option-cases, err, inr, ltb, length-append, leb,
}

abbrev pub in_flights : Journal → Journal
in_flights = retain in_flight

terminal_out :
    (j j' : Journal)
    → remove_terminal j ≡ some j'
    → (in_flights j' ≡ in_flights j) × (suc (length j') ≡ length j)
unfolding remove_terminal
terminal_out [] j' h = cc
terminal_out (r ∷ rs) j' h = elim (Bool-cases (in_flight r)) [
  | inl flying ↦ elim (Option-cases (remove_terminal rs)) [
    | inl e ↦ ground arith
    | inr (rs', e) ↦ ground (arith, terminal_out rs rs' e)
  ]
  | inr done ↦ ground arith
]

retain-append :
    (p : Record → Bool) (xs ys : Journal) → retain p (xs ++ ys) ≡ retain p xs ++ retain p ys
retain-append p [] ys = refl
retain-append p (x ∷ xs) ys = ground (arith, retain-append p xs ys)

-- With no terminal record, all are in flight.
all_flying : (j : Journal) → remove_terminal j ≡ none → in_flights j ≡ j
unfolding remove_terminal
all_flying [] h = refl
all_flying (r ∷ rs) h = ground (arith, all_flying rs)

pop_back-append : (j : Journal) (r : Record) → pop_back (j ++ r ∷ []) ≡ j
pop_back-append [] r = refl
pop_back-append (x ∷ []) r = refl
pop_back-append (x ∷ y ∷ j) r = ap (λ l. x ∷ l) (pop_back-append (y ∷ j) r)

-- The record pushed last is in flight, so that a removal takes one before it.
remove_terminal-append :
    (j : Journal) (r : Record)
    → in_flight r ≡ true
    → remove_terminal (j ++ r ∷ [])
      ≡ elim (remove_terminal j) [ none ↦ none | some k ↦ some (k ++ r ∷ []) ]
unfolding remove_terminal
remove_terminal-append [] r h = ground arith
remove_terminal-append (x ∷ j) r h = ground (arith, remove_terminal-append j r h)

module _ (encoded : Journal → ℕ) where
  -- What a trimmed journal is: within the budget with the new record last, or refused and without it.
  abbrev Trimmed : Journal → Record → Result Refusal (Unit {0}) × Journal → Type 0
  Trimmed j r (outcome, j') =
      ((outcome ≡ ok tt)
        × ((k : Journal) × (j' ≡ k ++ r ∷ [])
            × (in_flights k ≡ in_flights j)
            × (length k ≤ length j))
        × (encoded j' ≤ 900000))
      ⊎ ((outcome ≡ err budget_exhausted) × (in_flights j' ≡ in_flights j) × (length j' ≤ length j))

  -- What holds of a journal with one terminal record less holds of the journal.
  shrunk :
      (j k : Journal) (r : Record) (out : Result Refusal (Unit {0}) × Journal)
      → (in_flights k ≡ in_flights j) × (suc (length k) ≡ length j)
      → Trimmed k r out
      → Trimmed j r out
  shrunk j k r (outcome, j') (same, less) (inl (e, (m, at_end, kept, short), fits)) =
      inl (e, (m, at_end, cc, omega arith), fits)
  shrunk j k r (outcome, j') (same, less) (inr (e, kept, short)) = inr (e, cc, omega arith)

  trim_lem :
      (fuel : ℕ) (j : Journal) (r : Record)
      → in_flight r ≡ true
      → length j + 1 < fuel + 0
      → Trimmed j r (trim encoded fuel (j ++ r ∷ []))
  unfolding trim
  trim_lem zero j r h enough = absurd (omega arith)
  trim_lem (suc fuel) j r h enough = elim (Bool-cases (ltb 900000 (encoded (j ++ r ∷ [])))) [
    | inl over ↦ elim (Option-cases (remove_terminal j)) [
      | inl e ↦
          rw (over, trim, remove_terminal-append j r h, e, pop_back-append j r)
            (inr (refl, refl, omega arith))
      | inr (k, e) ↦
          rw (over, trim, remove_terminal-append j r h, e)
            (shrunk j k r _ (terminal_out j k e)
              (trim_lem fuel k r h (omega (arith, terminal_out j k e))))
    ]
    | inr within ↦ rw (within, trim) (inl (refl, (j, refl, refl, omega arith), ground arith))
  ]

  -- The journal that `enter` leaves, for each outcome.
  abbrev pub Entered : Journal → Record → Result Refusal (Unit {0}) × Journal → Type 0
  Entered j r (outcome, j') =
      ((outcome ≡ ok tt)
        × (in_flights j' ≡ in_flights j ++ r ∷ [])
        × (length j' ≤ 256)
        × (encoded j' ≤ 900000))
      ⊎ (((outcome ≡ err all_in_flight) ⊎ (outcome ≡ err budget_exhausted))
          × (in_flights j' ≡ in_flights j)
          × (length j' ≤ 256))

  pushed :
      (j : Journal) (r : Record) (out : Result Refusal (Unit {0}) × Journal)
      → in_flight r ≡ true
      → length j < 256
      → Trimmed j r out
      → Entered j r out
  pushed j r (outcome, j') h room (inl (e, (k, at_end, kept, short), fits)) =
      inl (e, ended, omega (arith, length-append k (r ∷ []), ap length at_end), fits)
    where
      ended : in_flights j' ≡ in_flights j ++ r ∷ []
      ended = rw (at_end, retain-append in_flight k (r ∷ []), kept, h) refl
  pushed j r (outcome, j') h room (inr (e, kept, short)) = inr (inr e, kept, omega arith)

  push_lem :
      (j : Journal) (r : Record)
      → in_flight r ≡ true
      → length j < 256
      → Entered j r (push encoded r j)
  push_lem j r h room = pushed j r _ h room (trim_lem _ j r h (omega arith))

  freed :
      (j k : Journal) (r : Record) (out : Result Refusal (Unit {0}) × Journal)
      → (in_flights k ≡ in_flights j) × (suc (length k) ≡ length j)
      → Entered k r out
      → Entered j r out
  freed j k r (outcome, j') (same, less) (inl (e, kept, short, fits)) = inl (e, cc, short, fits)
  freed j k r (outcome, j') (same, less) (inr (e, kept, short)) = inr (e, cc, short)

  -- Entering the record of a call in flight in a journal of at most 256 records either succeeds, and
  -- then the records in flight are the ones before and the new one at the end, in their order, in at
  -- most 256 records and 900000 bytes; or it is refused because all records are in flight or the
  -- byte budget is exhausted, and then the records in flight are the ones before. The loop ends.
  pub enter_lem :
      (j : Journal) (r : Record)
      → in_flight r ≡ true
      → length j ≤ 256
      → Entered j r (enter encoded r j)
  unfolding enter
  enter_lem j r h bound = elim (Bool-cases (leb 256 (length j))) [
    | inl full ↦ elim (Option-cases (remove_terminal j)) [
      | inl e ↦ rw (full, e, enter) (inr (inl refl, refl, bound))
      | inr (k, e) ↦
          rw (full, e, enter)
            (freed j k r _ (terminal_out j k e)
              (push_lem k r h (omega (arith, terminal_out j k e))))
    ]
    | inr room ↦ rw (room, enter) (push_lem j r h (ground arith))
  ]
