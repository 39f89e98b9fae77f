-- ===== src/Broker/Journal/Closing.antt =====
-- The closing of a record by CallRecord (native/src/broker.rs).
use repl_mcp.Base.{
  String, ◌∷◌, All, ◌==◌, ◌≡◌, Bool, true, not, false, subst, [], string_eq, retain, refl, arith, ℕ,
  length, Bool-cases, inl, inr,
}
use repl_mcp.Broker.Journal.{
  Ending, Journal, Record, status_of, returned, failed, dropped, close, set_status,
}
use repl_mcp.Broker.Journal.Kept.{in_flights}

-- Record ids are UUIDs: no two records of a journal share one.
abbrev pub Distinct : Journal → Type 0
Distinct [] = Unit
Distinct (r ∷ rs) = All (λ q. (q.id == r.id) ≡ false) rs × Distinct rs

abbrev pub is_other : String → Record → Bool
is_other id r = not (r.id == id)

others-absent :
    (id : String) (rs : Journal)
    → All (λ q. (q.id == id) ≡ false) rs
    → retain (is_other id) (in_flights rs) ≡ in_flights rs
others-absent id [] a = refl
others-absent id (r ∷ rs) a = ground (arith, others-absent id rs a.1)

ending_closed : (e : Ending) → (status_of e == "dispatched") ≡ false
ending_closed (returned true) = refl
ending_closed (returned false) = refl
ending_closed failed = refl
ending_closed dropped = refl

same_absent :
    (id id' : String) (rs : Journal)
    → (id' == id) ≡ true
    → All (λ q. (q.id == id') ≡ false) rs
    → All (λ q. (q.id == id) ≡ false) rs
same_absent id id' rs h a =
    subst (λ i. All (λ q. (q.id == i) ≡ false) rs) ((string_eq.test_iff id' id).0 h) a

-- Whichever way a call ends, closing its record takes exactly that record out of the ones in flight:
-- the others stay in flight, in their order, and the journal keeps its length. The ids of the
-- journal are distinct.
pub close_lem :
    (id : String) (e : Ending) (now : ℕ) (j : Journal)
    → Distinct j
    → (in_flights (close id e now j) ≡ retain (is_other id) (in_flights j))
      × (length (close id e now j) ≡ length j)
unfolding close set_status
close_lem id e now [] d = (refl, refl)
close_lem id e now (r ∷ rs) d = elim (Bool-cases (r.id == id)) [
  | inl here ↦
      ground (arith, ending_closed e, others-absent id rs (same_absent id r.id rs here d.0))
  | inr there ↦ ground (arith, close_lem id e now rs d.1)
]
