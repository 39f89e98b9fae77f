-- ===== src/Broker/Journal.antt =====
-- The effect journal of native/src/broker.rs: `dispatch_with_context` enters a record before a call
-- goes out, and `CallRecord` closes it whatever becomes of the call.
pub mod Kept
pub mod Closing
use repl_mcp.Base.{
  ℕ, zero, suc, ◌+◌, String, Bool, true, false, not, List, [], ◌∷◌, ◌++◌, Option, none, some,
  length, ltb, leb, ◌==◌, string_eq, if◌then◌else◌, Result, ok, err,
}

pub record Record : Type 0 where
  pub id : String
  pub session_id : String
  pub project : String
  pub run_id : String
  pub server : String
  pub tool : String
  pub started : ℕ
  pub finished : Option ℕ
  pub status : String

abbrev pub Journal : Type 0
Journal = List Record

pub data Refusal : Type 0 where
  all_in_flight budget_exhausted out_of_fuel : Refusal

-- record["status"] == "dispatched"
abbrev pub in_flight : Record → Bool
in_flight r = r.status == "dispatched"

abbrev pub with_front : Record → Option Journal → Option Journal
with_front r none = none
with_front r (some rs) = some (r ∷ rs)

-- position(|record| record["status"] != "dispatched"), and remove
unfoldable pub remove_terminal : Journal → Option Journal
remove_terminal [] = none
remove_terminal (r ∷ rs) =
    let rest = with_front r (remove_terminal rs) in if in_flight r then rest else some rs

-- VecDeque::pop_back
abbrev pub pop_back : Journal → Journal
pop_back [] = []
pop_back (r ∷ []) = []
pop_back (r ∷ q ∷ rs) = r ∷ pop_back (q ∷ rs)

-- How many bytes serde_json takes for the journal is a parameter.
module _ (encoded : Journal → ℕ) where
  -- The loop that brings the journal below 900000 bytes.
  unfoldable pub trim : ℕ → Journal → Result Refusal (Unit {0}) × Journal
  trim zero j = (err out_of_fuel, j)
  trim (suc fuel) j = elim (ltb 900000 (encoded j)) [
    | false ↦ (ok tt, j)
    | true ↦ elim (remove_terminal j) [
      | none ↦ (err budget_exhausted, pop_back j)
      | some j' ↦ trim fuel j'
    ]
  ]

  -- push_back, and the loop, which runs at most once for each record and once more.
  abbrev pub push : Record → Journal → Result Refusal (Unit {0}) × Journal
  push r j = trim (suc (suc (length j))) (j ++ r ∷ [])

  -- The entry of a record, before the call is dispatched.
  unfoldable pub enter : Record → Journal → Result Refusal (Unit {0}) × Journal
  unfolding trim
  enter r j =
      if leb 256 (length j)
      then elim (remove_terminal j) [ none ↦ (err all_in_flight, j) | some j' ↦ push r j' ]
      else push r j

-- journal.iter_mut().find(..), and the new status
unfoldable pub set_status : String → String → ℕ → Journal → Journal
set_status id status now [] = []
set_status id status now (r ∷ rs) =
    let rest = set_status id status now rs in
    if r.id == id then record r { status = status; finished = some now } ∷ rs else r ∷ rest

-- How a call leaves its record: an envelope with or without `isError`, an error of the request, or
-- the future dropped on the way, when `CallRecord::drop` runs.
pub data Ending : Type 0 where
  returned : Bool → Ending
  failed dropped : Ending

abbrev pub status_of : Ending → String
status_of (returned true) = "tool_error"
status_of (returned false) = "completed"
status_of failed = "outcome_unknown"
status_of dropped = "outcome_unknown"

-- CallRecord::finish and Drop for CallRecord
unfoldable pub close : String → Ending → ℕ → Journal → Journal
unfolding set_status
close id ending now j = set_status id (status_of ending) now j
