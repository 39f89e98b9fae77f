-- ===== src/Supervisor/History.antt =====
-- The runs that native/src/supervisor.rs remembers, and the one that is active: `reserve`, `remember`,
-- `cancel`, `run` and the end of a reservation.
pub mod Kept
use repl_mcp.Base.{
  ℕ, List, Option, String, retain, ◌∷◌, none, some, not, if◌then◌else◌, ◌==◌, ltb, length, ◌++◌, [],
  string_eq,
}
use repl_mcp.Json.{Value}

-- A result under its run_id; what it says is a parameter here.
abbrev pub Run : Type 0
Run = String × Value

abbrev pub history_limit : ℕ
history_limit = 64

-- while records.len() > HISTORY_LIMIT { records.pop_front() }
unfoldable pub trim_front : List Run → List Run
trim_front [] = []
trim_front (r ∷ rs) =
    let rest = trim_front rs in if ltb history_limit (length (r ∷ rs)) then rest else r ∷ rs

-- Supervisor::remember
unfoldable pub remember : Run → List Run → List Run
unfolding trim_front
remember r records = trim_front (retain (λ q. not (q.0 == r.0)) records ++ r ∷ [])

-- records.iter().rev().find(..)
unfoldable pub last_run : Option String → List Run → Option Run
last_run id [] = none
last_run none (r ∷ rs) = elim (last_run none rs) [ none ↦ some r | some q ↦ some q ]
last_run (some id) (r ∷ rs) = elim (last_run (some id) rs) [
  | none ↦ if r.0 == id then some r else none
  | some q ↦ some q
]
