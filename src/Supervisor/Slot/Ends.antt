-- ===== src/Supervisor/Slot/Ends.antt =====
-- The ends of a run (native/src/supervisor.rs).

-- What the end of a run leaves: the run is reported under its id with this outcome, nothing is
-- active, the run can register no upload any more, and the next run can be reserved.
use repl_mcp.Supervisor.Slot.{
  finish, drop_reservation, Supervisor, run, reserve, Active, finished, from_history, abandon,
  drop_guard, before_guard, armed, disarmed,
}
use repl_mcp.Base.{
  String, Bool, some, All, ◌≡◌, false, ok, retain, true, not, none, ◌∷◌, Bool-cases, ◌==◌, ◌&&◌,
  inl, inr, length, [], ◌≤◌, string_eq, pair_eq, List, ==_refl, refl, ℕ,
}
use repl_mcp.Artifacts.State.{Upload, Store}
use repl_mcp.Json.{Value}
use repl_mcp.Base.Map.{Map, get, get-remove, remove}
use repl_mcp.Supervisor.History.Kept.{Unique, remember_lem}
use repl_mcp.Supervisor.History.{history_limit, Run, remember}
use repl_mcp.Artifacts.Registry.{abort_unfinished_uploads}

abbrev pub IsOver : String → Supervisor → Type 0
IsOver id s =
    (s.active ≡ none)
    × (get (s.session_id, id) s.artifacts.runs ≡ none)
    × All (λ u. (u.1.owner == s.session_id && u.1.run == id) ≡ false) s.artifacts.uploads
    × ((next : String) → (reserve next s).0 ≡ true)

abbrev pub IsEnded : String → Value → Supervisor → Type 0
IsEnded id outcome s =
    (run (some id) s ≡ ok (finished (id, outcome)))
    × Unique s.records
    × (length s.records ≤ history_limit)
    × IsOver id s

no_uploads :
    (p : Upload → Bool) (us : Map String Upload)
    → All (λ u. p u.1 ≡ false) (retain (λ u. not (p u.1)) us)
no_uploads p [] = tt
no_uploads p ((id, u) ∷ us) = elim (Bool-cases (p u)) [
  | inl out ↦ rw out (no_uploads p us)
  | inr kept ↦ rw kept (kept, no_uploads p us)
]

reported :
    (id : String) (outcome : Value) (records : List Run)
    → Unique records
    → from_history (some id) (remember (id, outcome) records) ≡ ok (finished (id, outcome))
reported id outcome records u = rw ((remember_lem (id, outcome) records u).2, from_history) refl

run_removed :
    (key : String × String) (runs : Map (String × String) ℕ) → get key (remove key runs) ≡ none
run_removed key runs = rw (get-remove key key runs, ==_refl key) refl

unregistered :
    (owner id : String) (store : Store)
    → (get (owner, id) (abort_unfinished_uploads owner id store).1.runs ≡ none)
      × All
          (λ u. (u.1.owner == owner && u.1.run == id) ≡ false)
          (abort_unfinished_uploads owner id store).1.uploads
unfolding abort_unfinished_uploads
unregistered owner id store =
    (run_removed (owner, id) store.runs, no_uploads (λ u. u.owner == owner && u.run == id) _)

drop_reservation-IsOver :
    (id : String) (failure : Value) (s : Supervisor)
    → IsOver id (drop_reservation true id failure s)
unfolding drop_reservation reserve
drop_reservation-IsOver id failure s =
    let left = unregistered s.session_id id s.artifacts in (refl, left.0, left.1, λ next. refl)

-- The ends of a run that holds the slot, in a history of unique ids. One that returns is in the history
-- with its result. One whose future is dropped is there with the failure of its reservation before it
-- has a guard, and with that of its guard while that is armed; once the guard is disarmed, which is
-- before a worker that is not kept is terminated, nothing is recorded of it. In every case its
-- uploads are gone and the slot is free.
pub run_ends :
    (id : String) (result killed failure : Value) (a : Active) (s : Supervisor)
    → s.active ≡ some a
    → Unique s.records
    → IsEnded id result (finish true id result failure s)
      × IsEnded id failure (abandon before_guard true id killed failure s)
      × IsEnded id killed (abandon armed true id killed failure s)
      × IsOver id (abandon disarmed true id killed failure s)
      × ((abandon disarmed true id killed failure s).records ≡ s.records)
unfolding finish drop_reservation run abandon drop_guard
run_ends id result killed failure a s held u =
    let kept = remember_lem (id, result) s.records u in
    let lost = remember_lem (id, failure) s.records u in
    let shot = remember_lem (id, killed) s.records u in
    let over = drop_reservation-IsOver id failure in
    (
      (
        reported id result s.records u,
        kept.0,
        kept.1,
        over (record s { active = none; records = remember (id, result) s.records }),
      ),
      (
        rw held (reported id failure s.records u),
        rw held lost.0,
        rw held lost.1,
        drop_reservation-IsOver id failure s,
      ),
      (
        reported id killed s.records u,
        shot.0,
        shot.1,
        over (record s { active = none; records = remember (id, killed) s.records }),
      ),
      over (record s { active = none }),
      refl,
    )
