-- ===== src/Supervisor/History/Kept.antt =====
-- The history after `remember` (native/src/supervisor.rs).

-- No record has this id.
use repl_mcp.Supervisor.History.{last_run, Run, trim_front, history_limit, remember}
use repl_mcp.Base.{
  List, String, retain, ◌≡◌, ◌++◌, ◌==◌, Bool, All, ◌∷◌, length, drop, false, ◌≤◌, Bool-cases, [],
  not, true, ltb, ◌-◌, string_eq, All-append, inl, some, arith, inr, refl, All-retain, ℕ, suc,
  ==_refl, ◌<◌,
}

abbrev pub Absent : String → List Run → Type 0
Absent id rs = All (λ q. (q.0 == id) ≡ false) rs

abbrev pub Unique : List Run → Type 0
Unique [] = Unit
Unique (r ∷ rs) = Absent r.0 rs × Unique rs

length-trim_front : (rs : List Run) → length (trim_front rs) ≤ history_limit
unfolding trim_front
length-trim_front [] = omega arith
length-trim_front (r ∷ rs) = ground (arith, length-trim_front rs)

Unique-trim_front : (rs : List Run) → Unique rs → Unique (trim_front rs)
unfolding trim_front
Unique-trim_front [] u = tt
Unique-trim_front (r ∷ rs) u = elim (Bool-cases (ltb history_limit (length (r ∷ rs)))) [
  | inl over ↦ rw over (Unique-trim_front rs u.1)
  | inr fits ↦ rw fits u
]

Unique-retain : (p : Run → Bool) (rs : List Run) → Unique rs → Unique (retain p rs)
Unique-retain p [] u = tt
Unique-retain p (r ∷ rs) u = elim (Bool-cases (p r)) [
  | inl kept ↦ rw kept (All-retain _ p rs u.0, Unique-retain p rs u.1)
  | inr out ↦ rw out (Unique-retain p rs u.1)
]

Unique-append : (rs : List Run) (r : Run) → Unique rs → Absent r.0 rs → Unique (rs ++ r ∷ [])
Unique-append [] r u a = (tt, tt)
Unique-append (q ∷ rs) r u a = (
  All-append _ rs (r ∷ []) u.0
      (ground (arith, a.0, string_eq.test_iff q.0 r.0, string_eq.test_iff r.0 q.0), tt),
  Unique-append rs r u.1 a.1,
)

Absent-retain : (id : String) (rs : List Run) → Absent id (retain (λ q. not (q.0 == id)) rs)
Absent-retain id [] = tt
Absent-retain id (q ∷ rs) = elim (Bool-cases (q.0 == id)) [
  | inl same ↦ rw same (Absent-retain id rs)
  | inr other ↦ rw other (other, Absent-retain id rs)
]

over_by : (n : ℕ) → history_limit < suc n → suc n - history_limit ≡ suc (n - history_limit)
over_by n h = omega arith

not_over : (n : ℕ) → suc n ≤ history_limit → suc n - history_limit ≡ 0
not_over n h = omega arith

trim_front-drop : (rs : List Run) → trim_front rs ≡ drop (length rs - history_limit) rs
unfolding trim_front
trim_front-drop [] = refl
trim_front-drop (r ∷ rs) = elim (Bool-cases (ltb history_limit (length (r ∷ rs)))) [
  | inl over ↦ rw (over, over_by (length rs) (ground (arith, over))) (trim_front-drop rs)
  | inr fits ↦ rw (fits, not_over (length rs) (ground (arith, fits))) refl
]

last_run-append :
    (id : String) (rs : List Run) (r : Run)
    → (r.0 == id) ≡ true
    → last_run (some id) (rs ++ r ∷ []) ≡ some r
unfolding last_run
last_run-append id [] r h = ground arith
last_run-append id (q ∷ rs) r h = rw (last_run-append id rs r h) refl

last_run-newest :
    (id : String) (rs : List Run) (r : Run)
    → (r.0 == id) ≡ true
    → last_run (some id) (trim_front (rs ++ r ∷ [])) ≡ some r
unfolding trim_front
last_run-newest id [] r h = last_run-append id [] r h
last_run-newest id (q ∷ rs) r h =
    elim (Bool-cases (ltb history_limit (length (q ∷ rs ++ r ∷ [])))) [
      | inl over ↦ rw over (last_run-newest id rs r h)
      | inr fits ↦ rw fits (last_run-append id (q ∷ rs) r h)
    ]

-- Remembering a run keeps the history at 64 records at most with no id twice, and the run is then
-- found under its id; of the records before it, only an earlier one of the same id and the oldest
-- ones beyond the limit go. The ids of the history before were unique.
pub remember_lem :
    (r : Run) (records : List Run)
    → Unique records
    → Unique (remember r records)
      × (length (remember r records) ≤ history_limit)
      × (last_run (some r.0) (remember r records) ≡ some r)
      × (let kept = retain (λ q. not (q.0 == r.0)) records ++ r ∷ [] in
          remember r records ≡ drop (length kept - history_limit) kept)
unfolding remember
remember_lem r records u =
    let kept = retain (λ q. not (q.0 == r.0)) records in
    (
      Unique-trim_front (kept ++ r ∷ [])
          (Unique-append kept r (Unique-retain _ records u) (Absent-retain r.0 records)),
      length-trim_front (kept ++ r ∷ []),
      last_run-newest r.0 kept r (==_refl r.0),
      trim_front-drop (kept ++ r ∷ []),
    )
