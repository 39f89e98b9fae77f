-- ===== src/Supervisor/Reader/Gate.antt =====
-- The calls that the reader of a worker lets through (native/src/supervisor.rs).
use repl_mcp.Json.{
  get, Value, str, get_str, object, and_then, get-put_field, as_str, null, bool, unsigned, number,
  array,
}
use repl_mcp.Base.{
  String, Bool, length, ◌≡◌, some, ◌∷◌, true, false, ◌⊎◌, ◌<◌, Bool-cases, Option, false≢true, inl,
  refl, arith, ◌==◌, leb, string_eq, pair_eq, ◌||◌, inr, none, ap, not, ==_sound,
}
use repl_mcp.Supervisor.Reader.{
  on_call, target, Reader, Target, may_call, forwards, task_limit, forget_finished, stores, key_of,
  artifact_target, admit, is_for,
}
use repl_mcp.Config.Normal.{or_else}
use repl_mcp.Base.Map.{contains_key, insert}
use repl_mcp.Broker.Failures.{starts_with}

-- An operation on artifacts carries the run of its task.
abbrev pub IsStamped : String × Target → Type 0
IsStamped (run, forwards params) = get "_run_id" params ≡ some (str run)
IsStamped (run, stores op params) = get "_run_id" params ≡ some (str run)
IsStamped _ = Unit

of_str : (o : Option Value) (s : String) → and_then o as_str ≡ some s → o ≡ some (str s)
of_str none s h = absurd (ground (arith, h))
of_str (some null) s h = absurd (ground (arith, h))
of_str (some (bool b)) s h = absurd (ground (arith, h))
of_str (some (unsigned n)) s h = absurd (ground (arith, h))
of_str (some (number n)) s h = absurd (ground (arith, h))
of_str (some (str t)) s h =
    ap (λ (o : Option String). elim o [ none ↦ none | some w ↦ some (str w) ]) h
of_str (some (array vs)) s h = absurd (ground (arith, h))
of_str (some (object fs)) s h = absurd (ground (arith, h))

is_for_lem :
    (o : Option String) (id : String)
    → elim o [ none ↦ false | some r ↦ r == id ] ≡ true
    → o ≡ some id
is_for_lem none id h = absurd (false≢true h)
is_for_lem (some r) id h = ap (λ (s : String). some s) (==_sound r id h)

may_call_lem :
    (event : Value) (o : Option (String × Bool))
    → may_call event o ≡ true
    → (id : String) × (o ≡ some (id, false)) × (get "run_id" event ≡ some (str id))
may_call_lem event none h = absurd (false≢true h)
may_call_lem event (some (id, true)) h = absurd (ground (arith, h))
may_call_lem event (some (id, false)) h =
    let named : is_for event id ≡ true = ground (arith, h) in
    (id, refl, of_str (get "run_id" event) id (is_for_lem (get_str "run_id" event) id named))

artifact_target-IsStamped :
    (store : Bool) (op id : String) (params : Value)
    → IsStamped (id, artifact_target store op (str id) params)
artifact_target-IsStamped false op id (object fields) = tt
artifact_target-IsStamped true op id (object fields) =
    let stamped = get-put_field "_run_id" "_run_id" (str id) fields in
    elim (Bool-cases (op == "artifact.forward")) [
      | inl forward ↦ rw forward stamped
      | inr other ↦ rw other stamped
    ]
artifact_target-IsStamped store op id _ = tt

pub target-IsStamped :
    (store : Bool) (event : Value) (id : String)
    → get "run_id" event ≡ some (str id)
    → IsStamped (id, target store event)
unfolding target
target-IsStamped store event id named =
    elim (Bool-cases (starts_with "artifact." (or_else (get_str "op" event) ""))) [
      | inl store_op ↦
          simp (store_op, named, target)
            (artifact_target-IsStamped store (or_else (get_str "op" event) "") id
              (or_else (get "params" event) null))
      | inr other ↦ simp (other, target) tt
    ]

-- What becomes of a call.
abbrev pub Verdict : Bool → Value → Reader → Reader → Type 0
Verdict store event r s =
    ((s.spawned ≡ r.spawned)
      × (s.refused ≡ get "id" event ∷ r.refused)
      × (s.tasks ≡ (forget_finished r).tasks))
    ⊎ ((id : String) × ((key : String × String) × (r.run ≡ some (id, false))
          × (get "run_id" event ≡ some (str id))
          × (key_of event ≡ some key)
          × (length (forget_finished r).tasks < task_limit)
          × (contains_key key (forget_finished r).tasks ≡ false)
          × (s.spawned ≡ (id, target store event) ∷ r.spawned)
          × (s.refused ≡ r.refused)
          × (s.tasks
              ≡ insert key (record { handle = r.next; finished = false })
                  (forget_finished r).tasks)))

admit-Verdict :
    (store : Bool) (event : Value) (r : Reader) (o : Option (String × String))
    → key_of event ≡ o
    → Verdict store event r (admit store event o (forget_finished r))
admit-Verdict store event r none e = inl (refl, refl, refl)
admit-Verdict store event r (some key) e =
    let shut =
      leb task_limit (length (forget_finished r).tasks)
      || (contains_key key (forget_finished r).tasks || not (may_call event r.run)) in
    elim (Bool-cases shut) [
      | inl full ↦ simp full (inl (refl, refl, refl))
      | inr free ↦
          let (id, current, named) = may_call_lem event r.run (ground (arith, free)) in
          let run : or_else (get_str "run_id" event) "" ≡ id = simp named refl in
          simp free (
            inr (
              id,
              (
                key,
                current,
                named,
                e,
                ground (arith, free),
                ground (arith, free),
                ap (λ (s : String). (s, target store event) ∷ r.spawned) run,
                refl,
                refl,
              ),
            ))
    ]

-- A call is let through only when it is for the run that the worker has, which is not cancelled,
-- fewer than 64 calls are unfinished and none of them has its key; it is then a new task for that run.
-- Otherwise no task is spawned and the call is refused.
pub on_call-Verdict :
    (store : Bool) (event : Value) (r : Reader) → Verdict store event r (on_call store event r)
unfolding on_call
on_call-Verdict store event r = admit-Verdict store event r (key_of event) refl
