-- ===== src/Supervisor/Reader/Reachable.antt =====
-- The calls in flight at any time (native/src/supervisor.rs).
use repl_mcp.Base.Map.{
  IsDistinct, contains_key, Map, insert, length-insert-le, length-remove-le, IsDistinct-insert,
  IsDistinct-remove,
}
use repl_mcp.Supervisor.Reader.{
  on_cancel, Reader, read_event, new_reader, forget_finished, on_call, task_limit, Task, start_run,
  cancel_run, drain, clear_run, finish, may_cancel, abort_at, abort_key, target, Target, key_of,
  finish_task,
}
use repl_mcp.Base.{
  Bool, Eq, length, arith, map, ◌≡◌, retain, ◌≤◌, ◌∷◌, false, length-retain-le, true, ap, String,
  ◌∙◌, inl, All, Bool-cases, inr, ℕ, [], ◌==◌, pair_eq, ◌||◌, string_eq, ◌+◌, refl, not, Option,
  if◌then◌else◌, List, suc, some, subst, sym, none,
}
use repl_mcp.Json.{Value}
use repl_mcp.Supervisor.Reader.Gate.{on_call-Verdict, IsStamped, target-IsStamped}
use repl_mcp.Supervisor.Jobs.{is_type}

-- A step of the reader, of the run that it serves, or of a task.
pub data Step (store : Bool) : Reader → Reader → Type 0 where
  reads :
      {r : Reader} (receiving : Bool) (event : Value)
      → r.live ≡ true
      → Step store r (read_event store receiving event r)
  stops : {r : Reader} → Step store r (record r { live = false })
  starts : {r : Reader} (id : String) → Step store r (start_run id r)
  cancels : {r : Reader} → Step store r (cancel_run r)
  drains : {r : Reader} → Step store r (drain r)
  clears : {r : Reader} → Step store r (clear_run r)
  finishes : {r : Reader} (handle : ℕ) → Step store r (finish handle r)

pub data Reaches (store : Bool) : Reader → Type 0 where
  fresh : Reaches store new_reader
  after : {r s : Reader} → Reaches store r → Step store r s → Reaches store s

-- At most 64 tasks with keys of their own, and every operation on artifacts marked with its run.
abbrev AreSound : Map (String × String) Task → List (String × Target) → Type 0
AreSound tasks spawned = (length tasks ≤ task_limit) × IsDistinct tasks × All IsStamped spawned

abbrev pub IsSound : Reader → Type 0
IsSound r = AreSound r.tasks r.spawned

length-map : {A B : Type 0} (f : A → B) (xs : List A) → length (map f xs) ≡ length xs
length-map f [] = refl
length-map f (x ∷ xs) = ap (λ (n : ℕ). suc n) (length-map f xs)

module _ {K V : Type 0} ⦃e : Eq K⦄ where
  contains_key-retain :
      (k : K) (p : V → Bool) (m : Map K V)
      → contains_key k m ≡ false
      → contains_key k (retain (λ (t : K × V). p t.1) m) ≡ false
  contains_key-retain k p [] h = refl
  contains_key-retain k p ((j, v) ∷ m) h = elim (Bool-cases (p v)) [
    | inl kept ↦ rw kept (ground (arith, h, contains_key-retain k p m))
    | inr gone ↦ rw gone (contains_key-retain k p m (ground (arith, h)))
  ]

  IsDistinct-retain :
      (p : V → Bool) (m : Map K V) → IsDistinct m → IsDistinct (retain (λ (t : K × V). p t.1) m)
  IsDistinct-retain p [] d = tt
  IsDistinct-retain p ((j, v) ∷ m) d = elim (Bool-cases (p v)) [
    | inl kept ↦ rw kept (contains_key-retain j p m d.0, IsDistinct-retain p m d.1)
    | inr gone ↦ rw gone (IsDistinct-retain p m d.1)
  ]

  contains_key-map :
      (k : K) (f : V → V) (m : Map K V)
      → contains_key k (map (λ (t : K × V). (t.0, f t.1)) m) ≡ contains_key k m
  contains_key-map k f [] = refl
  contains_key-map k f ((j, v) ∷ m) = elim (Bool-cases (j == k)) [
    | inl here ↦ rw here refl
    | inr there ↦ rw there (contains_key-map k f m)
  ]

  IsDistinct-map :
      (f : V → V) (m : Map K V) → IsDistinct m → IsDistinct (map (λ (t : K × V). (t.0, f t.1)) m)
  IsDistinct-map f [] d = tt
  IsDistinct-map f ((j, v) ∷ m) d = (contains_key-map j f m ∙ d.0, IsDistinct-map f m d.1)

forget_finished-IsSound : (r : Reader) → IsSound r → IsSound (forget_finished r)
forget_finished-IsSound r (few, distinct, stamped) = (
  omega (arith, length-retain-le (λ (t : (String × String) × Task). not t.1.finished) r.tasks, few),
  IsDistinct-retain (λ (t : Task). not t.finished) r.tasks distinct,
  stamped,
)

become :
    (r : Reader) (tasks : Map (String × String) Task) (spawned : List (String × Target))
    → r.tasks ≡ tasks
    → r.spawned ≡ spawned
    → AreSound tasks spawned
    → IsSound r
become r tasks spawned same made sound =
    subst (λ ts. AreSound ts r.spawned) (sym same) (subst (AreSound tasks) (sym made) sound)

on_call-IsSound :
    (store : Bool) (event : Value) (r : Reader) → IsSound r → IsSound (on_call store event r)
on_call-IsSound store event r sound = elim (on_call-Verdict store event r) [
  | inl (spawned, refused, tasks) ↦
      become (on_call store event r) (forget_finished r).tasks r.spawned tasks spawned
        (forget_finished-IsSound r sound)
  | inr (id, (key, current, named, keyed, room, other, spawned, refused, tasks)) ↦
      let (few, distinct, stamped) = forget_finished-IsSound r sound in
      let task : Task = record { handle = r.next; finished = false } in
      become (on_call store event r) (insert key task (forget_finished r).tasks)
        ((id, target store event) ∷ r.spawned) tasks spawned
        (
          omega (arith, length-insert-le key task (forget_finished r).tasks, room),
          IsDistinct-insert key task (forget_finished r).tasks distinct,
          (target-IsStamped store event id named, stamped),
        )
]

abort_at-IsSound :
    (key : String × String) (o : Option Task) (r : Reader) → IsSound r → IsSound (abort_at key o r)
abort_at-IsSound key none r sound = sound
abort_at-IsSound key (some task) r (few, distinct, stamped) = (
  omega (arith, length-remove-le key r.tasks, few),
  IsDistinct-remove key r.tasks distinct,
  stamped,
)

abort_key-IsSound :
    (o : Option (String × String)) (r : Reader) → IsSound r → IsSound (abort_key o r)
abort_key-IsSound none r sound = sound
abort_key-IsSound (some key) r sound =
    abort_at-IsSound key (repl_mcp.Base.Map.get key r.tasks) r sound

either-IsSound : (b : Bool) (r s : Reader) → IsSound r → IsSound s → IsSound (if b then r else s)
either-IsSound true r s first second = first
either-IsSound false r s first second = second

on_cancel-IsSound : (event : Value) (r : Reader) → IsSound r → IsSound (on_cancel event r)
unfolding on_cancel
on_cancel-IsSound event r sound =
    either-IsSound (may_cancel event r.run) (abort_key (key_of event) r) r
      (abort_key-IsSound (key_of event) r sound) sound

read_event-IsSound :
    (store receiving : Bool) (event : Value) (r : Reader)
    → IsSound r
    → IsSound (read_event store receiving event r)
unfolding read_event
read_event-IsSound store receiving event r sound = either-IsSound (is_type "job" event) _ _ sound (
    either-IsSound (is_type "rpc_cancel" event) _ _ (on_cancel-IsSound event r sound) (
      either-IsSound (is_type "rpc" event) _ _ (on_call-IsSound store event r sound) (
        either-IsSound receiving (record r { passed = event ∷ r.passed })
          (record r { live = false }) sound sound)))

abbrev finished_entry : ℕ → (String × String) × Task → (String × String) × Task
finished_entry handle t = (t.0, finish_task handle t.1)

Step-IsSound : (store : Bool) (r s : Reader) → Step store r s → IsSound r → IsSound s
Step-IsSound store r s (reads receiving event live) sound =
    read_event-IsSound store receiving event r sound
Step-IsSound store r s stops sound = sound
Step-IsSound store r s (starts id) sound = sound
Step-IsSound store r s cancels sound = sound
Step-IsSound store r s drains (few, distinct, stamped) = (omega arith, tt, stamped)
Step-IsSound store r s clears sound = sound
Step-IsSound store r s (finishes handle) (few, distinct, stamped) = (
  subst (λ n. n ≤ task_limit) (sym (length-map (finished_entry handle) r.tasks)) few,
  IsDistinct-map (finish_task handle) r.tasks distinct,
  stamped,
)

-- However the frames of a worker, the runs that it serves and the ends of its calls are interleaved, at
-- most 64 calls are in flight, no two of them with the same run and id, and every operation on
-- artifacts that was dispatched carries the run that it was admitted for, whatever the worker wrote
-- into its params.
pub Reaches-IsSound : (store : Bool) (r : Reader) → Reaches store r → IsSound r
Reaches-IsSound store r fresh = (omega arith, tt, tt)
Reaches-IsSound store r (after {r = q} before step) =
    Step-IsSound store q r step (Reaches-IsSound store q before)
