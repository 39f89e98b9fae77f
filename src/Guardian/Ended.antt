-- ===== src/Guardian/Ended.antt =====
-- What the guardian ends (native/src/guardian.rs).
use repl_mcp.Base.{
  List, Bool, ℕ, true, false, ◌∷◌, if◌then◌else◌, ◌≡◌, [], ◌&&◌, refl, ◌↔◌, ap, Option, Bool-cases,
  ◌∙◌, inl, some, false≢true, sym, none, arith, inr, ◌<◌, ◌-◌, nat_eq, ◌⊎◌,
}
use repl_mcp.Guardian.{
  own, forward_output, Frame, Cause, stopped, kills_child, note_event, child_ended, Start,
  end_child, signalled_groups, Killed, when_launched, launch, nothing_killed, is_group,
  signalled_processes,
}
use repl_mcp.Supervisor.Jobs.{track_jobs, has_job, last_started, track_jobs_lem}
use repl_mcp.Json.{Value}

abbrev pub cons_event : Option Value → List Value → List Value
cons_event none events = events
cons_event (some event) events = event ∷ events

-- The JSON of the frames up to the first that could not be written on.
abbrev pub events_read : List Frame → List Value
events_read [] = []
events_read (frame ∷ frames) =
    let rest = events_read frames in cons_event frame.event (if frame.written then rest else [])

track_jobs-cons_event :
    (o : Option Value) (events : List Value) (jobs : List ℕ)
    → track_jobs (cons_event o events) jobs ≡ track_jobs events (note_event true o jobs)
unfolding track_jobs
track_jobs-cons_event none events jobs = refl
track_jobs-cons_event (some event) events jobs = refl

forward_output-jobs :
    (frames : List Frame) (jobs : List ℕ)
    → forward_output true frames jobs ≡ track_jobs (events_read frames) jobs
unfolding forward_output track_jobs
forward_output-jobs [] jobs = refl
forward_output-jobs (frame ∷ frames) jobs =
    let noted = note_event true frame.event jobs in
    elim (Bool-cases frame.written) [
      | inl on ↦ simp on (
          forward_output-jobs frames noted
          ∙ sym (track_jobs-cons_event frame.event (events_read frames) jobs))
      | inr broken ↦ simp broken (sym (track_jobs-cons_event frame.event [] jobs))
    ]

note_event-none : (o : Option Value) (jobs : List ℕ) → note_event false o jobs ≡ jobs
note_event-none none jobs = refl
note_event-none (some event) jobs = refl

kills_child_iff : (cause : Cause) → (kills_child cause ≡ true) ↔ (cause ≡ stopped)
kills_child_iff stopped = (λ h. refl, λ h. refl)
kills_child_iff child_ended = (λ h. absurd (false≢true h), λ h. absurd (ground (arith, h)))

forward_output-none :
    (frames : List Frame) (jobs : List ℕ) → forward_output false frames jobs ≡ jobs
unfolding forward_output
forward_output-none [] jobs = refl
forward_output-none (frame ∷ frames) jobs =
    let same = note_event-none frame.event jobs in
    elim (Bool-cases frame.written) [
      | inl on ↦ simp on (forward_output-none frames (note_event false frame.event jobs) ∙ same)
      | inr broken ↦ simp broken same
    ]

groups_lem :
    (worker : Bool) (frames : List Frame) (pid : ℕ)
    → has_job pid (forward_output worker frames [])
      ≡ (worker && last_started pid (events_read frames) false)
groups_lem true frames pid =
    ap (has_job pid) (forward_output-jobs frames []) ∙ track_jobs_lem pid (events_read frames) []
groups_lem false frames pid = ap (has_job pid) (forward_output-none frames [])

has_job-groups :
    (pid : ℕ) (jobs : List ℕ)
    → has_job pid (signalled_groups jobs) ≡ (is_group pid && has_job pid jobs)
has_job-groups pid [] = ground arith
has_job-groups pid (j ∷ jobs) = ground (arith, has_job-groups pid jobs, nat_eq.test_iff j pid)

has_job-processes :
    (pid : ℕ) (jobs : List ℕ)
    → 2147483648 < pid
    → pid < 4294967296
    → has_job (4294967296 - pid) (signalled_processes jobs) ≡ has_job pid jobs
has_job-processes pid [] low high = refl
has_job-processes pid (j ∷ jobs) low high = ground (
  arith,
  has_job-processes pid jobs low high,
  nat_eq.test_iff j pid,
  nat_eq.test_iff (4294967296 - j) (4294967296 - pid),
)

-- What is killed for the child that was launched, if any: nothing without one; else the process of
-- this id, and the process that its id stands for when it is too large for an i32.
abbrev pub IsKilled : Cause → List Frame → ℕ → Option Bool → Killed → Type 0
IsKilled cause frames pid none k = k ≡ nothing_killed
IsKilled cause frames pid (some worker) k =
    let started = worker && last_started pid (events_read frames) false in
    (has_job pid k.groups ≡ (is_group pid && started))
    × ((is_group pid ≡ true) ⊎ (has_job (4294967296 - pid) k.processes ≡ started))
    × (k.own_group ≡ true)
    × ((k.child ≡ true) ↔ (cause ≡ stopped))

processes_lem :
    (worker : Bool) (frames : List Frame) (pid : ℕ)
    → pid < 4294967296
    → (is_group pid ≡ true)
      ⊎ (has_job (4294967296 - pid) (signalled_processes (forward_output worker frames []))
          ≡ (worker && last_started pid (events_read frames) false))
processes_lem worker frames pid high = elim (Bool-cases (is_group pid)) [
  | inl group ↦ inl group
  | inr large ↦ inr (
      has_job-processes pid (forward_output worker frames []) (ground (arith, large)) high
      ∙ groups_lem worker frames pid)
]

when_launched-IsKilled :
    (cause : Cause) (frames : List Frame) (pid : ℕ) (o : Option Bool)
    → pid < 4294967296
    → IsKilled cause frames pid o (when_launched cause frames o)
unfolding end_child
when_launched-IsKilled cause frames pid none high = refl
when_launched-IsKilled cause frames pid (some worker) high = (
  (has_job-groups pid (forward_output worker frames [])
      ∙ ap (λ (b : Bool). is_group pid && b) (groups_lem worker frames pid)),
  processes_lem worker frames pid high,
  refl,
  kills_child_iff cause,
)

pub own_lem :
    (st : Start) (cause : Cause) (frames : List Frame) (pid : ℕ)
    → pid < 4294967296
    → IsKilled cause frames pid (launch st) (own st cause frames)
unfolding own
own_lem st cause frames pid high = when_launched-IsKilled cause frames pid (launch st) high
