-- ===== src/Supervisor/Jobs.antt =====
-- The process groups that a worker has started, as the reader of native/src/supervisor.rs and the
-- output task of native/src/guardian.rs keep them from the worker's `job` events.
use repl_mcp.Json.{Value, get, get_str, and_then, as_u64}
use repl_mcp.Base.{
  ℕ, String, List, Option, Bool, ◌&&◌, ◌∷◌, any, if◌then◌else◌, ◌≡◌, some, retain, not, ltb, none,
  ◌==◌, [], ◌∙◌, false, ◌^◌, ap, nat_eq, ◌||◌, refl, arith, string_eq, Bool-cases, inl, subst, true,
  ==_sound, inr,
}

abbrev pub is_type : String → Value → Bool
is_type name event = elim (get_str "type" event) [ none ↦ false | some t ↦ t == name ]

-- u32::try_from(pid).ok() and .filter(|pid| *pid > 1)
abbrev pub as_pid : ℕ → Option ℕ
as_pid pid = if ltb 1 pid && ltb pid (2 ^ 32) then some pid else none

abbrev pub job_pid : Value → Option ℕ
job_pid event = and_then (and_then (get "pid" event) as_u64) as_pid

abbrev pub is_started : Value → Bool
is_started event = elim (get_str "action" event) [ none ↦ false | some a ↦ a == "started" ]

abbrev pub has_job : ℕ → List ℕ → Bool
has_job pid jobs = any (λ j. j == pid) jobs

-- HashSet::insert and HashSet::remove
abbrev pub add_job : ℕ → List ℕ → List ℕ
add_job pid jobs = if has_job pid jobs then jobs else pid ∷ jobs

abbrev pub drop_job : ℕ → List ℕ → List ℕ
drop_job pid jobs = retain (λ j. not (j == pid)) jobs

abbrev pub apply_job : Option ℕ → Bool → List ℕ → List ℕ
apply_job none started jobs = jobs
apply_job (some pid) started jobs = if started then add_job pid jobs else drop_job pid jobs

-- What a `job` event does to the set.
unfoldable pub track_job : Value → List ℕ → List ℕ
track_job event jobs = apply_job (job_pid event) (is_started event) jobs

-- The set after the events of a worker; those of another type leave it.
unfoldable pub track_jobs : List Value → List ℕ → List ℕ
unfolding track_job
track_jobs [] jobs = jobs
track_jobs (event ∷ events) jobs =
    track_jobs events (if is_type "job" event then track_job event jobs else jobs)

abbrev pub about_pid : Option ℕ → ℕ → Bool
about_pid none pid = false
about_pid (some p) pid = p == pid

-- Whether the last event about the process says that it has started.
abbrev pub is_about : ℕ → Value → Bool
is_about pid event = is_type "job" event && about_pid (job_pid event) pid

abbrev pub last_started : ℕ → List Value → Bool → Bool
last_started pid [] before = before
last_started pid (event ∷ events) before =
    last_started pid events (if is_about pid event then is_started event else before)

has_job-drop_job :
    (pid other : ℕ) (jobs : List ℕ)
    → has_job pid (drop_job other jobs) ≡ (if other == pid then false else has_job pid jobs)
has_job-drop_job pid other [] = ground arith
has_job-drop_job pid other (j ∷ jobs) = ground (
  arith,
  has_job-drop_job pid other jobs,
  nat_eq.test_iff j other,
  nat_eq.test_iff j pid,
  nat_eq.test_iff other pid,
)

has_job-add_job :
    (pid other : ℕ) (jobs : List ℕ)
    → has_job pid (add_job other jobs) ≡ (other == pid || has_job pid jobs)
has_job-add_job pid other jobs = elim (Bool-cases (has_job other jobs)) [
  | inl there ↦ elim (Bool-cases (other == pid)) [
    | inl same ↦
        simp (there, same) (subst (λ p. has_job p jobs ≡ true) (==_sound other pid same) there)
    | inr different ↦ simp (there, different) refl
  ]
  | inr missing ↦ simp missing refl
]

apply_job_lem :
    (pid : ℕ) (o : Option ℕ) (typed started : Bool) (jobs : List ℕ)
    → has_job pid (if typed then apply_job o started jobs else jobs)
      ≡ (if typed && about_pid o pid then started else has_job pid jobs)
apply_job_lem pid o false started jobs = refl
apply_job_lem pid none true started jobs = refl
apply_job_lem pid (some p) true true jobs = has_job-add_job pid p jobs ∙ ground arith
apply_job_lem pid (some p) true false jobs = has_job-drop_job pid p jobs

track_job_lem :
    (pid : ℕ) (event : Value) (jobs : List ℕ)
    → has_job pid (if is_type "job" event then track_job event jobs else jobs)
      ≡ (if is_about pid event then is_started event else has_job pid jobs)
unfolding track_job
track_job_lem pid event jobs =
    apply_job_lem pid (job_pid event) (is_type "job" event) (is_started event) jobs

-- The set holds exactly the processes whose last event says that they have started.
pub track_jobs_lem :
    (pid : ℕ) (events : List Value) (jobs : List ℕ)
    → has_job pid (track_jobs events jobs) ≡ last_started pid events (has_job pid jobs)
unfolding track_jobs
track_jobs_lem pid [] jobs = refl
track_jobs_lem pid (event ∷ events) jobs =
    track_jobs_lem pid events (if is_type "job" event then track_job event jobs else jobs)
    ∙ ap (last_started pid events) (track_job_lem pid event jobs)
