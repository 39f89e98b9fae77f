-- ===== src/Broker/Writer.antt =====
-- The durable copy of the journal in native/src/broker.rs: `schedule_journal`, the one background task
-- `journal_writer` that serves every request, and the wait of `persist_journal`. The changes of the
-- journal are counted, and a copy stands for its contents after that many changes.
pub mod Durable
pub mod Awake
use repl_mcp.Base.{
  Memᴰ, false, ℕ, suc, ◌∷◌, Bool, [], none, min, Option, List, ◌≡◌, if◌then◌else◌, Result, not,
  String, some, leb, true, ltb, ok, err,
}

-- u64::MAX
abbrev pub u64_max : ℕ
u64_max = 18446744073709551615

-- JournalIoState
pub record Io : Type 0 where
  pub requested : ℕ
  pub completed : ℕ
  pub running : Bool
  pub error : Option String

abbrev pub idle_io : Io
idle_io = record { requested = 0; completed = 0; running = false; error = none }

-- schedule_journal, which does nothing without a path: the ticket, and whether the caller starts the
-- writer.
unfoldable pub schedule : Bool → Io → Option (ℕ × Bool) × Io
schedule false io = (none, io)
schedule true io =
    let target = min (suc io.requested) u64_max in
    (some (target, not io.running), record io { requested = target; running = true })

-- The end of one round of the writer: whether it goes on.
unfoldable pub complete : ℕ → Option String → Io → Bool × Io
complete target e io =
    let again = ltb target io.requested in
    (
      again,
      record io { completed = target; error = e; running = if again then io.running else false },
    )

-- What a caller of persist_journal that looks at the state is told, if anything; one without a ticket,
-- for want of a path, is told Ok at once.
unfoldable pub answer : Option ℕ → Io → Option (Result String (Unit {0}))
answer none io = some (ok tt)
answer (some target) io =
    if leb target io.completed then some (elim io.error [ none ↦ ok tt | some e ↦ err e ]) else none

-- Where the writer's task is: not running, at the head of its loop, with a target, with a copy of the
-- journal, or with the outcome of a round.
pub data Task : Type 0 where
  stopped ready : Task
  picked : ℕ → Task
  copied : ℕ → ℕ → Task
  written : ℕ → Option String → Task

pub record World : Type 0 where
  pub io : Io
  pub task : Task
  -- The changes made to the journal, and those in the file.
  pub changes : ℕ
  pub disk : ℕ
  -- The tickets given out, each with the changes made before it.
  pub tickets : List (ℕ × ℕ)
  -- Whether the journal has a path.
  pub configured : Bool
  -- The tickets of the callers that are registered for a notification (`enable`), and of those among
  -- them that have looked, were told nothing, and sleep.
  pub enabled : List ℕ
  pub asleep : List ℕ
  -- Whether a round has ended whose notify_waiters is still to come.
  pub notifying : Bool

abbrev pub start : World
start = record {
  io = idle_io;
  task = stopped;
  changes = 0;
  disk = 0;
  tickets = [];
  configured = false;
  enabled = [];
  asleep = [];
  notifying = false;
}

abbrev pub begin_task : Bool → Task → Task
begin_task starts t = if starts then ready else t

abbrev pub give : Option (ℕ × Bool) × Io → World → World
give (none, io) w = record w { io = io }
give (some (target, starts), io) w = record w {
  io = io;
  task = begin_task starts w.task;
  tickets = (target, w.changes) ∷ w.tickets;
}

unfoldable pub request : World → World
unfolding schedule
request w = give (schedule w.configured w.io) w

-- notify_waiters wakes every caller that is registered; it registers again before it looks again.
unfoldable pub notify : World → World
notify w = record w { enabled = []; asleep = []; notifying = false }

unfoldable pub end_round : ℕ → Option String → World → World
end_round target e w =
    let (again, io) = complete target e w.io in
    record w { io = io; task = if again then ready else stopped; notifying = true }

-- One step of a caller or of the writer's task. A file operation that fails may leave the old
-- file or the new one.
pub data Step : World → World → Type 0 where
  change : (w : World) → Step w (record w { changes = suc w.changes })
  configure : (w : World) → Step w (record w { configured = true })
  ask : (w : World) → Step w (request w)
  enable :
      (w : World) (t v : ℕ) → Memᴰ (t, v) w.tickets → Step w (record w { enabled = t ∷ w.enabled })
  sleep :
      (w : World) (t : ℕ)
      → Memᴰ t w.enabled
      → answer (some t) w.io ≡ none
      → Step w (record w { asleep = t ∷ w.asleep })
  wake : (w : World) → w.notifying ≡ true → Step w (notify w)
  pick : (w : World) → w.task ≡ ready → Step w (record w { task = picked w.io.requested })
  copy : (w : World) (t : ℕ) → w.task ≡ picked t → Step w (record w { task = copied t w.changes })
  replace :
      (w : World) (t c : ℕ)
      → w.task ≡ copied t c
      → Step w (record w { task = written t none; disk = c })
  fail_copy :
      (w : World) (t : ℕ) (e : String)
      → w.task ≡ picked t
      → Step w (record w { task = written t (some e) })
  fail_write :
      (w : World) (t c : ℕ) (e : String) (replaced : Bool)
      → w.task ≡ copied t c
      → Step w (record w { task = written t (some e); disk = if replaced then c else w.disk })
  finish : (w : World) (t : ℕ) (e : Option String) → w.task ≡ written t e → Step w (end_round t e w)

pub data Reachable : World → Type 0 where
  at_start : Reachable start
  after : (w w' : World) → Reachable w → Step w w' → Reachable w'
