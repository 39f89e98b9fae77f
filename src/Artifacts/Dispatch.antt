-- ===== src/Artifacts/Dispatch.antt =====
-- `dispatch`, `dispatch_sync` and `upload` of native/src/artifacts.rs: the operations by name, the
-- guards a call captures, and the permit of its job.
use repl_mcp.Base.{
  ℕ, ◌+◌, ◌-◌, String, Bool, ◌||◌, ◌==◌, nat_eq, string_eq, pair_eq, List, Option, none, some,
  if◌then◌else◌, ok, err, ◌>>=◌, Result,
}
use repl_mcp.Base.Map.{get}
use repl_mcp.Json.{Value, get_str}
use repl_mcp.Artifacts.State.{
  Store, Outcome, Reference, Io, io_capacity, owner_closed, run_finished, no_run, unknown_operation,
  Error, Upload,
}
use repl_mcp.Artifacts.Host.{Host}
use repl_mcp.Artifacts.Upload.{find_upload, begin, append, commit, abort}
use repl_mcp.Artifacts.Create.{Event, create}
use repl_mcp.Artifacts.Range.{Page, read, delete}
use repl_mcp.Artifacts.Save.{Disk, SaveIo, save}

pub data Reply : Type 0 where
  began aborted deleted : String → Reply
  appended : ℕ → Reply
  published saved : Reference → Reply
  page : Page → Reply

-- What a call draws from outside: identifiers, and the answers of the operating system.
pub record Call : Type 0 where
  pub fresh : String
  pub temporary : String
  pub io : Io
  pub save_io : SaveIo
  pub source : Option (List Event)

-- The guards that a call captures when it is admitted.
pub record Guards : Type 0 where
  pub owner : ℕ
  pub run : Option ℕ

-- The permit and the guards, taken before the job is spawned. A call that is refused gives its
-- permit back at once.
unfoldable pub admit : String → Value → Store → Outcome Guards
admit owner params s =
    let held = record s { permits = s.permits - 1 } in
    if s.permits == 0 then (err io_capacity, s) else elim (get owner s.owners) [
      | none ↦ (err owner_closed, s)
      | some guard ↦ elim (get_str "_run_id" params) [
        | none ↦ (ok (record { owner = guard; run = none }), held)
        | some run ↦ elim (get (owner, run) s.runs) [
          | none ↦ (err run_finished, s)
          | some guard' ↦ (ok (record { owner = guard; run = some guard' }), held)
        ]
      ]
    ]

abbrev pub answer : {A : Type 0} → (A → Reply) → Outcome A → Outcome Reply
answer f (r, s) = (r >>= λ a. ok (f a), s)

-- The operations on the upload that the lookup returned.
abbrev pub upload_with :
    Host → String → Value → ℕ → ℕ → Call → Store → Result Error (String × Upload) → Outcome Reply
upload_with host op params owner_guard run_guard call s (err e) = (err e, s)
upload_with host op params owner_guard run_guard call s (ok (id, u)) =
    if op == "artifact.abort"
    then answer aborted (abort id u s)
    else if op == "artifact.append"
    then answer appended (append host params owner_guard run_guard call.io u s)
    else if op == "artifact.commit"
    then answer published (commit host owner_guard run_guard id call.fresh call.io u s)
    else (err unknown_operation, s)

-- Artifacts::upload
unfoldable pub upload : Host → String → String → Value → ℕ → ℕ → Call → Store → Outcome Reply
upload host owner op params owner_guard run_guard call s =
    if op == "artifact.begin"
    then answer began (begin owner params owner_guard run_guard call.fresh call.io s)
    else upload_with host op params owner_guard run_guard call s (find_upload owner params s)

abbrev pub is_upload : String → Bool
is_upload op =
    op == "artifact.begin"
    || (op == "artifact.append" || (op == "artifact.commit" || op == "artifact.abort"))

abbrev pub with_run : Option ℕ → Store → (ℕ → Outcome Reply) → Outcome Reply
with_run none s f = (err no_run, s)
with_run (some guard) s f = f guard

-- Artifacts::dispatch_sync, the operations that leave the file system alone.
unfoldable pub run_op : Host → String → String → Value → Guards → Call → Store → Outcome Reply
run_op host owner op params guards call s =
    if is_upload op
    then with_run guards.run s
        (λ run_guard. upload host owner op params guards.owner run_guard call s)
    else if op == "artifact.create" || op == "create"
    then answer published
        (create host owner params guards.owner guards.run call.fresh call.io call.source s)
    else if op == "artifact.read" || op == "read"
    then answer page (read host owner params s, s)
    else if op == "artifact.drop" || op == "drop"
    then answer deleted (delete owner params s)
    else (err unknown_operation, s)

-- Artifacts::dispatch_sync: a save changes the disk and no other operation does.
unfoldable pub dispatch_sync :
    Host → String → String → Value → Guards → Call → Store → Disk → Outcome Reply × Disk
unfolding run_op
dispatch_sync host owner op params guards call s disk =
    if op == "artifact.save" || op == "save"
    then (let (r, after) = save host owner params call.temporary call.save_io s disk in
        ((r >>= λ a. ok (saved a), s), after))
    else (run_op host owner op params guards call s, disk)

-- The job is done and its permit dropped.
abbrev pub release : {A : Type 0} → Outcome A → Outcome A
release (r, s) = (r, record s { permits = s.permits + 1 })

-- Artifacts::dispatch, with nothing else between its admission and its job.
unfoldable pub dispatch :
    Host → String → String → Value → Call → Store → Disk → Outcome Reply × Disk
unfolding admit dispatch_sync
dispatch host owner op params call s disk =
    let (admitted, s') = admit owner params s in
    elim admitted [
      | err e ↦ ((err e, s'), disk)
      | ok guards ↦
          let (outcome, after) = dispatch_sync host owner op params guards call s' disk in
          (release outcome, after)
    ]
