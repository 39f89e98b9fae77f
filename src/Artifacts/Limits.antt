-- ===== src/Artifacts/Limits.antt =====
-- The limits of the store over its histories (native/src/artifacts.rs).
use repl_mcp.Artifacts.Host.{Host}
use repl_mcp.Base.{List}
use repl_mcp.Artifacts.Steps.{IsKept, Op, steps, steps_keeps}
use repl_mcp.Artifacts.Sound.{
  IsSound, register_owner-IsSound, remove_owner-IsSound, register_run-IsSound,
  abort_unfinished_uploads-IsSound, IsSound-new, begin-IsSound, append-IsSound, commit-IsSound,
  abort-IsSound, create-IsSound, delete-IsSound,
}
use repl_mcp.Artifacts.State.{new}

module _ (host : Host) where
  IsSound-kept : IsKept host IsSound
  IsSound-kept = record {
    owner_in = register_owner-IsSound;
    owner_out = remove_owner-IsSound;
    run_in = register_run-IsSound;
    run_out = abort_unfinished_uploads-IsSound;
    begun = begin-IsSound;
    appended = append-IsSound host;
    committed = commit-IsSound host;
    aborted = abort-IsSound;
    created = create-IsSound host;
    deleted = delete-IsSound;
  }

  -- Whatever the operations, their order, their parameters and the answers of the operating system,
  -- the store that began empty holds at most 64 artifacts, none of a recorded size over 16 MiB and all
  -- together of recorded sizes of at most 64 MiB, at most 256 owners and 256 runs, and at most four
  -- unfinished uploads, none with a counted size over 16 MiB. The sizes are those that the store keeps:
  -- the file behind one may be longer, since a write that fails has grown it and is not counted.
  pub steps-IsSound : (ops : List Op) → IsSound (steps host ops new)
  steps-IsSound ops = steps_keeps host IsSound-kept ops new IsSound-new
