-- ===== src/Artifacts/Permits.antt =====
-- The four permits of the blocking jobs (`jobs` of native/src/artifacts.rs).
use repl_mcp.Artifacts.Dispatch.{dispatch_sync, dispatch, admit, Call, Guards}
use repl_mcp.Artifacts.Host.{Host}
use repl_mcp.Base.{
  ℕ, String, ◌≡◌, err, Bool-cases, ◌==◌, arith, ◌||◌, inl, inr, string_eq, refl, ap, ◌⊎◌, ok, ◌+◌,
  Option-cases, none, some, nat_eq, pair_eq,
}
use repl_mcp.Json.{Value, get_str}
use repl_mcp.Artifacts.Registry.{
  register_owner, register_run, abort_unfinished_uploads, remove_owner,
}
use repl_mcp.Artifacts.State.{Store, io_capacity, Error, owner_closed, run_finished}
use repl_mcp.Artifacts.Save.{Disk}
use repl_mcp.Artifacts.Upload.{begin, append, accept_chunk, write_chunk, commit, abort}
use repl_mcp.Artifacts.Steps.{run_op_keeps, IsKept}
use repl_mcp.Artifacts.Create.{create, commit_import}
use repl_mcp.Artifacts.Range.{delete}

module _ (host : Host) (k : ℕ) where
  permits-kept : IsKept host (λ s. s.permits ≡ k)
  unfolding register_owner register_run abort_unfinished_uploads remove_owner begin append
      accept_chunk write_chunk commit abort create commit_import delete
  permits-kept = record {
    owner_in = λ owner s v. ground arith;
    owner_out = λ owner s v. ground arith;
    run_in = λ owner run s v. ground arith;
    run_out = λ owner run s v. ground arith;
    begun = λ owner params og rg id io s v. ground arith;
    appended = λ params og rg io u s v. ground arith;
    committed = λ og rg id fresh io u s v. ground arith;
    aborted = λ id u s v. ground arith;
    created = λ owner params og rg fresh io source s v. ground arith;
    deleted = λ owner params s v. ground arith;
  }

dispatch_sync-permits :
    (host : Host) (owner op : String) (params : Value) (guards : Guards) (call : Call) (s : Store)
    (disk : Disk)
    → (dispatch_sync host owner op params guards call s disk).0.1.permits ≡ s.permits
unfolding dispatch_sync
dispatch_sync-permits host owner op params guards call s disk =
    elim (Bool-cases (op == "artifact.save" || op == "save")) [
      | inl e ↦ rw (e, dispatch_sync) refl
      | inr e ↦
          rw (e, dispatch_sync)
            (run_op_keeps host (permits-kept host s.permits) owner op params guards call s refl)
    ]

-- An admission that fails changes nothing, and one that succeeds takes a permit.
admit_cases :
    (owner : String) (params : Value) (s : Store)
    → (((e : Error) × ((admit owner params s).0 ≡ err e)) × ((admit owner params s).1 ≡ s))
      ⊎ (((g : Guards) × ((admit owner params s).0 ≡ ok g))
          × ((admit owner params s).1.permits + 1 ≡ s.permits))
unfolding admit
admit_cases owner params s = elim (Bool-cases (s.permits == 0)) [
  | inl e ↦ inl ((io_capacity, ground arith), ground arith)
  | inr e ↦ elim (Option-cases (repl_mcp.Base.Map.get owner s.owners)) [
    | inl f ↦ inl ((owner_closed, ground arith), ground arith)
    | inr (g, f) ↦ elim (Option-cases (get_str "_run_id" params)) [
      | inl h ↦ inr ((record { owner = g; run = none }, ground arith), ground arith)
      | inr (run, h) ↦ elim (Option-cases (repl_mcp.Base.Map.get (owner, run) s.runs)) [
        | inl i ↦ inl ((run_finished, ground arith), ground arith)
        | inr (r, i) ↦ inr ((record { owner = g; run = some r }, ground arith), ground arith)
      ]
    ]
  ]
]

dispatched-permits :
    (host : Host) (owner op : String) (params : Value) (call : Call) (s : Store) (disk : Disk)
    → (dispatch host owner op params call s disk).0.1.permits ≡ s.permits
unfolding dispatch
dispatched-permits host owner op params call s disk = elim (admit_cases owner params s) [
  | inl ((e, refused), same) ↦ rw (refused, dispatch) (ap (λ (t : Store). t.permits) same)
  | inr ((g, admitted), taken) ↦
      rw (admitted, dispatch)
        (omega
          (arith, dispatch_sync-permits host owner op params g call (admit owner params s).1 disk))
]

-- A dispatch gives back the permit that it took, whatever the operation and its outcome; without a
-- permit it fails and changes neither the store nor the disk.
pub dispatch-permits :
    (host : Host) (owner op : String) (params : Value) (call : Call) (s : Store) (disk : Disk)
    → ((dispatch host owner op params call s disk).0.1.permits ≡ s.permits)
      × (s.permits ≡ 0 → dispatch host owner op params call s disk ≡ ((err io_capacity, s), disk))
unfolding dispatch admit
dispatch-permits host owner op params call s disk =
    (dispatched-permits host owner op params call s disk, λ e. ground arith)
