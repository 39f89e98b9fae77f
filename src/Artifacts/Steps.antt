-- ===== src/Artifacts/Steps.antt =====
-- Histories of the store: the operations in any order, a job's late part at any later point, with
-- whatever guards and handles it captured earlier.
use repl_mcp.Base.{
  ℕ, String, Option, Bool, true, false, List, [], ◌∷◌, Result, ok, err, some, if◌then◌else◌, ◌==◌,
  ◌||◌, none, string_eq,
}
use repl_mcp.Artifacts.Create.{Event, create}
use repl_mcp.Artifacts.Host.{Host}
use repl_mcp.Json.{Value}
use repl_mcp.Artifacts.State.{Store, Outcome, Io, Error, Upload}
use repl_mcp.Artifacts.Dispatch.{
  Guards, run_op, upload, Call, with_run, Reply, is_upload, upload_with,
}
use repl_mcp.Artifacts.Registry.{
  register_owner, remove_owner, register_run, abort_unfinished_uploads,
}
use repl_mcp.Artifacts.Upload.{begin, append, commit, find_upload, abort}
use repl_mcp.Artifacts.Range.{delete}

pub data Op : Type 0 where
  registers_owner removes_owner : String → Op
  registers_run aborts_uploads : String → String → Op
  -- dispatch_sync, but for saves, at some guards
  runs : String → String → Value → Guards → Call → Op
  -- an append, a commit or an abort whose lookup of the upload lies back
  appends : Value → ℕ → ℕ → Io → Upload → Op
  commits : ℕ → ℕ → String → String → Io → Upload → Op
  aborts : String → Upload → Op

module _ (host : Host) where
  unfoldable pub step : Op → Store → Store
  step (registers_owner owner) s = (register_owner owner s).1
  step (removes_owner owner) s = (remove_owner owner s).1
  step (registers_run owner run) s = (register_run owner run s).1
  step (aborts_uploads owner run) s = (abort_unfinished_uploads owner run s).1
  step (runs owner op params guards call) s = (run_op host owner op params guards call s).1
  step (appends params og rg io u) s = (append host params og rg io u s).1
  step (commits og rg id fresh io u) s = (commit host og rg id fresh io u s).1
  step (aborts id u) s = (abort id u s).1

  unfoldable pub steps : List Op → Store → Store
  unfolding step
  steps [] s = s
  steps (op ∷ ops) s = steps ops (step op s)

  -- What each operation keeps, every history keeps.
  pub record IsKept (P : Store → Type 0) : Type 0 where
    pub owner_in : (owner : String) (s : Store) → P s → P (register_owner owner s).1
    pub owner_out : (owner : String) (s : Store) → P s → P (remove_owner owner s).1
    pub run_in : (owner run : String) (s : Store) → P s → P (register_run owner run s).1
    pub run_out :
        (owner run : String) (s : Store) → P s → P (abort_unfinished_uploads owner run s).1
    pub begun :
        (owner : String) (params : Value) (og rg : ℕ) (id : String) (io : Io) (s : Store)
        → P s
        → P (begin owner params og rg id io s).1
    pub appended :
        (params : Value) (og rg : ℕ) (io : Io) (u : Upload) (s : Store)
        → P s
        → P (append host params og rg io u s).1
    pub committed :
        (og rg : ℕ) (id fresh : String) (io : Io) (u : Upload) (s : Store)
        → P s
        → P (commit host og rg id fresh io u s).1
    pub aborted : (id : String) (u : Upload) (s : Store) → P s → P (abort id u s).1
    pub created :
        (owner : String) (params : Value) (og : ℕ) (rg : Option ℕ) (fresh : String) (io : Io)
        (source : Option (List Event)) (s : Store)
        → P s
        → P (create host owner params og rg fresh io source s).1
    pub deleted : (owner : String) (params : Value) (s : Store) → P s → P (delete owner params s).1

  keeps_if :
      (P : Store → Type 0) (b : Bool) (x y : Outcome Reply)
      → P x.1
      → P y.1
      → P (if b then x else y).1
  keeps_if P true x y px py = px
  keeps_if P false x y px py = py

  module _ {P : Store → Type 0} (k : IsKept P) where
    upload_keeps :
        (owner op : String) (params : Value) (og rg : ℕ) (call : Call) (s : Store)
        → P s
        → P (upload host owner op params og rg call s).1
    unfolding upload
    upload_keeps owner op params og rg call s p =
        keeps_if P (op == "artifact.begin") _ _ (k.begun owner params og rg call.fresh call.io s p)
          (found (find_upload owner params s))
      where
        found :
            (r : Result Error (String × Upload)) → P (upload_with host op params og rg call s r).1
        found (err e) = p
        found (ok (id, u)) = keeps_if P (op == "artifact.abort") _ _ (k.aborted id u s p) (
            keeps_if P (op == "artifact.append") _ _ (k.appended params og rg call.io u s p) (
              keeps_if P (op == "artifact.commit") _ _
                (k.committed og rg id call.fresh call.io u s p) p))

    pub run_op_keeps :
        (owner op : String) (params : Value) (guards : Guards) (call : Call) (s : Store)
        → P s
        → P (run_op host owner op params guards call s).1
    unfolding run_op
    run_op_keeps owner op params guards call s p =
        keeps_if P (is_upload op) _ _ (with_guard guards.run) (
          keeps_if P (op == "artifact.create" || op == "create") _ _
            (k.created owner params guards.owner guards.run call.fresh call.io call.source s p)
            (keeps_if P (op == "artifact.read" || op == "read") _ _ p (
              keeps_if P (op == "artifact.drop" || op == "drop") _ _ (k.deleted owner params s p)
                p)))
      where
        with_guard :
            (g : Option ℕ)
            → P (with_run g s (λ rg. upload host owner op params guards.owner rg call s)).1
        with_guard none = p
        with_guard (some rg) = upload_keeps owner op params guards.owner rg call s p

    step_keeps : (op : Op) (s : Store) → P s → P (step op s)
    unfolding step
    step_keeps (registers_owner owner) s = k.owner_in owner s
    step_keeps (removes_owner owner) s = k.owner_out owner s
    step_keeps (registers_run owner run) s = k.run_in owner run s
    step_keeps (aborts_uploads owner run) s = k.run_out owner run s
    step_keeps (runs owner op params guards call) s = run_op_keeps owner op params guards call s
    step_keeps (appends params og rg io u) s = k.appended params og rg io u s
    step_keeps (commits og rg id fresh io u) s = k.committed og rg id fresh io u s
    step_keeps (aborts id u) s = k.aborted id u s

    pub steps_keeps : (ops : List Op) (s : Store) → P s → P (steps ops s)
    unfolding steps
    steps_keeps [] s p = p
    steps_keeps (op ∷ ops) s p = steps_keeps ops (step op s) (step_keeps op s p)
