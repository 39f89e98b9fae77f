-- ===== src/Artifacts/Create.antt =====
-- `Artifacts::create` (native/src/artifacts.rs): the import of a file into the store.
use repl_mcp.Base.{
  ℕ, ◌+◌, String, Bool, false, not, ◌||◌, ◌==◌, nat_eq, string_eq, List, [], ◌∷◌, ◌++◌, Option,
  none, some, Bytes, length, ltb, if◌then◌else◌, Result, ok, err, ◌>>=◌, ◌>>◌, refuse_if, ok_or,
}
use repl_mcp.Json.{Value, get_str}
use repl_mcp.Artifacts.State.{
  Error, Entry, Store, Outcome, Reference, Io, settle, known_format, reference, item_limit,
  missing_field, bad_path, bad_input, create_failed, read_failed, too_large, write_failed,
  closed_before_import, out_of_fuel,
}
use repl_mcp.Artifacts.Host.{Host}
use repl_mcp.Artifacts.Retention.{publish}
use repl_mcp.Artifacts.Upload.{check_content}

-- What a call of `input.read`, and the write of what it returned, came to.
pub data Event : Type 0 where
  read_error : Event
  copied : Bytes → Event
  write_error : Bytes → Event

-- The copy loop, over the reads in their order; an empty read is the end of the file. The file is
-- read on as long as there is more, so the events of a call never run out before its end.
unfoldable pub copy_loop : List Event → Bytes → ℕ → Result Error (Bytes × ℕ)
copy_loop [] copy size = ok (copy, size)
copy_loop (read_error ∷ events) copy size = err read_failed
copy_loop (copied got ∷ events) copy size =
    let rest = copy_loop events (copy ++ got) (size + length got) in
    if length got == 0
    then ok (copy, size)
    else if ltb item_limit (size + length got)
    then err too_large
    else rest
copy_loop (write_error got ∷ events) copy size =
    if length got == 0
    then ok (copy, size)
    else if ltb item_limit (size + length got)
    then err too_large
    else err write_failed

-- run_guard.is_some_and(|guard| !guard.load(..))
abbrev pub is_lowered : Option ℕ → Store → Bool
is_lowered none s = false
is_lowered (some guard) s = not (s.flags guard)

-- The import before the lock: the copy and its checks. `source` is what opening the path gave.
unfoldable pub import_file :
    Host → String → Value → String → Io → Option (List Event) → Result Error Entry
import_file host owner params fresh io source = do
  path ← ok_or (get_str "path" params) missing_field
  format ← ok_or (get_str "format" params) missing_field
  refuse_if (not (host.is_absolute path) || not (known_format format)) bad_path
  events ← ok_or source bad_input
  refuse_if (not io.created) create_failed
  copy ← copy_loop events [] 0
  refuse_if (not io.flushed) write_failed
  check_content host format copy.0 io.readable
  ok (record {
    id = fresh;
    owner = owner;
    file = copy.0;
    size = copy.1;
    format = format;
    sha256 = host.sha256 copy.0;
  })

-- The commit under the lock on the entries.
unfoldable pub commit_import : ℕ → Option ℕ → Entry → Store → Result Error (Reference × Store)
commit_import owner_guard run_guard entry s = do
  refuse_if (not (s.flags owner_guard) || is_lowered run_guard s) closed_before_import
  entries ← ok_or (publish entry s.entries) out_of_fuel
  ok (reference entry, record s { entries = entries })

-- op "artifact.create"
unfoldable pub create :
    Host
    → String
    → Value
    → ℕ
    → Option ℕ
    → String
    → Io
    → Option (List Event)
    → Store
    → Outcome Reference
unfolding commit_import
create host owner params owner_guard run_guard fresh io source s = settle s (
    import_file host owner params fresh io source >>= λ entry.
    commit_import owner_guard run_guard entry s)
