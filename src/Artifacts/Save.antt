-- ===== src/Artifacts/Save.antt =====
-- op "artifact.save" (native/src/artifacts.rs): an artifact's content into a named file.
use repl_mcp.Base.{
  String, Bool, true, false, not, ◌||◌, ◌==◌, string_eq, Option, none, some, Bytes, take,
  if◌then◌else◌, Result, ok, err, ◌>>=◌, ◌>>◌, refuse_if, ok_or,
}
use repl_mcp.Json
use repl_mcp.Json.{Value, get_str, as_bool, and_then}
use repl_mcp.Artifacts.State.{
  Error, Entry, Store, Reference, reference, missing_field, not_absolute, create_failed,
  save_failed, sync_failed, replace_failed, link_failed,
}
use repl_mcp.Artifacts.Host.{Host}
use repl_mcp.Artifacts.Reader.{verify}
use repl_mcp.Artifacts.Range.{lookup}

-- The file system, by absolute path.
abbrev pub Disk : Type 0
Disk = String → Option Bytes

abbrev pub write_file : Disk → String → Option Bytes → Disk
write_file disk path content other = if path == other then content else disk other

-- Which of the calls fail, the removal of the temporary included, and how much of the content a failed
-- copy wrote.
pub record SaveIo : Type 0 where
  pub parent : Bool
  pub created : Bool
  pub partial : Option Bytes
  pub synced : Bool
  pub renamed : Bool
  pub linked : Bool
  pub removed : Bool

abbrev pub exists : Disk → String → Bool
exists disk path = elim (disk path) [ none ↦ false | some content ↦ true ]

-- File::create_new, then the copy, then the replacement or the link, on a disk.
unfoldable pub place :
    SaveIo → String → String → Bool → Bytes → Disk → Result Error (Unit {0}) × Disk
place io temporary path overwrite content disk =
    if exists disk temporary || not io.created then (err create_failed, disk) else elim io.partial [
      | some part ↦ (err save_failed, write_file disk temporary (some part))
      | none ↦
          let written = write_file disk temporary (some content) in
          if not io.synced
          then (err sync_failed, written)
          else if overwrite
          then if io.renamed
            then (ok tt, write_file (write_file written path (some content)) temporary none)
            else (err replace_failed, written)
          else if exists written path || not io.linked
          then (err link_failed, written)
          else (ok tt, write_file written path (some content))
    ]

-- `let _ = fs::remove_file(&temporary)`, after success and failure alike.
abbrev pub sweep : {A : Type 0} → Bool → String → Result Error A × Disk → Result Error A × Disk
sweep false temporary (r, disk) = (r, disk)
sweep true temporary (r, disk) = (r, write_file disk temporary none)

-- The checks before anything is written: the entry and the destination.
unfoldable pub destination : Host → String → Value → Bool → Store → Result Error (Entry × String)
unfolding lookup
destination host owner params parent s = do
  id ← ok_or (get_str "id" params) missing_field
  entry ← lookup owner id s
  path ← ok_or (get_str "path" params) missing_field
  refuse_if (not (host.is_absolute path)) not_absolute
  refuse_if (not parent) not_absolute
  ok (entry, path)

abbrev pub true_or : Option Bool → Bool → Bool
true_or none default = default
true_or (some b) default = b

-- The closure of the operation: verify, then write.
unfoldable pub write_verified :
    Host → SaveIo → String → Bool → Entry → String → Disk → Result Error (Unit {0}) × Disk
unfolding place
write_verified host io temporary overwrite entry path disk = elim (verify host entry) [
  | err e ↦ (err e, disk)
  | ok done ↦ place io temporary path overwrite (take entry.size entry.file) disk
]

unfoldable pub save :
    Host → String → Value → String → SaveIo → Store → Disk → Result Error Reference × Disk
unfolding destination write_verified
save host owner params temporary io s disk = elim (destination host owner params io.parent s) [
  | err e ↦ (err e, disk)
  | ok (entry, path) ↦
      let overwrite = true_or (and_then (Json.get "overwrite" params) as_bool) false in
      let (result, after) =
        sweep io.removed temporary (write_verified host io temporary overwrite entry path disk) in
      (result >>= λ _. ok (reference entry), after)
]
