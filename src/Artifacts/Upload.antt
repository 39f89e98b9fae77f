-- ===== src/Artifacts/Upload.antt =====
-- `Artifacts::upload` (native/src/artifacts.rs): begin, append, commit and abort of a chunked upload.
use Prim.Native.String.{len}
use repl_mcp.Base.{
  ℕ, ◌+◌, String, Bool, true, false, not, ◌&&◌, ◌||◌, ◌==◌, nat_eq, string_eq, ◌++◌, Option, none,
  some, Bytes, length, take, leb, ltb, if◌then◌else◌, Result, ok, err, ◌>>=◌, ◌>>◌, refuse_if,
  ok_or,
}
use repl_mcp.Base.Map.{get, insert, remove}
use repl_mcp.Json.{Value, get_str, as_u64, and_then}
use repl_mcp.Json
use repl_mcp.Artifacts.State.{
  Error, Entry, Upload, UploadData, Store, Outcome, Reference, Io, settle, known_format, reference,
  update, blank, item_limit, missing_field, bad_format, create_failed, closed_before_commit,
  upload_slots, upload_unknown, upload_cancelled, chunk_too_large, bad_base64, bad_offset,
  offset_mismatch, too_large, write_failed, read_failed, not_utf8, not_json, out_of_fuel,
}
use repl_mcp.Artifacts.Host.{Host}
use repl_mcp.Artifacts.Retention.{publish}

abbrev pub fails {ℓ} : {A : Type ℓ} → Option A → Bool
fails none = true
fails (some a) = false

-- The check of text and JSON content before publication, of `create` and of `artifact.commit`.
abbrev pub check_content : Host → String → Bytes → Bool → Result Error (Unit {0})
check_content host format bytes readable = if format == "binary" then ok tt else do
  refuse_if (not readable) read_failed
  refuse_if (fails (host.from_utf8 bytes)) not_utf8
  refuse_if (format == "json" && fails (host.from_slice bytes)) not_json

-- op == "artifact.begin"
unfoldable pub begin : String → Value → ℕ → ℕ → String → Io → Store → Outcome String
begin owner params owner_guard run_guard id io s = settle s do
  run ← ok_or (get_str "_run_id" params) missing_field
  format ← ok_or (get_str "format" params) missing_field
  refuse_if (not (known_format format)) bad_format
  refuse_if (not io.created) create_failed
  refuse_if (not (s.flags owner_guard) || not (s.flags run_guard)) closed_before_commit
  refuse_if (leb 4 (length s.uploads)) upload_slots
  let upload : Upload = record {
    owner = owner;
    run = run;
    format = format;
    alive = s.next;
    cell = s.next + 1;
  }
  ok (
    id,
    record s {
      uploads = insert id upload s.uploads;
      flags = update s.flags s.next true;
      cells = update s.cells (s.next + 1) blank;
      next = s.next + 2;
    },
  )

-- The upload of a call: known, and of this owner and this run.
abbrev pub owned_upload : String → String → Option Upload → Option Upload
owned_upload owner run none = none
owned_upload owner run (some u) = if u.owner == owner && u.run == run then some u else none

unfoldable pub find_upload : String → Value → Store → Result Error (String × Upload)
find_upload owner params s = do
  run ← ok_or (get_str "_run_id" params) missing_field
  id ← ok_or (get_str "upload_id" params) missing_field
  upload ← ok_or (owned_upload owner run (get id s.uploads)) upload_unknown
  ok (id, upload)

-- The three guards, read under the lock on the data.
abbrev pub is_live : Upload → ℕ → ℕ → Store → Bool
is_live u owner_guard run_guard s = s.flags u.alive && (s.flags owner_guard && s.flags run_guard)

-- The checks of op == "artifact.append"; the result is the decoded chunk.
unfoldable pub accept_chunk : Host → Value → ℕ → ℕ → Upload → Store → Result Error Bytes
accept_chunk host params owner_guard run_guard u s = do
  refuse_if (not (is_live u owner_guard run_guard s)) upload_cancelled
  encoded ← ok_or (get_str "data" params) missing_field
  refuse_if (ltb 43692 (len encoded)) chunk_too_large
  bytes ← ok_or (host.from_base64 encoded) bad_base64
  refuse_if (ltb 32768 (length bytes)) chunk_too_large
  offset ← ok_or (and_then (Json.get "offset" params) as_u64) bad_offset
  refuse_if (not (offset == (s.cells u.cell).size)) offset_mismatch
  refuse_if (ltb item_limit ((s.cells u.cell).size + length bytes)) too_large
  ok bytes

-- write_all, and the hash and the size after it; a write that fails has written a part of the chunk.
unfoldable pub write_chunk : Upload → Bytes → Option ℕ → Store → Outcome ℕ
write_chunk u bytes none s =
    let d = s.cells u.cell in
    let size' = d.size + length bytes in
    (
      ok size',
      record s {
        cells =
            update s.cells u.cell
              (record { file = d.file ++ bytes; size = size'; hashed = d.hashed ++ bytes });
      },
    )
write_chunk u bytes (some n) s =
    let d = s.cells u.cell in
    (
      err write_failed,
      record s { cells = update s.cells u.cell (record d { file = d.file ++ take n bytes }) },
    )

abbrev pub then_write : Upload → Option ℕ → Store → Result Error Bytes → Outcome ℕ
then_write u failed_after s (ok bytes) = write_chunk u bytes failed_after s
then_write u failed_after s (err e) = (err e, s)

-- op == "artifact.append", from the upload that its lookup returned.
unfoldable pub append : Host → Value → ℕ → ℕ → Io → Upload → Store → Outcome ℕ
unfolding accept_chunk write_chunk
append host params owner_guard run_guard io u s =
    then_write u io.failed_after s (accept_chunk host params owner_guard run_guard u s)

-- What `Reader { file, position: 0, remaining: size }` reads to its end.
abbrev pub content : UploadData → Bytes
content d = take d.size d.file

-- The entry that a commit publishes.
abbrev pub entry_of : Host → String → Upload → UploadData → Entry
entry_of host id u d = record {
  id = id;
  owner = u.owner;
  file = d.file;
  size = d.size;
  format = u.format;
  sha256 = host.sha256 d.hashed;
}

-- op == "artifact.commit" up to the lock on the entries: the first reading of the guards, and the
-- entry that is to be published.
abbrev pub prepare_commit : Host → ℕ → ℕ → String → Io → Upload → Store → Result Error Entry
prepare_commit host owner_guard run_guard fresh io u s = do
  let d = s.cells u.cell
  refuse_if (not (is_live u owner_guard run_guard s)) upload_cancelled
  refuse_if (not io.flushed) write_failed
  check_content host u.format (content d) io.readable
  refuse_if (not io.duplicated) create_failed
  ok (entry_of host fresh u d)

-- The rest of it, under the lock on the entries: the guards are read again, since the owner may have
-- been removed, the run ended or the upload aborted in between.
abbrev pub finish_commit :
    ℕ → ℕ → String → Upload → Entry → Store → Result Error (Reference × Store)
finish_commit owner_guard run_guard id u entry s = do
  refuse_if (not (is_live u owner_guard run_guard s)) closed_before_commit
  entries ← ok_or (publish entry s.entries) out_of_fuel
  ok (
    reference entry,
    record s {
      entries = entries;
      flags = update s.flags u.alive false;
      uploads = remove id s.uploads;
    },
  )

-- op == "artifact.commit", from the upload that its lookup returned, with nothing in between.
unfoldable pub commit : Host → ℕ → ℕ → String → String → Io → Upload → Store → Outcome Reference
commit host owner_guard run_guard id fresh io u s = settle s (
    prepare_commit host owner_guard run_guard fresh io u s >>= λ entry.
    finish_commit owner_guard run_guard id u entry s)

-- op == "artifact.abort", from the upload that its lookup returned.
unfoldable pub abort : String → Upload → Store → Outcome String
abort id u s =
    (ok id, record s { flags = update s.flags u.alive false; uploads = remove id s.uploads })
