-- ===== src/Examples/Store.antt =====
-- Artifacts: one owner, one run, one upload, over a small host.
use repl_mcp.Artifacts.Torn
use repl_mcp.Artifacts.Range
use mathlib.Core.List.{flatten}
use repl_mcp.Base.{
  ◌≢◌, ℕ, List, ◌∷◌, Bool, if◌then◌else◌, ◌≡◌, [], String, ok, ltb, length, true, arith, some, ◌==◌,
  drop, none, string_eq, ◌++◌, refl, nat_eq, ◌<◌, All, Bytes, ◌≤◌, false, ◌⊎◌,
}
use repl_mcp.Artifacts.State.{Entry, Upload, Store, blank, new, Io, reference}
use repl_mcp.Artifacts.Sound.{IsSound}
use repl_mcp.Json.{Value, object, field, str, end, null, unsigned}
use repl_mcp.Artifacts.Closed.{AllRefused, IsRefused, remove_owner_final, run_end_final}
use repl_mcp.Artifacts.Reader.{verify}
use repl_mcp.Artifacts.Host.{Host}
use repl_mcp.Artifacts.Dispatch.{Call}
use repl_mcp.Artifacts.Pages.{pages, pages_total}
use repl_mcp.Artifacts.Retention.{publish, crowded}
use repl_mcp.Artifacts.Steps.{Op, steps, registers_owner, registers_run, removes_owner}
use repl_mcp.Artifacts.Roundtrip.{all_well, upload_chunks, IsBase64, entry_with, upload_roundtrip}
use repl_mcp.Artifacts.Registry.{abort_unfinished_uploads, remove_owner}
use repl_mcp.Artifacts.Limits.{steps-IsSound}
use repl_mcp.Artifacts.Isolation.{owner_isolation}
use repl_mcp.Artifacts.Upload.{commit, append, accept_chunk, write_chunk, entry_of}
use repl_mcp.Artifacts.Create.{copied}
use repl_mcp.Artifacts.Bounds.{IsBounded, publish_total}
use repl_mcp.Artifacts.Save.{destination, Disk, save}
use repl_mcp.Artifacts.Saved.{save_lem}
use repl_mcp.Artifacts.Torn.{torn_upload_unverifiable}

abbrev toy_host : Host
toy_host = record {
  sha256 = λ b. if length b == 0 then "empty" else "some";
  from_utf8 = λ b. some "text";
  from_slice = λ b. some null;
  base64 = λ b. if length b == 2 then "AQI=" else "Aw==";
  from_base64 = λ s. if s == "AQI=" then some (1 ∷ 2 ∷ []) else some (3 ∷ []);
  hex = λ b. "00";
  is_absolute = λ s. true;
}

abbrev an_upload : Upload
an_upload = record { owner = "a"; run = "r"; format = "binary"; alive = 2; cell = 3 }

abbrev raised : ℕ → Bool
raised n = ltb n 3

-- Owner "a" has guard 0, its run "r" guard 1, and the upload "u" flag 2 and data 3.
abbrev busy : Store
busy = record {
  entries = [];
  owners = ("a", 0) ∷ [];
  runs = (("a", "r"), 1) ∷ [];
  uploads = ("u", an_upload) ∷ [];
  flags = raised;
  cells = λ _. blank;
  next = 4;
  permits = 4;
}

abbrev an_entry : Entry
an_entry = record {
  id = "e";
  owner = "a";
  file = 1 ∷ 2 ∷ 3 ∷ [];
  size = 3;
  format = "binary";
  sha256 = "some";
}

abbrev some_params : Value
some_params =
    object (field "_run_id" (str "r") (field "id" (str "e") (field "path" (str "/f") end)))

abbrev some_call : Call
some_call = record {
  fresh = "f";
  temporary = "/t";
  io = all_well;
  save_io = record {
    parent = true;
    created = true;
    removed = true;
    partial = none;
    synced = true;
    renamed = true;
    linked = true;
  };
  source = some (copied (1 ∷ []) ∷ copied [] ∷ []);
}

abbrev history : List Op
history =
    registers_owner "a"
    ∷ registers_run "a" "r"
    ∷ Op.runs "a" "artifact.create" some_params (record { owner = 0; run = some 1 }) some_call
    ∷ removes_owner "a"
    ∷ []

steps-IsSound_example : IsSound (steps toy_host history new)
steps-IsSound_example = steps-IsSound toy_host history

remove_owner_final_example :
    AllRefused toy_host 0 (steps toy_host history (remove_owner "a" busy).1)
remove_owner_final_example = remove_owner_final toy_host "a" busy 0 history refl (omega arith)

run_end_final_example :
    IsRefused (steps toy_host history (abort_unfinished_uploads "a" "r" busy).1) (
      commit toy_host 0 1 "u" "f" all_well an_upload
        (steps toy_host history (abort_unfinished_uploads "a" "r" busy).1))
run_end_final_example =
    (run_end_final toy_host "a" "r" busy 1 history refl (omega arith)).2 0 "u" "f" all_well
      an_upload

publish_total_example :
    (n : ℕ) × (publish an_entry [] ≡ some (drop n [] ++ an_entry ∷ []))
    × IsBounded (drop n [] ++ an_entry ∷ [])
    × ((m : ℕ) → m < n → crowded an_entry.size (drop m []) ≡ true)
publish_total_example = publish_total an_entry [] (omega arith) (omega arith)

pages_total_example : pages 4 an_entry 2 0 ≡ ok (1 ∷ 2 ∷ 3 ∷ [])
pages_total_example =
    pages_total 4 an_entry 2 0 refl (omega arith) (omega arith) (omega arith) (omega arith)

a_not_b : ◌≢◌ {A = String} "a" "b"
a_not_b = ground (arith, string_eq.test_iff "a" "b")

owner_isolation_example : Range.lookup "b" "e" (remove_owner "a" busy).1 ≡ Range.lookup "b" "e" busy
owner_isolation_example = (owner_isolation "a" "b" "e" some_params busy a_not_b).1

-- The chunks [1, 2] and [3] of a binary upload.
chunks_fit :
    (All (IsBase64 toy_host) ((1 ∷ 2 ∷ []) ∷ (3 ∷ []) ∷ []))
    × (All (λ (c : Bytes). length c ≤ 32768) ((1 ∷ 2 ∷ []) ∷ (3 ∷ []) ∷ []))
chunks_fit = (
  (
    record { decodes = refl; short = omega arith },
    (record { decodes = refl; short = omega arith }, tt),
  ),
  omega arith,
)

upload_roundtrip_example :
    (commit toy_host 0 1 "u" "f" all_well an_upload
      (upload_chunks toy_host 0 1 all_well an_upload 0 ((1 ∷ 2 ∷ []) ∷ (3 ∷ []) ∷ []) busy).1).0
    ≡ ok (reference (entry_with toy_host "f" an_upload (1 ∷ 2 ∷ 3 ∷ [])))
unfolding flatten
upload_roundtrip_example =
    (upload_roundtrip toy_host 0 1 an_upload "u" "f" ((1 ∷ 2 ∷ []) ∷ (3 ∷ []) ∷ []) busy refl
      chunks_fit.0 chunks_fit.1 (omega arith) (refl, refl, refl) (omega arith) refl).2

abbrev chunk_request : Value
chunk_request = object (field "data" (str "AQI=") (field "offset" (unsigned 0) end))

-- The write of the chunk [1, 2] stops after one byte, and the client sends the chunk again.
abbrev failing : Io
failing = record all_well { failed_after = some 1 }

torn_upload_unverifiable_example :
    verify toy_host (
      entry_of toy_host "f" an_upload (
        (Torn.appends toy_host 0 1 an_upload
            ((chunk_request, all_well) ∷ [])
            (append toy_host chunk_request 0 1 failing an_upload busy).1).cells
          3))
    ≢ ok tt
unfolding append accept_chunk write_chunk Torn.appends commit publish
torn_upload_unverifiable_example =
    (torn_upload_unverifiable toy_host 0 1 an_upload busy chunk_request failing (1 ∷ 2 ∷ []) 1
      ((chunk_request, all_well) ∷ []) "u" "f" all_well
      (reference (
        entry_of toy_host "f" an_upload
          (record { file = 1 ∷ 1 ∷ 2 ∷ []; size = 2; hashed = 1 ∷ 2 ∷ [] })))
      (omega arith) refl refl (omega arith) (omega arith) refl).1

abbrev stocked : Store
stocked = record busy { entries = an_entry ∷ [] }

abbrev empty_disk : Disk
empty_disk path = none

t_not_f : ◌≢◌ {A = String} "/t" "/f"
t_not_f = ground (arith, string_eq.test_iff "/t" "/f")

save_lem_example :
    (true ≡ false)
    ⊎ ((save toy_host "a" some_params "/t" some_call.save_io stocked empty_disk).1 "/t" ≡ none)
unfolding destination Range.lookup
save_lem_example =
    (save_lem toy_host "a" some_params "/t" some_call.save_io stocked empty_disk an_entry "/f" refl
      t_not_f).1
