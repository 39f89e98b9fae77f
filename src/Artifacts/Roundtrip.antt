-- ===== src/Artifacts/Roundtrip.antt =====
-- An upload in chunks from its first append to its commit (native/src/artifacts.rs).
use mathlib.Core.List.{flatten}
use repl_mcp.Artifacts.Host.{Host}
use repl_mcp.Artifacts.State.{Upload, Io, Store, update, Outcome, item_limit, Entry, reference}
use repl_mcp.Base.{
  Bytes, ℕ, ◌≡◌, length, List, some, ◌≤◌, ◌++◌, ok, ◌+◌, none, true, ◌∷◌, arith, All, err, [], ◌∙◌,
  length-append, append-nil, ap, append_assoc, refl, String, drop,
}
use repl_mcp.Json.{Value, object, field, unsigned, str, end}
use repl_mcp.Artifacts.Upload.{
  append, accept_chunk, write_chunk, is_live, commit, entry_of, check_content,
}
use Prim.Native.String.{len, String}
use repl_mcp.Artifacts.Bounds.{IsBounded, publish_total}
use repl_mcp.Artifacts.Retention.{publish}
use repl_mcp.Artifacts.Reader.{take_all, verify, verify_iff}

-- The parameters of an append: the chunk at its offset, in base64.
abbrev pub chunk_params : Host → ℕ → Bytes → Value
chunk_params host offset bytes =
    object (field "offset" (unsigned offset) (field "data" (str (host.base64 bytes)) end))

-- One append after the other, each at the size that the one before returned.
unfoldable pub upload_chunks : Host → ℕ → ℕ → Io → Upload → ℕ → List Bytes → Store → Outcome ℕ
upload_chunks host og rg io u size [] s = (ok size, s)
upload_chunks host og rg io u size (bytes ∷ rest) s =
    let (r, s') = append host (chunk_params host size bytes) og rg io u s in
    elim r [ err e ↦ (err e, s') | ok size' ↦ upload_chunks host og rg io u size' rest s' ]

-- base64 as documented, at a chunk of at most 32 KiB: decoding inverts encoding, and 3 bytes take 4
-- characters.
pub record IsBase64 (host : Host) (bytes : Bytes) : Type 0 where
  pub decodes : host.from_base64 (host.base64 bytes) ≡ some bytes
  pub short : len (host.base64 bytes) ≤ 43692

-- The data of an upload after chunks that were all written.
abbrev pub IsWhole : Upload → Bytes → Store → Type 0
IsWhole u bytes s =
    ((s.cells u.cell).file ≡ bytes)
    × ((s.cells u.cell).hashed ≡ bytes)
    × ((s.cells u.cell).size ≡ length bytes)

abbrev pub append_done : Upload → Bytes → Store → Store
append_done u bytes s =
    let d = s.cells u.cell in
    record s {
      cells = update s.cells u.cell (record {
        file = d.file ++ bytes;
        size = d.size + length bytes;
        hashed = d.hashed ++ bytes;
      });
    }

module _ (host : Host) (og rg : ℕ) (io : Io) (u : Upload) where
  append-accepted :
      (bytes : Bytes) (s : Store)
      → IsBase64 host bytes
      → io.failed_after ≡ none
      → is_live u og rg s ≡ true
      → length bytes ≤ 32768
      → (s.cells u.cell).size + length bytes ≤ item_limit
      → append host (chunk_params host (s.cells u.cell).size bytes) og rg io u s
        ≡ (ok ((s.cells u.cell).size + length bytes), append_done u bytes s)
  unfolding append accept_chunk write_chunk
  append-accepted bytes s law writes live small fits = ground (arith, law.decodes, law.short)

  -- The same at the size that the client knows.
  append_next :
      (c done : Bytes) (s : Store)
      → IsBase64 host c
      → io.failed_after ≡ none
      → is_live u og rg s ≡ true
      → length c ≤ 32768
      → length done + length c ≤ item_limit
      → IsWhole u done s
      → append host (chunk_params host (length done) c) og rg io u s
        ≡ (ok (length (done ++ c)), append_done u c s)
  append_next c done s law writes live small fits whole = rw (← whole.2) (
      append-accepted c s law writes live small (omega arith)
      ∙ ap (λ n. (ok n, append_done u c s)) (omega (arith, length-append done c)))

  IsWhole-append_done :
      (c done : Bytes) (s : Store) → IsWhole u done s → IsWhole u (done ++ c) (append_done u c s)
  IsWhole-append_done c done s whole = ground (arith, length-append done c)

  upload_chunks_next :
      (c : Bytes) (cs : List Bytes) (done : Bytes) (s : Store)
      → append host (chunk_params host (length done) c) og rg io u s
        ≡ (ok (length (done ++ c)), append_done u c s)
      → upload_chunks host og rg io u (length done) (c ∷ cs) s
        ≡ upload_chunks host og rg io u (length (done ++ c)) cs (append_done u c s)
  unfolding upload_chunks
  upload_chunks_next c cs done s e = rw (e, upload_chunks) (rw e)

  -- What the chunks `cs`, sent after `done`, come to.
  abbrev Sent : Bytes → Store → Outcome ℕ → Type 0
  Sent all s (r, s') =
      (r ≡ ok (length all))
      × IsWhole u all s'
      × (is_live u og rg s' ≡ true)
      × (s'.entries ≡ s.entries)

  upload_chunks_total :
      (chunks : List Bytes) (done : Bytes) (s : Store)
      → io.failed_after ≡ none
      → is_live u og rg s ≡ true
      → All (IsBase64 host) chunks
      → All (λ c. length c ≤ 32768) chunks
      → length done + length (flatten chunks) ≤ item_limit
      → IsWhole u done s
      → Sent (done ++ flatten chunks) s (upload_chunks host og rg io u (length done) chunks s)
  unfolding upload_chunks flatten
  upload_chunks_total [] done s writes live law small fits whole =
      rw append-nil (refl, whole, live, refl)
  upload_chunks_total (c ∷ cs) done s writes live law small fits whole =
      let e =
        append_next c done s law.0 writes live small.0 (omega (arith, length-append c (flatten cs)))
          whole in
      rw (upload_chunks_next c cs done s e, ← append_assoc)
        (upload_chunks_total cs (done ++ c) (append_done u c s) writes live law.1 small.1
          (omega (arith, length-append c (flatten cs), length-append done c))
          (IsWhole-append_done c done s whole))

-- The entry with this content.
abbrev pub entry_with : Host → String → Upload → Bytes → Entry
entry_with host fresh u bytes = record {
  id = fresh;
  owner = u.owner;
  file = bytes;
  size = length bytes;
  format = u.format;
  sha256 = host.sha256 bytes;
}

entry_of-whole :
    (host : Host) (fresh : String) (u : Upload) (bytes : Bytes) (s : Store)
    → IsWhole u bytes s
    → entry_of host fresh u (s.cells u.cell) ≡ entry_with host fresh u bytes
entry_of-whole host fresh u bytes s whole = ground arith

-- How the operating system answers a call that succeeds.
abbrev pub all_well : Io
all_well = record {
  created = true;
  failed_after = none;
  flushed = true;
  readable = true;
  duplicated = true;
}

commit-published :
    (host : Host) (og rg : ℕ) (id fresh : String) (u : Upload) (bytes : Bytes) (s : Store)
    → is_live u og rg s ≡ true
    → check_content host u.format bytes true ≡ ok tt
    → IsWhole u bytes s
    → (entries : List Entry) → publish (entry_with host fresh u bytes) s.entries ≡ some entries
    → let (r, s') = commit host og rg id fresh all_well u s in
      (r ≡ ok (reference (entry_with host fresh u bytes))) × (s'.entries ≡ entries)
unfolding commit
commit-published host og rg id fresh u bytes s live valid whole entries room =
    ground (arith, entry_of-whole host fresh u bytes s whole, take_all (length bytes) bytes refl)

-- An upload of chunks that are each at most 32 KiB and together at most 16 MiB, of content that its
-- format allows, encoded in base64, into a store within its limits, by an owner and a run that are not ended, when the
-- operating system refuses nothing: every append is accepted, the commit publishes an entry whose
-- file is the chunks in their order and which passes verification, behind all but the `n` oldest entries.
pub upload_roundtrip :
    (host : Host) (og rg : ℕ) (u : Upload) (id fresh : String) (chunks : List Bytes) (s : Store)
    → is_live u og rg s ≡ true
    → All (IsBase64 host) chunks
    → All (λ c. length c ≤ 32768) chunks
    → length (flatten chunks) ≤ item_limit
    → IsWhole u [] s
    → IsBounded s.entries
    → check_content host u.format (flatten chunks) true ≡ ok tt
    → let entry = entry_with host fresh u (flatten chunks) in
      let sent = upload_chunks host og rg all_well u 0 chunks s in
      let done = commit host og rg id fresh all_well u sent.1 in
      (n : ℕ) × (sent.0 ≡ ok (length (flatten chunks)))
      × (done.0 ≡ ok (reference entry))
      × (done.1.entries ≡ drop n s.entries ++ entry ∷ [])
      × (verify host entry ≡ ok tt)
upload_roundtrip host og rg u id fresh chunks s live law small fits fresh_data bounded valid =
    let all = flatten chunks in
    let sent =
      upload_chunks_total host og rg all_well u chunks [] s refl live law small (omega arith)
        fresh_data in
    let (n, room, _, _) = publish_total (entry_with host fresh u all) s.entries fits bounded in
    let done =
      commit-published host og rg id fresh u all _ sent.2 valid sent.1
        (drop n s.entries ++ entry_with host fresh u all ∷ []) (rw sent.3 room) in
    (n, sent.0, done.0, done.1, (verify_iff host (entry_with host fresh u all) fits).1 (refl, refl))
