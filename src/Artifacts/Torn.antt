-- ===== src/Artifacts/Torn.antt =====
-- A failed append: what the file holds afterwards, and what a later commit publishes.
use repl_mcp.Artifacts.Upload.{append, write_chunk, accept_chunk, then_write, entry_of, commit}
use repl_mcp.Artifacts.State.{Upload, Store, Io, Error, Reference}
use repl_mcp.Artifacts.Host.{Host}
use Prim.Native.Nat.{ℕ}
use repl_mcp.Json.{Value}
use repl_mcp.Base.{
  ℕ, List, ◌<◌, length, Option, Bytes, ◌∷◌, Result, String, [], ◌≡◌, ◌≤◌, ok, err, some, arith,
  length-append, take, length-take, ◌≢◌, none,
}
use repl_mcp.Artifacts.Reader.{verify, verify-size}
use repl_mcp.Artifacts.Retention.{publish}

-- The file holds more than the size counts.
abbrev pub IsTorn : Upload → Store → Type 0
IsTorn u s = (s.cells u.cell).size < length (s.cells u.cell).file

-- Appends to one upload, each with its own parameters and answers of the operating system.
unfoldable pub appends : Host → ℕ → ℕ → Upload → List (Value × Io) → Store → Store
appends host og rg u [] s = s
appends host og rg u ((params, io) ∷ rest) s =
    appends host og rg u rest (append host params og rg io u s).1

append-IsTorn :
    (host : Host) (params : Value) (og rg : ℕ) (io : Io) (u : Upload) (s : Store)
    → IsTorn u s
    → IsTorn u (append host params og rg io u s).1
unfolding append
append-IsTorn host params og rg io u s torn =
    go io.failed_after (accept_chunk host params og rg u s)
  where
    go : (o : Option ℕ) (r : Result Error Bytes) → IsTorn u (then_write u o s r).1
    go o (err e) = torn
    go none (ok bytes) =
        unfold write_chunk in ground (arith, length-append (s.cells u.cell).file bytes)
    go (some n) (ok bytes) =
        unfold write_chunk in ground (arith, length-append (s.cells u.cell).file (take n bytes))

appends-IsTorn :
    (host : Host) (og rg : ℕ) (u : Upload) (calls : List (Value × Io)) (s : Store)
    → IsTorn u s
    → IsTorn u (appends host og rg u calls s)
unfolding appends
appends-IsTorn host og rg u [] s torn = torn
appends-IsTorn host og rg u ((params, io) ∷ rest) s torn =
    appends-IsTorn host og rg u rest _ (append-IsTorn host params og rg io u s torn)

-- A write that fails after `n` bytes of an accepted chunk leaves the file longer than its size.
append-tears :
    (host : Host) (params : Value) (og rg : ℕ) (io : Io) (u : Upload) (s : Store) (bytes : Bytes)
    (n : ℕ)
    → accept_chunk host params og rg u s ≡ ok bytes
    → io.failed_after ≡ some n
    → 0 < n
    → 0 < length bytes
    → (s.cells u.cell).size ≤ length (s.cells u.cell).file
    → IsTorn u (append host params og rg io u s).1
unfolding append write_chunk
append-tears host params og rg io u s bytes n accepted failed some_written some_bytes counted =
    rw (accepted, failed)
      (ground (arith, length-append (s.cells u.cell).file (take n bytes), length-take n bytes))

-- A commit that succeeds has published the entry of the upload's data.
commit-publishes :
    (host : Host) (og rg : ℕ) (id fresh : String) (io : Io) (u : Upload) (s : Store) (r : Reference)
    → (commit host og rg id fresh io u s).0 ≡ ok r
    → publish (entry_of host fresh u (s.cells u.cell)) s.entries
      ≡ some (commit host og rg id fresh io u s).1.entries
unfolding commit
commit-publishes host og rg id fresh io u s r h = ground arith

-- Once a write has failed after a part of its chunk, an upload can still be committed, but not to
-- a good artifact: whatever is appended afterwards, the retry of the chunk included, a commit that
-- succeeds publishes an entry that fails verification.
pub torn_upload_unverifiable :
    (host : Host) (og rg : ℕ) (u : Upload) (s : Store) (params : Value) (io : Io) (bytes : Bytes)
    (n : ℕ) (calls : List (Value × Io)) (id fresh : String) (last : Io) (r : Reference)
    → (s.cells u.cell).size ≤ length (s.cells u.cell).file
    → accept_chunk host params og rg u s ≡ ok bytes
    → io.failed_after ≡ some n
    → 0 < n
    → 0 < length bytes
    → (commit host og rg id fresh last u
        (appends host og rg u calls (append host params og rg io u s).1)).0
      ≡ ok r
    → let later = appends host og rg u calls (append host params og rg io u s).1 in
      let entry = entry_of host fresh u (later.cells u.cell) in
      (publish entry later.entries ≡ some (commit host og rg id fresh last u later).1.entries)
      × (verify host entry ≢ ok tt)
torn_upload_unverifiable host og rg u s params io bytes n calls id fresh last r counted accepted
      failed some_written some_bytes committed =
    let torn = appends-IsTorn host og rg u calls (append host params og rg io u s).1 (
      append-tears host params og rg io u s bytes n accepted failed some_written some_bytes
        counted) in
    (
      commit-publishes host og rg id fresh last u _ r committed,
      λ good. absurd (omega (arith, verify-size host _ good)),
    )
