-- ===== src/Artifacts/Sound.antt =====
-- The limits of the whole store, for each operation of native/src/artifacts.rs.
use repl_mcp.Base.{
  drop, ◌++◌, subst, ℕ, ◌+◌, ◌≤◌, ◌≡◌, refl, String, List, Option, none, some, Bytes, length, arith,
  Result, ok, err, length-append, ◌>>=◌, retain, ◌==◌, ◌&&◌, Result-cases, inl, inr, string_eq,
  pair_eq, ◌∷◌, Bool, [], All, length-retain-le, not, sum_by-retain-le, All-retain,
}
use repl_mcp.Base.Map.{length-insert-le, length-remove-le}
use repl_mcp.Json.{Value}
use repl_mcp.Artifacts.State.{Store, Entry, Upload, Error, Io, item_limit, new, settle}
use repl_mcp.Artifacts.Host.{Host}
use repl_mcp.Artifacts.Registry.{
  register_owner, register_run, abort_unfinished_uploads, remove_owner,
}
use repl_mcp.Artifacts.Retention.{publish, total_size}
use repl_mcp.Artifacts.Upload.{
  begin, append, commit, abort, write_chunk, accept_chunk, then_write, entry_of,
}
use repl_mcp.Artifacts.Bounds.{IsBounded, publish_total}
use repl_mcp.Artifacts.Create.{
  commit_import, import_file, create, copy_loop, Event, copied, write_error, read_error,
}
use repl_mcp.Artifacts.Range.{delete, remove_first}

-- At most 256 owners, 256 runs and four uploads, none of more than 16 MiB, and entries within their
-- limits.
pub record IsSound (s : Store) : Type 0 where
  pub entries : IsBounded s.entries
  pub owners : length s.owners ≤ 256
  pub runs : length s.runs ≤ 256
  pub uploads : length s.uploads ≤ 4
  pub cells : (a : ℕ) → (s.cells a).size ≤ item_limit

pub IsSound-new : IsSound new
unfolding new
IsSound-new = record {
  entries = record { count = omega arith; total = omega arith; items = tt };
  owners = omega arith;
  runs = omega arith;
  uploads = omega arith;
  cells = λ a. omega arith;
}

pub register_owner-IsSound :
    (owner : String) (s : Store) → IsSound s → IsSound (register_owner owner s).1
unfolding register_owner
register_owner-IsSound owner s v = record {
  entries = ground (arith, v.entries);
  owners = ground (arith, length-insert-le owner s.next s.owners);
  runs = ground arith;
  uploads = ground arith;
  cells = λ a. ground (arith, v.cells a);
}

pub register_run-IsSound :
    (owner run : String) (s : Store) → IsSound s → IsSound (register_run owner run s).1
unfolding register_run
register_run-IsSound owner run s v = record {
  entries = ground (arith, v.entries);
  owners = ground arith;
  runs = ground (arith, length-insert-le (owner, run) s.next s.runs);
  uploads = ground arith;
  cells = λ a. ground (arith, v.cells a);
}

pub begin-IsSound :
    (owner : String) (params : Value) (og rg : ℕ) (id : String) (io : Io) (s : Store)
    → IsSound s
    → IsSound (begin owner params og rg id io s).1
unfolding begin
begin-IsSound owner params og rg id io s v = record {
  entries = ground (arith, v.entries);
  owners = ground arith;
  runs = ground arith;
  uploads = grind (arith, length-insert-le);
  cells = λ a. ground (arith, v.cells a);
}

accept_chunk_fits :
    (host : Host) (params : Value) (og rg : ℕ) (u : Upload) (s : Store) (bytes : Bytes)
    → accept_chunk host params og rg u s ≡ ok bytes
    → (s.cells u.cell).size + length bytes ≤ item_limit
unfolding accept_chunk
accept_chunk_fits host params og rg u s bytes h = ground arith

write_chunk-IsSound :
    (u : Upload) (bytes : Bytes) (failed_after : Option ℕ) (s : Store)
    → (s.cells u.cell).size + length bytes ≤ item_limit
    → IsSound s
    → IsSound (write_chunk u bytes failed_after s).1
unfolding write_chunk
write_chunk-IsSound u bytes none s fits v = record {
  entries = v.entries;
  owners = v.owners;
  runs = v.runs;
  uploads = v.uploads;
  cells = λ a. ground (arith, v.cells a);
}
write_chunk-IsSound u bytes (some n) s fits v = record {
  entries = v.entries;
  owners = v.owners;
  runs = v.runs;
  uploads = v.uploads;
  cells = λ a. ground (arith, v.cells a, v.cells u.cell);
}

pub append-IsSound :
    (host : Host) (params : Value) (og rg : ℕ) (io : Io) (u : Upload) (s : Store)
    → IsSound s
    → IsSound (append host params og rg io u s).1
unfolding append
append-IsSound host params og rg io u s v = go (accept_chunk host params og rg u s) refl
  where
    go :
        (r : Result Error Bytes)
        → accept_chunk host params og rg u s ≡ r
        → IsSound (then_write u io.failed_after s r).1
    go (err e) h = v
    go (ok bytes) h =
        write_chunk-IsSound u bytes io.failed_after s
          (accept_chunk_fits host params og rg u s bytes h) v

-- A store with other entries within the limits.
publish-IsSound :
    (entry : Entry) (s : Store)
    → entry.size ≤ item_limit
    → IsSound s
    → (entries : List Entry) → publish entry s.entries ≡ some entries
    → IsBounded entries
publish-IsSound entry s fits v entries h =
    let (n, ends, bounded, least) = publish_total entry s.entries fits v.entries in
    let e : drop n s.entries ++ entry ∷ [] ≡ entries = cc ends in subst IsBounded e bounded

pub commit-IsSound :
    (host : Host) (og rg : ℕ) (id fresh : String) (io : Io) (u : Upload) (s : Store)
    → IsSound s
    → IsSound (commit host og rg id fresh io u s).1
unfolding commit
commit-IsSound host og rg id fresh io u s v = record {
  entries = ground (
    arith,
    v.entries,
    v.cells u.cell,
    publish_total (entry_of host fresh u (s.cells u.cell)) s.entries,
  );
  owners = ground arith;
  runs = ground arith;
  uploads = ground (arith, length-remove-le id s.uploads);
  cells = λ a. ground (arith, v.cells a);
}

pub abort-IsSound : (id : String) (u : Upload) (s : Store) → IsSound s → IsSound (abort id u s).1
unfolding abort
abort-IsSound id u s v = record {
  entries = v.entries;
  owners = v.owners;
  runs = v.runs;
  uploads = omega (arith, length-remove-le id s.uploads, v.uploads);
  cells = v.cells;
}

-- What the copy loop returns is within the limit, and its size is the number of bytes copied.
pub copy_loop_fits :
    (events : List Event) (copy : Bytes) (size : ℕ) (out : Bytes × ℕ)
    → length copy ≡ size
    → size ≤ item_limit
    → copy_loop events copy size ≡ ok out
    → (length out.0 ≡ out.1) × (out.1 ≤ item_limit)
unfolding copy_loop
copy_loop_fits [] copy size out e fits h = ground arith
copy_loop_fits (read_error ∷ events) copy size out e fits h = cc
copy_loop_fits (copied got ∷ events) copy size out e fits h =
    ground
      (arith, length-append copy got, copy_loop_fits events (copy ++ got) (size + length got) out)
copy_loop_fits (write_error got ∷ events) copy size out e fits h = ground arith

import_file_fits :
    (host : Host) (owner : String) (params : Value) (fresh : String) (io : Io)
    (source : Option (List Event)) (entry : Entry)
    → import_file host owner params fresh io source ≡ ok entry
    → entry.size ≤ item_limit
unfolding import_file
import_file_fits host owner params fresh io none entry h = ground arith
import_file_fits host owner params fresh io (some events) entry h =
    elim (Result-cases (copy_loop events [] 0)) [
      | inl (out, e) ↦ ground (arith, copy_loop_fits events [] 0 out)
      | inr (x, e) ↦ ground arith
    ]

commit_import-IsSound :
    (og : ℕ) (rg : Option ℕ) (s : Store) (r : Result Error Entry)
    → ((entry : Entry) → r ≡ ok entry → entry.size ≤ item_limit)
    → IsSound s
    → IsSound (settle s (r >>= λ entry. commit_import og rg entry s)).1
unfolding commit_import
commit_import-IsSound og rg s (err e) fits v = v
commit_import-IsSound og rg s (ok entry) fits v = record {
  entries = ground (arith, v.entries, fits entry refl, publish_total entry s.entries);
  owners = ground arith;
  runs = ground arith;
  uploads = ground arith;
  cells = λ a. ground (arith, v.cells a);
}

pub create-IsSound :
    (host : Host) (owner : String) (params : Value) (og : ℕ) (rg : Option ℕ) (fresh : String)
    (io : Io) (source : Option (List Event)) (s : Store)
    → IsSound s
    → IsSound (create host owner params og rg fresh io source s).1
unfolding create
create-IsSound host owner params og rg fresh io source s =
    commit_import-IsSound og rg s (import_file host owner params fresh io source)
      (import_file_fits host owner params fresh io source)

length-remove_first-le :
    (p : Entry → Bool) (xs : List Entry) → length (remove_first p xs) ≤ length xs
length-remove_first-le p [] = omega arith
length-remove_first-le p (x ∷ xs) = ground (arith, length-remove_first-le p xs)

total_size-remove_first-le :
    (p : Entry → Bool) (xs : List Entry) → total_size (remove_first p xs) ≤ total_size xs
total_size-remove_first-le p [] = omega arith
total_size-remove_first-le p (x ∷ xs) = ground (arith, total_size-remove_first-le p xs)

All-remove_first :
    (P : Entry → Type 0) (p : Entry → Bool) (xs : List Entry) → All P xs → All P (remove_first p xs)
All-remove_first P p [] h = h
All-remove_first P p (x ∷ xs) h = ground (arith, All-remove_first P p xs h.1)

remove_first-IsBounded :
    (p : Entry → Bool) (xs : List Entry) → IsBounded xs → IsBounded (remove_first p xs)
remove_first-IsBounded p xs v = record {
  count = omega (arith, length-remove_first-le p xs);
  total = omega (arith, total_size-remove_first-le p xs);
  items = All-remove_first (λ e. e.size ≤ item_limit) p xs v.items;
}

pub delete-IsSound :
    (owner : String) (params : Value) (s : Store) → IsSound s → IsSound (delete owner params s).1
unfolding delete
delete-IsSound owner params s v = record {
  entries = grind (arith, remove_first-IsBounded);
  owners = ground arith;
  runs = ground arith;
  uploads = ground arith;
  cells = λ a. ground (arith, v.cells a);
}

retain-IsBounded : (p : Entry → Bool) (xs : List Entry) → IsBounded xs → IsBounded (retain p xs)
retain-IsBounded p xs v = record {
  count = omega (arith, length-retain-le p xs);
  total = omega (arith, sum_by-retain-le (λ e. e.size) p xs);
  items = All-retain (λ e. e.size ≤ item_limit) p xs v.items;
}

pub abort_unfinished_uploads-IsSound :
    (owner run : String) (s : Store) → IsSound s → IsSound (abort_unfinished_uploads owner run s).1
unfolding abort_unfinished_uploads
abort_unfinished_uploads-IsSound owner run s v = record {
  entries = ground (arith, v.entries);
  owners = ground arith;
  runs = ground (arith, length-remove-le (owner, run) s.runs);
  uploads = ground (
    arith,
    length-retain-le (λ (u : String × Upload). not (u.1.owner == owner && u.1.run == run))
        s.uploads,
  );
  cells = λ a. ground (arith, v.cells a);
}

pub remove_owner-IsSound :
    (owner : String) (s : Store) → IsSound s → IsSound (remove_owner owner s).1
unfolding remove_owner
remove_owner-IsSound owner s v = record {
  entries = retain-IsBounded (λ e. not (e.owner == owner)) s.entries v.entries;
  owners = ground (arith, length-remove-le owner s.owners);
  runs =
      ground (arith, length-retain-le (λ (r : (String × String) × ℕ). not (r.0.0 == owner)) s.runs);
  uploads =
      ground
        (arith, length-retain-le (λ (u : String × Upload). not (u.1.owner == owner)) s.uploads);
  cells = λ a. ground (arith, v.cells a);
}
