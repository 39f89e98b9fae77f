-- ===== src/Artifacts/Reader.antt =====
-- `Reader`, `digest` and `verify` of native/src/artifacts.rs: positioned reads of a private file.
use native.Mathlib.Nat.{zero-add}
use repl_mcp.Base.{
  ℕ, zero, suc, ◌+◌, ◌-◌, ◌≤◌, ◌<◌, min, String, ◌||◌, not, ◌≡◌, refl, ap, sym, ◌∙◌, ◌↔◌, [], ◌∷◌,
  ◌++◌, append-nil, append_assoc, Bytes, length, take, drop, length-take, length-append, ltb, ◌==◌,
  nat_eq, string_eq, if◌then◌else◌, Result, ok, err, ◌>>=◌, arith,
}
use repl_mcp.Artifacts.State.{Error, too_large, hash_mismatch, out_of_fuel, Entry, item_limit}
use repl_mcp.Artifacts.Host.{Host}

pub record Reader : Type 0 where
  pub file : Bytes
  pub position : ℕ
  pub remaining : ℕ

-- Read for Reader; `File::read_at` returns what stands at the position, at most as much as asked.
unfoldable pub read : ℕ → Reader → Bytes × Reader
read size r =
    let got = take (min size r.remaining) (drop r.position r.file) in
    (got, record r { position = r.position + length got; remaining = r.remaining - length got })

-- What a reader has still to deliver.
abbrev pub ahead : Reader → Bytes
ahead r = take r.remaining (drop r.position r.file)

-- The loop of `digest`: hash and count, until a read returns nothing.
unfoldable pub digest_loop : ℕ → Reader → Bytes → ℕ → Result Error (Bytes × ℕ)
digest_loop zero r hashed size = err out_of_fuel
digest_loop (suc fuel) r hashed size =
    let got = (read 8192 r).0 in
    let size' = size + length got in
    let rest = digest_loop fuel (read 8192 r).1 (hashed ++ got) size' in
    if length got == 0
    then ok (hashed, size)
    else if ltb item_limit size'
    then err too_large
    else rest

-- `digest`: the hash and the size of all that the reader delivers.
unfoldable pub digest : Host → Reader → Result Error (String × ℕ)
unfolding digest_loop read
digest host r =
    digest_loop (suc (length (ahead r))) r [] 0 >>= λ total. ok (host.sha256 total.0, total.1)

-- Artifacts::reader
abbrev pub reader : Entry → Reader
reader entry = record { file = entry.file; position = 0; remaining = entry.size }

-- Artifacts::verify
unfoldable pub verify : Host → Entry → Result Error (Unit {0})
unfolding digest
verify host entry = do
  found ← digest host (reader entry)
  if not (found.0 == entry.sha256)
        || not (found.1 == entry.size)
        || not (length entry.file == entry.size)
      then err hash_mismatch
      else ok tt

drop-nil : (k : ℕ) → ◌≡◌ {A = Bytes} (drop k []) []
drop-nil zero = refl
drop-nil (suc k) = refl

pub take-nil : (k : ℕ) → ◌≡◌ {A = Bytes} (take k []) []
take-nil zero = refl
take-nil (suc k) = refl

pub drop-drop : (n m : ℕ) (xs : Bytes) → drop m (drop n xs) ≡ drop (n + m) xs
drop-drop zero m xs = rw zero-add
drop-drop (suc n) m [] = drop-nil m ∙ sym (drop-nil (suc n + m))
drop-drop (suc n) m (x ∷ xs) =
    drop-drop n m xs ∙ ap (λ (k : ℕ). drop k (x ∷ xs)) {x = suc (n + m)} (omega arith)

-- A read of at most what remains, and what remains after it, are what remained.
take_split :
    (m r : ℕ) (xs : Bytes)
    → m ≤ r
    → let c = length (take m xs) in take m xs ++ take (r - c) (drop c xs) ≡ take r xs
take_split zero r xs h = ap (λ k. take k xs) (omega arith)
take_split (suc m) r [] h = take-nil (r - 0) ∙ sym (take-nil r)
take_split (suc m) zero (x ∷ xs) h = absurd (omega arith)
take_split (suc m) (suc r) (x ∷ xs) h =
    ap (λ l. x ∷ l)
      (ap (λ k. take m xs ++ take k (drop (length (take m xs)) xs)) (omega arith)
        ∙ take_split m r xs (omega arith))

ahead-read : (size : ℕ) (r : Reader) → (read size r).0 ++ ahead (read size r).1 ≡ ahead r
unfolding read
ahead-read size r =
    let d = drop r.position r.file in
    let c = length (take (min size r.remaining) d) in
    ap (λ l. take (min size r.remaining) d ++ take (r.remaining - c) l)
      (sym (drop-drop r.position c r.file))
    ∙ take_split (min size r.remaining) r.remaining d (omega arith)

nil_of_length : (xs : Bytes) → length xs ≡ 0 → xs ≡ []
nil_of_length [] h = refl
nil_of_length (x ∷ xs) h = absurd (omega arith)

-- A read returns nothing only at the end.
read_end : (r : Reader) → length (read 8192 r).0 ≡ 0 → ahead r ≡ []
unfolding read
read_end r h =
    let d = drop r.position r.file in
    nil_of_length (ahead r)
      (omega (arith, length-take (min 8192 r.remaining) d, length-take r.remaining d))

-- What the loop returns, from any point of the file.
abbrev Digested : Bytes → ℕ → Bytes → Result Error (Bytes × ℕ)
Digested hashed size rest =
    if ltb item_limit (size + length rest)
    then err too_large
    else ok (hashed ++ rest, size + length rest)

-- One round: nothing read, too much read, or the rest of the loop.
digest_round :
    (fuel : ℕ) (r : Reader) (hashed : Bytes) (size : ℕ) (got : Bytes) (r' : Reader)
    → (length got ≡ 0 → ahead r ≡ [])
    → got ++ ahead r' ≡ ahead r
    → size ≤ item_limit
    → (0 < length got
        → size + length got ≤ item_limit
        → digest_loop fuel r' (hashed ++ got) (size + length got)
          ≡ Digested (hashed ++ got) (size + length got) (ahead r'))
    → (if length got == 0
        then ok (hashed, size)
        else if ltb item_limit (size + length got)
        then err too_large
        else digest_loop fuel r' (hashed ++ got) (size + length got))
      ≡ Digested hashed size (ahead r)
digest_round fuel r hashed size got r' at_end split k rest = ground (
  arith,
  append-nil hashed,
  append_assoc hashed got (ahead r'),
  ap length split,
  length-append got (ahead r'),
)

digest_loop_total :
    (fuel : ℕ) (r : Reader) (hashed : Bytes) (size : ℕ)
    → length (ahead r) < fuel
    → size ≤ item_limit
    → digest_loop fuel r hashed size ≡ Digested hashed size (ahead r)
unfolding digest_loop
digest_loop_total zero r hashed size h k = absurd (omega arith)
digest_loop_total (suc fuel) r hashed size h k =
    let got = (read 8192 r).0 in
    let r' = (read 8192 r).1 in
    digest_round fuel r hashed size got r' (read_end r) (ahead-read 8192 r) k λ some_read small.
      digest_loop_total fuel r' (hashed ++ got) (size + length got)
        (omega (arith, ap length (ahead-read 8192 r), length-append got (ahead r'))) small

-- `digest` returns the hash and the size of exactly the bytes that its reader has still to deliver,
-- and fails exactly when these are more than 16 MiB: its loop always ends.
pub digest_total :
    (host : Host) (r : Reader)
    → digest host r ≡ (
        if ltb item_limit (length (ahead r))
        then err too_large
        else ok (host.sha256 (ahead r), length (ahead r)))
unfolding digest
digest_total host r =
    rw (digest_loop_total (suc (length (ahead r))) r [] 0 (omega arith) (omega arith))
      (ground arith)

pub take_all : (n : ℕ) (xs : Bytes) → length xs ≡ n → take n xs ≡ xs
take_all zero xs h = sym (nil_of_length xs h)
take_all (suc n) [] h = refl
take_all (suc n) (x ∷ xs) h = ap (λ l. x ∷ l) (take_all n xs (omega arith))

-- An entry passes `verify` exactly when its file has the size and the hash that were published.
pub verify_iff :
    (host : Host) (entry : Entry)
    → entry.size ≤ item_limit
    → (verify host entry ≡ ok tt)
      ↔ ((host.sha256 entry.file ≡ entry.sha256) × (length entry.file ≡ entry.size))
unfolding verify
verify_iff host entry fits = ground (
  arith,
  digest_total host (reader entry),
  take_all entry.size entry.file,
  length-take entry.size entry.file,
  string_eq.test_iff (host.sha256 (take entry.size entry.file)) entry.sha256,
)

-- An entry passes only at its own size.
pub verify-size :
    (host : Host) (entry : Entry) → verify host entry ≡ ok tt → length entry.file ≡ entry.size
unfolding verify
verify-size host entry h = ground arith
