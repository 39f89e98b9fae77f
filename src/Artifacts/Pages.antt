-- ===== src/Artifacts/Pages.antt =====
-- Range reads of native/src/artifacts.rs, one page and pages in a row.
use repl_mcp.Base.{
  ℕ, length, ◌≤◌, Result, Bytes, ◌<◌, drop, take, ◌≡◌, suc, err, ok, [], ◌-◌, min, ◌++◌, ◌∷◌, arith,
  ◌+◌, refl, ◌∙◌, length-take, ap, length-drop, zero, sym, append-nil, ◌>>=◌, if◌then◌else◌, ltb,
}
use repl_mcp.Artifacts.State.{Entry, range_limit, Error, out_of_fuel}
use repl_mcp.Artifacts.Range.{read_range}
use repl_mcp.Artifacts.Reader.{take-nil, drop-drop}

-- A file of the size that was published.
abbrev pub IsWholeFile : Entry → Type 0
IsWholeFile e = length e.file ≡ e.size

take_cons : (m n : ℕ) (x : ℕ) (xs : Bytes) → m ≡ suc n → take m (x ∷ xs) ≡ x ∷ take n xs
take_cons m n x xs h = rw h refl

take-min : (n k : ℕ) (xs : Bytes) → length xs ≡ k → take (min n k) xs ≡ take n xs
take-min n k [] h = take-nil (min n k) ∙ sym (take-nil n)
take-min zero k (x ∷ xs) h = let e : min 0 k ≡ 0 = omega arith in rw e refl
take-min (suc n) zero (x ∷ xs) h = absurd (omega arith)
take-min (suc n) (suc k) (x ∷ xs) h =
    take_cons (min (suc n) (suc k)) (min n k) x xs (omega arith)
    ∙ ap (λ l. x ∷ l) (take-min n k xs (omega arith))

-- A range that starts within the file, of at most 64 KiB, is what stands there.
pub read_range_lem :
    (e : Entry) (offset wanted : ℕ)
    → IsWholeFile e
    → wanted ≤ range_limit
    → offset ≤ e.size
    → read_range e offset wanted ≡ ok (take wanted (drop offset e.file))
unfolding read_range
read_range_lem e offset wanted whole small inside = ground (
  arith,
  length-drop offset e.file,
  take-min wanted (e.size - offset) (drop offset e.file),
  length-take (min wanted (e.size - offset)) (drop offset e.file),
)

-- A reader of pages: on from the end of each page, as long as the reply says that there is more.
unfoldable pub pages : ℕ → Entry → ℕ → ℕ → Result Error Bytes
pages zero e wanted offset = err out_of_fuel
pages (suc fuel) e wanted offset = do
  bytes ← read_range e offset wanted
  let next = offset + length bytes
  let rest = pages fuel e wanted next
  if ltb next e.size then (do more ← rest; ok (bytes ++ more)) else ok bytes

take_rest : (n : ℕ) (xs : Bytes) → take n xs ++ drop (length (take n xs)) xs ≡ xs
take_rest zero xs = refl
take_rest (suc n) [] = refl
take_rest (suc n) (x ∷ xs) = ap (λ l. x ∷ l) (take_rest n xs)

drop_past : (n : ℕ) (xs : Bytes) → length xs ≤ n → drop n xs ≡ []
drop_past zero [] h = refl
drop_past zero (x ∷ xs) h = absurd (omega arith)
drop_past (suc n) [] h = refl
drop_past (suc n) (x ∷ xs) h = drop_past n xs (omega arith)

page_step :
    (wanted offset : ℕ) (xs : Bytes)
    → let bytes = take wanted (drop offset xs) in
      bytes ++ drop (offset + length bytes) xs ≡ drop offset xs
page_step wanted offset xs =
    let d = drop offset xs in
    ap (λ l. take wanted d ++ l) (sym (drop-drop offset (length (take wanted d)) xs))
    ∙ take_rest wanted d

-- Pages of any length from 1 byte to 64 KiB, read in a row from an offset within a published file,
-- end, and together are the file from that offset on.
pub pages_total :
    (fuel : ℕ) (e : Entry) (wanted offset : ℕ)
    → IsWholeFile e
    → 0 < wanted
    → wanted ≤ range_limit
    → offset ≤ e.size
    → e.size - offset < fuel
    → pages fuel e wanted offset ≡ ok (drop offset e.file)
unfolding pages
pages_total zero e wanted offset whole some_wanted small inside enough = absurd (omega arith)
pages_total (suc fuel) e wanted offset whole some_wanted small inside enough =
    let bytes = take wanted (drop offset e.file) in
    rw (read_range_lem e offset wanted whole small inside) (
      ground (
        arith,
        length-take wanted (drop offset e.file),
        length-drop offset e.file,
        page_step wanted offset e.file,
        append-nil bytes,
        drop_past (offset + length bytes) e.file,
        pages_total fuel e wanted (offset + length bytes) whole some_wanted small,
      ))
