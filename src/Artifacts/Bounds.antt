-- ===== src/Artifacts/Bounds.antt =====
-- The eviction loop and the limits of the list of entries (native/src/artifacts.rs).
use repl_mcp.Base.{
  ℕ, zero, suc, ◌≤◌, ◌<◌, ◌≡◌, refl, false, true, List, [], ◌∷◌, ◌++◌, some, length, drop, All,
  All-append, length-append, sum_by-append, arith, Bool-cases, inl, inr,
}
use repl_mcp.Artifacts.State.{Entry, count_limit, total_limit, item_limit}
use repl_mcp.Artifacts.Retention.{total_size, crowded, evict, publish}

-- What the store holds to: at most 64 entries, of at most 16 MiB each, and of 64 MiB in all.
pub record IsBounded (entries : List Entry) : Type 0 where
  pub count : length entries ≤ count_limit
  pub total : total_size entries ≤ total_limit
  pub items : All (λ e. e.size ≤ item_limit) entries

-- With room for the item alone, the loop ends within a round more than there are entries, on a
-- suffix of the entries that leaves room.
abbrev pub Kept : ℕ → List Entry → Type 0
Kept size entries =
    (n : ℕ) × (evict (suc (length entries)) size entries ≡ some (drop n entries))
    × (crowded size (drop n entries) ≡ false)
    × ((m : ℕ) → m < n → crowded size (drop m entries) ≡ true)

below_zero : (P : ℕ → Type 0) (m : ℕ) → m < 0 → P m
below_zero P m h = absurd (omega arith)

-- A round more at the front, when the whole list is crowded.
after_full :
    (size n : ℕ) (e : Entry) (es : List Entry)
    → crowded size (e ∷ es) ≡ true
    → ((m : ℕ) → m < n → crowded size (drop m es) ≡ true)
    → (m : ℕ) → m < suc n
    → crowded size (drop m (e ∷ es)) ≡ true
after_full size n e es full least zero h = full
after_full size n e es full least (suc m) h = least m (omega arith)

evict_total : (size : ℕ) (entries : List Entry) → size ≤ total_limit → Kept size entries
unfolding evict
evict_total size [] h = (0, ground arith, ground arith, below_zero _)
evict_total size (e ∷ es) h = elim (Bool-cases (crowded size (e ∷ es))) [
  | inl full ↦
      let (n, ends, room, least) = evict_total size es h in
      (suc n, rw full ends, room, after_full size n e es full least)
  | inr free ↦ (0, rw free refl, free, below_zero _)
]

All-drop : (P : Entry → Type 0) (n : ℕ) (xs : List Entry) → All P xs → All P (drop n xs)
All-drop P zero xs h = h
All-drop P (suc n) [] h = h
All-drop P (suc n) (x ∷ xs) h = All-drop P n xs h.1

IsBounded-push :
    (entry : Entry) (kept : List Entry)
    → entry.size ≤ item_limit
    → crowded entry.size kept ≡ false
    → All (λ e. e.size ≤ item_limit) kept
    → IsBounded (kept ++ entry ∷ [])
IsBounded-push entry kept fits room items = record {
  count = ground (arith, length-append kept (entry ∷ []));
  total = ground (arith, sum_by-append (λ e. e.size) kept (entry ∷ []));
  items = All-append (λ e. e.size ≤ item_limit) kept (entry ∷ []) items (fits, tt);
}

-- Publishing an entry of at most 16 MiB into a store within its limits always ends. It drops the
-- `n` oldest entries and puts the new one behind the rest, the result is within the limits again,
-- and with any fewer entries dropped there was no room for it.
pub publish_total :
    (entry : Entry) (entries : List Entry)
    → entry.size ≤ item_limit
    → IsBounded entries
    → (n : ℕ) × (publish entry entries ≡ some (drop n entries ++ entry ∷ []))
      × IsBounded (drop n entries ++ entry ∷ [])
      × ((m : ℕ) → m < n → crowded entry.size (drop m entries) ≡ true)
unfolding publish
publish_total entry entries fits bounded =
    let (n, ends, room, least) = evict_total entry.size entries (omega arith) in
    (
      n,
      rw (ends, publish) refl,
      IsBounded-push entry (drop n entries) fits room
          (All-drop (λ e. e.size ≤ item_limit) n entries bounded.items),
      least,
    )
