-- ===== src/Artifacts/Retention.antt =====
-- Publication of an entry and the eviction before it (native/src/artifacts.rs, `create` and `upload`).
use repl_mcp.Base.{
  ℕ, zero, suc, ◌+◌, ◌||◌, Bool, List, [], ◌∷◌, ◌++◌, Option, none, some, length, sum_by, ltb, leb,
  if◌then◌else◌,
}
use repl_mcp.Artifacts.State.{Entry, count_limit, total_limit}

abbrev pub total_size : List Entry → ℕ
total_size = sum_by (λ e. e.size)

-- The test of the eviction loop.
abbrev pub crowded : ℕ → List Entry → Bool
crowded size entries =
    leb count_limit (length entries) || ltb total_limit (total_size entries + size)

-- VecDeque::pop_front
abbrev pub pop_front : List Entry → List Entry
pop_front [] = []
pop_front (e ∷ es) = es

-- The eviction loop, with fuel; `none` is a loop that has not ended.
unfoldable pub evict : ℕ → ℕ → List Entry → Option (List Entry)
evict zero size entries = none
evict (suc fuel) size entries =
    let rest = evict fuel size (pop_front entries) in
    if crowded size entries then rest else some entries

-- Evict, then push_back. A round removes an entry, so one round more than there are entries is enough.
unfoldable pub publish : Entry → List Entry → Option (List Entry)
unfolding evict
publish entry entries = elim (evict (suc (length entries)) entry.size entries) [
  | none ↦ none
  | some kept ↦ some (kept ++ entry ∷ [])
]
