-- ===== src/Broker/Catalogue/Cached.antt =====
-- The cache of catalogues (native/src/broker.rs, `tools`).
use mathlib.Core.Option.{none}
use repl_mcp.Broker.Catalogue.{evict_oldest, oldest, tools, cached_or, store_tools, is_fresh}
use repl_mcp.Base.{
  String, ℕ, List, ◌≡◌, ◌∷◌, length, ◌≢◌, some, ◌≤◌, ◌<◌, arith, true, Option-cases, inl, string_eq,
  inr, [], Result, Option, ◌+◌, ok, err, Bool, not, refl, ap,
}
use repl_mcp.Base.Map.{Map, contains_key, length-remove-lt, get, length-insert-le, get-insert}
use repl_mcp.Json.{Value}
use repl_mcp.Broker.Transports.{Fault, Broker}

oldest-contains_key :
    (m : Map String (ℕ × List Value)) (key : String) (at : ℕ)
    → oldest m ≡ some (key, at)
    → contains_key key m ≡ true
unfolding oldest
oldest-contains_key [] key at h = cc
oldest-contains_key ((k, (t, tools)) ∷ rest) key at h = elim (Option-cases (oldest rest)) [
  | inl e ↦ ground (arith, h, e, string_eq.test_iff k key)
  | inr ((other, t'), e) ↦
      ground (arith, h, e, string_eq.test_iff k key, oldest-contains_key rest other t')
]

oldest-some :
    (k : String) (v : ℕ × List Value) (m : Map String (ℕ × List Value)) → oldest ((k, v) ∷ m) ≢ none
unfolding oldest
oldest-some k v m h = ground (arith, h)

evict_oldest-length :
    (m : Map String (ℕ × List Value)) → length m ≤ 32 → length (evict_oldest m) < 32
unfolding evict_oldest
evict_oldest-length [] small = omega arith
evict_oldest-length ((k, v) ∷ m) small = elim (Option-cases (oldest ((k, v) ∷ m))) [
  | inl e ↦ absurd (oldest-some k v m e)
  | inr ((key, at), e) ↦ ground (
    arith,
    e,
    small,
    length-remove-lt key ((k, v) ∷ m) (oldest-contains_key ((k, v) ∷ m) key at e),
  )
]

cached_or-length :
    (now : ℕ) (key : String) (listed : Result Fault (List Value)) (b : Broker)
    (hit : Option (ℕ × List Value))
    → length b.catalogue ≤ 32
    → length (cached_or now key listed b hit).1.catalogue ≤ 32
cached_or-length now key (err e) b none small = small
cached_or-length now key (ok ts) b none small = omega (
  arith,
  evict_oldest-length b.catalogue small,
  length-insert-le key (now, ts) (evict_oldest b.catalogue),
)
cached_or-length now key (err e) b (some (at, old)) small = ground (arith, small)
cached_or-length now key (ok ts) b (some (at, old)) small = ground (
  arith,
  small,
  evict_oldest-length b.catalogue small,
  length-insert-le key (now, ts) (evict_oldest b.catalogue),
)

-- No catalogue, or one of at least 15 seconds ago.
abbrev pub is_due : ℕ → Option (ℕ × List Value) → Bool
is_due now none = true
is_due now (some (at, old)) = not (is_fresh now at)

cached_or_due :
    (now : ℕ) (key : String) (listed : Result Fault (List Value)) (b : Broker)
    (hit : Option (ℕ × List Value))
    → is_due now hit ≡ true
    → cached_or now key listed b hit ≡ store_tools now key listed b
cached_or_due now key listed b none due = refl
cached_or_due now key listed b (some (at, old)) due = ground (arith, due)

-- When a server has no catalogue in the cache or one of 15 seconds ago, its tools are those that the
-- peer lists, and for 15 seconds they are given again, without a change of the broker and whatever the
-- peer would list by then. A cache of at most 32 catalogues stays one.
pub tools_lem :
    (now later : ℕ) (key : String) (new : List Value) (listed : Result Fault (List Value))
    (b : Broker)
    → length b.catalogue ≤ 32
    → is_due now (get key b.catalogue) ≡ true
    → later < now + 15000
    → let b' = (tools now key (ok new) b).1 in
      ((tools now key (ok new) b).0 ≡ ok new)
      × (tools later key listed b' ≡ (ok new, b'))
      × (length b'.catalogue ≤ 32)
unfolding tools
tools_lem now later key new listed b small due soon =
    let stored = cached_or_due now key (ok new) b (get key b.catalogue) due in
    let found = get-insert key key (now, new) (evict_oldest b.catalogue) in
    (
      ap (λ (r : Result Fault (List Value) × Broker). r.0) stored,
      ground (arith, stored, found, string_eq.test_iff key key, soon),
      cached_or-length now key (ok new) b (get key b.catalogue) small,
    )
