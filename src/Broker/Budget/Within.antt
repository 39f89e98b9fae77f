-- ===== src/Broker/Budget/Within.antt =====
-- The size and the height of a value, beside `bounded_json` (native/src/broker.rs).

use repl_mcp.Base.{
  String, ℕ, ◌≡◌, suc, ◌+◌, ◌≤◌, max, arith, ok, Result-cases, Bool-cases, inl, ltb, inr, ◌||◌,
}
use repl_mcp.Json.{
  Value, object, array, bool, unsigned, number, str, Items, cons, Fields, field, null, nil, end,
}
use repl_mcp.Broker.Budget.{bounded_json, visit, visit_items, visit_fields}

unfoldable mutual
  -- The values in a value, itself among them.
  pub size : Value → ℕ
  size (object fields) = suc (size_fields fields)
  size (array items) = suc (size_items items)
  size null = 1
  size (bool b) = 1
  size (unsigned n) = 1
  size (number n) = 1
  size (str s) = 1

  pub size_items : Items → ℕ
  size_items nil = 0
  size_items (cons v vs) = size v + size_items vs

  pub size_fields : Fields → ℕ
  size_fields end = 0
  size_fields (field key v rest) = size v + size_fields rest

unfoldable mutual
  -- The depth of the deepest value in a value.
  pub height : Value → ℕ
  height (object fields) = height_fields fields
  height (array items) = height_items items
  height null = 0
  height (bool b) = 0
  height (unsigned n) = 0
  height (number n) = 0
  height (str s) = 0

  pub height_items : Items → ℕ
  height_items nil = 0
  height_items (cons v vs) = max (suc (height v)) (height_items vs)

  pub height_fields : Fields → ℕ
  height_fields end = 0
  height_fields (field key v rest) = max (suc (height v)) (height_fields rest)

module _ (byte_len : String → ℕ) (max_depth max_nodes : ℕ) where
  -- The outcome of a walk that began with `n` nodes counted and ended with `m`.
  abbrev Walked : ℕ → ℕ → ℕ → ℕ → Type 0
  Walked n m nodes deepest = (m ≡ n + nodes) × (m ≤ max_nodes) × (deepest ≤ max_depth)

  joined :
      (n k m a b d x y : ℕ)
      → Walked n k a (suc d + x)
      → Walked k m b (d + y)
      → Walked n m (a + b) (d + max (suc x) y)
  joined n k m a b d x y (e, small, low) (e', small', low') = (omega arith, small', omega arith)

  mutual
    unfolding visit size height

    visit_lem :
        (v : Value) (d n m : ℕ)
        → visit byte_len max_depth max_nodes v d n ≡ ok m
        → Walked n m (size v) (d + height v)
    visit_lem (object fields) d n m h =
        elim (Bool-cases (ltb max_depth d || ltb max_nodes (suc n))) [
          | inl over ↦ ground (arith, over, h)
          | inr fits ↦ ground (
            arith,
            visit_fields_lem fields d (suc n) m (ground (arith, fits)) (ground (arith, fits))
                (ground (arith, fits, h)),
          )
        ]
    visit_lem (array items) d n m h = elim (Bool-cases (ltb max_depth d || ltb max_nodes (suc n))) [
      | inl over ↦ ground (arith, over, h)
      | inr fits ↦ ground (
        arith,
        visit_items_lem items d (suc n) m (ground (arith, fits)) (ground (arith, fits))
            (ground (arith, fits, h)),
      )
    ]
    visit_lem null d n m h = ground arith
    visit_lem (bool b) d n m h = ground arith
    visit_lem (unsigned k) d n m h = ground arith
    visit_lem (number k) d n m h = ground arith
    visit_lem (str s) d n m h = ground arith

    visit_items_lem :
        (vs : Items) (d n m : ℕ)
        → n ≤ max_nodes
        → d ≤ max_depth
        → visit_items byte_len max_depth max_nodes vs (suc d) n ≡ ok m
        → Walked n m (size_items vs) (d + height_items vs)
    visit_items_lem nil d n m small low h = ground arith
    visit_items_lem (cons v vs) d n m small low h =
        elim (Result-cases (visit byte_len max_depth max_nodes v (suc d) n)) [
          | inl (k, e) ↦
              joined n k m (size v) (size_items vs) d (height v) (height_items vs)
                (visit_lem v (suc d) n k e)
                (visit_items_lem vs d k m (visit_lem v (suc d) n k e).1 low (ground (arith, e, h)))
          | inr (x, e) ↦ ground (arith, e, h)
        ]

    visit_fields_lem :
        (vs : Fields) (d n m : ℕ)
        → n ≤ max_nodes
        → d ≤ max_depth
        → visit_fields byte_len max_depth max_nodes vs (suc d) n ≡ ok m
        → Walked n m (size_fields vs) (d + height_fields vs)
    visit_fields_lem end d n m small low h = ground arith
    visit_fields_lem (field key v vs) d n m small low h =
        elim (Result-cases (visit byte_len max_depth max_nodes v (suc d) n)) [
          | inl (k, e) ↦
              joined n k m (size v) (size_fields vs) d (height v) (height_fields vs)
                (visit_lem v (suc d) n k e)
                (visit_fields_lem vs d k m (visit_lem v (suc d) n k e).1 low (ground (arith, e, h)))
          | inr (x, e) ↦ ground (arith, e, h)
        ]

  -- A value that bounded_json lets through is within the byte budget, and has no more values and no
  -- deeper ones than the budgets allow.
  pub bounded_json_lem :
      (encoded : Value → ℕ) (max_bytes : ℕ) (v : Value)
      → bounded_json byte_len max_depth max_nodes encoded max_bytes v ≡ ok tt
      → (encoded v ≤ max_bytes) × (size v ≤ max_nodes) × (height v ≤ max_depth)
  unfolding bounded_json
  bounded_json_lem encoded max_bytes v h =
      elim (Result-cases (visit byte_len max_depth max_nodes v 0 0)) [
        | inl (m, e) ↦ ground (arith, visit_lem v 0 0 m e, e, h)
        | inr (x, e) ↦ ground (arith, e, h)
      ]
