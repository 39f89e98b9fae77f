-- ===== src/Base/Map.antt =====
-- HashMap and BTreeMap as association lists: the code looks keys up, counts entries, and visits them
-- in an order that no theorem depends on.
use Prim.Native.Nat.{◌+◌, ◌≤◌}
use mathlib.Core.Path.{◌≡◌, refl, subst}
use mathlib.Core.Bool.{Bool, true, false}
use mathlib.Core.List.{List, [], ◌∷◌}
use mathlib.Core.Option.{Option, none, some}
use native.Mathlib.Omega.{arith}
use repl_mcp.Base.Tests.{if◌then◌else◌, Bool-cases}
use mathlib.Core.Logic.{inl, inr}
use repl_mcp.Base.Lists.{length, All}
use repl_mcp.Base.Keys.{Eq, ◌==◌}
use repl_mcp.Base.{◌<◌}

abbrev pub Map : Type 0 → Type 0 → Type 0
Map K V = List (K × V)

module _ {K V : Type 0} ⦃e : Eq K⦄ where
  abbrev pub get : K → Map K V → Option V
  get k [] = none
  get k ((j, v) ∷ m) = if j == k then some v else get k m

  abbrev pub contains_key : K → Map K V → Bool
  contains_key k [] = false
  contains_key k ((j, v) ∷ m) = if j == k then true else contains_key k m

  abbrev pub insert : K → V → Map K V → Map K V
  insert k v [] = (k, v) ∷ []
  insert k v ((j, w) ∷ m) = let rest = insert k v m in if j == k then (k, v) ∷ m else (j, w) ∷ rest

  abbrev pub remove : K → Map K V → Map K V
  remove k [] = []
  remove k ((j, v) ∷ m) = let rest = remove k m in if j == k then rest else (j, v) ∷ rest

module _ {K V : Type 0} ⦃e : Eq K⦄ where
  pub get-insert :
      (k j : K) (v : V) (m : Map K V) → get j (insert k v m) ≡ (if k == j then some v else get j m)
  get-insert k j v [] = refl
  get-insert k j v ((i, w) ∷ m) =
      ground (arith, e.test_iff i k, e.test_iff i j, e.test_iff k j, get-insert k j v m)

  pub get-remove : (k j : K) (m : Map K V) → get j (remove k m) ≡ (if k == j then none else get j m)
  get-remove k j [] = ground arith
  get-remove k j ((i, w) ∷ m) =
      ground (arith, e.test_iff i k, e.test_iff i j, e.test_iff k j, get-remove k j m)

  pub length-insert-le : (k : K) (v : V) (m : Map K V) → length (insert k v m) ≤ length m + 1
  length-insert-le k v [] = omega arith
  length-insert-le k v ((j, w) ∷ m) = ground (arith, length-insert-le k v m)

  pub length-insert_known :
      (k : K) (v : V) (m : Map K V) → contains_key k m ≡ true → length (insert k v m) ≡ length m
  length-insert_known k v [] h = cc
  length-insert_known k v ((j, w) ∷ m) h = ground (arith, length-insert_known k v m)

  pub length-remove-le : (k : K) (m : Map K V) → length (remove k m) ≤ length m
  length-remove-le k [] = omega arith
  length-remove-le k ((j, w) ∷ m) = ground (arith, length-remove-le k m)

  pub contains_key-get : (k : K) (m : Map K V) → contains_key k m ≡ false → get k m ≡ none
  contains_key-get k [] h = refl
  contains_key-get k ((j, w) ∷ m) h = ground (arith, contains_key-get k m)

  -- What holds of all values.
  module _ {κ} (P : V → Type κ) where
    pub All-insert :
        (k : K) (v : V) (m : Map K V) → P v → All (λ e. P e.1) m → All (λ e. P e.1) (insert k v m)
    All-insert k v [] p a = (p, tt)
    All-insert k v ((j, w) ∷ m) p a = elim (Bool-cases (j == k)) [
      | inl here ↦ rw here (p, a.1)
      | inr there ↦ rw there (a.0, All-insert k v m p a.1)
    ]

    pub All-remove : (k : K) (m : Map K V) → All (λ e. P e.1) m → All (λ e. P e.1) (remove k m)
    All-remove k [] a = tt
    All-remove k ((j, w) ∷ m) a = elim (Bool-cases (j == k)) [
      | inl here ↦ rw here (All-remove k m a.1)
      | inr there ↦ rw there (a.0, All-remove k m a.1)
    ]

    pub All-get : (k : K) (v : V) (m : Map K V) → All (λ e. P e.1) m → get k m ≡ some v → P v
    All-get k v [] a h = cc
    All-get k v ((j, w) ∷ m) a h = elim (Bool-cases (j == k)) [
      | inl here ↦ subst P (ground arith) a.0
      | inr there ↦ All-get k v m a.1 (rw there at h)
    ]

module _ {K V : Type 0} ⦃e : Eq K⦄ where
  -- No key stands twice.
  abbrev pub IsDistinct : Map K V → Type 0
  IsDistinct [] = Unit
  IsDistinct ((k, v) ∷ m) = (contains_key k m ≡ false) × IsDistinct m

  contains_key-remove :
      (k j : K) (m : Map K V) → contains_key k m ≡ false → contains_key k (remove j m) ≡ false
  contains_key-remove k j [] h = refl
  contains_key-remove k j ((i, w) ∷ m) h = ground (arith, contains_key-remove k j m, h)

  contains_key-insert :
      (k j : K) (v : V) (m : Map K V)
      → contains_key j (insert k v m) ≡ (if k == j then true else contains_key j m)
  contains_key-insert k j v [] = refl
  contains_key-insert k j v ((i, w) ∷ m) =
      ground (arith, e.test_iff i k, e.test_iff i j, e.test_iff k j, contains_key-insert k j v m)

  pub IsDistinct-remove : (k : K) (m : Map K V) → IsDistinct m → IsDistinct (remove k m)
  IsDistinct-remove k [] d = tt
  IsDistinct-remove k ((j, w) ∷ m) d = elim (Bool-cases (j == k)) [
    | inl here ↦ rw here (IsDistinct-remove k m d.1)
    | inr there ↦ rw there (contains_key-remove j k m d.0, IsDistinct-remove k m d.1)
  ]

  pub IsDistinct-insert : (k : K) (v : V) (m : Map K V) → IsDistinct m → IsDistinct (insert k v m)
  IsDistinct-insert k v [] d = (refl, tt)
  IsDistinct-insert k v ((j, w) ∷ m) d = elim (Bool-cases (j == k)) [
    | inl here ↦ rw here (ground (arith, d, e.test_iff j k), d.1)
    | inr there ↦ rw there (
      ground (arith, contains_key-insert k j v m, d, there, e.test_iff j k, e.test_iff k j),
      IsDistinct-insert k v m d.1,
    )
  ]

  -- A map without the key, and with it.
  pub length-remove-lt :
      (k : K) (m : Map K V) → contains_key k m ≡ true → length (remove k m) < length m
  length-remove-lt k [] h = cc
  length-remove-lt k ((j, w) ∷ m) h = ground (arith, h, length-remove-lt k m, length-remove-le k m)

  pub contains_key-insert_self :
      (k : K) (v : V) (m : Map K V) → contains_key k (insert k v m) ≡ true
  contains_key-insert_self k v m = ground (arith, contains_key-insert k k v m, e.test_iff k k)
