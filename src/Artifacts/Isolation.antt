-- ===== src/Artifacts/Isolation.antt =====
-- One owner's operations and another owner's artifacts.
use repl_mcp.Base.{
  String, Bool, ◌≢◌, List, ◌≡◌, true, ok, false, find, err, retain, arith, string_eq, inl,
  find_sound, ◌∷◌, not, none, ◌⊎◌, inr, Option-cases, [], ◌==◌, refl,
}
use repl_mcp.Artifacts.State.{Entry, Store, no_artifact}
use repl_mcp.Artifacts.Range.{lookup, is_entry, delete, remove_first}
use repl_mcp.Artifacts.Registry.{remove_owner}
use repl_mcp.Json.{Value, get_str}

-- What a lookup returns has the id and the owner that were asked for.
pub lookup-owner :
    (owner id : String) (s : Store) (e : Entry)
    → lookup owner id s ≡ ok e
    → (e.owner ≡ owner) × (e.id ≡ id)
unfolding lookup
lookup-owner owner id s e h = ground (
  arith,
  find_sound (is_entry owner id) s.entries e,
  string_eq.test_iff e.id id,
  string_eq.test_iff e.owner owner,
)

find-remove_first :
    (p q : Entry → Bool) (xs : List Entry)
    → ((e : Entry) → p e ≡ true → q e ≡ false)
    → find p (remove_first q xs) ≡ find p xs
find-remove_first p q [] apart = refl
find-remove_first p q (x ∷ xs) apart = ground (arith, apart x, find-remove_first p q xs apart)

find-retain :
    (p q : Entry → Bool) (xs : List Entry)
    → ((e : Entry) → p e ≡ true → q e ≡ true)
    → find p (retain q xs) ≡ find p xs
find-retain p q [] within = refl
find-retain p q (x ∷ xs) within = ground (arith, within x, find-retain p q xs within)

other_owner :
    (a b id id' : String) → a ≢ b → (e : Entry) → is_entry b id e ≡ true → is_entry a id' e ≡ false
other_owner a b id id' apart e h =
    ground (arith, string_eq.test_iff e.owner a, string_eq.test_iff e.owner b)

find-retain-none :
    (p q : Entry → Bool) (xs : List Entry)
    → ((e : Entry) → p e ≡ true → q e ≡ false)
    → find p (retain q xs) ≡ none
find-retain-none p q [] apart = refl
find-retain-none p q (x ∷ xs) apart = ground (arith, apart x, find-retain-none p q xs apart)

-- A deletion leaves the entries, or takes one that is its owner's.
entries-delete :
    (a : String) (params : Value) (s : Store)
    → ((delete a params s).1.entries ≡ s.entries)
      ⊎ ((id : String) × ((delete a params s).1.entries ≡ remove_first (is_entry a id) s.entries))
unfolding delete
entries-delete a params s = elim (Option-cases (get_str "id" params)) [
  | inl e ↦ inl (ground arith)
  | inr (id, e) ↦ elim (Option-cases (find (is_entry a id) s.entries)) [
    | inl f ↦ inl (ground arith)
    | inr (x, f) ↦ inr (id, ground arith)
  ]
]

lookup-delete :
    (a b id : String) (params : Value) (s : Store)
    → a ≢ b
    → lookup b id (delete a params s).1 ≡ lookup b id s
unfolding lookup
lookup-delete a b id params s apart = elim (entries-delete a params s) [
  | inl e ↦ rw e refl
  | inr (id', e) ↦ rw (
    e,
    find-remove_first (is_entry b id) (is_entry a id') s.entries (other_owner a b id id' apart),
  )
]

-- Whatever one owner deletes, and also when it is removed with all that it has, every other owner
-- finds under each identifier what it found before; and an owner that is removed finds nothing.
pub owner_isolation :
    (a b id : String) (params : Value) (s : Store)
    → a ≢ b
    → (lookup b id (delete a params s).1 ≡ lookup b id s)
      × (lookup b id (remove_owner a s).1 ≡ lookup b id s)
      × (lookup a id (remove_owner a s).1 ≡ err no_artifact)
unfolding lookup remove_owner
owner_isolation a b id params s apart = (
  lookup-delete a b id params s apart,
  rw (
      find-retain (is_entry b id) (λ e. not (e.owner == a)) s.entries
        (λ e h. ground (arith, string_eq.test_iff e.owner a, string_eq.test_iff e.owner b))),
  rw (find-retain-none (is_entry a id) (λ e. not (e.owner == a)) s.entries (λ e h. ground arith)),
)
