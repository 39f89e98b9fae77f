-- ===== src/Broker/Catalogue/Gathered.antt =====
-- The listing that the pages are gathered in (native/src/broker.rs, `tools`).
use mathlib.Core.Option.{none}
use repl_mcp.Json.{Value, get_str}
use repl_mcp.Base.{
  List, String, ℕ, retain, ◌++◌, ◌∷◌, ◌≡◌, Option, false, [], Result, arith, ◌||◌, refl, string_eq,
  ◌==◌, ok, sum_by, ◌≤◌, inl, inr, Bool-cases, some, ◌+◌, ltb, subst, sym, sum_by-append,
  append-nil, ok-chain, ◌∙◌, ap, append_assoc,
}
use repl_mcp.Broker.Transports.{has_key, Fault}
use repl_mcp.Broker.Catalogue.{add_tool, Listing, catalogue_bytes, add_page, is_allowed, add_named}

-- The names of tools, of those that have one.
unfoldable pub names_of : List Value → List String
names_of [] = []
names_of (t ∷ ts) = elim (get_str "name" t) [ none ↦ names_of ts | some n ↦ n ∷ names_of ts ]

-- No name twice.
abbrev pub AreDistinct : List String → Type 0
AreDistinct [] = Unit
AreDistinct (n ∷ ns) = (has_key ns n ≡ false) × AreDistinct ns

names_of-append :
    (ts : List Value) (t : Value) → names_of (ts ++ t ∷ []) ≡ names_of ts ++ names_of (t ∷ [])
unfolding names_of
names_of-append [] t = refl
names_of-append (u ∷ ts) t = ground (arith, names_of-append ts t)

has_key-append :
    (ns : List String) (n k : String) → has_key (ns ++ n ∷ []) k ≡ (has_key ns k || n == k)
has_key-append [] n k = ground arith
has_key-append (m ∷ ns) n k = ground (arith, has_key-append ns n k)

AreDistinct-append :
    (ns : List String) (n : String)
    → AreDistinct ns
    → has_key ns n ≡ false
    → AreDistinct (ns ++ n ∷ [])
AreDistinct-append [] n d h = (refl, tt)
AreDistinct-append (m ∷ ns) n d h = (
  ground (arith, h, d, has_key-append ns n m, string_eq.test_iff m n, string_eq.test_iff n m),
  AreDistinct-append ns n d.1 (ground (arith, h)),
)

same_listing : (a b : Listing) → ◌≡◌ {A = Result Fault Listing} (ok a) (ok b) → a ≡ b
same_listing a b h = cc

module _ (size : Value → ℕ) (request : ℕ → Option String → Result Fault Value) where
  -- The listing's count of bytes and its names are those of its tools, within the limit.
  abbrev pub IsListing : Listing → Type 0
  IsListing l =
      (l.bytes ≡ sum_by size l.tools)
      × (l.bytes ≤ catalogue_bytes)
      × (l.names ≡ names_of l.tools)
      × AreDistinct l.names

  add_named-IsListing :
      (t : Value) (l l' : Listing) (name : Option String)
      → IsListing l
      → l.bytes + size t ≤ catalogue_bytes
      → get_str "name" t ≡ name
      → add_named size request t name l ≡ ok l'
      → IsListing l' × (l'.tools ≡ l.tools ++ t ∷ [])
  unfolding names_of
  add_named-IsListing t l l' none (b, small, ns, d) room e h =
      subst (λ x. IsListing x × (x.tools ≡ l.tools ++ t ∷ [])) (same_listing _ l' h)
        (
          (
            ground (arith, b, sum_by-append size l.tools (t ∷ [])),
            room,
            ground (arith, ns, names_of-append l.tools t, e, append-nil (names_of l.tools)),
            d,
          ),
          refl,
        )
  add_named-IsListing t l l' (some n) (b, small, ns, d) room e h =
      elim (Bool-cases (has_key l.names n)) [
        | inl twice ↦ absurd (ground (arith, h, twice))
        | inr new ↦
            subst (λ x. IsListing x × (x.tools ≡ l.tools ++ t ∷ [])) (ground (arith, h, new))
              (
                (
                  ground (arith, b, sum_by-append size l.tools (t ∷ [])),
                  room,
                  ground (arith, ns, names_of-append l.tools t, e),
                  AreDistinct-append l.names n d new,
                ),
                refl,
              )
      ]

  add_tool-IsListing :
      (t : Value) (l l' : Listing)
      → IsListing l
      → add_tool size request t l ≡ ok l'
      → IsListing l' × (l'.tools ≡ l.tools ++ t ∷ [])
  unfolding add_tool
  add_tool-IsListing t l l' i h = elim (Bool-cases (ltb catalogue_bytes (l.bytes + size t))) [
    | inl over ↦ absurd (ground (arith, h, over))
    | inr room ↦
        add_named-IsListing t l l' (get_str "name" t) i (ground (arith, room)) refl (rw room at h)
  ]

  pub add_page-IsListing :
      (allow : Option (List String)) (page : List Value) (l l' : Listing)
      → IsListing l
      → add_page size request allow page l ≡ ok l'
      → IsListing l' × (l'.tools ≡ l.tools ++ retain (is_allowed allow) page)
  unfolding add_page
  add_page-IsListing allow [] l l' i h =
      subst (λ x. IsListing x × (x.tools ≡ l.tools ++ [])) (same_listing l l' h)
        (i, sym (append-nil l.tools))
  add_page-IsListing allow (t ∷ page) l l' i h = elim (Bool-cases (is_allowed allow t)) [
    | inl passes ↦
        let (mid, later, first) = ok-chain _ (add_tool size request t l) l' (rw passes at h) in
        let (i', made) = add_tool-IsListing t l mid i first in
        let (i'', all) = add_page-IsListing allow page mid l' i' later in
        (
          i'',
          rw passes (
              all
              ∙ ap (λ ts. ts ++ retain (is_allowed allow) page) made
              ∙ append_assoc l.tools (t ∷ []) (retain (is_allowed allow) page)),
        )
    | inr fails ↦
        let (i', all) = add_page-IsListing allow page l l' i (rw fails at h) in (i', rw fails all)
  ]
