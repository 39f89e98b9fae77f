-- ===== src/Broker/Catalogue/Pages.antt =====
-- The catalogue that the pages make (native/src/broker.rs, `tools`).
use mathlib.Core.Option.{none}
use repl_mcp.Json.{Value, get_str}
use repl_mcp.Base.{
  Bool, List, String, ℕ, retain, ◌++◌, ◌∷◌, ◌≡◌, Option, [], Result, arith, refl, string_eq, ok,
  sum_by, ◌≤◌, inl, inr, Bool-cases, some, ltb, subst, sym, append-nil, ok-chain, ◌∙◌, ap,
  append_assoc, suc, length, Option-cases, zero, ok_or, refuse_if,
}
use repl_mcp.Broker.Transports.{has_key, Fault, bad_page, too_many_tools}
use repl_mcp.Broker.Catalogue.{
  Listing, catalogue_bytes, add_page, is_allowed, list_pages, read_page, tools_limit, page_of,
  list_tools, pages_limit, no_tools,
}
use repl_mcp.Config.Normal.{or_else}
use repl_mcp.Broker.Catalogue.Gathered.{IsListing, names_of, AreDistinct, add_page-IsListing}

same_read : (a b : Value × Listing) → ◌≡◌ {A = Result Fault (Value × Listing)} (ok a) (ok b) → a ≡ b
same_read a b h = cc

retain-append :
    {A : Type 0} (p : A → Bool) (xs ys : List A) → retain p (xs ++ ys) ≡ retain p xs ++ retain p ys
retain-append p [] ys = refl
retain-append p (x ∷ xs) ys = ground (arith, retain-append p xs ys)

module _ (size : Value → ℕ) (request : ℕ → Option String → Result Fault Value) where
  -- The answers to requests that follow the cursors, from the first to one without a cursor.
  abbrev pub Answers : ℕ → Option String → List Value → Type 0
  Answers n cursor [] = ⊥
  Answers n cursor (r ∷ []) = (request n cursor ≡ ok r) × (get_str "nextCursor" r ≡ none)
  Answers n cursor (r ∷ q ∷ rs) =
      (request n cursor ≡ ok r)
      × ((c : String) × (get_str "nextCursor" r ≡ some c) × Answers (suc n) (some c) (q ∷ rs))

  Answers-cons :
      (n : ℕ) (cursor : Option String) (r : Value) (c : String) (rs : List Value)
      → request n cursor ≡ ok r
      → get_str "nextCursor" r ≡ some c
      → Answers (suc n) (some c) rs
      → Answers n cursor (r ∷ rs)
  Answers-cons n cursor r c [] a e rest = absurd rest
  Answers-cons n cursor r c (q ∷ rs) a e rest = (a, (c, e, rest))

  -- The tools of their pages, in order.
  unfoldable pub all_tools : List Value → List Value
  all_tools [] = []
  all_tools (r ∷ rs) = or_else (page_of r) [] ++ all_tools rs

  abbrev pub IsBounded : List Value → Type 0
  IsBounded tools =
      (length tools ≤ tools_limit)
      × (sum_by size tools ≤ catalogue_bytes)
      × AreDistinct (names_of tools)

  -- What `read_page` makes, from what its steps gave.
  abbrev Read : Option (List String) → ℕ → Option String → Listing → Value → Listing → Type 0
  Read allow n cursor l r l' =
      IsListing size request l'
      × (request n cursor ≡ ok r)
      × (l'.tools ≡ l.tools ++ retain (is_allowed allow) (or_else (page_of r) []))
      × (length l'.tools ≤ tools_limit)

  page-Read :
      (allow : Option (List String)) (n : ℕ) (cursor : Option String) (l k l' : Listing)
      (q r : Value) (page : List Value)
      → IsListing size request k
      → request n cursor ≡ ok q
      → ok_or (page_of q) bad_page ≡ ok page
      → k.tools ≡ l.tools ++ retain (is_allowed allow) page
      → refuse_if (ltb tools_limit (length k.tools)) too_many_tools ≡ ok tt
      → ◌≡◌ {A = Result Fault (Value × Listing)} (ok (q, k)) (ok (r, l'))
      → Read allow n cursor l r l'
  page-Read allow n cursor l k l' q r page i asked found all few same =
      let page_is : or_else (page_of q) [] ≡ page = ground (arith, found) in
      subst (λ (x : Value × Listing). Read allow n cursor l x.0 x.1) (same_read (q, k) (r, l') same)
        (
          i,
          asked,
          all ∙ ap (λ p. l.tools ++ retain (is_allowed allow) p) (sym page_is),
          ground (arith, few),
        )

  read_page_lem :
      (allow : Option (List String)) (n : ℕ) (cursor : Option String) (l l' : Listing) (r : Value)
      → IsListing size request l
      → read_page size request allow n cursor l ≡ ok (r, l')
      → Read allow n cursor l r l'
  unfolding read_page
  read_page_lem allow n cursor l l' r i h =
      let (q, paged, asked) = ok-chain _ (request n cursor) (r, l') h in
      let (page, added, found) = ok-chain _ (ok_or (page_of q) bad_page) (r, l') paged in
      let (k, checked, made) = ok-chain _ (add_page size request allow page l) (r, l') added in
      let (u, last, few) =
        ok-chain _ (refuse_if (ltb tools_limit (length k.tools)) too_many_tools) (r, l') checked in
      let (i', all) = add_page-IsListing size request allow page l k i made in
      page-Read allow n cursor l k l' q r page i' asked found all few last

  -- Tools that the answers to at most so many requests make, behind those of the listing.
  abbrev Listed : ℕ → Option (List String) → ℕ → Option String → Listing → List Value → Type 0
  Listed fuel allow n cursor l tools =
      (rs : List Value) × Answers n cursor rs
      × (length rs ≤ fuel)
      × (tools ≡ l.tools ++ retain (is_allowed allow) (all_tools rs))
      × IsBounded tools

  last_page :
      (fuel : ℕ) (allow : Option (List String)) (n : ℕ) (cursor : Option String) (l l' : Listing)
      (r : Value)
      → Read allow n cursor l r l'
      → get_str "nextCursor" r ≡ none
      → Listed (suc fuel) allow n cursor l l'.tools
  unfolding all_tools
  last_page fuel allow n cursor l l' r ((b, small, ns, d), asked, made, few) e = (
    r ∷ [],
    (asked, e),
    omega arith,
    rw (append-nil (or_else (page_of r) [])) made,
    (few, ground (arith, b, small), subst AreDistinct ns d),
  )

  next_page :
      (fuel : ℕ) (allow : Option (List String)) (n : ℕ) (cursor : Option String) (l l' : Listing)
      (r : Value) (c : String) (tools : List Value)
      → Read allow n cursor l r l'
      → get_str "nextCursor" r ≡ some c
      → Listed fuel allow (suc n) (some c) l' tools
      → Listed (suc fuel) allow n cursor l tools
  unfolding all_tools
  next_page fuel allow n cursor l l' r c tools (i, asked, made, few) e
        (rs, answers, short, all, bounded) =
      let p = or_else (page_of r) [] in
      (
        r ∷ rs,
        Answers-cons n cursor r c rs asked e answers,
        omega (arith, short),
        all
            ∙ ap (λ ts. ts ++ retain (is_allowed allow) (all_tools rs)) made
            ∙ append_assoc l.tools (retain (is_allowed allow) p)
                (retain (is_allowed allow) (all_tools rs))
            ∙ ap (λ ts. l.tools ++ ts) (sym (retain-append (is_allowed allow) p (all_tools rs))),
        bounded,
      )

  list_pages-Listed :
      (fuel : ℕ) (allow : Option (List String)) (n : ℕ) (cursor : Option String)
      (seen : List String) (l : Listing) (tools : List Value)
      → IsListing size request l
      → list_pages size request fuel allow n cursor seen l ≡ ok tools
      → Listed fuel allow n cursor l tools
  unfolding list_pages
  list_pages-Listed zero allow n cursor seen l tools i h = absurd (ground (arith, h))
  list_pages-Listed (suc fuel) allow n cursor seen l tools i h =
      let ((r, l'), later, first) = ok-chain _ (read_page size request allow n cursor l) tools h in
      let read = read_page_lem allow n cursor l l' r i first in
      elim (Option-cases (get_str "nextCursor" r)) [
        | inl e ↦
            subst (Listed (suc fuel) allow n cursor l) (ground (arith, rw e at later))
              (last_page fuel allow n cursor l l' r read e)
        | inr (c, e) ↦ elim (Bool-cases (has_key seen c)) [
          | inl twice ↦ absurd (ground (arith, rw (e, twice) at later))
          | inr new ↦ next_page fuel allow n cursor l l' r c tools read e (
              list_pages-Listed fuel allow (suc n) (some c) (c ∷ seen) l' tools read.0
                (rw (e, new) at later))
        ]
      ]

  -- A listing that succeeds is complete: there are answers of the peer, at most 128, that follow the
  -- cursors from the first request to an answer without one, and the result is every tool of their pages
  -- that the server's entry allows, in order and none left out. It has at most 10000 tools, of at most
  -- 1 MiB, and no name twice.
  pub list_tools_lem :
      (allow : Option (List String)) (tools : List Value)
      → list_tools size request allow ≡ ok tools
      → (rs : List Value) × Answers 0 none rs
        × (length rs ≤ pages_limit)
        × (tools ≡ retain (is_allowed allow) (all_tools rs))
        × (length tools ≤ tools_limit)
        × (sum_by size tools ≤ catalogue_bytes)
        × AreDistinct (names_of tools)
  unfolding names_of
  list_tools_lem allow tools h =
      let (rs, answers, short, all, (few, small, distinct)) =
        list_pages-Listed pages_limit allow 0 none [] no_tools tools (refl, omega arith, refl, tt)
          h in
      (rs, answers, short, all, few, small, distinct)
