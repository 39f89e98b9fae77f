-- ===== src/Broker/Catalogue.antt =====
-- `tools` of native/src/broker.rs: the pages of a server's catalogue of tools, and their cache.
pub mod Gathered
pub mod Pages
pub mod Cached
use repl_mcp.Json.{Value, Items, and_then, array, cons, nil, get_str}
use repl_mcp.Base.{
  ℕ, List, Option, [], String, Bool, ◌∷◌, none, if◌then◌else◌, ltb, some, true, Result, leb, ◌-◌,
  false, length, ◌>>=◌, ok, err, ◌>>◌, refuse_if, ok_or, ◌+◌, ◌++◌, suc, string_eq, zero,
}
use repl_mcp.Base.Map.{Map, insert, remove, get}
use repl_mcp.Broker.Transports.{
  Fault, Broker, has_key, too_many_pages, too_large, bad_page, duplicate, too_many_tools, repeated,
}

abbrev pub catalogue_bytes : ℕ
catalogue_bytes = 1048576

abbrev pub tools_limit : ℕ
tools_limit = 10000

abbrev pub pages_limit : ℕ
pages_limit = 128

abbrev pub to_list : Items → List Value
to_list nil = []
to_list (cons v vs) = v ∷ to_list vs

-- Value::as_array
abbrev pub as_array : Value → Option (List Value)
as_array (array vs) = some (to_list vs)
as_array _ = none

-- What the loop gathers.
pub record Listing : Type 0 where
  pub tools : List Value
  pub bytes : ℕ
  pub names : List String

abbrev pub no_tools : Listing
no_tools = record { tools = []; bytes = 0; names = [] }

-- cfg.allowed_tools.as_ref().is_none_or(..)
abbrev pub is_allowed : Option (List String) → Value → Bool
is_allowed none tool = true
is_allowed (some allow) tool = elim (get_str "name" tool) [
  | none ↦ false
  | some n ↦ has_key allow n
]

abbrev pub page_of : Value → Option (List Value)
page_of result = and_then (repl_mcp.Json.get "tools" result) as_array

-- serde_json's encoded length is a parameter, and so is the peer: its answer to the n-th request.
module _ (size : Value → ℕ) (request : ℕ → Option String → Result Fault Value) where
  abbrev pub add_named : Value → Option String → Listing → Result Fault Listing
  add_named tool none l =
      ok (record { tools = l.tools ++ tool ∷ []; bytes = l.bytes + size tool; names = l.names })
  add_named tool (some n) l =
      if has_key l.names n
      then err duplicate
      else ok (record {
        tools = l.tools ++ tool ∷ [];
        bytes = l.bytes + size tool;
        names = l.names ++ n ∷ [];
      })

  -- The body of the loop over a page.
  unfoldable pub add_tool : Value → Listing → Result Fault Listing
  add_tool tool l =
      refuse_if (ltb catalogue_bytes (l.bytes + size tool)) too_large
      >> add_named tool (get_str "name" tool) l

  unfoldable pub add_page : Option (List String) → List Value → Listing → Result Fault Listing
  unfolding add_tool
  add_page allow [] l = ok l
  add_page allow (tool ∷ page) l =
      let skipped = add_page allow page l in
      let added = add_tool tool l >>= add_page allow page in
      if is_allowed allow tool then added else skipped

  -- One round of the loop: the answer, and the listing with its page.
  unfoldable pub read_page :
      Option (List String) → ℕ → Option String → Listing → Result Fault (Value × Listing)
  unfolding add_page
  read_page allow n cursor l = do
    result ← request n cursor
    page ← ok_or (page_of result) bad_page
    l' ← add_page allow page l
    refuse_if (ltb tools_limit (length l'.tools)) too_many_tools
    ok (result, l')

  -- The loop over the pages, with the cursors that were seen.
  unfoldable pub list_pages :
      ℕ
      → Option (List String)
      → ℕ
      → Option String
      → List String
      → Listing
      → Result Fault (List Value)
  unfolding read_page
  list_pages zero allow n cursor seen l = err too_many_pages
  list_pages (suc fuel) allow n cursor seen l = read_page allow n cursor l >>= λ (result, l').
      elim (get_str "nextCursor" result) [
        | none ↦ ok l'.tools
        | some c ↦
            let rest = list_pages fuel allow (suc n) (some c) (c ∷ seen) l' in
            if has_key seen c then err repeated else rest
      ]

  abbrev pub list_tools : Option (List String) → Result Fault (List Value)
  list_tools allow = list_pages pages_limit allow 0 none [] no_tools

-- catalogue.iter().min_by_key(..): the first of the oldest.
unfoldable pub oldest : Map String (ℕ × List Value) → Option (String × ℕ)
oldest [] = none
oldest ((key, (at, tools)) ∷ rest) = elim (oldest rest) [
  | none ↦ some (key, at)
  | some (other, at') ↦ if ltb at' at then some (other, at') else some (key, at)
]

-- Room in the cache of catalogues.
unfoldable pub evict_oldest : Map String (ℕ × List Value) → Map String (ℕ × List Value)
unfolding oldest
evict_oldest cache =
    if leb 32 (length cache)
    then elim (oldest cache) [ none ↦ cache | some (key, at) ↦ remove key cache ]
    else cache

abbrev pub is_fresh : ℕ → ℕ → Bool
is_fresh now at = ltb (now - at) 15000

abbrev pub store_tools :
    ℕ → String → Result Fault (List Value) → Broker → Result Fault (List Value) × Broker
store_tools now key (err e) b = (err e, b)
store_tools now key (ok tools) b =
    (ok tools, record b { catalogue = insert key (now, tools) (evict_oldest b.catalogue) })

-- `tools` with what the pages give, for a cached catalogue or none.
abbrev pub cached_or :
    ℕ
    → String
    → Result Fault (List Value)
    → Broker
    → Option (ℕ × List Value)
    → Result Fault (List Value) × Broker
cached_or now key listed b none = store_tools now key listed b
cached_or now key listed b (some (at, tools)) =
    if is_fresh now at then (ok tools, b) else store_tools now key listed b

unfoldable pub tools :
    ℕ → String → Result Fault (List Value) → Broker → Result Fault (List Value) × Broker
unfolding evict_oldest
tools now key listed b = cached_or now key listed b (get key b.catalogue)
