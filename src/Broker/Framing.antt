-- ===== src/Broker/Framing.antt =====
-- The limits on what a peer sends in native/src/broker.rs: BoundedRead, the scan of an event stream in
-- BoundedHttpClient, and bounded_body.
pub mod Chunks
pub mod Stream
use repl_mcp.Base.{
  true, Bytes, List, ℕ, if◌then◌else◌, false, Bool, Option, ◌∷◌, Result, ◌==◌, some, suc, ltb, ok,
  ◌&&◌, ◌||◌, [], nat_eq, err, none, ◌++◌, length, ◌+◌,
}

abbrev pub frame_limit : ℕ
frame_limit = 1048576

-- poll_read over the bytes that were read: the length of the line so far, or an error.
unfoldable pub poll_read : Bytes → ℕ → Option ℕ
poll_read [] n = some n
poll_read (b ∷ bs) n =
    let fresh = poll_read bs 0 in
    let longer = poll_read bs (suc n) in
    if b == 10 then fresh else if ltb frame_limit (suc n) then none else longer

-- One read after another, until an error.
unfoldable pub reads : List Bytes → ℕ → Option ℕ
unfolding poll_read
reads [] n = some n
reads (chunk ∷ chunks) n = elim (poll_read chunk n) [ none ↦ none | some m ↦ reads chunks m ]

-- The state of the scan: the bytes of the event, and whether the line is empty and a CR came last.
pub record Scan : Type 0 where
  pub size : ℕ
  pub at_start : Bool
  pub after_cr : Bool

abbrev pub new_scan : Scan
new_scan = record { size = 0; at_start = true; after_cr = false }

abbrev pub is_break : ℕ → Bool
is_break b = b == 13 || b == 10

-- A byte that counts, before the comparison with the limit.
abbrev pub count_byte : ℕ → Scan → Scan
count_byte b s =
    if is_break b
    then record { size = if s.at_start then 0 else suc s.size; at_start = true; after_cr = b == 13 }
    else record { size = suc s.size; at_start = false; after_cr = false }

-- The loop over the bytes of a chunk; `none` is an event over the limit.
unfoldable pub scan_chunk : ℕ → Bytes → Scan → Option Scan
scan_chunk max [] s = some s
scan_chunk max (b ∷ bs) s =
    let skipped = scan_chunk max bs (record s { after_cr = false }) in
    let counted = scan_chunk max bs (count_byte b s) in
    if s.after_cr && b == 10
    then skipped
    else if ltb max (count_byte b s).size
    then none
    else counted

-- The chunks that are passed on; after one that is refused, the stream ends.
unfoldable pub scan_stream : ℕ → List Bytes → Scan → List Bytes × Bool
unfolding scan_chunk
scan_stream max [] s = ([], true)
scan_stream max (chunk ∷ chunks) s = elim (scan_chunk max chunk s) [
  | none ↦ ([], false)
  | some s' ↦ let (passed, whole) = scan_stream max chunks s' in (chunk ∷ passed, whole)
]

pub data BodyError : Type 0 where
  exceeds failed : BodyError

-- The loop over the chunks, of which a failed one is `none`.
unfoldable pub collect_body : ℕ → List (Option Bytes) → Bytes → Result BodyError Bytes
collect_body max [] body = ok body
collect_body max (none ∷ chunks) body = err failed
collect_body max (some chunk ∷ chunks) body =
    let rest = collect_body max chunks (body ++ chunk) in
    if ltb max (length body + length chunk) then err exceeds else rest

unfoldable pub bounded_body : ℕ → Option ℕ → List (Option Bytes) → Result BodyError Bytes
unfolding collect_body
bounded_body max none chunks = collect_body max chunks []
bounded_body max (some declared) chunks =
    if ltb max declared then err exceeds else collect_body max chunks []
