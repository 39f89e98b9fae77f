-- ===== src/Broker/Framing/Stream.antt =====
-- The scan of an event stream, and the chunks of a body (native/src/broker.rs).
use mathlib.Core.List.{flatten}
use repl_mcp.Base.{
  ℕ, Bool, List, Bytes, none, ◌∷◌, length, ◌≤◌, ◌≡◌, map, ◌++◌, false, true, ◌∙◌, [], Option-cases,
  some, arith, if◌then◌else◌, refl, inl, inr, ltb, ◌&&◌, ◌==◌, err, nat_eq, ok, ◌||◌, append-nil,
  Bool-cases, ap, append_assoc, ◌+◌, length-append, suc,
}
use repl_mcp.Broker.Framing.{
  collect_body, scan_chunk, scan_stream, bounded_body, new_scan, Scan, count_byte, exceeds,
}
use repl_mcp.Broker.Framing.Chunks.{is_some}

-- The text with CR LF and CR as LF.
unfoldable pub normal : Bool → Bytes → Bytes
normal cr [] = []
normal cr (b ∷ bs) =
    let skipped = normal false bs in
    let broken = 10 ∷ normal true bs in
    if cr && b == 10 then skipped else if b == 13 then broken else b ∷ skipped

-- The state with these fields, of which a record is made.
abbrev at : ℕ → Bool → Bool → Scan
at size at_start after_cr = record { size = size; at_start = at_start; after_cr = after_cr }

-- A byte that counts: a CR is an LF, of which the next LF is a part.
counted-normal :
    (max b : ℕ) (bs : Bytes) (n : ℕ) (st : Bool)
    → ((m : ℕ) (st' cr : Bool)
        → is_some (scan_chunk max bs (at m st' cr))
          ≡ is_some (scan_chunk max (normal cr bs) (at m st' false)))
    → is_some (
        if ltb max (count_byte b (at n st false)).size
        then none
        else scan_chunk max bs (count_byte b (at n st false)))
      ≡ is_some (
          scan_chunk max
            (if b == 13 then 10 ∷ normal true bs else b ∷ normal false bs)
            (at n st false))
unfolding scan_chunk
counted-normal max b bs n st rest = elim (Bool-cases (b == 13)) [
  | inl cr ↦
      rw ((nat_eq.test_iff b 13).0 cr) (ground (arith, rest (if st then 0 else suc n) true true))
  | inr other ↦ elim (Bool-cases (b == 10)) [
    | inl lf ↦
        rw ((nat_eq.test_iff b 10).0 lf) (ground (arith, rest (if st then 0 else suc n) true false))
    | inr plain ↦ ground (arith, rest (suc n) false false, other, plain)
  ]
]

scan_chunk-normal :
    (max : ℕ) (bs : Bytes) (n : ℕ) (st cr : Bool)
    → is_some (scan_chunk max bs (at n st cr))
      ≡ is_some (scan_chunk max (normal cr bs) (at n st false))
unfolding scan_chunk normal
scan_chunk-normal max [] n st cr = refl
scan_chunk-normal max (b ∷ bs) n st false = counted-normal max b bs n st (scan_chunk-normal max bs)
scan_chunk-normal max (b ∷ bs) n st true = elim (Bool-cases (b == 10)) [
  | inl lf ↦ rw ((nat_eq.test_iff b 10).0 lf) (scan_chunk-normal max bs n st false)
  | inr on ↦ ground (arith, on, counted-normal max b bs n st (scan_chunk-normal max bs))
]

scan_chunk-append :
    (max : ℕ) (xs ys : Bytes) (s : Scan)
    → scan_chunk max (xs ++ ys) s
      ≡ elim (scan_chunk max xs s) [ none ↦ none | some s' ↦ scan_chunk max ys s' ]
unfolding scan_chunk
scan_chunk-append max [] ys s = refl
scan_chunk-append max (x ∷ xs) ys s = ground (
  arith,
  scan_chunk-append max xs ys (record s { after_cr = false }),
  scan_chunk-append max xs ys (count_byte x s),
)

-- The whole stream is passed on exactly when it is within the limit.
scan_stream_whole :
    (max : ℕ) (chunks : List Bytes) (s : Scan)
    → (scan_stream max chunks s).1 ≡ is_some (scan_chunk max (flatten chunks) s)
unfolding scan_stream scan_chunk flatten
scan_stream_whole max [] s = refl
scan_stream_whole max (chunk ∷ chunks) s = elim (Option-cases (scan_chunk max chunk s)) [
  | inl e ↦ ground (arith, scan_chunk-append max chunk (flatten chunks) s, e)
  | inr (s', e) ↦
      ground
        (arith, scan_chunk-append max chunk (flatten chunks) s, e, scan_stream_whole max chunks s')
]

-- Whether an event stream is passed on whole depends neither on how it is cut into chunks nor on which
-- line ends its peer uses: it is as for its bytes with every CR LF and CR as LF, in one chunk.
pub scan_stream_lem :
    (max : ℕ) (chunks : List Bytes)
    → (scan_stream max chunks new_scan).1
      ≡ is_some (scan_chunk max (normal false (flatten chunks)) new_scan)
scan_stream_lem max chunks =
    scan_stream_whole max chunks new_scan ∙ scan_chunk-normal max (flatten chunks) 0 true false

collect_body_lem :
    (max : ℕ) (chunks : List Bytes) (body : Bytes)
    → length body ≤ max
    → collect_body max (map some chunks) body ≡ (
        if ltb max (length (body ++ flatten chunks))
        then err exceeds
        else ok (body ++ flatten chunks))
unfolding collect_body flatten
collect_body_lem max [] body small = rw append-nil (ground arith)
collect_body_lem max (chunk ∷ chunks) body small =
    let whole = ap length (append_assoc body chunk (flatten chunks)) in
    elim (Bool-cases (ltb max (length body + length chunk))) [
      | inl over ↦ ground (
        arith,
        over,
        length-append body (chunk ++ flatten chunks),
        length-append chunk (flatten chunks),
      )
      | inr room ↦
          rw (room, ← append_assoc body chunk (flatten chunks))
            (collect_body_lem max chunks (body ++ chunk)
              (ground (arith, room, length-append body chunk)))
    ]

-- A body whose chunks all arrive is returned whole when neither its declared length nor its length is
-- over the limit, and refused otherwise.
pub bounded_body_lem :
    (max : ℕ) (declared : ℕ) (chunks : List Bytes)
    → (bounded_body max none (map some chunks)
        ≡ (if ltb max (length (flatten chunks)) then err exceeds else ok (flatten chunks)))
      × (bounded_body max (some declared) (map some chunks) ≡ (
          if ltb max declared || ltb max (length (flatten chunks))
          then err exceeds
          else ok (flatten chunks)))
unfolding bounded_body
bounded_body_lem max declared chunks =
    let whole = collect_body_lem max chunks [] (omega arith) in (whole, ground (arith, whole))
