-- ===== src/Guardian/Handshake.antt =====
-- The command that the supervisor sends and the guardian reads (native/src/guardian.rs).
use repl_mcp.Guardian.{
  send_spec, read_header, ends_line, newline, read_until, header_limit, missing_or_oversized,
  check_header,
}
use repl_mcp.Base.{
  Bytes, ℕ, All, ◌++◌, ◌≢◌, some, ◌∷◌, length, ◌≡◌, [], ◌<◌, true, ok, refl, ◌≤◌, take, arith, suc,
  false, ◌==◌, err, nat_eq, ap, zero, sym, append_assoc, ◌+◌, Bool-cases, ltb, subst, length-append,
  ◌∙◌, inl, inr, if◌then◌else◌, ltb→lt,
}

read_until-take :
    (n : ℕ) (bytes rest : Bytes)
    → All (λ b. b ≢ newline) bytes
    → length bytes < n
    → read_until (take n (bytes ++ newline ∷ rest)) ≡ bytes ++ newline ∷ []
read_until-take zero bytes rest plain room = absurd (omega (arith, room))
read_until-take (suc n) [] rest plain room = refl
read_until-take (suc n) (b ∷ bs) rest plain room =
    let other : (b == newline) ≡ false = ground (arith, plain.0, nat_eq.test_iff b newline) in
    rw other
      (ap (λ (tail : Bytes). b ∷ tail) (read_until-take n bs rest plain.1 (omega (arith, room))))

ends_line-append : (bytes : Bytes) → ends_line (bytes ++ newline ∷ []) ≡ true
ends_line-append [] = refl
ends_line-append (b ∷ []) = refl
ends_line-append (b ∷ c ∷ bs) = ends_line-append (c ∷ bs)

check_header-passes :
    (header : Bytes)
    → 0 < length header
    → length header ≤ header_limit
    → ends_line header ≡ true
    → check_header header ≡ ok header
check_header-passes header some_there within ends = ground (arith, some_there, within, ends)

check_header-refuses :
    (header : Bytes) → header_limit < length header → check_header header ≡ err missing_or_oversized
check_header-refuses header long = ground (arith, long)

length-line : (bytes : Bytes) → length (bytes ++ newline ∷ []) ≡ length bytes + 1
length-line bytes = length-append bytes (newline ∷ [])

read_until-line :
    (bytes rest : Bytes)
    → All (λ b. b ≢ newline) bytes
    → length bytes ≤ header_limit
    → read_until (take 1048577 ((bytes ++ newline ∷ []) ++ rest)) ≡ bytes ++ newline ∷ []
read_until-line bytes rest plain within =
    ap (λ (input : Bytes). read_until (take 1048577 input)) (append_assoc bytes (newline ∷ []) rest)
    ∙ read_until-take 1048577 bytes rest plain (omega (arith, within))

sent_lem :
    (bytes sent : Bytes)
    → send_spec (some bytes) ≡ ok sent
    → (length bytes ≤ header_limit) × (bytes ++ newline ∷ [] ≡ sent)
unfolding send_spec
sent_lem bytes sent h = elim (Bool-cases (ltb header_limit (length bytes))) [
  | inl long ↦ absurd (ground (arith, simp long at h))
  | inr short ↦ (ground (arith, short), ground (arith, simp short at h))
]

not_below : (a b : ℕ) → ltb a b ≡ false → b ≤ a
not_below a b h = ground (arith, h)

line_read :
    (bytes rest : Bytes)
    → All (λ b. b ≢ newline) bytes
    → length bytes ≤ header_limit
    → read_header false ((bytes ++ newline ∷ []) ++ rest) ≡ (
        if ltb (length bytes) header_limit
        then ok (bytes ++ newline ∷ [])
        else err missing_or_oversized)
unfolding read_header
line_read bytes rest plain within =
    let arrived = ap check_header (read_until-line bytes rest plain within) in
    let long = length-line bytes in
    elim (Bool-cases (ltb (length bytes) header_limit)) [
      | inl room ↦ simp room (
          arrived
          ∙ check_header-passes (bytes ++ newline ∷ []) (omega (arith, long))
              (omega (arith, long, ltb→lt (length bytes) header_limit room))
              (ends_line-append bytes))
      | inr full ↦ simp full (
          arrived
          ∙ check_header-refuses (bytes ++ newline ∷ [])
              (omega (arith, long, not_below (length bytes) header_limit full)))
    ]

-- A command that was sent, whose JSON has no line feed, reaches the guardian as it was sent, whatever
-- follows it, when it has fewer than 1048576 bytes; one of exactly 1048576 bytes is sent and refused.
pub handshake_lem :
    (bytes sent rest : Bytes)
    → All (λ b. b ≢ newline) bytes
    → send_spec (some bytes) ≡ ok sent
    → (sent ≡ bytes ++ newline ∷ [])
      × (length bytes ≤ header_limit)
      × (read_header false (sent ++ rest)
          ≡ (if ltb (length bytes) header_limit then ok sent else err missing_or_oversized))
handshake_lem bytes sent rest plain h =
    let (within, same) = sent_lem bytes sent h in
    (
      sym same,
      within,
      subst
          (λ line.
            read_header false (line ++ rest)
            ≡ (if ltb (length bytes) header_limit then ok line else err missing_or_oversized))
          same (line_read bytes rest plain within),
    )
