-- ===== src/Broker/Framing/Chunks.antt =====
-- Chunks and the bytes that they carry (native/src/broker.rs).
use mathlib.Core.List.{flatten}
use repl_mcp.Base.{
  ℕ, List, Bytes, Option, ◌≤◌, ◌↔◌, ◌∷◌, ◌≡◌, Bool, true, if◌then◌else◌, [], false, suc, ◌==◌,
  arith, All, some, ◌+◌, refl, none, length, nat_eq, ltb, Bool-cases, ◌++◌, inl, inr, Option-cases,
}
use repl_mcp.Broker.Framing.{reads, poll_read, frame_limit}

abbrev pub lengthen : ℕ → List Bytes → List Bytes
lengthen b [] = (b ∷ []) ∷ []
lengthen b (l ∷ ls) = (b ∷ l) ∷ ls

-- The lines of a text, the last one without its end.
unfoldable pub lines : Bytes → List Bytes
lines [] = [] ∷ []
lines (b ∷ bs) = if b == 10 then [] ∷ lines bs else lengthen b (lines bs)

-- Lines that are at most the limit when the first has `n` bytes already.
abbrev Fits : ℕ → List Bytes → Type 0
Fits n [] = n ≤ frame_limit
Fits n (l ∷ ls) = (n + length l ≤ frame_limit) × All (λ l. length l ≤ frame_limit) ls

abbrev pub is_some : {A : Type 0} → Option A → Bool
is_some none = false
is_some (some a) = true

Fits-lengthen : (b n : ℕ) (ls : List Bytes) → Fits n (lengthen b ls) ↔ Fits (suc n) ls
Fits-lengthen b n [] = ground arith
Fits-lengthen b n (l ∷ ls) = ground arith

Fits-zero : (ls : List Bytes) → Fits 0 ls ↔ All (λ l. length l ≤ frame_limit) ls
Fits-zero [] = ground arith
Fits-zero (l ∷ ls) = ground arith

Fits-small : (n : ℕ) (ls : List Bytes) → Fits n ls → n ≤ frame_limit
Fits-small n [] h = h
Fits-small n (l ∷ ls) h = omega (arith, h.0)

too_long : (n : ℕ) → ltb frame_limit (suc n) ≡ true → suc n ≤ frame_limit → ⊥
too_long n h small = ground (arith, h)

poll_read-Fits :
    (bs : Bytes) (n : ℕ) → n ≤ frame_limit → (is_some (poll_read bs n) ≡ true) ↔ Fits n (lines bs)
unfolding poll_read lines
poll_read-Fits [] n small = ground arith
poll_read-Fits (b ∷ bs) n small = elim (Bool-cases (b == 10)) [
  | inl ends ↦ rw ends (
    (λ h. (omega arith, (Fits-zero (lines bs)).0 ((poll_read-Fits bs 0 (omega arith)).0 h))),
    (λ h. (poll_read-Fits bs 0 (omega arith)).1 ((Fits-zero (lines bs)).1 h.1)),
  )
  | inr on ↦ elim (Bool-cases (ltb frame_limit (suc n))) [
    | inl over ↦
        rw (on, over)
          (
            (λ h. cc),
            (λ h. absurd (
                too_long n over
                  (Fits-small (suc n) (lines bs) ((Fits-lengthen b n (lines bs)).0 h)))),
          )
    | inr room ↦
        let next = poll_read-Fits bs (suc n) (ground (arith, room)) in
        rw (on, room)
          (
            (λ h. (Fits-lengthen b n (lines bs)).1 (next.0 h)),
            (λ h. next.1 ((Fits-lengthen b n (lines bs)).0 h)),
          )
  ]
]

poll_read-append :
    (xs ys : Bytes) (n : ℕ)
    → poll_read (xs ++ ys) n ≡ elim (poll_read xs n) [ none ↦ none | some m ↦ poll_read ys m ]
unfolding poll_read
poll_read-append [] ys n = refl
poll_read-append (x ∷ xs) ys n =
    ground (arith, poll_read-append xs ys 0, poll_read-append xs ys (suc n))

reads-flatten : (chunks : List Bytes) (n : ℕ) → reads chunks n ≡ poll_read (flatten chunks) n
unfolding reads poll_read flatten
reads-flatten [] n = refl
reads-flatten (chunk ∷ chunks) n = elim (Option-cases (poll_read chunk n)) [
  | inl e ↦ ground (arith, poll_read-append chunk (flatten chunks) n, e)
  | inr (m, e) ↦
      ground (arith, poll_read-append chunk (flatten chunks) n, e, reads-flatten chunks m)
]

-- A peer's output is read without an error exactly when each of its lines is at most 1 MiB, however the
-- output is cut into reads.
pub reads_iff :
    (chunks : List Bytes)
    → (is_some (reads chunks 0) ≡ true) ↔ All (λ l. length l ≤ frame_limit) (lines (flatten chunks))
reads_iff chunks =
    let fits = poll_read-Fits (flatten chunks) 0 (omega arith) in
    rw (reads-flatten chunks 0) (
      (λ h. (Fits-zero (lines (flatten chunks))).0 (fits.0 h)),
      (λ h. fits.1 ((Fits-zero (lines (flatten chunks))).1 h)),
    )
