-- ===== src/Supervisor/Output/Cuts.antt =====
-- The cuts of collect_output and bound_execution_output (native/src/supervisor.rs).

-- What a cut of a text at a limit is: the longest prefix within it that ends at a character boundary.
use repl_mcp.Supervisor.Output.{
  boundary_before, bound_execution_output, bound_field, collect, is_char_boundary, Outcome,
  stream_limit,
}
use repl_mcp.Base.{
  ℕ, Option, Bytes, ◌≤◌, length, arith, Bool, suc, ◌≡◌, some, ◌⊎◌, true, Bool-cases, ◌++◌, ltb, inl,
  ◌<◌, take, min, none, false, inr, refl, ◌-◌, zero, length-append, length-take, leb, subst,
}

abbrev pub IsCut : ℕ → Bytes → ℕ → Type 0
IsCut limit text n =
    (n ≤ limit)
    × (is_char_boundary text n ≡ true)
    × ((m : ℕ) → n < m → m ≤ limit → is_char_boundary text m ≡ false)

later :
    (text : Bytes) (n low : ℕ)
    → ((m : ℕ) → low < m → m ≤ n → is_char_boundary text m ≡ false)
    → is_char_boundary text (suc n) ≡ false
    → (m : ℕ) → low < m
    → m ≤ suc n
    → is_char_boundary text m ≡ false
later text n low least before m above within = elim (Bool-cases (leb m n)) [
  | inl below ↦ least m above (ground (arith, below))
  | inr at_end ↦ subst (λ k. is_char_boundary text k ≡ false) (ground (arith, at_end)) before
]

pub boundary_before-IsCut :
    (text : Bytes) (limit : ℕ) → IsCut limit text (boundary_before text limit)
unfolding boundary_before is_char_boundary
boundary_before-IsCut text zero = (omega arith, refl, λ m above within. absurd (omega arith))
boundary_before-IsCut text (suc n) = elim (Bool-cases (is_char_boundary text (suc n))) [
  | inl here ↦
      rw (here, boundary_before) (omega arith, here, λ m above within. absurd (omega arith))
  | inr before ↦
      let (low, ends, least) = boundary_before-IsCut text n in
      rw (before, boundary_before)
        (omega arith, ends, λ m above within. later text n _ least before m above within)
]

-- Putting an event's text behind a stream of at most 64 KiB keeps it at most 64 KiB, adds a prefix
-- of the text that ends at a character boundary, and no longer such prefix had room.
pub collect_lem :
    (text output : Bytes)
    → length output ≤ stream_limit
    → (n : ℕ) × (collect text output ≡ output ++ take n text)
      × (length (collect text output) ≤ stream_limit)
      × IsCut (min (length text) (stream_limit - length output)) text n
unfolding collect
collect_lem text output small =
    let n = boundary_before text (min (length text) (stream_limit - length output)) in
    let cut = boundary_before-IsCut text (min (length text) (stream_limit - length output)) in
    (n, refl, omega (arith, length-append output (take n text), length-take n text, cut.0), cut)

-- What bounding does to a field and its flag.
abbrev pub IsBounded : ℕ → Option Bytes → Bool → Option Bytes × Bool → Type 0
IsBounded budget none flag out = out ≡ (none, flag)
IsBounded budget (some text) flag out =
    ((length text ≤ budget) × (out ≡ (some text, flag)))
    ⊎ ((budget < length text)
        × ((n : ℕ) × (out ≡ (some (take n text), true)) × IsCut budget text n))

bound_field-IsBounded :
    (budget : ℕ) (field : Option Bytes) (flag : Bool)
    → IsBounded budget field flag (bound_field budget field flag)
unfolding bound_field
bound_field-IsBounded budget none flag = refl
bound_field-IsBounded budget (some text) flag = elim (Bool-cases (ltb budget (length text))) [
  | inl long ↦
      inr (
        ground arith,
        (boundary_before text budget, rw long refl, boundary_before-IsCut text budget),
      )
  | inr fits ↦ inl (ground arith, rw fits refl)
]

-- Each field of a result that fits its budget stays as it is, flag included; each that does not is
-- cut to its longest prefix within the budget that ends at a character boundary, and flagged.
pub bound_execution_output_lem :
    (r : Outcome)
    → let b = bound_execution_output r in
      IsBounded 50000 r.stdout r.cut_stdout (b.stdout, b.cut_stdout)
      × IsBounded 50000 r.stderr r.cut_stderr (b.stderr, b.cut_stderr)
      × IsBounded 20000 r.return_value r.cut_return (b.return_value, b.cut_return)
      × IsBounded 20000 r.error r.cut_error (b.error, b.cut_error)
unfolding bound_execution_output
bound_execution_output_lem r = (
  bound_field-IsBounded 50000 r.stdout r.cut_stdout,
  bound_field-IsBounded 50000 r.stderr r.cut_stderr,
  bound_field-IsBounded 20000 r.return_value r.cut_return,
  bound_field-IsBounded 20000 r.error r.cut_error,
)
