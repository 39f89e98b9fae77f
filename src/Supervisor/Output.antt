-- ===== src/Supervisor/Output.antt =====
-- The bounds on what a run may print and return in native/src/supervisor.rs: `collect_output` and
-- `bound_execution_output`. A text is its bytes in UTF-8.
pub mod Cuts
use repl_mcp.Base.{
  Option, ℕ, Bytes, Bool, none, false, suc, some, true, ◌++◌, if◌then◌else◌, ◌∷◌, ◌==◌, ltb, take,
  [], length, zero, min, ◌||◌, ◌-◌, leb, nat_eq,
}

-- A byte that does not begin a character is 128 to 191.
abbrev pub begins_char : Option ℕ → Bool
begins_char none = false
begins_char (some b) = ltb b 128 || leb 192 b

abbrev pub byte_at : ℕ → Bytes → Option ℕ
byte_at n [] = none
byte_at zero (b ∷ bs) = some b
byte_at (suc n) (b ∷ bs) = byte_at n bs

-- str::is_char_boundary
unfoldable pub is_char_boundary : Bytes → ℕ → Bool
is_char_boundary text zero = true
is_char_boundary text (suc n) = suc n == length text || begins_char (byte_at (suc n) text)

-- while !text.is_char_boundary(boundary) { boundary -= 1 }
unfoldable pub boundary_before : Bytes → ℕ → ℕ
boundary_before text zero = 0
boundary_before text (suc n) =
    let before = boundary_before text n in if is_char_boundary text (suc n) then suc n else before

abbrev pub stream_limit : ℕ
stream_limit = 65536

-- The text of an output event put behind a stream's output.
unfoldable pub collect : Bytes → Bytes → Bytes
unfolding boundary_before
collect text output =
    output ++ take (boundary_before text (min (length text) (stream_limit - length output))) text

-- The part of an event that collect_output reads.
pub record Event : Type 0 where
  pub is_output : Bool
  pub is_stderr : Bool
  pub text : Option Bytes

-- collect_output, on the two streams.
unfoldable pub collect_output : Event → Bytes × Bytes → Bytes × Bytes
unfolding collect
collect_output event (stdout, stderr) = elim event.text [
  | none ↦ (stdout, stderr)
  | some text ↦
      if event.is_output
      then (if event.is_stderr
          then (stdout, collect text stderr)
          else (collect text stdout, stderr))
      else (stdout, stderr)
]

-- The fields of a result that are bounded, and their flags under `truncated`.
pub record Outcome : Type 0 where
  pub stdout : Option Bytes
  pub stderr : Option Bytes
  pub return_value : Option Bytes
  pub error : Option Bytes
  pub cut_stdout : Bool
  pub cut_stderr : Bool
  pub cut_return : Bool
  pub cut_error : Bool

-- One round of the loop over the fields: the field, and its flag.
unfoldable pub bound_field : ℕ → Option Bytes → Bool → Option Bytes × Bool
unfolding boundary_before
bound_field budget none flag = (none, flag)
bound_field budget (some text) flag =
    if ltb budget (length text)
    then (some (take (boundary_before text budget) text), true)
    else (some text, flag)

unfoldable pub bound_execution_output : Outcome → Outcome
unfolding bound_field
bound_execution_output r =
    let (stdout, cut_stdout) = bound_field 50000 r.stdout r.cut_stdout in
    let (stderr, cut_stderr) = bound_field 50000 r.stderr r.cut_stderr in
    let (value, cut_return) = bound_field 20000 r.return_value r.cut_return in
    let (error, cut_error) = bound_field 20000 r.error r.cut_error in
    record {
      stdout = stdout;
      stderr = stderr;
      return_value = value;
      error = error;
      cut_stdout = cut_stdout;
      cut_stderr = cut_stderr;
      cut_return = cut_return;
      cut_error = cut_error;
    }
