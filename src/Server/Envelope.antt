-- ===== src/Server/Envelope.antt =====
-- The answer to a call in native/src/server.rs: `identify`, the error flag and `envelope`. A text is its
-- bytes in UTF-8; what serde_json prints is a parameter, and so is the length of a result's encoding. A
-- panic is `none`.
pub mod Marked
pub mod Presented
use repl_mcp.Supervisor.Output.{boundary_before}
use repl_mcp.Base.{
  Bytes, ℕ, Result, String, if◌then◌else◌, Option, take, Bool, [], ltb, ok, some, ◌++◌, false, err,
  none, true, length, not, ◌==◌, ◌||◌, ◌∷◌, string_eq, ◌≡◌,
}
use repl_mcp.Json.{
  Value, object, Fields, get_str, get, unsigned, lookup, bool, set_field, null, str, put_field, obj,
  is_object,
}

-- CallToolResult, with the text of its one content block.
pub record Response : Type 0 where
  pub content : Bytes
  pub structured : Value
  pub is_error : Bool

pub record Printing : Type 0 where
  pub utf8 : String → Bytes
  pub to_string : Value → Bytes
  pub encoded : Response → ℕ

-- What an answer is marked with, for a call that is made for a session.
pub record Identity : Type 0 where
  pub server_id : String
  pub session_id : String
  pub generation : ℕ

-- object.entry(key).or_insert(value)
abbrev pub or_insert_at : Option Value → String → Value → Fields → Fields
or_insert_at none key v fields = put_field key v fields
or_insert_at (some w) key v fields = fields

abbrev pub or_insert : String → Value → Fields → Fields
or_insert key v fields = or_insert_at (lookup key fields) key v fields

-- Supervisor::identify
unfoldable pub identify : Identity → Value → Option Value
identify by (object fields) = some (
    object (
      or_insert "generation" (unsigned by.generation) (
        or_insert "session_id" (str by.session_id)
          (or_insert "server_id" (str by.server_id) fields))))
identify by _ = none

abbrev pub identify_if : Option Identity → Value → Option Value
identify_if none v = some v
identify_if (some by) v = identify by v

abbrev pub says : Bool → Option Value → Bool
says b (some (bool c)) = if b then c else not c
says b _ = false

abbrev pub is_given : Option Value → Bool
is_given none = false
is_given (some null) = false
is_given (some v) = true

-- value["isError"] == true || value["success"] == false || ..
unfoldable pub is_failure : Value → Bool
is_failure v =
    says true (get "isError" v) || (says false (get "success" v) || is_given (get "error" v))

abbrev pub preview_limit : ℕ
preview_limit = 8192

abbrev pub is_nil : Bytes → Bool
is_nil [] = true
is_nil (b ∷ bs) = false

-- A result that a tool answers with: an error, or an object.
abbrev pub IsResult : Result String Value → Type 0
IsResult (err e) = Unit
IsResult (ok v) = is_object v ≡ true

abbrev pub value_of : Result String Value → Value
value_of (ok v) = v
value_of (err e) = obj (("error", str e) ∷ [])

module _ (printing : Printing) where
  abbrev pub truncated_text : Bytes
  truncated_text =
      printing.utf8 "\n[Text preview truncated; complete bounded output is in structuredContent.]"

  abbrev pub omitted_text : Bytes
  omitted_text = printing.utf8 "Output presentation omitted; inspect structuredContent."

  abbrev pub text_at : String → Value → Bytes
  text_at key v = elim (get_str key v) [ none ↦ [] | some s ↦ printing.utf8 s ]

  -- A text of the value behind a title, unless it is empty.
  abbrev pub titled : String → Bytes → Bytes
  titled title text = if is_nil text then [] else printing.utf8 title ++ text

  abbrev pub error_text : Value → Bytes
  error_text v = elim (get_str "error" v) [
    | none ↦ []
    | some s ↦ printing.utf8 "\n" ++ printing.utf8 s
  ]

  abbrev pub cleared_text : Value → Bytes
  cleared_text v = elim (get_str "state" v) [
    | none ↦ []
    | some s ↦ if s == "cleared" then printing.utf8 "\nWorker state cleared." else []
  ]

  abbrev pub run_text : Value → Bytes
  run_text v =
      text_at "stdout" v
      ++ titled "\nStderr:\n" (text_at "stderr" v)
      ++ titled "\n" (text_at "return_value" v)
      ++ error_text v
      ++ cleared_text v

  -- The text of an answer.
  unfoldable pub text_of : Value → Bytes
  text_of v = elim (get "success" v) [
    | none ↦ printing.to_string v
    | some s ↦ if is_nil (run_text v) then printing.utf8 "Execution completed." else run_text v
  ]

  -- A result that is too long for a frame is presented without its text.
  unfoldable pub present : Response → Response
  present r = if ltb 1000000 (printing.encoded r) then record r { content = omitted_text } else r

  abbrev pub preview : Bytes → Bytes
  preview text = take (boundary_before text preview_limit) text ++ truncated_text

  abbrev pub envelope_cut : Bytes → Bool → Option Value → Option Response
  envelope_cut text error none = none
  envelope_cut text error (some structured) =
      some (present (record { content = preview text; structured = structured; is_error = error }))

  unfoldable pub envelope : Value → Bool → Option Response
  unfolding text_of present
  envelope v error =
      if ltb preview_limit (length (text_of v))
      then envelope_cut (text_of v) error (set_field "text_truncated" (bool true) v)
      else some (present (record { content = text_of v; structured = v; is_error = error }))

  abbrev pub enveloped : Option Value → Option Response
  enveloped none = none
  enveloped (some v) = envelope v (is_failure v)

  -- The end of call_tool, with the session's marks for a call that is made for one.
  unfoldable pub answer : Option Identity → Result String Value → Option Response
  unfolding envelope is_failure identify
  answer by result = enveloped (identify_if by (value_of result))
