-- ===== src/Broker/Reload.antt =====
-- `set_journal` of native/src/broker.rs: the records of an earlier runtime.
pub mod Settled
use mathlib.Core.Option.{none, some}
use repl_mcp.Base.{
  Result, Bool, String, List, ◌>>=◌, if◌then◌else◌, ok, ◌>>◌, refuse_if, any, ℕ, false, Bytes, err,
  ◌||◌, not, [], Option, ◌∷◌, ◌==◌, ltb, string_eq, length, ok_or,
}
use repl_mcp.Json.{Fields, Value, field, object, as_str, get_str, end, str, put_field}

-- How the journal and its lock are found.
pub data Found : Type 0 where
  absent unreadable : Found
  found : Bool → Bool → Bytes → Found

-- The file system, and the functions of other crates.
pub record Disk : Type 0 where
  pub opens_lock : Bool
  pub owns_lock : Bool
  pub journal : Found
  pub saves : Bool
  pub from_slice : Bytes → Option (List Value)
  pub byte_len : String → ℕ
  pub has_control : String → Bool

pub data Refused : Type 0 where
  no_lock owned not_readable not_regular not_private not_json too_many : Refused
  not_an_object not_metadata bad_metadata not_saved : Refused

abbrev pub is_metadata : String → Bool
is_metadata key =
    any (λ k. k == key)
      ("id" ∷ "session_id" ∷ "project" ∷ "run_id" ∷ "server" ∷ "tool" ∷ "started_ms" ∷ "finished_ms"
        ∷ "status" ∷ [])

-- object.keys().any(..), and object.iter().any(..)
abbrev pub any_field : (String → Value → Bool) → Fields → Bool
any_field p end = false
any_field p (field key v rest) = p key v || any_field p rest

abbrev pub text_limit : String → ℕ
text_limit key = if key == "project" then 4096 else 400

abbrev pub is_dispatched : Option String → Bool
is_dispatched none = false
is_dispatched (some s) = s == "dispatched"

module _ (d : Disk) where
  -- v.as_str().is_some_and(..)
  abbrev pub is_bad_text : String → Value → Bool
  is_bad_text key v = elim (as_str v) [
    | none ↦ false
    | some s ↦ ltb (text_limit key) (d.byte_len s) || d.has_control s
  ]

  -- A call in flight when the earlier runtime ended has an unknown outcome.
  abbrev pub settled : Fields → Fields
  settled fields =
      if is_dispatched (get_str "status" (object fields))
      then put_field "status" (str "outcome_unknown") fields
      else fields

  -- The body of the loop.
  abbrev pub check_fields : Fields → Result Refused Value
  check_fields fields =
      refuse_if (any_field (λ key v. not (is_metadata key)) fields) not_metadata
      >> (refuse_if (any_field is_bad_text fields) bad_metadata >> ok (object (settled fields)))

  abbrev pub check_record : Value → Result Refused Value
  check_record (object fields) = check_fields fields
  check_record _ = err not_an_object

  unfoldable pub check_records : List Value → Result Refused (List Value)
  check_records [] = ok []
  check_records (r ∷ rs) = check_record r >>= λ r'. check_records rs >>= λ rs'. ok (r' ∷ rs')

  unfoldable pub read_journal : Found → Result Refused (List Value)
  read_journal absent = ok []
  read_journal unreadable = err not_readable
  read_journal (found is_file is_private bytes) =
      refuse_if (not is_file || ltb 1048576 (length bytes)) not_regular
      >> (refuse_if (not is_private) not_private >> ok_or (d.from_slice bytes) not_json)

  -- The records that the broker goes on with.
  unfoldable pub set_journal : Result Refused (List Value)
  unfolding read_journal check_records
  set_journal = do
    refuse_if (not d.opens_lock) no_lock
    refuse_if (not d.owns_lock) owned
    records ← read_journal d.journal
    refuse_if (ltb 256 (length records)) too_many
    records' ← check_records records
    refuse_if (not d.saves) not_saved
    ok records'
