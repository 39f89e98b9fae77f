-- ===== src/Artifacts/Range.antt =====
-- Reading, forwarding and deleting a published artifact (native/src/artifacts.rs).
use repl_mcp.Base.{
  ℕ, ◌+◌, ◌-◌, String, Bool, ◌&&◌, ◌||◌, ◌==◌, string_eq, List, [], ◌∷◌, Option, none, some, Bytes,
  length, take, drop, find, min, ltb, if◌then◌else◌, Result, ok, err, ◌>>=◌, ◌>>◌, refuse_if, ok_or,
}
use repl_mcp.Json
use repl_mcp.Json.{Value, get_str, as_u64, as_str, and_then}
use repl_mcp.Artifacts.State.{
  Error, Entry, Store, Outcome, Reference, settle, reference, range_limit, forward_limit,
  missing_field, no_artifact, bad_offset, bad_length, bad_range, read_failed, bad_text,
  bad_encoding, too_large_to_forward, not_json, not_utf8, bad_format,
}
use repl_mcp.Artifacts.Host.{Host}
use repl_mcp.Artifacts.Reader.{verify}

abbrev pub is_entry : String → String → Entry → Bool
is_entry owner id e = e.id == id && e.owner == owner

-- Artifacts::lookup
unfoldable pub lookup : String → String → Store → Result Error Entry
lookup owner id s = ok_or (find (is_entry owner id) s.entries) no_artifact

-- params.get(key).map_or(Ok(default), |v| v.as_u64().ok_or(..))
abbrev pub number_or : Option Value → ℕ → Error → Result Error ℕ
number_or none default e = ok default
number_or (some v) default e = ok_or (as_u64 v) e

pub record Page : Type 0 where
  pub artifact : Reference
  pub offset : ℕ
  pub length : ℕ
  pub encoding : String
  pub content : String
  pub has_more : Bool

abbrev pub str_or : Option String → String → String
str_or none default = default
str_or (some s) default = s

-- The bytes of a range, `read_exact` by a `Reader` at the offset.
unfoldable pub read_range : Entry → ℕ → ℕ → Result Error Bytes
read_range e offset wanted = do
  refuse_if (ltb range_limit wanted || ltb e.size offset) bad_range
  let size = min wanted (e.size - offset)
  let bytes = take size (drop offset e.file)
  refuse_if (ltb (length bytes) size) read_failed
  ok bytes

unfoldable pub encode : Host → String → Bytes → Result Error String
encode host encoding bytes =
    if encoding == "text"
    then ok_or (host.from_utf8 bytes) bad_text
    else if encoding == "base64"
    then ok (host.base64 bytes)
    else if encoding == "hex"
    then ok (host.hex bytes)
    else err bad_encoding

-- op "artifact.read"
unfoldable pub read : Host → String → Value → Store → Result Error Page
unfolding lookup read_range encode
read host owner params s = do
  id ← ok_or (get_str "id" params) missing_field
  entry ← lookup owner id s
  offset ← number_or (Json.get "offset" params) 0 bad_offset
  wanted ← number_or (Json.get "length" params) range_limit bad_length
  bytes ← read_range entry offset wanted
  let encoding = str_or (get_str "encoding" params) "text"
  content ← encode host encoding bytes
  let size = min wanted (entry.size - offset)
  ok (record {
    artifact = reference entry;
    offset = offset;
    length = size;
    encoding = encoding;
    content = content;
    has_more = ltb (offset + size) entry.size;
  })

-- Artifacts::forward_payload, in its blocking job.
unfoldable pub forward_payload : Host → String → String → String → Store → Result Error Value
unfolding lookup
forward_payload host owner id format s = do
  entry ← lookup owner id s
  refuse_if (ltb forward_limit entry.size) too_large_to_forward
  verify host entry
  let bytes = take entry.size entry.file
  if format == "json"
      then ok_or (host.from_slice bytes) not_json
      else if format == "text"
      then (do text ← ok_or (host.from_utf8 bytes) not_utf8; ok (Json.str text))
      else if format == "base64"
      then ok (Json.str (host.base64 bytes))
      else err bad_format

-- entries.iter().position(..), then entries.remove(position)
abbrev pub remove_first {ℓ} : {A : Type ℓ} → (A → Bool) → List A → List A
remove_first p [] = []
remove_first p (x ∷ xs) = let rest = remove_first p xs in if p x then xs else x ∷ rest

-- op "artifact.drop"
unfoldable pub delete : String → Value → Store → Outcome String
delete owner params s = settle s do
  id ← ok_or (get_str "id" params) missing_field
  found ← ok_or (find (is_entry owner id) s.entries) no_artifact
  ok (id, record s { entries = remove_first (is_entry owner id) s.entries })
