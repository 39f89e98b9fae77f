-- ===== src/Artifacts/State.antt =====
-- The state of `Artifacts` (native/src/artifacts.rs), its errors and the life of its guards.
-- An `Arc<AtomicBool>` is an address in `flags`, and an `Arc<Mutex<UploadData>>` one in `cells`: a
-- call in progress holds the address, and sees what others store there after its registry entry went.
-- Identifiers (uuid) come from outside, as arguments of the calls that draw them.
use repl_mcp.Base.{
  ℕ, String, Bool, false, List, [], Bytes, ◌==◌, nat_eq, string_eq, ◌||◌, if◌then◌else◌, Result, ok,
  err, Option,
}
use repl_mcp.Base.Map.{Map}

pub data Error : Type 0 where
  missing_field owner_capacity owner_closed run_capacity run_finished io_capacity : Error
  no_artifact bad_range read_failed bad_text bad_encoding bad_offset bad_length : Error
  bad_format bad_path bad_input too_large write_failed not_utf8 not_json closed_before_import :
      Error
  upload_slots upload_unknown upload_cancelled closed_before_commit chunk_too_large : Error
  bad_base64 offset_mismatch no_run unknown_operation too_large_to_forward hash_mismatch : Error
  not_absolute create_failed save_failed sync_failed replace_failed link_failed : Error
  out_of_fuel : Error

-- `file` is what the private, unlinked descriptor holds.
pub record Entry : Type 0 where
  pub id : String
  pub owner : String
  pub file : Bytes
  pub size : ℕ
  pub format : String
  pub sha256 : String

-- `hashed` is what the incremental hash has been fed.
pub record UploadData : Type 0 where
  pub file : Bytes
  pub size : ℕ
  pub hashed : Bytes

pub record Upload : Type 0 where
  pub owner : String
  pub run : String
  pub format : String
  pub alive : ℕ
  pub cell : ℕ

pub record Store : Type 0 where
  pub entries : List Entry
  pub owners : Map String ℕ
  pub runs : Map (String × String) ℕ
  pub uploads : Map String Upload
  pub flags : ℕ → Bool
  pub cells : ℕ → UploadData
  pub next : ℕ
  pub permits : ℕ

abbrev pub item_limit : ℕ
item_limit = 16777216

abbrev pub total_limit : ℕ
total_limit = 67108864

abbrev pub count_limit : ℕ
count_limit = 64

abbrev pub range_limit : ℕ
range_limit = 65536

abbrev pub forward_limit : ℕ
forward_limit = 524288

abbrev pub update {ℓ} : {A : Type ℓ} → (ℕ → A) → ℕ → A → ℕ → A
update f p v q = if p == q then v else f q

abbrev pub blank : UploadData
blank = record { file = []; size = 0; hashed = [] }

-- Artifacts::new
unfoldable pub new : Store
new = record {
  entries = [];
  owners = [];
  runs = [];
  uploads = [];
  flags = λ _. false;
  cells = λ _. blank;
  next = 0;
  permits = 4;
}

-- guard.store(false, Ordering::Release)
abbrev pub lower : ℕ → Store → Store
lower guard s = record s { flags = update s.flags guard false }

abbrev pub Outcome : Type 0 → Type 0
Outcome A = Result Error A × Store

-- A call that fails leaves the store as it was, where its checks come before its effects.
abbrev pub settle : {A : Type 0} → Store → Result Error (A × Store) → Outcome A
settle s (ok (a, s')) = (ok a, s')
settle s (err e) = (err e, s)

-- matches!(format, "json" | "text" | "binary")
abbrev pub known_format : String → Bool
known_format f = f == "json" || f == "text" || f == "binary"

-- Entry::reference
pub record Reference : Type 0 where
  pub id : String
  pub size : ℕ
  pub format : String
  pub sha256 : String

abbrev pub reference : Entry → Reference
reference e = record { id = e.id; size = e.size; format = e.format; sha256 = e.sha256 }

-- How the operating system answers a call: whether the private temporary was created and unlinked,
-- after how many bytes a write failed (`none`: it did not), and whether flushing, reading back and
-- duplicating the descriptor succeeded.
pub record Io : Type 0 where
  pub created : Bool
  pub failed_after : Option ℕ
  pub flushed : Bool
  pub readable : Bool
  pub duplicated : Bool
