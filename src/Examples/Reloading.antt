-- ===== src/Examples/Reloading.antt =====
-- The theorem on set_journal (native/src/broker.rs), applied.
use repl_mcp.Json.{str, object, field, end, Value}
use repl_mcp.Broker.Reload.{Disk, found, set_journal, check_records, read_journal}
use repl_mcp.Broker.Reload.Settled.{IsSettled, set_journal-IsSettled}
use repl_mcp.Base.{String, All, ◌≡◌, true, ◌∷◌, ok, [], refl, length, some, false, ◌≤◌}

abbrev a_call : String → Value
a_call status = object (field "id" (str "1") (field "status" (str status) end))

abbrev a_disk : Disk
a_disk = record {
  opens_lock = true;
  owns_lock = true;
  journal = found true true (1 ∷ []);
  saves = true;
  from_slice = λ bytes. some (a_call "dispatched" ∷ a_call "completed" ∷ []);
  byte_len = λ s. 4;
  has_control = λ s. false;
}

taken_over : set_journal a_disk ≡ ok (a_call "outcome_unknown" ∷ a_call "completed" ∷ [])
unfolding set_journal check_records read_journal
taken_over = refl

set_journal-IsSettled_example :
    All (IsSettled a_disk) (a_call "outcome_unknown" ∷ a_call "completed" ∷ [])
    × (length (a_call "outcome_unknown" ∷ a_call "completed" ∷ []) ≤ 256)
set_journal-IsSettled_example =
    set_journal-IsSettled a_disk (a_call "outcome_unknown" ∷ a_call "completed" ∷ []) taken_over
