-- ===== src/Examples/Guarding.antt =====
-- The theorems on the guardian of native/src/guardian.rs, applied.
use repl_mcp.Json.{obj, str, unsigned}
use repl_mcp.Base.{
  Bytes, String, List, ◌∷◌, ◌≡◌, ℕ, some, true, ◌++◌, [], length, ◌≤◌, false, ok, arith, refl,
}
use repl_mcp.Guardian.{
  send_spec, Frame, own, stopped, newline, header_limit, read_header, Start, launch,
}
use repl_mcp.Guardian.Ended.{own_lem, IsKilled}
use repl_mcp.Guardian.Handshake.{handshake_lem}

abbrev job : String → ℕ → Frame
job action pid = record {
  event = some (obj (("type", str "job") ∷ ("pid", unsigned pid) ∷ ("action", str action) ∷ []));
  written = true;
}

abbrev two_jobs : List Frame
two_jobs = job "started" 41 ∷ job "started" 42 ∷ job "ended" 41 ∷ []

abbrev braces : Bytes
braces = 123 ∷ 125 ∷ []

abbrev line : Bytes
line = 123 ∷ 125 ∷ 10 ∷ []

abbrev a_start : Start
a_start = record {
  stopped = false;
  input = line;
  from_slice = λ header. some true;
  stopped_late = false;
  spawned = true;
}

own_lem_example : IsKilled stopped two_jobs 42 (some true) (own a_start stopped two_jobs)
unfolding launch read_header
own_lem_example = own_lem a_start stopped two_jobs 42 (omega arith)

handshake_lem_example :
    (line ≡ braces ++ newline ∷ [])
    × (length braces ≤ header_limit)
    × (read_header false (line ++ line) ≡ ok line)
unfolding send_spec
handshake_lem_example =
    handshake_lem braces line line
      (λ h. absurd (ground (arith, h)), (λ h. absurd (ground (arith, h)), tt)) refl
