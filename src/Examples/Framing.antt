-- ===== src/Examples/Framing.antt =====
-- The theorems on what a peer sends (native/src/broker.rs), applied.
use mathlib.Core.List.{flatten}
use repl_mcp.Broker.Framing.Chunks.{is_some, lines, reads_iff}
use repl_mcp.Broker.Framing.{reads, frame_limit}
use repl_mcp.Base.{List, Bytes, ◌≡◌, ◌∷◌, true, ◌↔◌, [], All, length, ◌≤◌}

abbrev two_reads : List Bytes
two_reads = (1 ∷ 10 ∷ []) ∷ (2 ∷ 3 ∷ []) ∷ []

reads_iff_example :
    (is_some (reads two_reads 0) ≡ true)
    ↔ All (λ l. length l ≤ frame_limit) (lines (flatten two_reads))
reads_iff_example = reads_iff two_reads
