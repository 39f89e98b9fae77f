-- ===== src/Broker/Failures.antt =====
-- `failure_status` of native/src/broker.rs: what kind of failure an error of a connection is.
use Prim.Native.String.{[], ◌∷◌}
use Prim.Native.Char.{code}
use repl_mcp.Base.{String, Bool, if◌then◌else◌, true, ◌||◌, false, ◌==◌, ◌&&◌, nat_eq}

unfoldable pub starts_with : String → String → Bool
starts_with [] s = true
starts_with (c ∷ p) [] = false
starts_with (c ∷ p) (d ∷ s) = code c == code d && starts_with p s

-- str::contains
unfoldable pub contains : String → String → Bool
unfolding starts_with
contains p [] = starts_with p []
contains p (c ∷ s) = starts_with p (c ∷ s) || contains p s

unfoldable pub failure_status : String → String
unfolding contains
failure_status error =
    if contains "timeout" error || contains "connect budget" error
    then "connection_timeout"
    else if contains "Independent OAuth grant required" error
        || contains "OAuth access token unavailable" error
    then "credentials_missing"
    else "disconnected"
