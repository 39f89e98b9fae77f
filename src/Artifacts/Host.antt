-- ===== src/Artifacts/Host.antt =====
-- What the store takes from third-party crates and the standard library.
use repl_mcp.Base.{String, Bool, Option, Bytes}
use repl_mcp.Json.{Value}

-- sha2, base64, serde_json, and std's text and path functions.
pub record Host : Type 0 where
  pub sha256 : Bytes → String
  pub from_utf8 : Bytes → Option String
  pub from_slice : Bytes → Option Value
  pub base64 : Bytes → String
  pub from_base64 : String → Option Bytes
  pub hex : Bytes → String
  pub is_absolute : String → Bool
