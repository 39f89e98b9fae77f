-- ===== src/Config/Types.antt =====
-- The configuration of a server, and the registry, in native/src/config.rs.
use repl_mcp.Base.Map.{Map}
use repl_mcp.Base.{Bytes, String, Option, Bool, ℕ, List}
use repl_mcp.Json.{Value}

pub record OAuthConfig : Type 0 where
  pub grant_type : String
  pub client_id : Option String
  pub client_secret : Option String
  pub credential_file : Option String
  pub redirect_port : ℕ
  pub scopes : List String

pub record ServerConfig : Type 0 where
  pub transport : Option String
  pub command : Option String
  pub args : List String
  pub env : Map String String
  pub cwd : Option String
  pub url : Option String
  pub headers : Map String String
  pub disabled : Bool
  pub broker_allowed : Bool
  pub allowed_tools : Option (List String)
  pub oauth : Option OAuthConfig

pub record Registry : Type 0 where
  pub servers : Map String ServerConfig
  pub config : Option String
  pub scope : String
  pub project : String
  pub present : Bool
  pub excluded : Map String String

-- reqwest::Url, as far as it is read.
pub record Url : Type 0 where
  pub scheme : String
  pub has_host : Bool
  pub username : String
  pub has_password : Bool

-- What opening a path finds: nothing, an error, something that is no regular file, or a file.
pub data Opened : Type 0 where
  missing failing special : Opened
  file : Bytes → Opened

-- The environment, the file system, and the functions of other crates.
pub record Env : Type 0 where
  pub var : String → Option String
  pub home : Option String
  pub open_file : String → Opened
  pub canonicalize : String → Option String
  pub is_dir : String → Bool
  pub is_absolute : String → Bool
  pub join : String → String → String
  pub parent : String → Option String
  pub file_name : String → Option String
  pub split_commas : String → List String
  pub has_control : String → Bool
  pub trim : String → String
  pub eq_ignore_case : String → String → Bool
  -- serde_json::from_slice, and from_value with the derived Deserialize
  pub from_slice : Bytes → Option Value
  pub from_value : Value → Option ServerConfig
  pub parse_url : String → Option Url
  pub is_header_name : String → Bool
  pub is_header_value : String → Bool
