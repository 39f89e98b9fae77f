-- ===== src/Config/Expand.antt =====
-- `expand` of native/src/config.rs: the placeholders `${NAME}` of a configured text.
pub mod Pieces
pub mod Total
use Prim.Native.String as Text
use Prim.Native.String.{[], ◌∷◌, ◌++◌, count}
use Prim.Native.Char.{Char, code}
use repl_mcp.Base.{
  String, Bool, Option, ℕ, ◌==◌, true, some, none, Result, leb, false, ◌>>◌, err, nat_eq, ◌&&◌, suc,
  ◌>>=◌, if◌then◌else◌, refuse_if, ◌||◌, ok, zero, not, ok_or,
}

pub data ConfigError : Type 0 where
  unclosed bad_placeholder missing_variable empty_variable out_of_fuel : ConfigError
  bad_project unreadable not_regular too_large bad_json : ConfigError
  bad_scope no_home no_servers not_an_object bad_name bad_entry : ConfigError
  bad_stdio bad_http no_url bad_url bad_transport : ConfigError
  oauth_conflict empty_credentials bad_grant : ConfigError
  bad_header_name bad_header_value empty_authorization bad_cwd empty_tool : ConfigError

abbrev pub is_char : ℕ → Char → Bool
is_char n c = code c == n

-- The rest of a text that begins with `{`.
abbrev pub after_brace : String → Option String
after_brace [] = none
after_brace (c ∷ s) = if is_char 123 c then some s else none

abbrev pub push_front : Char → Option (String × String) → Option (String × String)
push_front c none = none
push_front c (some (before, rest)) = some (c ∷ before, rest)

-- rest.find("${"): what stands before it and after it.
unfoldable pub split_open : String → Option (String × String)
split_open [] = none
split_open (c ∷ s) =
    let later = push_front c (split_open s) in
    if is_char 36 c
    then elim (after_brace s) [ none ↦ later | some rest ↦ some ([], rest) ]
    else later

-- tail.find('}')
unfoldable pub split_close : String → Option (String × String)
split_close [] = none
split_close (c ∷ s) =
    let later = push_front c (split_close s) in if is_char 125 c then some ([], s) else later

-- c.is_ascii_alphanumeric() || c == '_'
abbrev pub is_key_char : Char → Bool
is_key_char c =
    (leb 48 (code c) && leb (code c) 57)
    || ((leb 65 (code c) && leb (code c) 90)
        || ((leb 97 (code c) && leb (code c) 122) || is_char 95 c))

unfoldable pub all_key_chars : String → Bool
all_key_chars [] = true
all_key_chars (c ∷ s) = is_key_char c && all_key_chars s

abbrev pub is_empty : String → Bool
is_empty [] = true
is_empty (c ∷ s) = false

-- The variable that a placeholder names.
unfoldable pub lookup_variable : (String → Option String) → String → Result ConfigError String
lookup_variable env key = do
  refuse_if (is_empty key || not (all_key_chars key)) bad_placeholder
  value ← ok_or (env key) missing_variable
  refuse_if (is_empty value) empty_variable
  ok value

-- The loop, with the text gathered so far put in front of its result.
unfoldable pub expand_loop : (String → Option String) → ℕ → String → Result ConfigError String
unfolding lookup_variable
expand_loop env zero rest = err out_of_fuel
expand_loop env (suc fuel) rest = elim (split_open rest) [
  | none ↦ ok rest
  | some (before, tail) ↦ elim (split_close tail) [
    | none ↦ err unclosed
    | some (key, after) ↦ lookup_variable env key >>= λ value.
        expand_loop env fuel after >>= λ out. ok (before ++ value ++ out)
  ]
]

-- A round takes at least the placeholder's first two characters away.
unfoldable pub expand : (String → Option String) → String → Result ConfigError String
unfolding expand_loop
expand env input = expand_loop env (suc (count input)) input
