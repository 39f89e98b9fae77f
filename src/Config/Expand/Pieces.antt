-- ===== src/Config/Expand/Pieces.antt =====
-- Texts with placeholders, as their pieces (native/src/config.rs, `expand`).
use Prim.Native.String.{[], ◌∷◌, ◌++◌, count}
use text.Mathlib.TextLemmas.{cons-append, nil-append, length-append}
use repl_mcp.Config.Expand.{
  split_close, split_open, all_key_chars, is_empty, expand, after_brace, expand_loop,
  lookup_variable,
}
use repl_mcp.Base.{String, Option, some, ◌≡◌, none, true, refl, arith, false, ◌≤◌, ℕ, suc, ok, zero}

-- A text without "${" and the placeholders and texts behind it.
pub data Pieces : Type 0 where
  last : String → Pieces
  piece : String → String → Pieces → Pieces

-- The text of the pieces.
unfoldable pub print : Pieces → String
print (last s) = s
print (piece s key ps) = s ++ "${" ++ key ++ "}" ++ print ps

abbrev pub unwrap : Option String → String
unwrap none = ""
unwrap (some v) = v

-- Its meaning: each placeholder is its variable's value, as it stands.
unfoldable pub meaning : (String → Option String) → Pieces → String
meaning env (last s) = s
meaning env (piece s key ps) = s ++ unwrap (env key) ++ meaning env ps

-- The literals have no placeholder, the keys are identifiers, and their variables are set.
abbrev pub IsPrintable : (String → Option String) → Pieces → Type 0
IsPrintable env (last s) = split_open s ≡ none
IsPrintable env (piece s key ps) =
    (split_open s ≡ none)
    × (is_empty key ≡ false)
    × (all_key_chars key ≡ true)
    × ((v : String) × (env key ≡ some v) × (is_empty v ≡ false))
    × IsPrintable env ps

split_open-front : (t : String) → split_open ("${" ++ t) ≡ some ([], t)
unfolding split_open
split_open-front t = rw (cons-append, cons-append, nil-append) refl

-- A literal's last character and the placeholder's first ones are no placeholder.
after_brace-append : (s t : String) → after_brace s ≡ none → after_brace (s ++ "${" ++ t) ≡ none
after_brace-append [] t h = rw (nil-append, cons-append) refl
after_brace-append (c ∷ s) t h = rw (cons-append c s ("${" ++ t)) (ground (arith, h))

split_open-append : (s t : String) → split_open s ≡ none → split_open (s ++ "${" ++ t) ≡ some (s, t)
unfolding split_open
split_open-append [] t h = rw (nil-append ("${" ++ t)) (split_open-front t)
split_open-append (c ∷ s) t h =
    rw (cons-append c s ("${" ++ t))
      (ground (arith, h, split_open-append s t, after_brace-append s t))

split_close-append :
    (key t : String) → all_key_chars key ≡ true → split_close (key ++ "}" ++ t) ≡ some (key, t)
unfolding split_close all_key_chars
split_close-append [] t h = rw (nil-append ("}" ++ t), cons-append, nil-append) refl
split_close-append (c ∷ key) t h =
    rw (cons-append c key ("}" ++ t)) (ground (arith, h, split_close-append key t))

looked_up :
    (env : String → Option String) (key v : String)
    → is_empty key ≡ false
    → all_key_chars key ≡ true
    → env key ≡ some v
    → is_empty v ≡ false
    → lookup_variable env key ≡ ok v
unfolding lookup_variable
looked_up env key v some_key chars set some_value = ground (arith, set)

-- How many rounds the loop makes.
abbrev rounds : Pieces → ℕ
rounds (last s) = 1
rounds (piece s key ps) = suc (rounds ps)

loop-print :
    (env : String → Option String) (ps : Pieces) (fuel : ℕ)
    → IsPrintable env ps
    → rounds ps ≤ fuel
    → expand_loop env fuel (print ps) ≡ ok (meaning env ps)
unfolding expand_loop print meaning lookup_variable
loop-print env (last s) zero p enough = absurd (omega arith)
loop-print env (piece s key ps) zero p enough = absurd (omega arith)
loop-print env (last s) (suc fuel) p enough = rw (p, expand_loop) refl
loop-print env (piece s key ps) (suc fuel) (plain, some_key, key_chars, (v, set, some_value), rest)
      enough =
    rw
      (
        split_open-append s (key ++ "}" ++ print ps) plain,
        split_close-append key (print ps) key_chars,
        looked_up env key v some_key key_chars set some_value,
        loop-print env ps fuel rest (omega arith),
        set,
        expand_loop,
      )
      refl

rounds-count : (ps : Pieces) → rounds ps ≤ suc (count (print ps))
unfolding print
rounds-count (last s) = omega arith
rounds-count (piece s key ps) = omega (
  arith,
  rounds-count ps,
  length-append s ("${" ++ key ++ "}" ++ print ps),
  length-append "${" (key ++ "}" ++ print ps),
  length-append key ("}" ++ print ps),
  length-append "}" (print ps),
)

-- A text printed from pieces expands to what the pieces mean: every placeholder becomes its variable's
-- value, which is itself not expanded again, and every other character stays. The literals have no
-- placeholder, the keys are identifiers, and the variables are set and not empty.
pub expand-print :
    (env : String → Option String) (ps : Pieces)
    → IsPrintable env ps
    → expand env (print ps) ≡ ok (meaning env ps)
unfolding expand
expand-print env ps p = loop-print env ps (suc (count (print ps))) p (rounds-count ps)
