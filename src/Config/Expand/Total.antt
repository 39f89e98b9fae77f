-- ===== src/Config/Expand/Total.antt =====
-- The rounds of `expand` (native/src/config.rs).
use Prim.Native.String.{[], ◌∷◌, ◌++◌, count}
use text.Mathlib.TextLemmas.{length-cons}
use repl_mcp.Base.{
  String, ◌≡◌, Option, ℕ, ◌≢◌, some, suc, err, ◌<◌, arith, zero, Result, Option-cases, inl, ◌>>=◌,
  inr, ok,
}
use repl_mcp.Config.Expand.{
  expand, split_open, expand_loop, split_close, after_brace, lookup_variable, out_of_fuel,
  ConfigError,
}

after_brace-shorter : (s rest : String) → after_brace s ≡ some rest → suc (count rest) ≡ count s
after_brace-shorter [] rest h = cc
after_brace-shorter (c ∷ s) rest h = rw (length-cons c s) (ground (arith, h))

split_open-shorter :
    (s before rest : String) → split_open s ≡ some (before, rest) → count rest < count s
unfolding split_open
split_open-shorter [] before rest h = cc
split_open-shorter (c ∷ s) before rest h = elim (Option-cases (split_open s)) [
  | inl e ↦ rw (length-cons c s) (ground (arith, h, e, after_brace-shorter s rest))
  | inr ((b, r), e) ↦
      rw (length-cons c s)
        (ground (arith, h, e, after_brace-shorter s rest, split_open-shorter s b r e))
]

split_close-shorter :
    (s key rest : String) → split_close s ≡ some (key, rest) → count rest < count s
unfolding split_close
split_close-shorter [] key rest h = cc
split_close-shorter (c ∷ s) key rest h = elim (Option-cases (split_close s)) [
  | inl e ↦ rw (length-cons c s) (ground (arith, h, e))
  | inr ((k, r), e) ↦ rw (length-cons c s) (ground (arith, h, e, split_close-shorter s k r e))
]

never_out :
    (env : String → Option String) (key : String) → lookup_variable env key ≢ err out_of_fuel
unfolding lookup_variable
never_out env key h = ground (arith, h)

-- A round behind a placeholder's value.
placed :
    (before : String) (r rest : Result ConfigError String)
    → r ≢ err out_of_fuel
    → rest ≢ err out_of_fuel
    → (r >>= λ value. rest >>= λ out. ok (before ++ value ++ out)) ≢ err out_of_fuel
placed before (err e) rest a b = a
placed before (ok v) (err e) a b = b
placed before (ok v) (ok out) a b = λ h. cc

loop_ends :
    (env : String → Option String) (fuel : ℕ) (s : String)
    → count s < fuel
    → expand_loop env fuel s ≢ err out_of_fuel
unfolding expand_loop lookup_variable
loop_ends env zero s enough = absurd (omega arith)
loop_ends env (suc fuel) s enough = elim (Option-cases (split_open s)) [
  | inl e ↦ rw (e, expand_loop) (λ h. cc)
  | inr ((before, tail), e) ↦ elim (Option-cases (split_close tail)) [
    | inl e' ↦ rw (e, e', expand_loop) (λ h. cc)
    | inr ((key, after), e') ↦
        rw (e, e', expand_loop)
          (placed before (lookup_variable env key) _ (never_out env key) (
            loop_ends env fuel after (
              omega (
                arith,
                split_open-shorter s before tail e,
                split_close-shorter tail key after e',
              ))))
  ]
]

-- Expansion always ends with a text or with one of the errors of the source.
pub expand_total : (env : String → Option String) (s : String) → expand env s ≢ err out_of_fuel
unfolding expand
expand_total env s = loop_ends env (suc (count s)) s (omega arith)
