-- ===== src/Server/Route/Safe.antt =====
-- Results that panic only for a reason (native/src/server.rs).
use repl_mcp.Server.Route.{Stop, Refusal, unwrap, refused, panicked}
use repl_mcp.Base.{
  ◌>>◌, Option, Bool, Result, ok, some, ◌≡◌, arith, refuse_if, ◌>>=◌, false, ok_or, true, err, refl,
  none, not, string_eq,
}

-- A panic has the reason P.
abbrev pub IsSafe : {A : Type 0} → Type 0 → Result Stop A → Type 0
IsSafe P r = r ≡ err panicked → P

pub not_refused : (b : Bool) (e : Stop) (u : Unit {0}) → refuse_if (not b) e ≡ ok u → b ≡ true
not_refused b e u h = ground (arith, h)

module _ {P : Type 0} where
  pub IsSafe-ok : {A : Type 0} (a : A) → IsSafe P (ok a)
  IsSafe-ok a h = absurd (ground (arith, h))

  pub IsSafe-refused : {A : Type 0} (r : Refusal) → IsSafe {A = A} P (err (refused r))
  IsSafe-refused r h = absurd (ground (arith, h))

  pub IsSafe-bind :
      {A B : Type 0} (r : Result Stop A) (f : A → Result Stop B)
      → IsSafe P r
      → ((a : A) → r ≡ ok a → IsSafe P (f a))
      → IsSafe P (r >>= f)
  IsSafe-bind (ok a) f first next = next a refl
  IsSafe-bind (err e) f first next = λ h. first (ground (arith, h))

  pub IsSafe-unwrap : {A : Type 0} (o : Option A) → ((a : A) × (o ≡ some a)) → IsSafe P (unwrap o)
  IsSafe-unwrap o (a, e) = simp e (IsSafe-ok a)

  pub IsSafe-ok_or : {A : Type 0} (o : Option A) (r : Refusal) → IsSafe P (ok_or o (refused r))
  IsSafe-ok_or none r h = absurd (ground (arith, h))
  IsSafe-ok_or (some a) r h = absurd (ground (arith, h))

  pub IsSafe-refuse_if : (b : Bool) (r : Refusal) → IsSafe P (refuse_if b (refused r))
  IsSafe-refuse_if true r h = absurd (ground (arith, h))
  IsSafe-refuse_if false r h = absurd (ground (arith, h))

  pub IsSafe-then :
      {A : Type 0} {k : Result Stop A} (b : Bool) (r : Refusal)
      → IsSafe P k
      → IsSafe P (refuse_if b (refused r) >> k)
  IsSafe-then b r next =
      IsSafe-bind (refuse_if b (refused r)) _ (IsSafe-refuse_if b r) (λ _ _. next)
