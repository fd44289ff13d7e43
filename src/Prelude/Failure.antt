-- ===== src/Prelude/Failure.antt =====
-- A call that returns or raises. An operation that may raise returns a `Result`; what it has
-- written before is part of the value, and nothing is written before a raise in the code modelled.
use mathlib.Core.Path.{◌≡◌, refl}
use mathlib.Core.Bool.{Bool, true, false}

-- The exceptions of a model are a type of its own.
pub data Result (Raised Value : Type 0) : Type 0 where
  err : Raised → Result Raised Value
  ok : Value → Result Raised Value

-- `if test: raise reason`
abbrev pub raise_if : {Raised : Type 0} → Bool → Raised → Result Raised (Unit {0})
raise_if false reason = ok tt
raise_if true reason = err reason

module _ {Raised Value : Type 0} where
  infixl 5 ◌>>=◌ ◌>>◌
  -- A call, and the code behind it, which a raise skips.
  abbrev pub ◌>>=◌ :
      {Answer : Type 0}
      → Result Raised Answer
      → (Answer → Result Raised Value)
      → Result Raised Value
  err reason >>= rest = err reason
  ok answer >>= rest = rest answer

  abbrev pub ◌>>◌ : Result Raised (Unit {0}) → Result Raised Value → Result Raised Value
  call >> rest = call >>= λ done. rest

  -- What the return of a call with code behind it says of both.
  pub >>=-eq-ok :
      {Answer : Type 0} (call : Result Raised Answer) (rest : Answer → Result Raised Value)
      {v : Value}
      → (call >>= rest) ≡ ok v
      → (answer : Answer) × (call ≡ ok answer) × (rest answer ≡ ok v)
  >>=-eq-ok (err reason) rest returns = cc
  >>=-eq-ok (ok answer) rest returns = (answer, refl, returns)

  -- What a guarded call that returns says of the guard and of the rest.
  pub raise_if-then :
      (test : Bool) (reason : Raised) (rest : Unit {0} → Result Raised Value) {v : Value}
      → (raise_if test reason >>= rest) ≡ ok v
      → (test ≡ false) × (rest tt ≡ ok v)
  raise_if-then true reason rest returns = cc
  raise_if-then false reason rest returns = (refl, returns)

  pub ok-injective : {v w : Value} → ◌≡◌ {A = Result Raised Value} (ok v) (ok w) → v ≡ w
  ok-injective returns = cc
