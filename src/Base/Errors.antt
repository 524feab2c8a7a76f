-- ===== src/Base/Errors.antt =====
-- A Go function that returns `(value, error)`: the value, or the error.
use mathlib.Core.Path.{◌≡◌, refl}

module _ {ℓ} where
  pub data Result (E A : Type ℓ) : Type ℓ where
    ok : A → Result E A
    err : E → Result E A

  module _ {E : Type ℓ} where
    -- `if err != nil { return err }` between two calls
    infixl 5 ◌>>=◌
    abbrev pub ◌>>=◌ : {A B : Type ℓ} → Result E A → (A → Result E B) → Result E B
    ◌>>=◌ (err failure) next = err failure
    ◌>>=◌ (ok value) next = next value

    -- What a chain of calls that succeeds has computed on the way.
    pub >>=-eq-ok :
        {A B : Type ℓ} (first : Result E A) (next : A → Result E B) {last : B}
        → (first >>= next) ≡ ok last
        → (value : A) × (first ≡ ok value) × (next value ≡ ok last)
    >>=-eq-ok (err failure) next h = cc
    >>=-eq-ok (ok value) next h = (value, refl, h)

  -- `fmt.Errorf("…: %w", err)`: the error of a call, wrapped
  abbrev pub map_err : {E F A : Type ℓ} → (E → F) → Result E A → Result F A
  map_err around (err failure) = err (around failure)
  map_err around (ok value) = ok value

  pub ok_injective : {E A : Type ℓ} {a b : A} → ◌≡◌ {A = Result E A} (ok a) (ok b) → a ≡ b
  ok_injective h = cc

-- What a call returns that may also panic.
pub data Go {ℓ} (E A : Type ℓ) : Type ℓ where
  ret : A → Go E A
  fail : E → Go E A
  panic : Go E A

module _ {ℓ} {E A : Type ℓ} where
  -- A call that does not panic.
  abbrev pub lifted : Result E A → Go E A
  lifted (ok a) = ret a
  lifted (err e) = fail e

  abbrev pub and_then : {B : Type ℓ} → Go E A → (A → Go E B) → Go E B
  and_then (ret a) next = next a
  and_then (fail e) next = fail e
  and_then panic next = panic
