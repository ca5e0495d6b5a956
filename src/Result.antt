-- ===== src/Result.antt =====
-- What a Go function that returns (value, error) does: it returns a value or an error, or it panics.
use c_ray.Prelude.{Option, inl, inr, none, refl, some, ◌≡◌, ◌≢◌, ◌⊎◌}

pub data Result {ℓ κ} (Error : Type κ) (Value : Type ℓ) : Type (ℓ ⊔ κ) where
  panic : Result Error Value
  err : Error → Result Error Value
  ok : Value → Result Error Value

-- `if err != nil { return nil, e }`.
abbrev pub or_fail {ℓ κ} :
    {Error : Type κ} {Value : Type ℓ} → Error → Option Value → Result Error Value
or_fail failure none = err failure
or_fail failure (some value) = ok value

module _ {ℓ κ} {Error : Type κ} {Value Next : Type ℓ} where
  -- A panic or an error ends the caller.
  infixl 5 ◌>>=◌
  abbrev pub ◌>>=◌ : Result Error Value → (Value → Result Error Next) → Result Error Next
  panic >>= continue = panic
  err failure >>= continue = err failure
  ok value >>= continue = continue value

  -- Inversion of a successful bind.
  pub >>=-eq-ok :
      (first : Result Error Value) (continue : Value → Result Error Next) {result : Next}
      → (first >>= continue) ≡ ok result
      → (value : Value) × (first ≡ ok value) × (continue value ≡ ok result)
  >>=-eq-ok panic continue done = cc
  >>=-eq-ok (err failure) continue done = cc
  >>=-eq-ok (ok value) continue done = (value, refl, done)

pub ok-injective {ℓ κ} :
    {Error : Type κ} {Value : Type ℓ} {x y : Value}
    → ◌≡◌ {A = Result Error Value} (ok x) (ok y)
    → x ≡ y
ok-injective same = cc

-- A result that is computed is one of the three.
pub Result-cases {ℓ κ} :
    {Error : Type κ} {Value : Type ℓ} (r : Result Error Value)
    → (r ≡ panic) ⊎ (((e : Error) × (r ≡ err e)) ⊎ ((value : Value) × (r ≡ ok value)))
Result-cases panic = inl refl
Result-cases (err e) = inr (inl (e, refl))
Result-cases (ok value) = inr (inr (value, refl))

pub ok≢panic {ℓ κ} :
    {Error : Type κ} {Value : Type ℓ} {x : Value} → ◌≢◌ {A = Result Error Value} panic (ok x)
ok≢panic same = cc
