-- ===== src/Common/Errors.antt =====
-- What a Python function returns or raises. The exceptions are those that the modelled code, or
-- the database's unique index, raises.
use mathlib.Core.Path.{◌≡◌, refl}
use mathlib.Core.Logic.{◌⊎◌, inl, inr}

pub data Exc : Type 0 where
  value_error type_error runtime_error index_error attribute_error struct_error integrity_error
        not_implemented out_of_fuel :
      Exc

pub data Result {ℓ} (A : Type ℓ) : Type ℓ where
  ok : A → Result A
  raised : Exc → Result A

module _ {ℓ κ} {A : Type ℓ} {B : Type κ} where
  infixl 5 ◌>>=◌
  -- An exception skips what follows.
  abbrev pub ◌>>=◌ : Result A → (A → Result B) → Result B
  raised e >>= next = raised e
  ok a >>= next = next a

  -- Code that returns has returned from its first step, and from the rest.
  pub >>=-eq-ok :
      (step : Result A) (next : A → Result B) {returned : B}
      → (step >>= next) ≡ ok returned
      → (mid : A) × (step ≡ ok mid) × (next mid ≡ ok returned)
  >>=-eq-ok (raised e) next h = cc
  >>=-eq-ok (ok mid) next h = (mid, refl, h)

pub Result-cases {ℓ} :
    {A : Type ℓ} (r : Result A) → ((e : Exc) × (r ≡ raised e)) ⊎ ((a : A) × (r ≡ ok a))
Result-cases (raised e) = inl (e, refl)
Result-cases (ok a) = inr (a, refl)

pub ok_injective {ℓ} : {A : Type ℓ} {a b : A} → ok a ≡ ok b → a ≡ b
ok_injective h = cc
