-- ===== src/Prelude/Result.antt =====
-- Python exceptions as values, and methods that change an object and may raise.
use mathlib.Core.Path.{◌≡◌, refl}
use mathlib.Core.Logic.{◌⊎◌, inl, inr}
use mathlib.Core.List.{List}
use Prim.Native.Nat.{ℕ}

-- The exceptions that the modelled code raises or lets through. `out_of_fuel` is no Python
-- exception: it marks a loop of the model that used up its rounds. A CallbackException and a
-- CoreException carry their texts.
pub data Error : Type 0 where
  decoder_error protocol_error eof_error value_error assertion_error : Error
  index_error unicode_error runtime_error type_error attribute_error key_error : Error
  out_of_fuel : Error
  callback_error : List ℕ → Error
  core_error : List ℕ → List ℕ → Error

pub data Result {ℓ} (A : Type ℓ) : Type ℓ where
  ok : A → Result A
  err : Error → Result A

infixl 5 ◌>>=◌
-- A raise skips the rest of the block.
abbrev pub ◌>>=◌ {ℓ κ} : {A : Type ℓ} {B : Type κ} → Result A → (A → Result B) → Result B
◌>>=◌ (err raised) rest = err raised
◌>>=◌ (ok value) rest = rest value

pub Result-cases {ℓ} :
    {A : Type ℓ} (r : Result A) → ((a : A) × (r ≡ ok a)) ⊎ ((e : Error) × (r ≡ err e))
Result-cases (ok a) = inl (a, refl)
Result-cases (err e) = inr (e, refl)
