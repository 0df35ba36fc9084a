-- ===== src/Base/Results.antt =====
-- `std::result::Result`, and its chaining by `?`.
use mathlib.Core.Path.{◌≡◌, refl}
use mathlib.Core.Bool.{Bool, true, false}
use mathlib.Core.Option.{Option, none, some}

pub data Result {ℓ κ} (E : Type ℓ) (A : Type κ) : Type (ℓ ⊔ κ) where
  ok : A → Result E A
  err : E → Result E A

module _ {ℓ κ μ} {E : Type ℓ} {A : Type κ} {B : Type μ} where
  abbrev pub try : Result E A → (A → Result E B) → Result E B
  try (ok a) f = f a
  try (err e) f = err e

  pub try-eq-ok :
      (m : Result E A) (f : A → Result E B) {b : B}
      → try m f ≡ ok b
      → (a : A) × (m ≡ ok a) × (f a ≡ ok b)
  try-eq-ok (ok a) f h = (a, refl, h)
  try-eq-ok (err e) f h = cc

module _ {ℓ κ} {E : Type ℓ} {A : Type κ} where
  abbrev pub ok_or : Option A → E → Result E A
  ok_or none e = err e
  ok_or (some a) e = ok a

  abbrev pub is_ok : Result E A → Bool
  is_ok (ok a) = true
  is_ok (err e) = false

abbrev pub map_err {ℓ κ μ} :
    {E : Type ℓ} {F : Type κ} {A : Type μ} → (E → F) → Result E A → Result F A
map_err f (ok a) = ok a
map_err f (err e) = err (f e)

abbrev pub result_or {ℓ κ} : {E : Type ℓ} {A : Type κ} → Result E A → A → A
result_or (ok a) d = a
result_or (err e) d = d
