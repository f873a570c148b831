-- ===== src/Core/Result/Operations.antt =====
-- The operations of lib/pimc/core/Result.hpp that look at a result or transform it; the overloads for
-- constant and for moved objects are one function here.
use pimc_toolkit.Common.{Bool, true, false, Run, done, fault}
use pimc_toolkit.Core.Result.{Result, ok, err}

module _ {ℓ κ} {T : Type ℓ} {E : Type κ} where
  abbrev pub has_value : Result T E → Bool
  has_value (ok t) = true
  has_value (err e) = false

  abbrev pub has_error : Result T E → Bool
  has_error (ok t) = false
  has_error (err e) = true

  -- Undefined, where there is no value.
  unfoldable pub value : Result T E → Run T
  value (ok t) = done t
  value (err e) = fault

  -- Undefined, where there is no error.
  unfoldable pub error : Result T E → Run E
  error (ok t) = fault
  error (err e) = done e

  unfoldable pub value_or : T → Result T E → T
  value_or default_value (ok t) = t
  value_or default_value (err e) = default_value

  unfoldable pub error_or : E → Result T E → E
  error_or default_value (ok t) = default_value
  error_or default_value (err e) = e

  unfoldable pub flat_map {μ} : {U : Type μ} → (T → Result U E) → Result T E → Result U E
  flat_map f (ok t) = f t
  flat_map f (err e) = err e

  unfoldable pub map {μ} : {U : Type μ} → (T → U) → Result T E → Result U E
  map f (ok t) = ok (f t)
  map f (err e) = err e

  unfoldable pub flat_map_error {μ} : {X : Type μ} → (E → Result T X) → Result T E → Result T X
  flat_map_error f (ok t) = ok t
  flat_map_error f (err e) = f e

  unfoldable pub map_error {μ} : {X : Type μ} → (E → X) → Result T E → Result T X
  map_error f (ok t) = ok t
  map_error f (err e) = err (f e)

  -- `swap`: both results afterwards.
  unfoldable pub swap : Result T E → Result T E → Result T E × Result T E
  swap (ok a) (ok b) = (ok b, ok a)
  swap (err a) (err b) = (err b, err a)
  swap (ok a) (err b) = (err b, ok a)
  swap (err a) (ok b) = (ok b, err a)
