-- ===== src/Core/Result.antt =====
-- lib/pimc/core/Result.hpp: a value or an error.
pub mod Operations
pub mod Compare

pub data Result {ℓ κ} (A : Type ℓ) (E : Type κ) : Type (ℓ ⊔ κ) where
  ok : A → Result A E
  err : E → Result A E
