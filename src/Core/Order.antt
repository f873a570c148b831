-- ===== src/Core/Order.antt =====
-- The comparisons that lib/pimc/core/Result.hpp and Optional.hpp ask of the types that they hold
-- (`std::totally_ordered_with`), and what these mean.
use pimc_toolkit.Common.{◌≡◌, Bool, true, false, not, ◌&&◌, ◌||◌}

pub record Comparison {ℓ} (A : Type ℓ) : Type ℓ where
  pub eq : A → A → Bool
  pub ne : A → A → Bool
  pub lt : A → A → Bool
  pub le : A → A → Bool
  pub gt : A → A → Bool
  pub ge : A → A → Bool

pub record IsTotalOrder {ℓ} {A : Type ℓ} (c : Comparison A) : Type ℓ where
  pub eq_self : (a : A) → c.eq a a ≡ true
  pub ne_not : (a b : A) → c.ne a b ≡ not (c.eq a b)
  pub gt_swap : (a b : A) → c.gt a b ≡ c.lt b a
  pub ge_swap : (a b : A) → c.ge a b ≡ c.le b a
  pub le_either : (a b : A) → c.le a b ≡ (c.lt a b || c.eq a b)
  pub le_total : (a b : A) → c.le a b ≡ not (c.lt b a)
  pub lt_trans : (a b d : A) → (not (c.lt a b && c.lt b d) || c.lt a d) ≡ true

-- The answers of the six comparisons.
pub record Answers : Type 0 where
  pub eq : Bool
  pub ne : Bool
  pub lt : Bool
  pub le : Bool
  pub gt : Bool
  pub ge : Bool

abbrev pub answers {ℓ} : {A : Type ℓ} → Comparison A → A → A → Answers
answers c a b = record {
  eq = c.eq a b;
  ne = c.ne a b;
  lt = c.lt a b;
  le = c.le a b;
  gt = c.gt a b;
  ge = c.ge a b;
}

-- Where the left side is the smaller one, and where it is the greater one.
abbrev pub before : Answers
before = record { eq = false; ne = true; lt = true; le = true; gt = false; ge = false }

abbrev pub behind : Answers
behind = record { eq = false; ne = true; lt = false; le = false; gt = true; ge = true }
