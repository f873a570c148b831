-- ===== src/Core/Examples.antt =====
-- Results that hold numbers, and the theorem on their comparisons there.
use pimc_toolkit.Common.{ℕ, ◌≡◌, refl, not, ltb, leb, ◌==◌, arith}
use pimc_toolkit.Core.Order.{Comparison, IsTotalOrder, answers}
use pimc_toolkit.Core.Result.{Result, ok, err}
use pimc_toolkit.Core.Result.Compare.{
  comparison, value_answers, failure_answers, result_comparison_lem,
}

abbrev numbers : Comparison ℕ
numbers = record {
  eq = λ a b. a == b;
  ne = λ a b. not (a == b);
  lt = ltb;
  le = leb;
  gt = λ a b. ltb b a;
  ge = λ a b. leb b a;
}

numbers-IsTotalOrder : IsTotalOrder numbers
numbers-IsTotalOrder = record {
  eq_self = λ a. ground arith;
  ne_not = λ a b. refl;
  gt_swap = λ a b. refl;
  ge_swap = λ a b. refl;
  le_either = λ a b. ground arith;
  le_total = λ a b. ground arith;
  lt_trans = λ a b d. ground arith;
}

result_comparison_lem_example :
    IsTotalOrder (comparison numbers numbers)
    × ((a : Result ℕ ℕ) (v : ℕ)
        → value_answers numbers numbers a v ≡ (
          answers (comparison numbers numbers) a (ok v),
          answers (comparison numbers numbers) (ok v) a,
        ))
    × ((a : Result ℕ ℕ) (x : ℕ)
        → failure_answers numbers numbers a x ≡ (
          answers (comparison numbers numbers) a (err x),
          answers (comparison numbers numbers) (err x) a,
        ))
result_comparison_lem_example =
    result_comparison_lem numbers numbers numbers-IsTotalOrder numbers-IsTotalOrder
