-- ===== src/Core/Result/Compare.antt =====
-- The comparisons of lib/pimc/core/Result.hpp: of two results, and of a result with a value or with a
-- failure, which comes before every value.
use pimc_toolkit.Common.{◌≡◌, refl, Bool, true, false, not, ◌&&◌, ◌||◌}
use pimc_toolkit.Core.Result.{Result, ok, err}
use pimc_toolkit.Core.Order.{Comparison, IsTotalOrder, Answers, answers, before, behind}

module _ {ℓ κ} {T : Type ℓ} {E : Type κ} (t : Comparison T) (e : Comparison E) where
  abbrev pub eq : Result T E → Result T E → Bool
  eq (ok a) (ok b) = t.eq a b
  eq (err a) (err b) = e.eq a b
  eq (ok a) (err b) = false
  eq (err a) (ok b) = false

  abbrev pub ne : Result T E → Result T E → Bool
  ne (ok a) (ok b) = t.ne a b
  ne (err a) (err b) = e.ne a b
  ne (ok a) (err b) = true
  ne (err a) (ok b) = true

  abbrev pub lt : Result T E → Result T E → Bool
  lt (ok a) (ok b) = t.lt a b
  lt (err a) (err b) = e.lt a b
  lt (ok a) (err b) = false
  lt (err a) (ok b) = true

  abbrev pub le : Result T E → Result T E → Bool
  le (ok a) (ok b) = t.le a b
  le (err a) (err b) = e.le a b
  le (ok a) (err b) = false
  le (err a) (ok b) = true

  abbrev pub gt : Result T E → Result T E → Bool
  gt (ok a) (ok b) = t.gt a b
  gt (err a) (err b) = e.gt a b
  gt (ok a) (err b) = true
  gt (err a) (ok b) = false

  abbrev pub ge : Result T E → Result T E → Bool
  ge (ok a) (ok b) = t.ge a b
  ge (err a) (err b) = e.ge a b
  ge (ok a) (err b) = true
  ge (err a) (ok b) = false

  abbrev pub comparison : Comparison (Result T E)
  comparison = record { eq = eq; ne = ne; lt = lt; le = le; gt = gt; ge = ge }

  -- A result and a value, with the result on the left and on the right.
  abbrev pub value_answers : Result T E → T → Answers × Answers
  value_answers (ok a) v = (answers t a v, answers t v a)
  value_answers (err a) v = (before, behind)

  -- A result and a failure, with the result on the left and on the right.
  abbrev pub failure_answers : Result T E → E → Answers × Answers
  failure_answers (err a) x = (answers e a x, answers e x a)
  failure_answers (ok a) x = (behind, before)

  value_answers_lem :
      (a : Result T E) (v : T)
      → value_answers a v ≡ (answers comparison a (ok v), answers comparison (ok v) a)
  value_answers_lem (ok a) v = refl
  value_answers_lem (err a) v = refl

  failure_answers_lem :
      (a : Result T E) (x : E)
      → failure_answers a x ≡ (answers comparison a (err x), answers comparison (err x) a)
  failure_answers_lem (ok a) x = refl
  failure_answers_lem (err a) x = refl

  module _ (tt_order : IsTotalOrder t) (ee_order : IsTotalOrder e) where
    eq_self : (a : Result T E) → eq a a ≡ true
    eq_self (ok a) = tt_order.eq_self a
    eq_self (err a) = ee_order.eq_self a

    ne_not : (a b : Result T E) → ne a b ≡ not (eq a b)
    ne_not (ok a) (ok b) = tt_order.ne_not a b
    ne_not (err a) (err b) = ee_order.ne_not a b
    ne_not (ok a) (err b) = refl
    ne_not (err a) (ok b) = refl

    gt_swap : (a b : Result T E) → gt a b ≡ lt b a
    gt_swap (ok a) (ok b) = tt_order.gt_swap a b
    gt_swap (err a) (err b) = ee_order.gt_swap a b
    gt_swap (ok a) (err b) = refl
    gt_swap (err a) (ok b) = refl

    ge_swap : (a b : Result T E) → ge a b ≡ le b a
    ge_swap (ok a) (ok b) = tt_order.ge_swap a b
    ge_swap (err a) (err b) = ee_order.ge_swap a b
    ge_swap (ok a) (err b) = refl
    ge_swap (err a) (ok b) = refl

    le_either : (a b : Result T E) → le a b ≡ (lt a b || eq a b)
    le_either (ok a) (ok b) = tt_order.le_either a b
    le_either (err a) (err b) = ee_order.le_either a b
    le_either (ok a) (err b) = refl
    le_either (err a) (ok b) = refl

    le_total : (a b : Result T E) → le a b ≡ not (lt b a)
    le_total (ok a) (ok b) = tt_order.le_total a b
    le_total (err a) (err b) = ee_order.le_total a b
    le_total (ok a) (err b) = refl
    le_total (err a) (ok b) = refl

    -- Whether both hold is not used, where one is known.
    known : (a : Bool) → (not (a && false) || false) ≡ true
    known true = refl
    known false = refl

    implied : (a : Bool) → (not a || true) ≡ true
    implied true = refl
    implied false = refl

    lt_trans : (a b d : Result T E) → (not (lt a b && lt b d) || lt a d) ≡ true
    lt_trans (ok a) (ok b) (ok d) = tt_order.lt_trans a b d
    lt_trans (err a) (err b) (err d) = ee_order.lt_trans a b d
    lt_trans (ok a) (ok b) (err d) = known (t.lt a b)
    lt_trans (ok a) (err b) (ok d) = refl
    lt_trans (ok a) (err b) (err d) = refl
    lt_trans (err a) (ok b) (ok d) = implied (true && t.lt b d)
    lt_trans (err a) (ok b) (err d) = refl
    lt_trans (err a) (err b) (ok d) = implied (e.lt a b && true)

    comparison-IsTotalOrder : IsTotalOrder comparison
    comparison-IsTotalOrder = record {
      eq_self = eq_self;
      ne_not = ne_not;
      gt_swap = gt_swap;
      ge_swap = ge_swap;
      le_either = le_either;
      le_total = le_total;
      lt_trans = lt_trans;
    }

    -- Where the comparisons of the values and those of the errors belong to a total order each, the
    -- comparisons of results belong to a total order, and those of a result with a value or a failure,
    -- on either side, answer as those with the result that holds it.
    pub result_comparison_lem :
        IsTotalOrder comparison
        × ((a : Result T E) (v : T)
            → value_answers a v ≡ (answers comparison a (ok v), answers comparison (ok v) a))
        × ((a : Result T E) (x : E)
            → failure_answers a x ≡ (answers comparison a (err x), answers comparison (err x) a))
    result_comparison_lem = (comparison-IsTotalOrder, value_answers_lem, failure_answers_lem)
