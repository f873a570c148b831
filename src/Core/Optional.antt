-- ===== src/Core/Optional.antt =====
-- lib/pimc/core/Optional.hpp: what looks at an optional value or transforms it, and the comparisons of two
-- of them and of one with a value. The empty one comes before every value.
use pimc_toolkit.Common.{
  ◌≡◌, refl, Bool, true, false, not, ◌&&◌, ◌||◌, Option, none, some, Run, done, fault,
}
use pimc_toolkit.Core.Order.{Comparison, IsTotalOrder, Answers, answers, before, behind}

module _ {ℓ} {T : Type ℓ} where
  abbrev pub has_value : Option T → Bool
  has_value (some t) = true
  has_value none = false

  -- Undefined, where there is no value.
  unfoldable pub value : Option T → Run T
  value (some t) = done t
  value none = fault

  unfoldable pub value_or : T → Option T → T
  value_or default_value (some t) = t
  value_or default_value none = default_value

  unfoldable pub flat_map {μ} : {U : Type μ} → (T → Option U) → Option T → Option U
  flat_map f (some t) = f t
  flat_map f none = none

  unfoldable pub map {μ} : {U : Type μ} → (T → U) → Option T → Option U
  map f (some t) = some (f t)
  map f none = none

  -- `swap`: both afterwards.
  unfoldable pub swap : Option T → Option T → Option T × Option T
  swap (some a) (some b) = (some b, some a)
  swap none none = (none, none)
  swap (some a) none = (none, some a)
  swap none (some b) = (some b, none)

module _ {ℓ} {T : Type ℓ} (t : Comparison T) where
  abbrev pub eq : Option T → Option T → Bool
  eq (some a) (some b) = t.eq a b
  eq none none = true
  eq (some a) none = false
  eq none (some b) = false

  abbrev pub ne : Option T → Option T → Bool
  ne (some a) (some b) = t.ne a b
  ne none none = false
  ne (some a) none = true
  ne none (some b) = true

  abbrev pub lt : Option T → Option T → Bool
  lt (some a) (some b) = t.lt a b
  lt none none = false
  lt (some a) none = false
  lt none (some b) = true

  abbrev pub le : Option T → Option T → Bool
  le (some a) (some b) = t.le a b
  le none none = true
  le (some a) none = false
  le none (some b) = true

  abbrev pub gt : Option T → Option T → Bool
  gt (some a) (some b) = t.gt a b
  gt none none = false
  gt (some a) none = true
  gt none (some b) = false

  abbrev pub ge : Option T → Option T → Bool
  ge (some a) (some b) = t.ge a b
  ge none none = true
  ge (some a) none = true
  ge none (some b) = false

  abbrev pub comparison : Comparison (Option T)
  comparison = record { eq = eq; ne = ne; lt = lt; le = le; gt = gt; ge = ge }

  -- An optional value and a value, with the optional one on the left and on the right.
  abbrev pub value_answers : Option T → T → Answers × Answers
  value_answers (some a) v = (answers t a v, answers t v a)
  value_answers none v = (before, behind)

  value_answers_lem :
      (a : Option T) (v : T)
      → value_answers a v ≡ (answers comparison a (some v), answers comparison (some v) a)
  value_answers_lem (some a) v = refl
  value_answers_lem none v = refl

  module _ (order : IsTotalOrder t) where
    eq_self : (a : Option T) → eq a a ≡ true
    eq_self (some a) = order.eq_self a
    eq_self none = refl

    ne_not : (a b : Option T) → ne a b ≡ not (eq a b)
    ne_not (some a) (some b) = order.ne_not a b
    ne_not none none = refl
    ne_not (some a) none = refl
    ne_not none (some b) = refl

    gt_swap : (a b : Option T) → gt a b ≡ lt b a
    gt_swap (some a) (some b) = order.gt_swap a b
    gt_swap none none = refl
    gt_swap (some a) none = refl
    gt_swap none (some b) = refl

    ge_swap : (a b : Option T) → ge a b ≡ le b a
    ge_swap (some a) (some b) = order.ge_swap a b
    ge_swap none none = refl
    ge_swap (some a) none = refl
    ge_swap none (some b) = refl

    le_either : (a b : Option T) → le a b ≡ (lt a b || eq a b)
    le_either (some a) (some b) = order.le_either a b
    le_either none none = refl
    le_either (some a) none = refl
    le_either none (some b) = refl

    le_total : (a b : Option T) → le a b ≡ not (lt b a)
    le_total (some a) (some b) = order.le_total a b
    le_total none none = refl
    le_total (some a) none = refl
    le_total none (some b) = refl

    known : (a : Bool) → (not (a && false) || false) ≡ true
    known true = refl
    known false = refl

    implied : (a : Bool) → (not a || true) ≡ true
    implied true = refl
    implied false = refl

    lt_trans : (a b d : Option T) → (not (lt a b && lt b d) || lt a d) ≡ true
    lt_trans (some a) (some b) (some d) = order.lt_trans a b d
    lt_trans none none none = refl
    lt_trans (some a) (some b) none = known (t.lt a b)
    lt_trans (some a) none (some d) = refl
    lt_trans (some a) none none = refl
    lt_trans none (some b) (some d) = implied (true && t.lt b d)
    lt_trans none (some b) none = refl
    lt_trans none none (some d) = refl

    -- Where the comparisons of the values belong to a total order, those of optional values belong to a
    -- total order, and those of an optional value with a value, on either side, answer as those with the
    -- optional value that holds it.
    pub optional_comparison_lem :
        IsTotalOrder comparison
        × ((a : Option T) (v : T)
            → value_answers a v ≡ (answers comparison a (some v), answers comparison (some v) a))
    optional_comparison_lem = (
      record {
        eq_self = eq_self;
        ne_not = ne_not;
        gt_swap = gt_swap;
        ge_swap = ge_swap;
        le_either = le_either;
        le_total = le_total;
        lt_trans = lt_trans;
      },
      value_answers_lem,
    )
