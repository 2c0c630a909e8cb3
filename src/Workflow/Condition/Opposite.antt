-- ===== src/Workflow/Condition/Opposite.antt =====
-- A condition and its opposite take opposite branches.
use qingzhou_ssh.Prelude.{ℕ, ◌≡◌, refl, ap, Bool, not, Option, none, some, List, arith}
use qingzhou_ssh.Prelude.Result.{ok, err, ◌>>=◌}
use qingzhou_ssh.Error.{AppResult, validation}
use qingzhou_ssh.Workflow.Condition.{
  ℤ, NumericOperator, equal, not_equal, less_than, less_than_or_equal, greater_than,
  greater_than_or_equal, EqualityOperator, same, different, WorkflowCondition, exit_code_is,
  result_field, output_contains, ConditionContext, compare_number, follow, split,
  validate_condition, evaluate_checked, evaluate_condition, compare_value,
}

abbrev pub opposite_operator : NumericOperator → NumericOperator
opposite_operator equal = not_equal
opposite_operator not_equal = equal
opposite_operator less_than = greater_than_or_equal
opposite_operator less_than_or_equal = greater_than
opposite_operator greater_than = less_than_or_equal
opposite_operator greater_than_or_equal = less_than

abbrev pub opposite_equality : EqualityOperator → EqualityOperator
opposite_equality same = different
opposite_equality different = same

-- Every operator has one with the opposite answer.
compare-opposite :
    (actual : ℤ) (o : NumericOperator) (expected : ℤ)
    → compare_number actual (opposite_operator o) expected ≡ not (compare_number actual o expected)
unfolding compare_number
compare-opposite actual equal expected = refl
compare-opposite actual not_equal expected = ground arith
compare-opposite actual less_than expected = refl
compare-opposite actual less_than_or_equal expected = ground arith
compare-opposite actual greater_than expected = refl
compare-opposite actual greater_than_or_equal expected = ground arith

-- The answer turned round; an error stays as it is.
abbrev pub turned : AppResult Bool → AppResult Bool
turned (ok b) = ok (not b)
turned (err e) = err e

module _ {V : Type 0} where
  abbrev pub opposite : WorkflowCondition V → WorkflowCondition V
  opposite (exit_code_is operator value) = exit_code_is (opposite_operator operator) value
  opposite (result_field path operator value) = result_field path (opposite_equality operator) value
  opposite (output_contains text negated) = output_contains text (not negated)

  module _ (is_scalar : V → Bool) (field : V → List ℕ → Option V)
      (equal_values : V → V → Bool) where
    compare_value-opposite :
        (m : AppResult V) (o : EqualityOperator) (value : V)
        → (m >>= λ actual.
            ok (compare_value is_scalar field equal_values (opposite_equality o) actual value))
          ≡ turned (m >>= λ actual. ok (compare_value is_scalar field equal_values o actual value))
    compare_value-opposite (err e) o value = refl
    compare_value-opposite (ok actual) same value = refl
    compare_value-opposite (ok actual) different value = ground arith

    checked-opposite :
        (c : WorkflowCondition V) (context : ConditionContext V)
        → evaluate_checked is_scalar field equal_values (opposite c) context
          ≡ turned (evaluate_checked is_scalar field equal_values c context)
    unfolding evaluate_checked
    checked-opposite (exit_code_is operator value) context =
        elim context.exit_code
          as (λ x.
            (elim x [
              | none ↦ err (validation "条件来源没有退出码")
              | some actual ↦ ok (compare_number actual (opposite_operator operator) value)
            ])
            ≡ turned (elim x [
              | none ↦ err (validation "条件来源没有退出码")
              | some actual ↦ ok (compare_number actual operator value)
            ])) [ none ↦ refl | some actual ↦ ap ok (compare-opposite actual operator value) ]
    checked-opposite (result_field path operator value) context =
        elim context.result
          as (λ x.
            (elim x [
              | none ↦ err (validation "条件来源没有结构化结果")
              | some result ↦
                  follow is_scalar field equal_values result (split b'.' path) >>= λ actual. ok (
                    compare_value is_scalar field equal_values (opposite_equality operator) actual
                      value)
            ])
            ≡ turned (elim x [
              | none ↦ err (validation "条件来源没有结构化结果")
              | some result ↦
                  follow is_scalar field equal_values result (split b'.' path) >>= λ actual.
                  ok (compare_value is_scalar field equal_values operator actual value)
            ])) [
              | none ↦ refl
              | some result ↦
                  compare_value-opposite
                    (follow is_scalar field equal_values result (split b'.' path)) operator value
            ]
    checked-opposite (output_contains text negated) context = ground arith

    validate-opposite :
        (c : WorkflowCondition V)
        → validate_condition is_scalar (opposite c) ≡ validate_condition is_scalar c
    unfolding validate_condition
    validate-opposite (exit_code_is operator value) = refl
    validate-opposite (result_field path operator value) = refl
    validate-opposite (output_contains text negated) = refl

    after-turned :
        (m : AppResult (Unit {0})) (a b : AppResult Bool)
        → a ≡ turned b
        → (m >>= λ _. a) ≡ turned (m >>= λ _. b)
    after-turned (ok done) a b h = h
    after-turned (err e) a b h = refl

    -- Of a condition and its opposite (the opposite operator, or the other value of `negated`), one is
    -- true where the other is false, and both give the same error where one of them gives an error.
    pub evaluate-opposite :
        (c : WorkflowCondition V) (context : ConditionContext V)
        → evaluate_condition is_scalar field equal_values (opposite c) context
          ≡ turned (evaluate_condition is_scalar field equal_values c context)
    unfolding evaluate_condition
    evaluate-opposite c context =
        rw (validate-opposite c)
          (after-turned (validate_condition is_scalar c) _ _ (checked-opposite c context))
