-- ===== src/Workflow/Condition.antt =====
-- src-tauri/src/core/workflows/condition.rs: when a condition node takes its true branch. `V` is
-- serde_json's Value, whose equality, kind and fields are arguments.
pub mod Opposite
use qingzhou_ssh.Prelude.{
  ℕ, String, Bool, true, false, not, ◌&&◌, ◌||◌, Option, none, some, List, [], ◌∷◌, any, all, ltb,
  leb, ◌==◌, if◌then◌else◌,
}
use qingzhou_ssh.Prelude.Text.{byte_len, contains, is_ascii_alphanumeric}
use qingzhou_ssh.Prelude.Result.{ok, err, ◌>>=◌, ◌>>◌}
use qingzhou_ssh.Error.{AppResult, validation}

-- An i32: `negsuc n` is the number - 1 - n.
pub data ℤ : Type 0 where
  pos negsuc : ℕ → ℤ

unfoldable pub ltbℤ : ℤ → ℤ → Bool
ltbℤ (pos a) (pos b) = ltb a b
ltbℤ (pos a) (negsuc b) = false
ltbℤ (negsuc a) (pos b) = true
ltbℤ (negsuc a) (negsuc b) = ltb b a

unfoldable pub eqℤ : ℤ → ℤ → Bool
eqℤ (pos a) (pos b) = a == b
eqℤ (negsuc a) (negsuc b) = a == b
eqℤ _ _ = false

pub data NumericOperator : Type 0 where
  equal not_equal less_than less_than_or_equal greater_than : NumericOperator
  greater_than_or_equal : NumericOperator

pub data EqualityOperator : Type 0 where
  same different : EqualityOperator

pub data WorkflowCondition (V : Type 0) : Type 0 where
  exit_code_is : NumericOperator → ℤ → WorkflowCondition V
  result_field : List ℕ → EqualityOperator → V → WorkflowCondition V
  output_contains : List ℕ → Bool → WorkflowCondition V

pub record ConditionContext (V : Type 0) : Type 0 where
  pub exit_code : Option ℤ
  pub result : Option V
  pub output_summary : Option (List ℕ)

-- `a <= b` on i32.
abbrev pub lebℤ : ℤ → ℤ → Bool
lebℤ a b = not (ltbℤ b a)

unfoldable pub compare_number : ℤ → NumericOperator → ℤ → Bool
unfolding ltbℤ eqℤ
compare_number actual equal expected = eqℤ actual expected
compare_number actual not_equal expected = not (eqℤ actual expected)
compare_number actual less_than expected = ltbℤ actual expected
compare_number actual less_than_or_equal expected = lebℤ actual expected
compare_number actual greater_than expected = ltbℤ expected actual
compare_number actual greater_than_or_equal expected = lebℤ expected actual

abbrev pub cons_to_first : ℕ → List (List ℕ) → List (List ℕ)
cons_to_first c [] = (c ∷ []) ∷ []
cons_to_first c (part ∷ parts) = (c ∷ part) ∷ parts

-- `split`: one part more than there are separators.
unfoldable pub split : ℕ → List ℕ → List (List ℕ)
split separator [] = [] ∷ []
split separator (c ∷ cs) =
    let rest = split separator cs in if c == separator then [] ∷ rest else cons_to_first c rest

-- What a segment of a path must be; a byte of a longer code point is not alphanumeric.
unfoldable pub is_segment : List ℕ → Bool
is_segment segment =
    not (byte_len segment == 0 || ltb 64 (byte_len segment))
    && all (λ c. is_ascii_alphanumeric c || (c == b'_' || c == b'-')) segment

unfoldable pub validate_result_path : List ℕ → AppResult (Unit {0})
unfolding split is_segment
validate_result_path path =
    if byte_len path == 0
      || (ltb 512 (byte_len path) || any (λ segment. not (is_segment segment)) (split b'.' path))
    then err (validation "条件结果字段路径无效")
    else ok tt

abbrev pub text_or_empty : Option (List ℕ) → List ℕ
text_or_empty none = []
text_or_empty (some text) = text

module _ {V : Type 0} (is_scalar : V → Bool) where
  unfoldable pub validate_condition : WorkflowCondition V → AppResult (Unit {0})
  unfolding validate_result_path
  validate_condition (exit_code_is operator value) = ok tt
  validate_condition (result_field path operator value) = do
    validate_result_path path
    if is_scalar value then ok tt else err (validation "条件比较值只能是字符串、数字或布尔值")
  validate_condition (output_contains text negated) =
      if byte_len text == 0 || (ltb 512 (byte_len text) || contains text (0 ∷ []))
      then err (validation "输出条件文本必须为 1 到 512 字节")
      else ok tt

  module _ (field : V → List ℕ → Option V) (equal_values : V → V → Bool) where
    -- `for segment in path.split('.')`.
    unfoldable pub follow : V → List (List ℕ) → AppResult V
    follow actual [] = ok actual
    follow actual (segment ∷ segments) = elim (field actual segment) [
      | none ↦ err (validation "条件结果字段不存在")
      | some inner ↦ follow inner segments
    ]

    abbrev pub compare_value : EqualityOperator → V → V → Bool
    compare_value same actual value = equal_values actual value
    compare_value different actual value = not (equal_values actual value)

    -- The `match`, after the check.
    unfoldable pub evaluate_checked : WorkflowCondition V → ConditionContext V → AppResult Bool
    unfolding compare_number split follow
    evaluate_checked (exit_code_is operator value) context = elim context.exit_code [
      | none ↦ err (validation "条件来源没有退出码")
      | some actual ↦ ok (compare_number actual operator value)
    ]
    evaluate_checked (result_field path operator value) context = elim context.result [
      | none ↦ err (validation "条件来源没有结构化结果")
      | some result ↦
          follow result (split b'.' path) >>= λ actual. ok (compare_value operator actual value)
    ]
    evaluate_checked (output_contains text negated) context =
        let found = contains (text_or_empty context.output_summary) text in
        ok (if negated then not found else found)

    unfoldable pub evaluate_condition : WorkflowCondition V → ConditionContext V → AppResult Bool
    unfolding validate_condition evaluate_checked
    evaluate_condition condition context = do
      validate_condition condition
      evaluate_checked condition context
