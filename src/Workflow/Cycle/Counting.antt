-- ===== src/Workflow/Cycle/Counting.antt =====
-- Lists without repetition, by how often a number occurs.
use qingzhou_ssh.Prelude.{
  ℕ, ◌+◌, ◌≤◌, ◌<◌, ◌≡◌, refl, sym, ◌∙◌, subst, Bool, true, false, not, ◌||◌, List, [], ◌∷◌, arith,
  count, filter, length, ltb, ◌==◌, ==_iff, ==_refl, if◌then◌else◌, Bool-cases, inl, inr,
}
use qingzhou_ssh.Workflow.Graph.{is_member}

-- How often `x` occurs.
abbrev pub occurs : ℕ → List ℕ → ℕ
occurs x xs = count (λ y. y == x) xs

pub is_member-occurs : (x : ℕ) (xs : List ℕ) → is_member x xs ≡ ltb 0 (occurs x xs)
unfolding is_member
is_member-occurs x [] = refl
is_member-occurs x (y ∷ xs) = ground (arith, is_member-occurs x xs)

pub is_member_cons : (x y : ℕ) (xs : List ℕ) → is_member x (y ∷ xs) ≡ (y == x || is_member x xs)
unfolding is_member
is_member_cons x y xs = refl

-- The list without `d`.
abbrev pub without : ℕ → List ℕ → List ℕ
without d xs = filter (λ y. not (y == d)) xs

length-without : (d : ℕ) (xs : List ℕ) → length (without d xs) + occurs d xs ≡ length xs
length-without d [] = omega arith
length-without d (y ∷ xs) = ground (arith, length-without d xs)

occurs-without : (x d : ℕ) (xs : List ℕ) → (x == d) ≡ false → occurs x (without d xs) ≡ occurs x xs
occurs-without x d [] h = refl
occurs-without x d (y ∷ xs) h = ground (arith, occurs-without x d xs h)

rest_once : (d x : ℕ) (xs : List ℕ) → occurs x (d ∷ xs) ≤ 1 → occurs x xs ≤ 1
rest_once d x xs h = omega (arith, h)

head_occurs : (d : ℕ) (xs : List ℕ) → 0 < occurs d (d ∷ xs)
head_occurs d xs = rw (==_refl d) omega arith

rest_within :
    (d x : ℕ) (xs ys : List ℕ)
    → occurs x (d ∷ xs) ≤ 1
    → (0 < occurs x (d ∷ xs) → 0 < occurs x ys)
    → 0 < occurs x xs
    → 0 < occurs x (without d ys)
rest_within d x xs ys once within h = elim (Bool-cases (d == x)) [
  | inl same ↦ absurd (ground (arith, (rw same at once), h))
  | inr other ↦
      let away : (x == d) ≡ false = ground arith in
      rw (occurs-without x d ys away) (within (rw other (omega (arith, h))))
]

pub fresh_once : (x y : ℕ) (xs : List ℕ) → occurs x xs ≡ 0 → occurs y xs ≤ 1 → occurs y (x ∷ xs) ≤ 1
fresh_once x y xs fresh once = elim (Bool-cases (x == y)) [
  | inl same ↦
      let none_yet : occurs y xs ≡ 0 = subst (λ z. occurs z xs ≡ 0) ((==_iff x y).0 same) fresh in
      rw (same, none_yet) omega arith
  | inr other ↦ rw other (omega (arith, once))
]

pub fresh_within :
    (x y : ℕ) (xs ys : List ℕ)
    → 0 < occurs x ys
    → (0 < occurs y xs → 0 < occurs y ys)
    → 0 < occurs y (x ∷ xs)
    → 0 < occurs y ys
fresh_within x y xs ys there within h = elim (Bool-cases (x == y)) [
  | inl same ↦ subst (λ z. 0 < occurs z ys) ((==_iff x y).0 same) there
  | inr other ↦ within (omega (arith, (rw other at h)))
]

-- A list without repetition is no longer than a list that has all its elements.
pub length-le :
    (xs ys : List ℕ)
    → ((x : ℕ) → occurs x xs ≤ 1)
    → ((x : ℕ) → 0 < occurs x xs → 0 < occurs x ys)
    → length xs ≤ length ys
length-le [] ys once within = omega arith
length-le (d ∷ xs) ys once within =
    let shorter : length xs ≤ length (without d ys) =
      length-le xs (without d ys) (λ x. rest_once d x xs (once x))
        (λ x h. rest_within d x xs ys (once x) (within x) h) in
    omega (arith, shorter, length-without d ys, within d (head_occurs d xs))

-- If it is as long, it has all of them.
pub all_occur :
    (xs ys : List ℕ) (x : ℕ)
    → ((y : ℕ) → occurs y xs ≤ 1)
    → ((y : ℕ) → 0 < occurs y xs → 0 < occurs y ys)
    → length ys ≤ length xs
    → 0 < occurs x ys
    → 0 < occurs x xs
all_occur xs ys x once within long h = elim (Bool-cases (ltb 0 (occurs x xs))) [
  | inl found ↦ ground (arith, found)
  | inr missing ↦
      let fresh : occurs x xs ≡ 0 = ground (arith, missing) in
      absurd (
        omega (
          arith,
          long,
          length-le (x ∷ xs) ys (λ y. fresh_once x y xs fresh (once y))
              (λ y k. fresh_within x y xs ys h (within y) k),
        ))
]

pub member_if_occurs : (x : ℕ) (xs : List ℕ) → 0 < occurs x xs → is_member x xs ≡ true
member_if_occurs x xs h = is_member-occurs x xs ∙ ground (arith, h)

pub occurs_if_member : (x : ℕ) (xs : List ℕ) → is_member x xs ≡ true → 0 < occurs x xs
occurs_if_member x xs h = ground (arith, (sym (is_member-occurs x xs) ∙ h))

pub occurs-filter-le :
    (test : ℕ → Bool) (x : ℕ) (xs : List ℕ) → occurs x (filter test xs) ≤ occurs x xs
occurs-filter-le test x [] = omega arith
occurs-filter-le test x (y ∷ xs) = ground (arith, occurs-filter-le test x xs)

pub occurs-filter_passed :
    (test : ℕ → Bool) (x : ℕ) (xs : List ℕ) → 0 < occurs x (filter test xs) → test x ≡ true
occurs-filter_passed test x [] h = absurd (omega (arith, h))
occurs-filter_passed test x (y ∷ xs) h = elim (Bool-cases (test y)) [
  | inr no_test ↦ occurs-filter_passed test x xs (rw no_test at h)
  | inl passed ↦ elim (Bool-cases (y == x)) [
    | inl same ↦ subst (λ z. test z ≡ true) ((==_iff y x).0 same) passed
    | inr other ↦
        let later : 0 < (if y == x then 1 else 0) + occurs x (filter test xs) = rw passed at h in
        occurs-filter_passed test x xs (omega (arith, (rw other at later)))
  ]
]
