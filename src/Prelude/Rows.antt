-- ===== src/Prelude/Rows.antt =====
-- A table as a list of rows of any type: `UPDATE ... WHERE`, and how the rows change from one
-- statement to the next.
use mathlib.Core.Path.{◌≡◌, refl, sym, ap, ◌∙◌, subst}
use mathlib.Core.Bool.{Bool, true, false, ◌&&◌}
use mathlib.Core.Option.{some}
use mathlib.Core.List.{List, [], ◌∷◌, ◌++◌, map}
use mathlib.Core.Logic.{inl, inr}
use qingzhou_ssh.Prelude.Tests.{if◌then◌else◌, Bool-cases, some_inj}
use qingzhou_ssh.Prelude.Lists.{All, any, find?}

-- `UPDATE ... SET change WHERE test`.
unfoldable pub update_rows {ℓ} : {A : Type ℓ} → (A → Bool) → (A → A) → List A → List A
update_rows test change rows = map (λ row. if test row then change row else row) rows

-- Row by row `R`, and a row that came at the end, if any, is `New`.
pub data Grows {ℓ} {A : Type ℓ} (R : A → A → Type 0) (New : A → Type 0)
    : List A → List A → Type ℓ where
  done : Grows R New [] []
  comes : {k : A} → New k → Grows R New [] (k ∷ [])
  row : {a b : A} {t t' : List A} → R a b → Grows R New t t' → Grows R New (a ∷ t) (b ∷ t')

module _ {ℓ} {A : Type ℓ} (R : A → A → Type 0) (New : A → Type 0) where
  pub Grows-refl : ((a : A) → R a a) → (t : List A) → Grows R New t t
  Grows-refl r [] = done
  Grows-refl r (a ∷ t) = row (r a) (Grows-refl r t)

  pub Grows-snoc : ((a : A) → R a a) → (t : List A) (k : A) → New k → Grows R New t (t ++ k ∷ [])
  Grows-snoc r [] k h = comes h
  Grows-snoc r (a ∷ t) k h = row (r a) (Grows-snoc r t k h)

  -- An update changes the rows that pass its test.
  pub Grows-update_rows :
      (test : A → Bool) (change : A → A)
      → ((a : A) → R a a)
      → ((a : A) → test a ≡ true → R a (change a))
      → (t : List A) → Grows R New t (update_rows test change t)
  unfolding update_rows
  Grows-update_rows test change r h [] = done
  Grows-update_rows test change r h (a ∷ t) = elim (Bool-cases (test a)) [
    | inl passed ↦ rw passed (row (h a passed) (Grows-update_rows test change r h t))
    | inr kept ↦ rw kept (row (r a) (Grows-update_rows test change r h t))
  ]

  -- What every change keeps, and a new row has, holds of all rows.
  pub Grows-All :
      (P : A → Type 0)
      → ((a b : A) → R a b → P a → P b)
      → ((k : A) → New k → P k)
      → (t t' : List A) → Grows R New t t'
      → All P t
      → All P t'
  Grows-All P keep new _ _ done h = tt
  Grows-All P keep new _ _ (comes {k} n) h = (new k n, tt)
  Grows-All P keep new _ _ (row {a} {b} {t} {t'} r g) h =
      (keep a b r h.0, Grows-All P keep new t t' g h.1)

  -- A row that is found by a test on what no change touches is still found, changed by `R`.
  pub Grows-find? :
      (test : A → Bool)
      → ((a b : A) → R a b → test b ≡ test a)
      → (t t' : List A) (j : A) → Grows R New t t'
      → find? test t ≡ some j
      → (k : A) × (find? test t' ≡ some k) × R j k
  Grows-find? test same _ _ j done h = cc
  Grows-find? test same _ _ j (comes n) h = cc
  Grows-find? test same _ _ j (row {a} {b} {t} {t'} r g) h = elim (Bool-cases (test a)) [
    | inl here ↦
        let there : test b ≡ true = same a b r ∙ here in
        (b, rw there refl, subst (λ x. R x b) (some_inj (rw here at h)) r)
    | inr later ↦
        let not_there : test b ≡ _ = same a b r ∙ later in
        let (k, found, change) = Grows-find? test same t t' j g (rw later at h) in
        (k, rw not_there found, change)
  ]

-- The row that a look-up finds, after an update that changes it but not what the look-up asks.
pub find?-update_rows {ℓ} :
    {A : Type ℓ} (key test : A → Bool) (change : A → A)
    → ((a : A) → key (change a) ≡ key a)
    → (t : List A) (a : A) → find? key t ≡ some a
    → test a ≡ true
    → find? key (update_rows test change t) ≡ some (change a)
unfolding update_rows
find?-update_rows key test change same [] a found passed = cc
find?-update_rows key test change same (b ∷ t) a found passed = elim (Bool-cases (key b)) [
  | inl here ↦
      let this : b ≡ a = some_inj (rw here at found) in
      let b_passed : test b ≡ true = subst (λ x. test x ≡ true) (sym this) passed in
      let there : key (change b) ≡ true = same b ∙ here in
      rw (b_passed, there) (ap (λ x. some (change x)) this)
  | inr later ↦ elim (Bool-cases (test b)) [
    | inl b_passed ↦
        let not_there : key (change b) ≡ false = same b ∙ later in
        rw (b_passed, not_there)
          (find?-update_rows key test change same t a (rw later at found) passed)
    | inr kept ↦
        rw (kept, later) (find?-update_rows key test change same t a (rw later at found) passed)
  ]
]

-- A look-up that finds a row shows that some row is as the one found.
pub any-find? {ℓ} :
    {A : Type ℓ} (key test : A → Bool) (t : List A) (a : A)
    → find? key t ≡ some a
    → test a ≡ true
    → any (λ x. key x && test x) t ≡ true
any-find? key test [] a found passed = cc
any-find? key test (b ∷ t) a found passed = elim (Bool-cases (key b)) [
  | inl here ↦
      let this : b ≡ a = some_inj (rw here at found) in
      rw (here, subst (λ x. test x ≡ true) (sym this) passed) refl
  | inr later ↦ rw (later, any-find? key test t a (rw later at found) passed) refl
]

-- What a look-up finds passes its test.
pub find?-passes {ℓ} :
    {A : Type ℓ} (key : A → Bool) (t : List A) (a : A) → find? key t ≡ some a → key a ≡ true
find?-passes key [] a found = cc
find?-passes key (b ∷ t) a found = elim (Bool-cases (key b)) [
  | inl here ↦ subst (λ x. key x ≡ true) (some_inj (rw here at found)) here
  | inr later ↦ find?-passes key t a (rw later at found)
]
