-- ===== src/Events/Split.antt =====
-- That a split text is in full parts.
use qingzhou_ssh.Prelude.{
  ℕ, ◌+◌, ◌≤◌, ◌<◌, ◌≡◌, refl, sym, subst, ap, ◌∙◌, false, List, [], ◌∷◌, ◌++◌, arith, ltb,
  Bool-cases, inl, inr,
}
use qingzhou_ssh.Prelude.Text.{byte_len, utf8_width}
use qingzhou_ssh.Events.{split_loop, split_utf8}

abbrev pub joined : List (List ℕ) → List ℕ
joined [] = []
joined (part ∷ parts) = part ++ joined parts

-- The first character of what follows would not fit.
abbrev pub NoRoom : ℕ → ℕ → List ℕ → Type 0
NoRoom max_bytes used [] = Unit {0}
NoRoom max_bytes used (c ∷ cs) = max_bytes < used + utf8_width c

-- Parts that are not empty, fit, and have no room for the next character.
pub data Parted (max_bytes : ℕ) : List (List ℕ) → Type 0 where
  done : Parted max_bytes []
  part :
      {p : List ℕ} {parts : List (List ℕ)}
      → 0 < byte_len p
      → byte_len p ≤ max_bytes
      → NoRoom max_bytes (byte_len p) (joined parts)
      → Parted max_bytes parts
      → Parted max_bytes (p ∷ parts)

byte_len-append : (xs ys : List ℕ) → byte_len (xs ++ ys) ≡ byte_len xs + byte_len ys
byte_len-append [] ys = omega arith
byte_len-append (x ∷ xs) ys = omega (arith, byte_len-append xs ys)

utf8_width_bounds : (c : ℕ) → (0 < utf8_width c) × (utf8_width c ≤ 4)
utf8_width_bounds c = ground arith

pub append_assoc : (xs ys zs : List ℕ) → ((xs ++ ys) ++ zs) ≡ (xs ++ (ys ++ zs))
append_assoc [] ys zs = refl
append_assoc (x ∷ xs) ys zs = ap (λ l. x ∷ l) (append_assoc xs ys zs)

pub append_nil : (xs : List ℕ) → (xs ++ []) ≡ xs
append_nil [] = refl
append_nil (x ∷ xs) = ap (λ l. x ∷ l) (append_nil xs)

no_bytes : (xs : List ℕ) → ltb 0 (byte_len xs) ≡ false → xs ≡ []
no_bytes [] h = refl
no_bytes (x ∷ xs) h = absurd (ground (arith, utf8_width_bounds x))

loop_joined :
    (max_bytes : ℕ) (current cs : List ℕ)
    → joined (split_loop max_bytes current cs) ≡ (current ++ cs)
unfolding split_loop
loop_joined max_bytes current [] = elim (Bool-cases (ltb 0 (byte_len current))) [
  | inl some_bytes ↦ rw some_bytes refl
  | inr none_left ↦ rw (none_left, no_bytes current none_left) refl
]
loop_joined max_bytes current (c ∷ cs) =
    elim (Bool-cases (ltb max_bytes (byte_len current + utf8_width c))) [
      | inl full ↦ rw (full, loop_joined max_bytes (c ∷ []) cs) refl
      | inr fits ↦
          rw fits
            (loop_joined max_bytes (current ++ (c ∷ [])) cs ∙ append_assoc current (c ∷ []) cs)
    ]

loop-Parted :
    (max_bytes : ℕ) (current cs : List ℕ)
    → 4 ≤ max_bytes
    → byte_len current ≤ max_bytes
    → Parted max_bytes (split_loop max_bytes current cs)
unfolding split_loop
loop-Parted max_bytes current [] wide fit = elim (Bool-cases (ltb 0 (byte_len current))) [
  | inl some_bytes ↦ rw some_bytes (part (ground arith) fit tt done)
  | inr none_left ↦ rw none_left done
]
loop-Parted max_bytes current (c ∷ cs) wide fit =
    elim (Bool-cases (ltb max_bytes (byte_len current + utf8_width c))) [
      | inl full ↦ rw full (
          part (ground (arith, utf8_width_bounds c)) fit
            (subst (λ l. NoRoom max_bytes (byte_len current) l)
              (sym (loop_joined max_bytes (c ∷ []) cs)) (ground arith))
            (loop-Parted max_bytes (c ∷ []) cs wide (ground (arith, utf8_width_bounds c))))
      | inr fits ↦ rw fits (
          loop-Parted max_bytes (current ++ (c ∷ [])) cs wide
            (ground (arith, byte_len-append current (c ∷ []))))
    ]

-- With at least 4 bytes for a part, a split text is the parts joined; each part is of whole characters,
-- not empty, within the limit, and has no room for the next character.
pub split_utf8-Parted :
    (max_bytes : ℕ) (value : List ℕ)
    → 4 ≤ max_bytes
    → (joined (split_utf8 max_bytes value) ≡ value) × Parted max_bytes (split_utf8 max_bytes value)
unfolding split_utf8
split_utf8-Parted max_bytes [] wide = (refl, done)
split_utf8-Parted max_bytes (c ∷ cs) wide =
    (loop_joined max_bytes [] (c ∷ cs), loop-Parted max_bytes [] (c ∷ cs) wide (omega arith))
