-- ===== src/Error/Cut/Longest.antt =====
-- The cut of a text is its longest beginning that fits.
use qingzhou_ssh.Prelude.{
  ℕ, zero, suc, ◌+◌, ◌-◌, ◌≤◌, ◌<◌, ◌≡◌, refl, sym, ap, subst, inl, inr, true, false, List, [], ◌∷◌,
  ◌++◌, arith, ltb, ◌==◌, ==_iff, if◌then◌else◌, Bool-cases,
}
use qingzhou_ssh.Prelude.Text.{byte_len, utf8_width}
use qingzhou_ssh.Error.Cut.{is_char_boundary, boundary_below, truncate, cut}

width_positive : (c : ℕ) → 0 < utf8_width c
width_positive c = ground arith

boundary_below_fits : (cs : List ℕ) (b : ℕ) → boundary_below cs b ≤ b
unfolding boundary_below
boundary_below_fits cs zero = omega arith
boundary_below_fits cs (suc b) = ground (arith, boundary_below_fits cs b)

zero_is_boundary : (cs : List ℕ) → is_char_boundary cs 0 ≡ true
unfolding is_char_boundary
zero_is_boundary [] = refl
zero_is_boundary (c ∷ cs) = refl

boundary_below_is_boundary :
    (cs : List ℕ) (b : ℕ) → is_char_boundary cs (boundary_below cs b) ≡ true
unfolding boundary_below
boundary_below_is_boundary cs zero = zero_is_boundary cs
boundary_below_is_boundary cs (suc b) = elim (Bool-cases (is_char_boundary cs (suc b))) [
  | inl at ↦ rw at at
  | inr between ↦ rw between (boundary_below_is_boundary cs b)
]

boundary_below_greatest :
    (cs : List ℕ) (b k : ℕ) → is_char_boundary cs k ≡ true → k ≤ b → k ≤ boundary_below cs b
unfolding boundary_below
boundary_below_greatest cs zero k h l = omega (arith, l)
boundary_below_greatest cs (suc b) k h l = elim (Bool-cases (is_char_boundary cs (suc b))) [
  | inl at ↦ rw at l
  | inr between ↦ elim (Bool-cases (k == suc b)) [
    | inl same ↦
        absurd (
          ground (arith, (subst (λ x. is_char_boundary cs x ≡ true) ((==_iff k (suc b)).0 same) h)))
    | inr less ↦ rw between (boundary_below_greatest cs b k h (ground arith))
  ]
]

past_first : (w n : ℕ) → 0 < w → ((w + n == 0) ≡ false) × (ltb (w + n) w ≡ false) × (w + n - w ≡ n)
past_first w n h = (ground (arith, h), ground arith, omega arith)

within_rest : (w b : ℕ) → ltb b w ≡ false → w + (b - w) ≡ b
within_rest w b h = ground arith

cons_boundary :
    (c n : ℕ) (cs : List ℕ)
    → is_char_boundary cs n ≡ true
    → is_char_boundary (c ∷ cs) (utf8_width c + n) ≡ true
unfolding is_char_boundary
cons_boundary c n cs h =
    let past = past_first (utf8_width c) n (width_positive c) in rw (past.0, past.1, past.2) h

prefix_is_boundary : (p q : List ℕ) → is_char_boundary (p ++ q) (byte_len p) ≡ true
prefix_is_boundary [] q = zero_is_boundary q
prefix_is_boundary (c ∷ p) q = cons_boundary c (byte_len p) (p ++ q) (prefix_is_boundary p q)

truncate_lem :
    (cs : List ℕ) (b : ℕ)
    → is_char_boundary cs b ≡ true
    → (byte_len (truncate cs b) ≡ b) × (rest : List ℕ) × (cs ≡ truncate cs b ++ rest)
unfolding is_char_boundary truncate
truncate_lem [] b h = (ground arith, [], refl)
truncate_lem (c ∷ cs) b h = elim (Bool-cases (b == 0)) [
  | inl none_left ↦ (rw none_left (sym ((==_iff b 0).0 none_left)), c ∷ cs, rw none_left refl)
  | inr some_left ↦ elim (Bool-cases (ltb b (utf8_width c))) [
    | inl inside ↦ absurd (ground (arith, (rw (some_left, inside) at h)))
    | inr past ↦
        let (len, rest, same) = truncate_lem cs (b - utf8_width c) (rw (some_left, past) at h) in
        (
          rw (some_left, len) (within_rest (utf8_width c) b past),
          rest,
          rw some_left (ap (λ x. c ∷ x) same),
        )
  ]
]

cut_long :
    (n : ℕ) (cs : List ℕ)
    → ltb n (byte_len cs) ≡ true
    → cut n cs ≡ truncate cs (boundary_below cs n)
unfolding cut
cut_long n cs h = ap (λ t. if t then truncate cs (boundary_below cs n) else cs) h

cut_short : (n : ℕ) (cs : List ℕ) → ltb n (byte_len cs) ≡ false → cut n cs ≡ cs
unfolding cut
cut_short n cs h = ap (λ t. if t then truncate cs (boundary_below cs n) else cs) h

byte_len-append : (p q : List ℕ) → byte_len (p ++ q) ≡ byte_len p + byte_len q
byte_len-append [] q = omega arith
byte_len-append (c ∷ p) q = omega (arith, byte_len-append p q)

append_nil : (cs : List ℕ) → cs ≡ cs ++ []
append_nil [] = refl
append_nil (c ∷ cs) = ap (λ x. c ∷ x) (append_nil cs)

-- The cut of a text at `n` bytes is a beginning of it, has at most `n` bytes, and is as long as any
-- beginning `p` that has at most `n` bytes: no character is split, and none is lost without need.
pub cut_longest :
    (n : ℕ) (p q : List ℕ)
    → byte_len p ≤ n
    → (byte_len (cut n (p ++ q)) ≤ n)
      × (byte_len p ≤ byte_len (cut n (p ++ q)))
      × (rest : List ℕ) × (p ++ q ≡ cut n (p ++ q) ++ rest)
cut_longest n p q fits = elim (Bool-cases (ltb n (byte_len (p ++ q)))) [
  | inl long ↦
      let b = boundary_below (p ++ q) n in
      let (len, rest, same) = truncate_lem (p ++ q) b (boundary_below_is_boundary (p ++ q) n) in
      let greatest =
        boundary_below_greatest (p ++ q) n (byte_len p) (prefix_is_boundary p q) fits in
      rw (cut_long n (p ++ q) long, len) (boundary_below_fits (p ++ q) n, greatest, rest, same)
  | inr short ↦
      rw (cut_short n (p ++ q) short)
        (ground arith, omega (arith, byte_len-append p q), [], append_nil (p ++ q))
]
