-- ===== src/Events/Utf8/Drain.antt =====
-- That `drain_decodable` reads what is pending, with the fuel that it is given.
use qingzhou_ssh.Prelude.{
  ℕ, zero, suc, ◌+◌, ◌-◌, ◌*◌, ◌≤◌, ◌<◌, ◌≡◌, refl, sym, ap, subst, ◌∙◌, Bool, true, false, ◌&&◌,
  List, [], ◌∷◌, ◌++◌, length, arith, leb, ltb, ◌==◌, if◌then◌else◌,
}
use qingzhou_ssh.Events.Split.{append_nil, append_assoc}
use qingzhou_ssh.Events.Utf8.{
  Decoded, whole, wrong, short, decode_tail, decode_second, decode_one, replacement, Utf8Check,
  all_valid, fails, ends, with_char, check_utf8, prefixed, drain_decodable,
}
use qingzhou_ssh.Events.Utf8.Reads.{Reads, stop, char, bad}

-- What follows the first sequence has at most so many bytes.
abbrev FewLeft : Decoded → ℕ → Type 0
FewLeft (whole c rest) n = length rest ≤ n
FewLeft (wrong rest) n = length rest ≤ n
FewLeft short n = Unit {0}

record Leaves (d : Decoded) (n : ℕ) : Type 0 where
  holds : FewLeft d n

if-Leaves :
    (test : Bool) {a b : Decoded} {n : ℕ}
    → Leaves a n
    → Leaves b n
    → Leaves (if test then a else b) n
if-Leaves true h k = h
if-Leaves false h k = k

more-Leaves : (d : Decoded) (n : ℕ) → Leaves d n → Leaves d (suc n)
more-Leaves (whole c rest) n h = record { holds = omega (arith, h.holds) }
more-Leaves (wrong rest) n h = record { holds = omega (arith, h.holds) }
more-Leaves short n h = record { holds = tt }

tail-Leaves : (n value : ℕ) (bs : List ℕ) → Leaves (decode_tail n value bs) (length bs)
tail-Leaves zero value bs = record { holds = omega arith }
tail-Leaves (suc n) value [] = record { holds = tt }
tail-Leaves (suc n) value (b ∷ bs) =
    if-Leaves (leb 0x80 b && leb b 0xBF)
      (more-Leaves _ _ (tail-Leaves n (value * 64 + (b - 0x80)) bs))
      (record { holds = omega arith })

second-Leaves :
    (low high n value : ℕ) (bs : List ℕ) → Leaves (decode_second low high n value bs) (length bs)
second-Leaves low high n value [] = record { holds = tt }
second-Leaves low high n value (b ∷ bs) =
    if-Leaves (leb low b && leb b high)
      (more-Leaves _ _ (tail-Leaves n (value * 64 + (b - 0x80)) bs))
      (record { holds = omega arith })

one-Leaves : (b : ℕ) (bs : List ℕ) → Leaves (decode_one (b ∷ bs)) (length bs)
unfolding decode_one
one-Leaves b bs =
    if-Leaves (ltb b 0x80) (record { holds = omega arith })
      (if-Leaves (leb 0xC2 b && leb b 0xDF) (second-Leaves 0x80 0xBF 0 (b - 0xC0) bs) (
        if-Leaves (b == 0xE0) (second-Leaves 0xA0 0xBF 1 0 bs) (
          if-Leaves (b == 0xED) (second-Leaves 0x80 0x9F 1 13 bs) (
            if-Leaves (leb 0xE1 b && leb b 0xEF) (second-Leaves 0x80 0xBF 1 (b - 0xE0) bs) (
              if-Leaves (b == 0xF0) (second-Leaves 0x90 0xBF 2 0 bs) (
                if-Leaves (leb 0xF1 b && leb b 0xF3) (second-Leaves 0x80 0xBF 2 (b - 0xF0) bs) (
                  if-Leaves (b == 0xF4) (second-Leaves 0x80 0x8F 2 4 bs)
                    (record { holds = omega arith }))))))))

-- What a check tells of the bytes.
abbrev Tells : List ℕ → Utf8Check → Type 0
Tells bs (all_valid text) = Reads bs text []
Tells bs (fails text rest) =
    (length rest < length bs)
    × ((u l : List ℕ) → Reads rest u l → Reads bs (text ++ (replacement ∷ u)) l)
Tells bs (ends text left) = Reads bs text left × ((b : ℕ) × ((rest : List ℕ) × (left ≡ (b ∷ rest))))

abbrev after_one : ℕ → ℕ → List ℕ → Decoded → Utf8Check
after_one n b bs (whole c rest) = with_char c (check_utf8 n rest)
after_one n b bs (wrong rest) = fails [] rest
after_one n b bs short = ends [] (b ∷ bs)

with_char-Tells :
    (bs rest : List ℕ) (c : ℕ) (r : Utf8Check)
    → decode_one bs ≡ whole c rest
    → length rest < length bs
    → Tells rest r
    → Tells bs (with_char c r)
with_char-Tells bs rest c (all_valid text) h less t = char h t
with_char-Tells bs rest c (fails text left) h less t =
    (omega (arith, less, t.0), λ u l k. char h (t.1 u l k))
with_char-Tells bs rest c (ends text left) h less t = (char h t.0, t.1)

after_one-Tells :
    (n b : ℕ) (bs : List ℕ)
    → length bs ≤ n
    → ((rest : List ℕ) → length rest ≤ n → Tells rest (check_utf8 n rest))
    → (d : Decoded) → decode_one (b ∷ bs) ≡ d
    → Tells (b ∷ bs) (after_one n b bs d)
after_one-Tells n b bs enough told (whole c rest) h =
    let less : length rest ≤ length bs =
      subst (λ d. FewLeft d (length bs)) h (one-Leaves b bs).holds in
    with_char-Tells (b ∷ bs) rest c (check_utf8 n rest) h (omega (arith, less))
      (told rest (omega (arith, less, enough)))
after_one-Tells n b bs enough told (wrong rest) h =
    let less : length rest ≤ length bs =
      subst (λ d. FewLeft d (length bs)) h (one-Leaves b bs).holds in
    (omega (arith, less), λ u l k. bad h k)
after_one-Tells n b bs enough told short h = (stop h, (b, (bs, refl)))

check_utf8-Tells : (n : ℕ) (bs : List ℕ) → length bs ≤ n → Tells bs (check_utf8 n bs)
unfolding check_utf8 decode_one
check_utf8-Tells n [] h = stop refl
check_utf8-Tells zero (b ∷ bs) h = absurd (omega (arith, h))
check_utf8-Tells (suc n) (b ∷ bs) h =
    after_one-Tells n b bs (omega (arith, h)) (check_utf8-Tells n) (decode_one (b ∷ bs)) refl

-- What becomes of the beginning of a character when there is no more.
abbrev pub closing : List ℕ → List ℕ
closing [] = []
closing (b ∷ bs) = replacement ∷ []

abbrev drained_of : Bool → List ℕ → List ℕ → List ℕ × List ℕ
drained_of true text left = (text ++ closing left, [])
drained_of false text left = (text, left)

-- The bytes that are pending were read.
pub record Drained (finish : Bool) (pending : List ℕ) (answer : List ℕ × List ℕ) : Type 0 where
  pub text : List ℕ
  pub left : List ℕ
  pub reads : Reads pending text left
  pub is : answer ≡ drained_of finish text left

after_check_text : Bool → ℕ → Utf8Check → List ℕ × List ℕ
after_check_text finish n (all_valid text) = (text, [])
after_check_text finish n (fails text rest) = prefixed text (drain_decodable n finish rest)
after_check_text finish n (ends text left) =
    if finish then (text ++ (replacement ∷ []), []) else (text, left)

prefixed_of :
    (finish : Bool) (before text left : List ℕ)
    → prefixed before (drained_of finish text left)
      ≡ drained_of finish (before ++ (replacement ∷ text)) left
prefixed_of true before text left =
    ap (λ l. (l, [])) (sym (append_assoc before (replacement ∷ text) (closing left)))
prefixed_of false before text left = refl

after_check-Drained :
    (finish : Bool) (n : ℕ) (pending : List ℕ) (r : Utf8Check)
    → ((rest : List ℕ) → length rest < n → Drained finish rest (drain_decodable n finish rest))
    → length pending < suc n
    → Tells pending r
    → Drained finish pending (after_check_text finish n r)
unfolding after_check_text
after_check-Drained true n pending (all_valid text) rec enough t = record {
  text = text;
  left = [];
  reads = t;
  is = ap (λ l. (l, [])) (sym (append_nil text));
}
after_check-Drained false n pending (all_valid text) rec enough t = record {
  text = text;
  left = [];
  reads = t;
  is = refl;
}
after_check-Drained finish n pending (fails text rest) rec enough t =
    let d = rec rest (omega (arith, enough, t.0)) in
    record {
      text = text ++ (replacement ∷ d.text);
      left = d.left;
      reads = t.1 d.text d.left d.reads;
      is = ap (λ a. prefixed text a) d.is ∙ prefixed_of finish text d.text d.left;
    }
after_check-Drained true n pending (ends text left) rec enough t = record {
  text = text;
  left = left;
  reads = t.0;
  is = ap (λ l. (text ++ l, [])) (ap closing (sym t.1.1.1));
}
after_check-Drained false n pending (ends text left) rec enough t = record {
  text = text;
  left = left;
  reads = t.0;
  is = refl;
}

pub drain_decodable-Drained :
    (n : ℕ) (finish : Bool) (pending : List ℕ)
    → length pending < n
    → Drained finish pending (drain_decodable n finish pending)
unfolding drain_decodable after_check_text
drain_decodable-Drained zero finish pending h = absurd (omega (arith, h))
drain_decodable-Drained (suc n) finish pending h =
    after_check-Drained finish n pending (check_utf8 (length pending) pending)
      (λ rest less. drain_decodable-Drained n finish rest less) h
      (check_utf8-Tells (length pending) pending (omega arith))
