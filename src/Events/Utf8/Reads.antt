-- ===== src/Events/Utf8/Reads.antt =====
-- How bytes read as text, character by character, and that more bytes after them change nothing of it.
use qingzhou_ssh.Prelude.{
  ℕ, zero, suc, ◌+◌, ◌-◌, ◌*◌, ◌≡◌, refl, subst, Bool, true, false, ◌&&◌, List, [], ◌∷◌, ◌++◌, leb,
  ltb, ◌==◌, if◌then◌else◌,
}
use qingzhou_ssh.Events.Utf8.{
  Decoded, whole, wrong, short, decode_tail, decode_second, decode_one, replacement,
}

-- The bytes read as this text, and what is left is at most the beginning of a character.
pub data Reads : List ℕ → List ℕ → List ℕ → Type 0 where
  stop : {bs : List ℕ} → decode_one bs ≡ short → Reads bs [] bs
  char :
      {bs rest text left : List ℕ} {c : ℕ}
      → decode_one bs ≡ whole c rest
      → Reads rest text left
      → Reads bs (c ∷ text) left
  bad :
      {bs rest text left : List ℕ}
      → decode_one bs ≡ wrong rest
      → Reads rest text left
      → Reads bs (replacement ∷ text) left

-- What is known once the first sequence is complete.
abbrev IsExtended : Decoded → List ℕ → Decoded → Type 0
IsExtended (whole c rest) more d = d ≡ whole c (rest ++ more)
IsExtended (wrong rest) more d = d ≡ wrong (rest ++ more)
IsExtended short more d = Unit {0}

record Extends (d : Decoded) (more : List ℕ) (e : Decoded) : Type 0 where
  holds : IsExtended d more e

if-Extends :
    (test : Bool) {a b a' b' : Decoded} {more : List ℕ}
    → Extends a more a'
    → Extends b more b'
    → Extends (if test then a else b) more (if test then a' else b')
if-Extends true h k = h
if-Extends false h k = k

tail-Extends :
    (n value : ℕ) (bs more : List ℕ)
    → Extends (decode_tail n value bs) more (decode_tail n value (bs ++ more))
tail-Extends zero value bs more = record { holds = refl }
tail-Extends (suc n) value [] more = record { holds = tt }
tail-Extends (suc n) value (b ∷ bs) more =
    if-Extends (leb 0x80 b && leb b 0xBF) (tail-Extends n (value * 64 + (b - 0x80)) bs more)
      (record { holds = refl })

second-Extends :
    (low high n value : ℕ) (bs more : List ℕ)
    → Extends (decode_second low high n value bs) more (decode_second low high n value (bs ++ more))
second-Extends low high n value [] more = record { holds = tt }
second-Extends low high n value (b ∷ bs) more =
    if-Extends (leb low b && leb b high) (tail-Extends n (value * 64 + (b - 0x80)) bs more)
      (record { holds = refl })

one-Extends : (bs more : List ℕ) → Extends (decode_one bs) more (decode_one (bs ++ more))
unfolding decode_one
one-Extends [] more = record { holds = tt }
one-Extends (b ∷ bs) more =
    if-Extends (ltb b 0x80) (record { holds = refl })
      (if-Extends (leb 0xC2 b && leb b 0xDF) (second-Extends 0x80 0xBF 0 (b - 0xC0) bs more) (
        if-Extends (b == 0xE0) (second-Extends 0xA0 0xBF 1 0 bs more) (
          if-Extends (b == 0xED) (second-Extends 0x80 0x9F 1 13 bs more) (
            if-Extends (leb 0xE1 b && leb b 0xEF) (second-Extends 0x80 0xBF 1 (b - 0xE0) bs more) (
              if-Extends (b == 0xF0) (second-Extends 0x90 0xBF 2 0 bs more) (
                if-Extends (leb 0xF1 b && leb b 0xF3)
                  (second-Extends 0x80 0xBF 2 (b - 0xF0) bs more)
                  (if-Extends (b == 0xF4) (second-Extends 0x80 0x8F 2 4 bs more)
                    (record { holds = refl }))))))))

-- A first sequence that is complete stays what it is.
stays :
    (bs more : List ℕ) (d : Decoded)
    → decode_one bs ≡ d
    → IsExtended d more (decode_one (bs ++ more))
stays bs more d h =
    subst (λ d. IsExtended d more (decode_one (bs ++ more))) h (one-Extends bs more).holds

-- Bytes that are read in two goes read as in one.
pub Reads-append :
    (more : List ℕ) {bs text left after rest : List ℕ}
    → Reads bs text left
    → Reads (left ++ more) after rest
    → Reads (bs ++ more) (text ++ after) rest
Reads-append more (stop h) k = k
Reads-append more {bs} (char h r) k = char (stays bs more _ h) (Reads-append more r k)
Reads-append more {bs} (bad h r) k = bad (stays bs more _ h) (Reads-append more r k)
