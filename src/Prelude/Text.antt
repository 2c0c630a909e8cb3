-- ===== src/Prelude/Text.antt =====
-- Rust's `str` over its code points: equality, byte length, `contains`, `trim`, ASCII case.
use Prim.Native.Nat.{ℕ, ◌+◌}
use Prim.Native.Char.{code}
use Prim.Native.String.{String}
use mathlib.Core.Bool.{Bool, true, false, ◌&&◌, ◌||◌}
use mathlib.Core.List.{List, [], ◌∷◌, map}
use mathlib.Core.Path.{◌≡◌, refl, ap, ◌∙◌}
use qingzhou_ssh.Prelude.Tests.{ltb, leb, ◌==◌, if◌then◌else◌, ==_iff, &&_parts}
use qingzhou_ssh.Prelude.Lists.{any, all}
pub use text.Mathlib.Text.{◌==◌ as str_eq}
pub use text.Mathlib.TextEquality.{eq_iff}

-- The code points of a text (`chars`).
abbrev pub codes : String → List ℕ
codes String.[] = []
codes (String.◌∷◌ c s) = code c ∷ codes s

-- How many bytes a code point takes in UTF-8.
abbrev pub utf8_width : ℕ → ℕ
utf8_width c = if ltb c 0x80 then 1 else if ltb c 0x800 then 2 else if ltb c 0x10000 then 3 else 4

-- `len`, in bytes.
abbrev pub byte_len : List ℕ → ℕ
byte_len [] = 0
byte_len (c ∷ cs) = utf8_width c + byte_len cs

-- `==` on two texts.
abbrev pub same_codes : List ℕ → List ℕ → Bool
same_codes [] [] = true
same_codes (a ∷ rest) (b ∷ others) = a == b && same_codes rest others
same_codes _ _ = false

pub same_codes_sound : (a b : List ℕ) → same_codes a b ≡ true → a ≡ b
same_codes_sound [] [] h = refl
same_codes_sound [] (y ∷ ys) h = cc
same_codes_sound (x ∷ xs) [] h = cc
same_codes_sound (x ∷ xs) (y ∷ ys) h =
    let parts = &&_parts (x == y) (same_codes xs ys) h in
    ap (λ c. c ∷ xs) ((==_iff x y).0 parts.0) ∙ ap (λ l. y ∷ l) (same_codes_sound xs ys parts.1)

abbrev pub starts_with : List ℕ → List ℕ → Bool
starts_with s [] = true
starts_with [] (p ∷ ps) = false
starts_with (c ∷ cs) (p ∷ ps) = c == p && starts_with cs ps

-- `s.contains(p)`.
abbrev pub contains : List ℕ → List ℕ → Bool
contains [] p = starts_with [] p
contains (c ∷ cs) p = starts_with (c ∷ cs) p || contains cs p

abbrev pub to_ascii_lowercase : List ℕ → List ℕ
to_ascii_lowercase = map (λ c. if leb b'A' c && leb c b'Z' then c + 32 else c)

abbrev pub is_ascii_digit : ℕ → Bool
is_ascii_digit c = leb b'0' c && leb c b'9'

abbrev pub is_ascii_alphanumeric : ℕ → Bool
is_ascii_alphanumeric c = leb b'a' c && leb c b'z' || (leb b'A' c && leb c b'Z' || is_ascii_digit c)

-- The characters that `trim` removes (Unicode White_Space).
abbrev pub is_whitespace : ℕ → Bool
is_whitespace c =
    leb 9 c && leb c 13
    || any (λ w. c == w)
        (0x20 ∷ 0x85 ∷ 0xA0 ∷ 0x1680 ∷ 0x2028 ∷ 0x2029 ∷ 0x202F ∷ 0x205F ∷ 0x3000 ∷ [])
    || leb 0x2000 c && leb c 0x200A

-- `s.trim().is_empty()`.
abbrev pub is_blank : List ℕ → Bool
is_blank = all is_whitespace
