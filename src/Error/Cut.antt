-- ===== src/Error/Cut.antt =====
-- `AppError::ssh_command` of error.rs and `cap_utf8` of repositories/transfer_job_repository.rs cut
-- a text at the last character boundary up to a byte limit. A text is its list of code points.
pub mod Longest
use qingzhou_ssh.Prelude.{
  ℕ, zero, suc, ◌+◌, ◌-◌, ◌≤◌, ◌<◌, ◌≡◌, refl, ap, ◌⊎◌, inl, inr, Bool, true, false, List, [], ◌∷◌,
  ◌++◌, arith, ltb, leb, ◌==◌, if◌then◌else◌, Bool-cases,
}
use qingzhou_ssh.Prelude.Text.{byte_len, utf8_width}

-- `is_char_boundary`: a position is a boundary if some characters end just there.
unfoldable pub is_char_boundary : List ℕ → ℕ → Bool
is_char_boundary [] b = b == 0
is_char_boundary (c ∷ cs) b =
    if b == 0
    then true
    else if ltb b (utf8_width c)
    then false
    else is_char_boundary cs (b - utf8_width c)

-- `while !value.is_char_boundary(boundary) { boundary -= 1 }`; 0 is a boundary.
unfoldable pub boundary_below : List ℕ → ℕ → ℕ
unfolding is_char_boundary
boundary_below cs zero = zero
boundary_below cs (suc b) =
    let lower = boundary_below cs b in if is_char_boundary cs (suc b) then suc b else lower

-- `truncate`, at a boundary.
unfoldable pub truncate : List ℕ → ℕ → List ℕ
truncate [] b = []
truncate (c ∷ cs) b = if b == 0 then [] else c ∷ truncate cs (b - utf8_width c)

unfoldable pub cut : ℕ → List ℕ → List ℕ
unfolding is_char_boundary boundary_below truncate
cut max_bytes cs =
    if ltb max_bytes (byte_len cs) then truncate cs (boundary_below cs max_bytes) else cs
