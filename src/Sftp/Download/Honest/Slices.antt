-- ===== src/Sftp/Download/Honest/Slices.antt =====
-- The bytes of a file between two positions.
use qingzhou_ssh.Prelude.{ℕ, zero, suc, ◌+◌, ◌≡◌, refl, ap, [], ◌∷◌, ◌++◌, arith, length}
use qingzhou_ssh.Sftp.Pipeline.Buffer.{Bytes}

-- The `n` bytes from `offset` on of a file that is given by position.
abbrev pub slice : (ℕ → ℕ) → ℕ → ℕ → Bytes
slice file offset zero = []
slice file offset (suc n) = file offset ∷ slice file (offset + 1) n

pub length-slice : (file : ℕ → ℕ) (offset n : ℕ) → length (slice file offset n) ≡ n
length-slice file offset zero = refl
length-slice file offset (suc n) = ap suc (length-slice file (offset + 1) n)

pub slice-append :
    (file : ℕ → ℕ) (offset n m : ℕ)
    → slice file offset n ++ slice file (offset + n) m ≡ slice file offset (n + m)
slice-append file offset zero m =
    let here : offset + 0 ≡ offset = omega arith in
    let there : 0 + m ≡ m = omega arith in rw (here, there)
slice-append file offset (suc n) m =
    let here : offset + suc n ≡ offset + 1 + n = omega arith in
    let there : suc n + m ≡ suc (n + m) = omega arith in
    rw (here, there) (ap (λ bs. file offset ∷ bs) (slice-append file (offset + 1) n m))
