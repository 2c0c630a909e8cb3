-- ===== src/Sftp/Download/Invariant/Reads.antt =====
-- The reads that are under way: which bytes they ask for.
use qingzhou_ssh.Prelude.{
  ℕ, zero, suc, ◌+◌, ◌≤◌, ◌<◌, ◌≡◌, refl, subst₂, inl, inr, some, List, [], ◌∷◌, arith, length, ltb,
  Bool-cases, Option-cases, All,
}
use qingzhou_ssh.Sftp.Pipeline.Window.{Chunk, u64_max, saturating_add}
use qingzhou_ssh.Sftp.Pipeline.Buffer.Laws.{covers}
use qingzhou_ssh.Sftp.Download.{take_nth, respawn}

-- How often byte `p` of the file is asked for.
abbrev pub cover_reads : ℕ → List Chunk → ℕ
cover_reads p [] = 0
cover_reads p (c ∷ cs) = covers p c.offset c.len + cover_reads p cs

-- How many bytes are asked for.
abbrev pub len_reads : List Chunk → ℕ
len_reads [] = 0
len_reads (c ∷ cs) = c.len + len_reads cs

abbrev pub Positive : List Chunk → Type 0
Positive = All (λ c. 0 < c.len)

-- `c` and `rest` are what `reads` was made of.
pub record Splits (reads : List Chunk) (c : Chunk) (rest : List Chunk) : Type 0 where
  pub covered : (p : ℕ) → cover_reads p reads ≡ covers p c.offset c.len + cover_reads p rest
  pub sum : len_reads reads ≡ c.len + len_reads rest
  pub fewer : length reads ≡ suc (length rest)
  pub head_positive : 0 < c.len
  pub positive : Positive rest

Splits-there :
    (d : Chunk) {ds : List Chunk} {c : Chunk} {rest : List Chunk}
    → 0 < d.len
    → Splits ds c rest
    → Splits (d ∷ ds) c (d ∷ rest)
Splits-there d pos h = record {
  covered = λ p. omega (arith, h.covered p);
  sum = omega (arith, h.sum);
  fewer = omega (arith, h.fewer);
  head_positive = h.head_positive;
  positive = (pos, h.positive);
}

pub take_nth-Splits :
    (i : ℕ) (reads : List Chunk) (c : Chunk) (rest : List Chunk)
    → Positive reads
    → take_nth i reads ≡ some (c, rest)
    → Splits reads c rest
unfolding take_nth
take_nth-Splits i [] c rest h e = cc
take_nth-Splits zero (d ∷ ds) c rest h e =
    let head : d ≡ c = cc in
    let tail : ds ≡ rest = cc in
    subst₂ (λ x y. Splits (d ∷ ds) x y) head tail
      (record {
        covered = λ p. refl;
        sum = refl;
        fewer = refl;
        head_positive = h.0;
        positive = h.1;
      })
take_nth-Splits (suc i) (d ∷ ds) c rest h e = elim (Option-cases (take_nth i ds)) [
  | inl gone ↦ absurd (ground arith)
  | inr (r, found) ↦
      let head : r.0 ≡ c = ground arith in
      let tail : d ∷ r.1 ≡ rest = ground arith in
      subst₂ (λ x y. Splits (d ∷ ds) x y) head tail
        (Splits-there d h.0 (take_nth-Splits i ds r.0 r.1 h.1 found))
]

-- A place in range names a read.
pub take_nth_total :
    (i : ℕ) (reads : List Chunk)
    → i < length reads
    → (c : Chunk) × (rest : List Chunk) × (take_nth i reads ≡ some (c, rest))
unfolding take_nth
take_nth_total i [] h = elim h [ ]
take_nth_total zero (d ∷ ds) h = (d, ds, refl)
take_nth_total (suc i) (d ∷ ds) h =
    let (c, rest, e) = take_nth_total i ds (omega arith) in (c, d ∷ rest, rw (e, take_nth))

-- What is asked for after `n` bytes of `c` came.
pub respawn_lem :
    (c : Chunk) (n : ℕ) (rest : List Chunk)
    → 0 < n
    → n ≤ c.len
    → c.offset + c.len ≤ u64_max
    → Positive rest
    → ((p : ℕ)
        → covers p c.offset c.len + cover_reads p rest
          ≡ covers p c.offset n + cover_reads p (respawn c n rest))
      × (c.len + len_reads rest ≡ n + len_reads (respawn c n rest))
      × (length (respawn c n rest) ≤ suc (length rest))
      × Positive (respawn c n rest)
unfolding respawn
respawn_lem c n rest pos le bound h = elim (Bool-cases (ltb n c.len)) [
  | inl more ↦
      let at : saturating_add c.offset n ≡ c.offset + n = omega arith in
      rw (more, at) (λ p. ground arith, ground arith, omega arith, (ground arith, h))
  | inr all ↦ rw all (λ p. ground arith, ground arith, omega arith, h)
]
