-- ===== src/Sftp/Pipeline/Buffer/Laws.antt =====
-- Which bytes of the file the buffer holds, and what draining it leaves.
use qingzhou_ssh.Prelude.{
  ℕ, zero, suc, ◌+◌, ◌-◌, ◌≤◌, ◌<◌, ◌≡◌, refl, ap, subst₂, inl, inr, ◌&&◌, none, some, [], ◌∷◌,
  arith, length, ltb, leb, ◌==◌, if◌then◌else◌, Bool-cases, Option-cases,
}
use qingzhou_ssh.Sftp.Pipeline.Window.{u64_max, saturating_add}
use qingzhou_ssh.Sftp.Pipeline.Buffer.{
  Bytes, Chunks, OrderedChunkBuffer, lookup, remove, take_next, drain_loop,
}

-- 1 if byte `p` of the file is among the `n` bytes from `offset`, else 0.
abbrev pub covers : ℕ → ℕ → ℕ → ℕ
covers p offset n = if leb offset p && ltb p (offset + n) then 1 else 0

-- How often byte `p` of the file is in the buffer.
abbrev pub cover : ℕ → Chunks → ℕ
cover p [] = 0
cover p ((offset, bytes) ∷ cs) = covers p offset (length bytes) + cover p cs

-- How many bytes the buffer holds.
abbrev pub bytes_of : Chunks → ℕ
bytes_of [] = 0
bytes_of ((offset, bytes) ∷ cs) = length bytes + bytes_of cs

-- Every chunk satisfies `P`, which speaks of its offset and its bytes, and is not empty.
abbrev pub Holds : (ℕ → Bytes → Type 0) → Chunks → Type 0
Holds P [] = Unit
Holds P ((offset, bytes) ∷ cs) = P offset bytes × (0 < length bytes) × Holds P cs

module _ (P : ℕ → Bytes → Type 0) where
  -- What a chunk taken out was, and what is left.
  pub record Taken (key : ℕ) (bytes : Bytes) (cs : Chunks) : Type 0 where
    pub holds : Holds P (remove key cs)
    pub kept : P key bytes
    pub nonempty : 0 < length bytes
    pub fewer : length cs ≡ suc (length (remove key cs))
    pub held : bytes_of cs ≡ length bytes + bytes_of (remove key cs)
    pub covered : (p : ℕ) → cover p cs ≡ covers p key (length bytes) + cover p (remove key cs)

  pub lookup-Taken :
      (key : ℕ) (bytes : Bytes) (cs : Chunks)
      → Holds P cs
      → lookup key cs ≡ some bytes
      → Taken key bytes cs
  unfolding lookup remove
  lookup-Taken key bytes [] g h = cc
  lookup-Taken key bytes ((offset, found) ∷ cs) g h = elim (Bool-cases (offset == key)) [
    | inl same ↦
        let at : offset ≡ key = ground arith in
        let this : found ≡ bytes = ground arith in
        record {
          holds = rw (same, remove) g.2;
          kept = subst₂ P at this g.0;
          nonempty = rw (← this) g.1;
          fewer = rw (same, remove);
          held = rw (same, remove) (ground arith);
          covered = λ p. rw (same, remove) (ground arith);
        }
    | inr other ↦
        let ih = lookup-Taken key bytes cs g.2 (ground arith) in
        record {
          holds = rw (other, remove) (g.0, g.1, ih.holds);
          kept = ih.kept;
          nonempty = ih.nonempty;
          fewer = rw (other, remove) (ap suc ih.fewer);
          held = rw (other, remove) (omega (arith, ih.held));
          covered = λ p. rw (other, remove) (omega (arith, ih.covered p));
        }
  ]

  -- A chunk that is there covers the byte at its key.
  pub lookup_uncovered :
      (key : ℕ) (cs : Chunks) → Holds P cs → cover key cs ≡ 0 → lookup key cs ≡ none
  unfolding lookup
  lookup_uncovered key [] g h = refl
  lookup_uncovered key ((offset, found) ∷ cs) g h = ground (arith, lookup_uncovered key cs g.2)

  -- A byte that is held, where no byte before it is held, is held by a chunk that starts with it.
  pub cover_first :
      (p : ℕ) (cs : Chunks)
      → Holds P cs
      → ((q : ℕ) → q < p → cover q cs ≡ 0)
      → lookup p cs ≡ none
      → cover p cs ≡ 0
  unfolding lookup
  cover_first p [] g before h = refl
  cover_first p ((offset, found) ∷ cs) g before h =
      ground (arith, before offset, cover_first p cs g.2 (λ q l. ground (arith, before q l)), g.1)

  -- The buffer of a window that ends at `window_end`, of which `missing` bytes are still to be read,
  -- `unread p` times each: every byte from `next_offset` on is either to be read or held, once.
  pub record IsOrdered (b : OrderedChunkBuffer) (unread : ℕ → ℕ) (missing window_end : ℕ)
      : Type 0 where
    pub holds : Holds P b.chunks
    pub partition :
        (p : ℕ) → unread p + cover p b.chunks ≡ covers p b.next_offset (window_end - b.next_offset)
    pub sum : missing + bytes_of b.chunks + b.next_offset ≡ window_end
    pub counted : b.buffered_bytes ≡ bytes_of b.chunks
    pub bounded : window_end ≤ u64_max

  -- Chunks that follow one another from `start` to `end`.
  abbrev pub Chain : ℕ → Chunks → ℕ → Type 0
  Chain start [] end = start ≡ end
  Chain start ((offset, bytes) ∷ cs) end =
      (offset ≡ start) × P offset bytes × Chain (start + length bytes) cs end

  lookup_empty : (key : ℕ) (cs : Chunks) → length cs ≤ 0 → lookup key cs ≡ none
  unfolding lookup
  lookup_empty key [] h = refl
  lookup_empty key (c ∷ cs) h = elim h [ ]

  module _ (unread : ℕ → ℕ) (missing window_end : ℕ) where
    take_next_lem :
        (b : OrderedChunkBuffer) (bytes : Bytes)
        → IsOrdered b unread missing window_end
        → Taken b.next_offset bytes b.chunks
        → IsOrdered (take_next b bytes) unread missing window_end
          × ((take_next b bytes).next_offset ≡ b.next_offset + length bytes)
    unfolding take_next
    take_next_lem b bytes h t =
        let next : saturating_add b.next_offset (length bytes) ≡ b.next_offset + length bytes =
          omega (arith, h.sum, t.held, h.bounded) in
        (
          record {
            holds = t.holds;
            partition = λ p. rw next (ground (arith, h.partition p, t.covered p, h.sum, t.held));
            sum = rw next (omega (arith, h.sum, t.held));
            counted = omega (arith, h.counted, t.held);
            bounded = h.bounded;
          },
          next,
        )

    -- Draining keeps the buffer in order, hands out a chain from where it stood to where it stands,
    -- and leaves no chunk that could be handed out.
    pub drain_loop_lem :
        (fuel : ℕ) (b : OrderedChunkBuffer)
        → length b.chunks ≤ fuel
        → IsOrdered b unread missing window_end
        → let (after, drained) = drain_loop fuel b in
          IsOrdered after unread missing window_end
          × Chain b.next_offset drained after.next_offset
          × (lookup after.next_offset after.chunks ≡ none)
    unfolding drain_loop
    drain_loop_lem zero b f h = (h, refl, lookup_empty b.next_offset b.chunks f)
    drain_loop_lem (suc fuel) b f h = elim (Option-cases (lookup b.next_offset b.chunks)) [
      | inl gone ↦ rw (gone, drain_loop) (h, refl, gone)
      | inr (bytes, found) ↦
          let t = lookup-Taken b.next_offset bytes b.chunks h.holds found in
          let (kept, next) = take_next_lem b bytes h t in
          let ih =
            drain_loop_lem fuel (take_next b bytes) (unfold take_next in omega (arith, t.fewer))
              kept in
          rw (found, drain_loop) (ih.0, (refl, t.kept, rw (← next) ih.1), ih.2)
    ]
