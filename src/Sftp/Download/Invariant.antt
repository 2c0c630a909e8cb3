-- ===== src/Sftp/Download/Invariant.antt =====
-- What holds of a download between two waits, whatever the server answers.
mod Reads
pub mod Steps
pub use Reads.*
use qingzhou_ssh.Prelude.{
  ℕ, zero, suc, ◌+◌, ◌-◌, ◌≤◌, ◌<◌, ◌≡◌, refl, sym, ap, ◌∙◌, subst, ◌⊎◌, inl, inr, Bool, true,
  false, not, ◌||◌, Option, none, some, List, [], ◌∷◌, ◌++◌, arith, length, ltb, leb, ◌==◌,
  if◌then◌else◌, Bool-cases, Option-cases, All,
}
use qingzhou_ssh.Prelude.Result.{Result, ok, err, ◌>>=◌, >>=-eq-ok, ok-injective, Result-cases}
use qingzhou_ssh.Sftp.Pipeline.Window.{
  Chunk, PipelineStats, max_pipeline_requests, max_pipeline_bytes, saturating_add, u64_max, observe,
}
use qingzhou_ssh.Sftp.Pipeline.Buffer.{
  Bytes, Chunks, OrderedChunkBuffer, is_empty, insert, drain_ready, lookup,
}
use qingzhou_ssh.Sftp.Pipeline.Buffer.Laws.{
  covers, cover, bytes_of, Holds, IsOrdered, Chain, drain_loop_lem, lookup_uncovered,
}
use qingzhou_ssh.Sftp.Download.{
  Local, WriteAnswer, Window, write_download_chunk, write_chunks, respawn, accept,
}

-- The local side has `transferred` bytes, of which `Q` holds, and hashed just those.
pub record IsLocal (Q : ℕ → Bytes → Type 0) (l : Local) : Type 0 where
  pub content : Q l.transferred l.written
  pub same : l.hashed ≡ l.written

-- `P` holds of the bytes of each answer and their offset, and `Q` of what is written of the file.
-- `P` and `Q` are chosen by the theorem that uses the invariant.
pub record IsWindowState (P Q : ℕ → Bytes → Type 0) (total : ℕ) (w : Window) : Type 0 where
  pub positive : Positive w.reads
  pub ordered : IsOrdered P w.ordered (λ p. cover_reads p w.reads) (len_reads w.reads) w.window_end
  pub drained : lookup w.ordered.next_offset w.ordered.chunks ≡ none
  pub here : w.local.transferred ≡ w.ordered.next_offset
  pub local : IsLocal Q w.local
  pub in_file : w.window_end ≤ total
  pub few : length w.reads ≤ max_pipeline_requests
  pub small : len_reads w.reads + bytes_of w.ordered.chunks ≤ max_pipeline_bytes
  pub stats_few : w.stats.max_in_flight ≤ max_pipeline_requests
  pub stats_small : w.stats.max_buffered_bytes ≤ max_pipeline_bytes

module _ {P Q : ℕ → Bytes → Type 0}
    (extend : (n : ℕ) (w bs : Bytes) → Q n w → P n bs → Q (n + length bs) (w ++ bs)) where
  pub Chain-le : (start : ℕ) (cs : Chunks) (end : ℕ) → Chain P start cs end → start ≤ end
  Chain-le start [] end c = omega arith
  Chain-le start ((offset, bs) ∷ cs) end c = omega (arith, Chain-le (start + length bs) cs end c.2)

  write_one :
      (answer : WriteAnswer) (bs : Bytes) (l l' : Local)
      → l.transferred + length bs ≤ u64_max
      → IsLocal Q l
      → P l.transferred bs
      → write_download_chunk answer bs l ≡ ok l'
      → (l'.transferred ≡ l.transferred + length bs) × IsLocal Q l'
  unfolding write_download_chunk
  write_one WriteAnswer.written bs l l' b h p e =
      let at : saturating_add l.transferred (length bs) ≡ l.transferred + length bs = omega arith in
      let there = ok-injective e in
      subst (λ x. (x.transferred ≡ l.transferred + length bs) × IsLocal Q x) there
        (
          at,
          record {
            content = rw at (extend l.transferred l.written bs h.content p);
            same = ap (λ x. x ++ bs) h.same;
          },
        )
  write_one answer bs l l' b h p e = cc

  -- What is written of a chain of chunks, if every write succeeds.
  pub write_chunks_lem :
      (answers : List WriteAnswer) (cs : Chunks) (l l' : Local) (end : ℕ)
      → end ≤ u64_max
      → Chain P l.transferred cs end
      → IsLocal Q l
      → write_chunks answers cs l ≡ ok l'
      → (l'.transferred ≡ end) × IsLocal Q l'
  unfolding write_chunks
  write_chunks_lem answers [] l l' end b c h e =
      subst (λ x. (x.transferred ≡ end) × IsLocal Q x) (ok-injective e) (c, h)
  write_chunks_lem [] ((offset, bs) ∷ cs) l l' end b c h e =
      let (l₁, wrote, rest) =
        >>=-eq-ok (write_download_chunk WriteAnswer.written bs l) (write_chunks [] cs) e in
      let at =
        write_one WriteAnswer.written bs l l₁
          (omega (arith, Chain-le (l.transferred + length bs) cs end c.2)) h
          (subst (λ o. P o bs) c.0 c.1) wrote in
      write_chunks_lem [] cs l₁ l' end b (rw at.0 c.2) at.1 rest
  write_chunks_lem (answer ∷ answers) ((offset, bs) ∷ cs) l l' end b c h e =
      let (l₁, wrote, rest) =
        >>=-eq-ok (write_download_chunk answer bs l) (write_chunks answers cs) e in
      let at =
        write_one answer bs l l₁ (omega (arith, Chain-le (l.transferred + length bs) cs end c.2)) h
          (subst (λ o. P o bs) c.0 c.1) wrote in
      write_chunks_lem answers cs l₁ l' end b (rw at.0 c.2) at.1 rest

  -- Without a refused write all of them succeed.
  pub write_chunks_total : (cs : Chunks) (l : Local) → (l' : Local) × (write_chunks [] cs l ≡ ok l')
  unfolding write_chunks write_download_chunk
  write_chunks_total [] l = (l, refl)
  write_chunks_total ((offset, bs) ∷ cs) l = write_chunks_total cs (record {
    written = l.written ++ bs;
    hashed = l.hashed ++ bs;
    transferred = saturating_add l.transferred (length bs);
  })
