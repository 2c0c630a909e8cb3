-- ===== src/Sftp/Download/Invariant/Steps.antt =====
-- One answer keeps the invariant, and is refused only where a write is.
use qingzhou_ssh.Prelude.{
  ℕ, ◌+◌, ◌-◌, ◌≤◌, ◌<◌, ◌≡◌, refl, ap, ◌∙◌, true, false, none, List, [], ◌∷◌, ◌++◌, arith, length,
  ltb,
}
use qingzhou_ssh.Prelude.Result.{ok, ◌>>=◌}
use qingzhou_ssh.Sftp.Pipeline.Window.{Chunk, max_pipeline_bytes, saturating_add, observe}
use qingzhou_ssh.Sftp.Pipeline.Buffer.{
  Bytes, Chunks, OrderedChunkBuffer, is_empty, contains_key, insert, drain_ready, lookup,
}
use qingzhou_ssh.Sftp.Pipeline.Buffer.Laws.{IsOrdered, drain_loop_lem, lookup_uncovered}
use qingzhou_ssh.Sftp.Download.{
  Local, WriteAnswer, Window, answered, write_chunks, respawn, accept, receive,
}
use qingzhou_ssh.Sftp.Download.Invariant.{
  Splits, respawn_lem, cover_reads, len_reads, IsWindowState, write_chunks_lem, Chain-le,
  write_chunks_total,
}

is_empty_lem : (bs : Bytes) → 0 < length bs → is_empty bs ≡ false
is_empty_lem [] h = elim h [ ]
is_empty_lem (b ∷ bs) h = refl

module _ {P Q : ℕ → Bytes → Type 0} {total : ℕ} {w : Window} {chunk : Chunk} {rest : List Chunk}
    (bs : Bytes) (h : IsWindowState P Q total w) (s : Splits w.reads chunk rest)
    (nonempty : 0 < length bs) (fits : length bs ≤ chunk.len) (p : P chunk.offset bs) where
  -- The chunk lies in what is left of the window.
  in_range : (w.ordered.next_offset ≤ chunk.offset) × (chunk.offset + chunk.len ≤ w.window_end)
  in_range = (
    ground (arith, h.ordered.partition chunk.offset, s.covered chunk.offset, s.head_positive),
    ground (
      arith,
      h.ordered.partition (chunk.offset + (chunk.len - 1)),
      s.covered (chunk.offset + (chunk.len - 1)),
      s.head_positive,
      h.ordered.sum,
    ),
  )

  fresh : lookup chunk.offset w.ordered.chunks ≡ none
  fresh =
      lookup_uncovered P chunk.offset w.ordered.chunks h.ordered.holds
        (ground (arith, h.ordered.partition chunk.offset, s.covered chunk.offset, s.head_positive))

  pub held : OrderedChunkBuffer
  held = record w.ordered {
    buffered_bytes = w.ordered.buffered_bytes + length bs;
    chunks = (chunk.offset, bs) ∷ w.ordered.chunks;
  }

  insert_lem : insert w.ordered chunk.offset bs ≡ (held, true)
  unfolding insert held
  insert_lem =
      let inside : ltb chunk.offset w.ordered.next_offset ≡ false = ground (arith, in_range) in
      let sum : saturating_add w.ordered.buffered_bytes (length bs)
          ≡ w.ordered.buffered_bytes + length bs =
        omega (arith, h.ordered.sum, h.ordered.counted, h.ordered.bounded, s.sum) in
      let contains : contains_key chunk.offset w.ordered.chunks ≡ false =
        rw (fresh, contains_key) in
      rw (is_empty_lem bs nonempty, inside, contains, sum)

  pub next_reads : List Chunk
  next_reads = respawn chunk (length bs) rest

  held-IsOrdered :
      IsOrdered P held (λ q. cover_reads q next_reads) (len_reads next_reads) w.window_end
  unfolding held next_reads
  held-IsOrdered =
      let r =
        respawn_lem chunk (length bs) rest nonempty fits
          (omega (arith, in_range, h.ordered.bounded)) s.positive in
      record {
        holds = (p, nonempty, h.ordered.holds);
        partition = λ q. omega (arith, h.ordered.partition q, s.covered q, r.0 q);
        sum = omega (arith, h.ordered.sum, s.sum, r.1);
        counted = omega (arith, h.ordered.counted);
        bounded = h.ordered.bounded;
      }

  -- What the writes are given, and the window after them.
  pub drained : OrderedChunkBuffer × Chunks
  drained = drain_ready held

  pub after : Local → Window
  after local = record w {
    reads = next_reads;
    ordered = drained.0;
    local = local;
    stats = observe w.stats (length next_reads) held.buffered_bytes;
  }

  small_lem : held.buffered_bytes ≤ max_pipeline_bytes
  unfolding held
  small_lem = omega (arith, h.small, h.ordered.counted, s.sum)

  -- No guard of the code refuses such an answer: only the writes can fail.
  pub accept_lem :
      (answers : List WriteAnswer)
      → accept w rest chunk bs answers
        ≡ (write_chunks answers drained.1 w.local >>= λ local. ok (after local))
  unfolding accept after drained next_reads
  accept_lem answers =
      let room : ltb max_pipeline_bytes held.buffered_bytes ≡ false = ground (arith, small_lem) in
      rw (insert_lem, room)

  -- Whichever way the writes go, the window after them satisfies the invariant.
  pub after-IsWindowState :
      (extend : (n : ℕ) (x b : Bytes) → Q n x → P n b → Q (n + length b) (x ++ b))
      (answers : List WriteAnswer) (local : Local)
      → write_chunks answers drained.1 w.local ≡ ok local
      → IsWindowState P Q total (after local)
  unfolding after drained next_reads drain_ready held
  after-IsWindowState extend answers local e =
      let d =
        drain_loop_lem P (λ q. cover_reads q next_reads) (len_reads next_reads) w.window_end
          (length held.chunks) held (omega arith) held-IsOrdered in
      let r =
        respawn_lem chunk (length bs) rest nonempty fits
          (omega (arith, in_range, h.ordered.bounded)) s.positive in
      let l =
        write_chunks_lem extend answers drained.1 w.local local drained.0.next_offset
          (omega (arith, d.0.sum, d.0.bounded)) (rw h.here d.1) h.local e in
      record {
        positive = r.3;
        ordered = d.0;
        drained = d.2;
        here = l.0;
        local = l.1;
        in_file = h.in_file;
        few = omega (arith, r.2, s.fewer, h.few);
        small = omega (
          arith,
          d.0.sum,
          held-IsOrdered.sum,
          h.ordered.sum,
          h.small,
          Chain-le extend held.next_offset drained.1 drained.0.next_offset d.1,
        );
        stats_few = unfold observe in omega (arith, r.2, s.fewer, h.few, h.stats_few);
        stats_small = unfold observe in omega (arith, small_lem, h.stats_small);
      }

  receive-accept :
      (answers : List WriteAnswer)
      → receive w (answered bs) answers chunk rest ≡ accept w rest chunk bs answers
  unfolding receive
  receive-accept answers =
      let short : ltb chunk.len (length bs) ≡ false = ground arith in
      rw (is_empty_lem bs nonempty, short)

  -- If no write is refused, the answer is taken, and just its bytes are no longer to be read.
  pub receive_total :
      (extend : (n : ℕ) (x b : Bytes) → Q n x → P n b → Q (n + length b) (x ++ b))
      → (w' : Window) × (receive w (answered bs) [] chunk rest ≡ ok w')
        × IsWindowState P Q total w'
        × (w'.window_end ≡ w.window_end)
        × (length bs + len_reads w'.reads ≡ len_reads w.reads)
  unfolding after next_reads
  receive_total extend =
      let (local, wrote) = write_chunks_total extend drained.1 w.local in
      let r =
        respawn_lem chunk (length bs) rest nonempty fits
          (omega (arith, in_range, h.ordered.bounded)) s.positive in
      (
        after local,
        receive-accept [] ∙ accept_lem [] ∙ ap (λ r. r >>= λ l. ok (after l)) wrote,
        after-IsWindowState extend [] local wrote,
        refl,
        omega (arith, r.1, s.sum),
      )
