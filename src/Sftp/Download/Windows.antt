-- ===== src/Sftp/Download/Windows.antt =====
-- The invariant over whole windows: opening one, closing one, one event.
use qingzhou_ssh.Prelude.{
  ℕ, ◌+◌, ◌-◌, ◌≤◌, ◌<◌, min, ◌≡◌, refl, ap, ◌∙◌, inl, inr, true, some, List, [], ◌∷◌, arith,
  length, ltb, ◌==◌, Bool-cases,
}
use qingzhou_ssh.Sftp.Pipeline.Window.{
  Chunk, PipelineStats, max_pipeline_requests, max_pipeline_bytes, max_read_chunk_bytes, u64_max,
  observe, plan_window_from,
}
use qingzhou_ssh.Sftp.Pipeline.Chunking.{
  Tiles, total_len, plan_window_from-IsWindow, plan_window_from_progress,
}
use qingzhou_ssh.Sftp.Pipeline.Buffer.{Bytes, lookup}
use qingzhou_ssh.Sftp.Pipeline.Buffer.Laws.{covers, cover, cover_first}
use qingzhou_ssh.Sftp.Download.{
  Local, Window, Status, running, finished, stopped, window_end_of, next_window, settle,
}
use qingzhou_ssh.Sftp.Download.Invariant.{Positive, cover_reads, len_reads, IsLocal, IsWindowState}

-- What a planned window asks for, by `Tiles`.
Tiles-reads :
    (total chunk_bytes offset : ℕ) (cs : List Chunk)
    → Tiles total chunk_bytes offset cs
    → Positive cs
      × ((p : ℕ) → cover_reads p cs ≡ covers p offset (total_len cs))
      × (len_reads cs ≡ total_len cs)
Tiles-reads total chunk_bytes offset [] t = (tt, λ p. ground arith, refl)
Tiles-reads total chunk_bytes offset (c ∷ cs) t =
    let (pos, cov, sum) = Tiles-reads total chunk_bytes (offset + c.len) cs t.4 in
    ((t.1, pos), λ p. ground (arith, cov p, t.0), omega (arith, sum))

-- Where its last chunk ends.
Tiles-window_end :
    (total chunk_bytes offset : ℕ) (cs : List Chunk)
    → total ≤ u64_max
    → 0 < total_len cs
    → Tiles total chunk_bytes offset cs
    → (window_end_of cs ≡ some (offset + total_len cs)) × (offset + total_len cs ≤ total)
unfolding window_end_of
Tiles-window_end total chunk_bytes offset [] b n t = absurd (omega arith)
Tiles-window_end total chunk_bytes offset (c ∷ []) b n t = (ap some (omega arith), omega arith)
Tiles-window_end total chunk_bytes offset (c ∷ (d ∷ cs)) b n t =
    let (at, bound) =
      Tiles-window_end total chunk_bytes (offset + c.len) (d ∷ cs) b (omega arith) t.4 in
    (at ∙ ap some (omega arith), omega arith)

nonempty : (cs : List Chunk) → 0 < total_len cs → 0 < length cs
nonempty [] h = absurd (omega arith)
nonempty (c ∷ cs) h = omega arith

-- The bounds that the statistics keep.
abbrev pub IsBounded : PipelineStats → Type 0
IsBounded stats =
    (stats.max_in_flight ≤ max_pipeline_requests) × (stats.max_buffered_bytes ≤ max_pipeline_bytes)

abbrev pub IsStatus : (ℕ → Bytes → Type 0) → (ℕ → Bytes → Type 0) → ℕ → Status → Type 0
IsStatus P Q total (running w) = IsWindowState P Q total w × (0 < length w.reads)
IsStatus P Q total (finished l stats) = (l.transferred ≡ total) × IsLocal Q l × IsBounded stats
IsStatus P Q total (stopped error) = Unit

-- How many bytes are still to come.
abbrev pub remaining : ℕ → Status → ℕ
remaining total (running w) = len_reads w.reads + (total - w.window_end)
remaining total (finished l stats) = 0
remaining total (stopped error) = 0

abbrev pub IsStopped : Status → Type 0
IsStopped (stopped error) = Unit
IsStopped s = ⊥

module _ (P Q : ℕ → Bytes → Type 0) (total chunk_bytes : ℕ) (bound : total ≤ u64_max)
    (asks : 0 < chunk_bytes) where
  -- The code never fails to plan, and what it plans satisfies the invariant.
  pub next_window_lem :
      (l : Local) (stats : PipelineStats)
      → l.transferred ≤ total
      → IsLocal Q l
      → IsBounded stats
      → let s = next_window total chunk_bytes l stats in
        IsStatus P Q total s × ¬ (IsStopped s) × (remaining total s ≡ total - l.transferred)
  unfolding next_window
  next_window_lem l stats le h b = elim (Bool-cases (ltb l.transferred total)) [
    | inr end ↦ rw end ((ground arith, h, b), λ x. x, ground arith)
    | inl more ↦
        let cs = plan_window_from l.transferred total chunk_bytes max_pipeline_requests in
        let w =
          plan_window_from-IsWindow l.transferred total chunk_bytes max_pipeline_requests bound in
        let r = Tiles-reads total (min chunk_bytes max_read_chunk_bytes) l.transferred cs w.tiles in
        let n =
          plan_window_from_progress l.transferred total chunk_bytes max_pipeline_requests
            (ground arith) asks (omega arith) bound in
        let e =
          Tiles-window_end total (min chunk_bytes max_read_chunk_bytes) l.transferred cs bound n
            w.tiles in
        rw (more, e.0)
          (
            (
              record {
                positive = r.0;
                ordered = record {
                  holds = tt;
                  partition = λ p. ground (arith, r.1 p);
                  sum = omega (arith, r.2);
                  counted = refl;
                  bounded = omega (arith, e.1);
                };
                drained = unfold lookup in refl;
                here = refl;
                local = h;
                in_file = e.1;
                few = w.few.1;
                small = omega (arith, r.2, w.small);
                stats_few = unfold observe in omega (arith, w.few, b);
                stats_small = unfold observe in omega (arith, b);
              },
              nonempty cs n,
            ),
            λ x. x,
            omega (arith, r.2, e.1),
          )
  ]

  -- Once no read is under way, the window has been handed out to its end and the buffer is empty.
  complete :
      (w : Window)
      → IsWindowState P Q total w
      → w.reads ≡ []
      → (w.local.transferred ≡ w.window_end) × (w.ordered.buffered_bytes ≡ 0)
  complete w h e =
      let next = w.ordered.next_offset in
      let no_reads : (p : ℕ) → cover_reads p w.reads ≡ 0 = λ p. ap (cover_reads p) e in
      let len : len_reads w.reads ≡ 0 = ap len_reads e in
      let before : (q : ℕ) → q < next → cover q w.ordered.chunks ≡ 0 =
        λ q l. ground (arith, h.ordered.partition q) in
      let at = cover_first P next w.ordered.chunks h.ordered.holds before h.drained in
      let end : next ≡ w.window_end =
        ground (arith, h.ordered.partition next, no_reads next, h.ordered.sum) in
      (h.here ∙ end, omega (arith, h.ordered.sum, h.ordered.counted))

  -- A window whose reads have all ended is complete, so the code goes on after it.
  pub settle_lem :
      (w : Window)
      → IsWindowState P Q total w
      → let s = settle total chunk_bytes w in
        IsStatus P Q total s
        × ¬ (IsStopped s)
        × (remaining total s ≡ len_reads w.reads + (total - w.window_end))
  unfolding settle
  settle_lem w h = go w.reads refl
    where
      go :
          (rs : List Chunk)
          → w.reads ≡ rs
          → let s = settle total chunk_bytes w in
            IsStatus P Q total s
            × ¬ (IsStopped s)
            × (remaining total s ≡ len_reads w.reads + (total - w.window_end))
      go [] e =
          let (at, empty) = complete w h e in
          let n =
            next_window_lem w.local w.stats (omega (arith, h.in_file)) h.local
              (h.stats_few, h.stats_small) in
          let len : len_reads w.reads ≡ 0 = ap len_reads e in
          let here : (w.local.transferred == w.window_end) ≡ true = ground arith in
          let none_left : (w.ordered.buffered_bytes == 0) ≡ true = ground arith in
          rw (settle, e, here, none_left) (n.0, n.1, n.2 ∙ omega arith)
      go (c ∷ cs) e =
          rw (e, settle)
            ((h, rw e (omega arith)), λ x. x, ap (λ rs. len_reads rs + (total - w.window_end)) e)
