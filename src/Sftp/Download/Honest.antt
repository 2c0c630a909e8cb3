-- ===== src/Sftp/Download/Honest.antt =====
-- Downloads from a server that answers with the bytes of the file, in any order and in pieces of any
-- length.
mod Slices
pub use Slices.*
use qingzhou_ssh.Prelude.{
  ℕ, zero, suc, ◌+◌, ◌-◌, ◌%◌, ◌≤◌, ◌<◌, min, max, ◌≡◌, refl, sym, ap, ◌∙◌, subst, ◌⊎◌, inl, inr,
  true, false, ◌||◌, Option, none, some, List, [], ◌∷◌, ◌++◌, arith, length, length-append, ltb,
  Bool-cases, Option-cases,
}
use native.Mathlib.Nat.{mod-lt}
use qingzhou_ssh.Prelude.Result.{ok, err, ◌>>=◌}
use qingzhou_ssh.Sftp.Pipeline.Window.{Chunk, PipelineStats, u64_max}
use qingzhou_ssh.Sftp.Pipeline.Buffer.{Bytes, is_empty}
use qingzhou_ssh.Sftp.Download.{
  Local, Window, Event, Status, running, finished, stopped, completed, answered, eof, join_failed,
  cancelled, take_nth, receive, step, accept, settle, start, feed, run, write_chunks,
}
use qingzhou_ssh.Sftp.Download.Invariant.{
  take_nth-Splits, take_nth_total, Splits, len_reads, Positive, IsLocal, IsWindowState,
  write_chunks_total, respawn_lem,
}
use qingzhou_ssh.Sftp.Download.Invariant.Steps.{accept_lem, after, drained, receive_total}
use qingzhou_ssh.Sftp.Download.Windows.{
  IsBounded, IsStatus, IsStopped, remaining, next_window_lem, settle_lem,
}
use qingzhou_ssh.Sftp.Download.Safety.{Brings, Bring, start-IsStatus, run-IsStatus}

len-Positive : (reads : List Chunk) → Positive reads → 0 < length reads → 0 < len_reads reads
len-Positive [] p h = elim h [ ]
len-Positive (c ∷ cs) p h = omega arith

-- How much of a read comes: at least a byte, and no more than was asked for.
abbrev pub piece : ℕ → Chunk → ℕ
piece n c = max 1 (min n c.len)

-- The answer to the read at place `i` of those under way, with about `n` bytes of the file.
pub answer : (ℕ → ℕ) → ℕ → ℕ → Option (Chunk × List Chunk) → Event
answer file i n none = join_failed ""
answer file i n (some found) =
    completed i (answered (slice file found.0.offset (piece n found.0))) []

-- The next event of a server that holds `file`: which read ends is up to the first number.
pub serve : (ℕ → ℕ) → Status → ℕ × ℕ → Event
serve file (running w) (i, n) =
    let place = i % length w.reads in answer file place n (take_nth place w.reads)
serve file s choice = join_failed ""

module _ (file : ℕ → ℕ) (total chunk_bytes : ℕ) where
  pub run_served : Status → List (ℕ × ℕ) → Status
  run_served s [] = s
  run_served s (choice ∷ choices) =
      run_served (feed total chunk_bytes s (serve file s choice)) choices

  Part : ℕ → Bytes → Type 0
  Part o bs = bs ≡ slice file o (length bs)

  Prefix : ℕ → Bytes → Type 0
  Prefix n bs = bs ≡ slice file 0 n

  extend : (n : ℕ) (x b : Bytes) → Prefix n x → Part n b → Prefix (n + length b) (x ++ b)
  unfolding Prefix Part
  extend n x b h p =
      (ap (λ y. y ++ b) h ∙ ap (λ y. slice file 0 n ++ y) p)
      ∙ (ap (λ (k : ℕ). slice file 0 n ++ slice file k (length b)) (omega arith)
          ∙ slice-append file 0 n (length b))

  module _ (bound : total ≤ u64_max) (asks : 0 < chunk_bytes) where
    -- One answer is accepted, and leaves fewer bytes to come.
    step_served :
        (w : Window) (choice : ℕ × ℕ)
        → IsWindowState Part Prefix total w
        → 0 < length w.reads
        → let s = feed total chunk_bytes (running w) (serve file (running w) choice) in
          IsStatus Part Prefix total s
          × ¬ (IsStopped s)
          × (remaining total s < remaining total (running w))
    unfolding feed step serve answer receive Part Prefix
    step_served w (i, n) h some_read =
        let place = i % length w.reads in
        let (c, rest, found) = take_nth_total place w.reads (mod-lt i some_read) in
        let split = take_nth-Splits place w.reads c rest h.positive found in
        let bs = slice file c.offset (piece n c) in
        let len = length-slice file c.offset (piece n c) in
        let (w', taken, kept, end, fewer) =
          receive_total bs h split (omega (arith, len)) (omega (arith, len, split.head_positive))
            (ap (slice file c.offset) (sym len)) extend in
        let s = settle_lem Part Prefix total chunk_bytes bound asks w' kept in
        rw (found, answer, feed, step, found, taken) (s.0, s.1, omega (arith, s.2, end, fewer, len))

    Finishes : Status → Type 0
    Finishes s =
        (l : Local) × (stats : PipelineStats) × (s ≡ finished l stats)
        × (l.written ≡ slice file 0 total)
        × (l.hashed ≡ l.written)

    run_served_finished :
        (l : Local) (stats : PipelineStats) (choices : List (ℕ × ℕ))
        → run_served (finished l stats) choices ≡ finished l stats
    unfolding run_served feed
    run_served_finished l stats [] = refl
    run_served_finished l stats (choice ∷ choices) = run_served_finished l stats choices

    run_served-Finishes :
        (s : Status) (choices : List (ℕ × ℕ))
        → IsStatus Part Prefix total s
        → ¬ (IsStopped s)
        → remaining total s ≤ length choices
        → Finishes (run_served s choices)
    unfolding run_served Finishes Prefix
    run_served-Finishes (stopped error) choices h go r = absurd (go tt)
    run_served-Finishes (finished l stats) choices h go r =
        (l, stats, run_served_finished l stats choices, rw (← h.0) h.1.content, h.1.same)
    run_served-Finishes (running w) [] h go r =
        absurd (omega (arith, len-Positive w.reads h.0.positive h.1))
    run_served-Finishes (running w) (choice ∷ choices) h go r =
        let (kept, on, fewer) = step_served w choice h.0 h.1 in
        run_served-Finishes (feed total chunk_bytes (running w) (serve file (running w) choice))
          choices kept on (omega arith)

-- A server that holds `file` may end the reads in any order and answer each with any part of it that
-- starts where the read starts. After at most as many answers as the file has bytes the download has
-- finished, and what it has written and hashed is the file.
pub served_download :
    (file : ℕ → ℕ) (total chunk_bytes : ℕ) (choices : List (ℕ × ℕ))
    → total ≤ u64_max
    → 0 < chunk_bytes
    → total ≤ length choices
    → (l : Local) × (stats : PipelineStats) × (run_served file total chunk_bytes
          (start total chunk_bytes)
          choices
        ≡ finished l stats)
      × (l.written ≡ slice file 0 total)
      × (l.hashed ≡ l.written)
unfolding start Finishes Prefix
served_download file total chunk_bytes choices bound asks enough =
    let s =
      next_window_lem (Part file total chunk_bytes) (Prefix file total chunk_bytes) total
        chunk_bytes bound asks (record { written = []; hashed = []; transferred = 0 })
        (record { max_in_flight = 0; max_buffered_bytes = 0 }) (omega arith)
        (record { content = refl; same = refl }) (omega arith) in
    run_served-Finishes file total chunk_bytes bound asks (start total chunk_bytes) choices s.0 s.1
      (omega (arith, s.2))
