-- ===== src/Sftp/Download.antt =====
-- `run_download_pipeline` and `write_download_chunk` of src-tauri/src/core/sftp/transfer.rs. What the
-- code awaits comes in as events: which read ends next, with what answer, and how the writes of what
-- became ready went. The loop over windows is cut at its waits, so a run is a fold over the events.
pub mod Invariant
pub mod Windows
pub mod Safety
pub mod Honest
use qingzhou_ssh.Prelude.{
  ℕ, zero, suc, ◌+◌, ◌-◌, String, Bool, true, false, not, ◌||◌, Option, none, some, List, [], ◌∷◌,
  ◌++◌, length, ltb, ◌==◌, if◌then◌else◌,
}
use qingzhou_ssh.Prelude.Result.{Result, ok, err, ◌>>=◌}
use qingzhou_ssh.Error.{AppError, AppResult, transfer, integrity}
use qingzhou_ssh.Sftp.Pipeline.Window.{
  Chunk, PipelineStats, max_pipeline_requests, max_pipeline_bytes, saturating_add, observe,
  plan_window_from,
}
use qingzhou_ssh.Sftp.Pipeline.Buffer.{
  Bytes, Chunks, OrderedChunkBuffer, is_empty, new, insert, drain_ready,
}

-- The local file, what the hasher was fed, and the running count.
pub record Local : Type 0 where
  pub written : Bytes
  pub hashed : Bytes
  pub transferred : ℕ

pub data WriteAnswer : Type 0 where
  written : WriteAnswer
  cancelled_write : WriteAnswer
  write_failed : String → WriteAnswer
  -- The bytes were written, and the progress event could not be sent.
  progress_failed : AppError → WriteAnswer

unfoldable pub write_download_chunk : WriteAnswer → Bytes → Local → AppResult Local
write_download_chunk written bytes l = ok (record {
  written = l.written ++ bytes;
  hashed = l.hashed ++ bytes;
  transferred = saturating_add l.transferred (length bytes);
})
write_download_chunk cancelled_write bytes l = err AppError.cancelled
write_download_chunk (write_failed message) bytes l = err (AppError.io message)
write_download_chunk (progress_failed error) bytes l = err error

-- The `for` over what `drain_ready` gave; writes without an answer of their own succeed.
unfoldable pub write_chunks : List WriteAnswer → Chunks → Local → AppResult Local
unfolding write_download_chunk
write_chunks answers [] l = ok l
write_chunks [] ((offset, bytes) ∷ cs) l =
    write_download_chunk written bytes l >>= write_chunks [] cs
write_chunks (answer ∷ answers) ((offset, bytes) ∷ cs) l =
    write_download_chunk answer bytes l >>= write_chunks answers cs

pub record Window : Type 0 where
  pub reads : List Chunk
  pub ordered : OrderedChunkBuffer
  pub local : Local
  pub stats : PipelineStats
  pub window_end : ℕ

pub data Response : Type 0 where
  answered : Bytes → Response
  eof : Response
  failed : String → Response

pub data Event : Type 0 where
  cancelled : Event
  join_failed : String → Event
  -- The read at this place of the set ends. A place past the end names no read.
  completed : ℕ → Response → List WriteAnswer → Event

pub data Status : Type 0 where
  running : Window → Status
  finished : Local → PipelineStats → Status
  stopped : AppError → Status

unfoldable pub take_nth : ℕ → List Chunk → Option (Chunk × List Chunk)
take_nth i [] = none
take_nth zero (c ∷ cs) = some (c, cs)
take_nth (suc i) (c ∷ cs) = elim (take_nth i cs) [
  | none ↦ none
  | some (d, rest) ↦ some (d, c ∷ rest)
]

-- A short answer leaves the rest of its chunk to be read again.
unfoldable pub respawn : Chunk → ℕ → List Chunk → List Chunk
respawn chunk received reads =
    if ltb received chunk.len
    then record { offset = saturating_add chunk.offset received; len = chunk.len - received }
      ∷ reads
    else reads

-- The body of the inner loop from the accepted bytes on.
unfoldable pub accept : Window → List Chunk → Chunk → Bytes → List WriteAnswer → AppResult Window
unfolding write_chunks respawn insert drain_ready observe
accept w rest chunk bytes answers =
    let reads = respawn chunk (length bytes) rest in
    let (ordered, inserted) = insert w.ordered chunk.offset bytes in
    if not inserted
    then err (integrity "远端返回了重复或重叠的 SFTP 数据块")
    else let stats = observe w.stats (length reads) ordered.buffered_bytes in
      if ltb max_pipeline_bytes ordered.buffered_bytes
      then err (integrity "SFTP 下载流水线缓冲区超过安全上限")
      else let (ordered', drained) = drain_ready ordered in
        write_chunks answers drained w.local >>= λ local.
        ok (record w { reads = reads; ordered = ordered'; local = local; stats = stats })

unfoldable pub receive :
    Window → Response → List WriteAnswer → Chunk → List Chunk → AppResult Window
unfolding accept
receive w eof answers chunk rest = err (integrity "远端文件在元数据声明的大小之前结束")
receive w (failed message) answers chunk rest = err (transfer message)
receive w (answered bs) answers chunk rest =
    if is_empty bs || ltb chunk.len (length bs)
    then err (integrity "远端返回了无效的 SFTP 数据块")
    else accept w rest chunk bs answers

unfoldable pub step : Window → Event → AppResult Window
unfolding receive take_nth
step w cancelled = err AppError.cancelled
step w (join_failed message) = err (transfer message)
step w (completed i response answers) = elim (take_nth i w.reads) [
  | none ↦ ok w
  | some (chunk, rest) ↦ receive w response answers chunk rest
]

-- `chunks.last()` and where it ends.
unfoldable pub window_end_of : List Chunk → Option ℕ
window_end_of [] = none
window_end_of (c ∷ []) = some (saturating_add c.offset c.len)
window_end_of (c ∷ (d ∷ cs)) = window_end_of (d ∷ cs)

module _ (total chunk_bytes : ℕ) where
  -- The outer loop up to its first wait.
  unfoldable pub next_window : Local → PipelineStats → Status
  unfolding window_end_of observe
  next_window l stats =
      if not (ltb l.transferred total)
      then finished l stats
      else let chunks = plan_window_from l.transferred total chunk_bytes max_pipeline_requests in
        elim (window_end_of chunks) [
          | none ↦ stopped (integrity "SFTP 下载流水线无法规划剩余文件")
          | some window_end ↦ running (record {
            reads = chunks;
            ordered = new l.transferred;
            local = l;
            stats = observe stats (length chunks) 0;
            window_end = window_end;
          })
        ]

  -- The test of the inner loop, and what follows the loop.
  unfoldable pub settle : Window → Status
  unfolding next_window
  settle w = elim w.reads [
    | c ∷ cs ↦ running w
    | [] ↦
        if not (w.local.transferred == w.window_end) || not (w.ordered.buffered_bytes == 0)
        then stopped (integrity "SFTP 下载流水线未形成连续文件内容")
        else next_window w.local w.stats
  ]

  unfoldable pub start : Status
  unfolding next_window
  start =
      next_window (record { written = []; hashed = []; transferred = 0 })
        (record { max_in_flight = 0; max_buffered_bytes = 0 })

  unfoldable pub feed : Status → Event → Status
  unfolding step settle
  feed (running w) e = elim (step w e) [ ok w' ↦ settle w' | err error ↦ stopped error ]
  feed (finished l stats) e = finished l stats
  feed (stopped error) e = stopped error

  unfoldable pub run : Status → List Event → Status
  unfolding feed
  run s [] = s
  run s (e ∷ es) = run (feed s e) es
