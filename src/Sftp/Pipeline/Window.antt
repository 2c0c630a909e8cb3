-- ===== src/Sftp/Pipeline/Window.antt =====
-- `effective_read_chunk`, `PipelineStats` and `plan_window_from` of core/sftp/pipeline.rs.
-- u64 values are natural numbers; `saturating_add` keeps its upper bound written out.
use qingzhou_ssh.Prelude.{
  ℕ, zero, suc, ◌+◌, ◌-◌, ◌^◌, ◌%◌, min, max, ◌&&◌, ◌||◌, Option, none, some, List, [], ◌∷◌, ltb,
  leb, ◌==◌, if◌then◌else◌,
}

abbrev pub max_pipeline_requests : ℕ
max_pipeline_requests = 8

abbrev pub max_pipeline_bytes : ℕ
max_pipeline_bytes = 16777216

abbrev pub max_read_chunk_bytes : ℕ
max_read_chunk_bytes = 2097152

abbrev pub default_read_chunk_bytes : ℕ
default_read_chunk_bytes = 262144

abbrev pub sftp_data_packet_overhead : ℕ
sftp_data_packet_overhead = 9

abbrev pub u32_max : ℕ
u32_max = 4294967295

abbrev pub u64_max : ℕ
u64_max = 18446744073709551615

abbrev pub saturating_add : ℕ → ℕ → ℕ
saturating_add a b = min (a + b) u64_max

pub record Chunk : Type 0 where
  pub offset : ℕ
  pub len : ℕ

-- `.map(saturating_sub(9)).filter(> 0)`.
unfoldable pub packet_data_len : Option ℕ → Option ℕ
packet_data_len none = none
packet_data_len (some packet) =
    let room = packet - sftp_data_packet_overhead in if ltb 0 room then some room else none

abbrev pub or_else : Option ℕ → Option ℕ → Option ℕ
or_else none o = o
or_else (some a) o = some a

abbrev pub unwrap_or : Option ℕ → ℕ → ℕ
unwrap_or none d = d
unwrap_or (some a) d = a

unfoldable pub effective_read_chunk : Option ℕ → Option ℕ → ℕ
unfolding packet_data_len
effective_read_chunk server_packet_len server_read_len =
    let data_len = packet_data_len server_packet_len in
    let wanted = unwrap_or (or_else server_read_len data_len) default_read_chunk_bytes in
    let capped = min wanted (unwrap_or data_len max_read_chunk_bytes) in
    max 1 (min capped max_read_chunk_bytes)

pub record PipelineStats : Type 0 where
  pub max_in_flight : ℕ
  pub max_buffered_bytes : ℕ

unfoldable pub observe : PipelineStats → ℕ → ℕ → PipelineStats
observe s in_flight buffered_bytes = record {
  max_in_flight = max s.max_in_flight in_flight;
  max_buffered_bytes = max s.max_buffered_bytes buffered_bytes;
}

-- One pass of the loop asks for this many bytes.
abbrev pub next_len : ℕ → ℕ → ℕ → ℕ → ℕ
next_len total chunk_bytes offset window_bytes =
    min (min (total - offset) chunk_bytes) (max_pipeline_bytes - window_bytes)

-- The `while` of `plan_window_from`; the first number is how many chunks may still be pushed, which
-- is `request_limit - chunks.len()`.
unfoldable pub plan_loop : ℕ → ℕ → ℕ → ℕ → ℕ → List Chunk
plan_loop zero total chunk_bytes offset window_bytes = []
plan_loop (suc room) total chunk_bytes offset window_bytes =
    let len = next_len total chunk_bytes offset window_bytes in
    let rest =
      record { offset = offset; len = len % 2 ^ 32 }
      ∷ plan_loop room total chunk_bytes (saturating_add offset len)
          (saturating_add window_bytes len) in
    if ltb offset total && ltb window_bytes max_pipeline_bytes
    then (if len == 0 then [] else rest)
    else []

unfoldable pub plan_window_from : ℕ → ℕ → ℕ → ℕ → List Chunk
unfolding plan_loop
plan_window_from start total requested_chunk_bytes max_requests =
    if leb total start || (requested_chunk_bytes == 0 || max_requests == 0)
    then []
    else plan_loop (min max_requests max_pipeline_requests) total
        (min (min requested_chunk_bytes max_read_chunk_bytes) u32_max) start 0
