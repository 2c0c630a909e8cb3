-- ===== src/Sftp/Pipeline/Chunking.antt =====
-- What a planned window looks like, and the size of a read.
use qingzhou_ssh.Prelude.{
  ℕ, zero, suc, ◌+◌, ◌^◌, ◌%◌, ◌≤◌, ◌<◌, min, ◌≡◌, refl, inl, inr, Option, none, some, List, [],
  ◌∷◌, arith, length, ltb, leb, ◌||◌, ◌==◌, ◌&&◌, Bool-cases,
}
use qingzhou_ssh.Sftp.Pipeline.Window.{
  Chunk, max_pipeline_requests, max_pipeline_bytes, max_read_chunk_bytes, u32_max, u64_max,
  effective_read_chunk, saturating_add, next_len, plan_loop, plan_window_from,
}

-- A list of chunks that starts at `offset`, has no gap and no overlap, asks for at least one byte
-- and at most `chunk_bytes` each time, and ends at or before `total`.
abbrev pub Tiles : ℕ → ℕ → ℕ → List Chunk → Type 0
Tiles total chunk_bytes offset [] = Unit
Tiles total chunk_bytes offset (c ∷ cs) =
    (c.offset ≡ offset)
    × (0 < c.len)
    × (c.len ≤ chunk_bytes)
    × (offset + c.len ≤ total)
    × Tiles total chunk_bytes (offset + c.len) cs

abbrev pub total_len : List Chunk → ℕ
total_len [] = 0
total_len (c ∷ cs) = c.len + total_len cs

-- One pass: what it asks for is positive and in bounds, and none of its sums saturates.
next_len_bounds :
    (total chunk_bytes offset window : ℕ)
    → total ≤ u64_max
    → chunk_bytes ≤ max_read_chunk_bytes
    → window ≤ max_pipeline_bytes
    → offset < total
    → let len = next_len total chunk_bytes offset window in
      (len ≤ chunk_bytes)
      × (offset + len ≤ total)
      × (window + len ≤ max_pipeline_bytes)
      × (len % 2 ^ 32 ≡ len)
      × (saturating_add offset len ≡ offset + len)
      × (saturating_add window len ≡ window + len)
next_len_bounds total chunk_bytes offset window t c w o = omega arith

module _ (total chunk_bytes : ℕ) (t : total ≤ u64_max)
    (c : chunk_bytes ≤ max_read_chunk_bytes) where
  plan_loop-Tiles :
      (room offset window : ℕ)
      → window ≤ max_pipeline_bytes
      → Tiles total chunk_bytes offset (plan_loop room total chunk_bytes offset window)
  unfolding plan_loop
  plan_loop-Tiles zero offset window w = tt
  plan_loop-Tiles (suc room) offset window w =
      elim (Bool-cases (ltb offset total && ltb window max_pipeline_bytes)) [
        | inr stop ↦ rw stop tt
        | inl go ↦ elim (Bool-cases (next_len total chunk_bytes offset window == 0)) [
          | inl empty ↦ rw (go, empty) tt
          | inr more ↦
              let b = next_len_bounds total chunk_bytes offset window t c w (ground arith) in
              let len = next_len total chunk_bytes offset window in
              rw (go, more, b.3, b.4, b.5)
                (
                  refl,
                  ground arith,
                  b.0,
                  b.1,
                  plan_loop-Tiles room (offset + len) (window + len) b.2,
                )
        ]
      ]

  length-plan_loop :
      (room offset window : ℕ) → length (plan_loop room total chunk_bytes offset window) ≤ room
  unfolding plan_loop
  length-plan_loop zero offset window = omega arith
  length-plan_loop (suc room) offset window =
      let len = next_len total chunk_bytes offset window in
      ground (arith, length-plan_loop room (saturating_add offset len) (saturating_add window len))

  total_len-plan_loop :
      (room offset window : ℕ)
      → window ≤ max_pipeline_bytes
      → window + total_len (plan_loop room total chunk_bytes offset window) ≤ max_pipeline_bytes
  unfolding plan_loop
  total_len-plan_loop zero offset window w = omega arith
  total_len-plan_loop (suc room) offset window w =
      elim (Bool-cases (ltb offset total && ltb window max_pipeline_bytes)) [
        | inr stop ↦ rw stop (omega arith)
        | inl go ↦ elim (Bool-cases (next_len total chunk_bytes offset window == 0)) [
          | inl empty ↦ rw (go, empty) (omega arith)
          | inr more ↦
              let b = next_len_bounds total chunk_bytes offset window t c w (ground arith) in
              let len = next_len total chunk_bytes offset window in
              rw (go, more, b.3, b.4, b.5)
                (omega (arith, total_len-plan_loop room (offset + len) (window + len) b.2))
        ]
      ]

-- What a download relies on of a planned window.
pub record IsWindow (start total chunk_bytes max_requests : ℕ) (cs : List Chunk) : Type 0 where
  pub tiles : Tiles total chunk_bytes start cs
  pub few : (length cs ≤ max_requests) × (length cs ≤ max_pipeline_requests)
  pub small : total_len cs ≤ max_pipeline_bytes

IsWindow-nil :
    (start total chunk_bytes max_requests : ℕ) → IsWindow start total chunk_bytes max_requests []
IsWindow-nil start total chunk_bytes max_requests = record {
  tiles = tt;
  few = (omega arith, omega arith);
  small = omega arith;
}

-- The chunks of a planned window follow one another from `start` with no gap and no overlap, none
-- is empty, none is longer than what was asked for or than 2 MiB, none reaches past the end of the
-- file; there are at most as many as were asked for and at most 8, of at most 16 MiB together.
pub plan_window_from-IsWindow :
    (start total requested max_requests : ℕ)
    → total ≤ u64_max
    → IsWindow start total
        (min requested max_read_chunk_bytes)
        max_requests
        (plan_window_from start total requested max_requests)
unfolding plan_window_from
plan_window_from-IsWindow start total requested max_requests t =
    elim (Bool-cases (leb total start || (requested == 0 || max_requests == 0))) [
      | inl stop ↦
          rw stop (IsWindow-nil start total (min requested max_read_chunk_bytes) max_requests)
      | inr go ↦
          let chunk_bytes = min (min requested max_read_chunk_bytes) u32_max in
          let same : chunk_bytes ≡ min requested max_read_chunk_bytes = omega arith in
          let room = min max_requests max_pipeline_requests in
          let c : min requested max_read_chunk_bytes ≤ max_read_chunk_bytes = omega arith in
          let n = length-plan_loop total (min requested max_read_chunk_bytes) t c room start 0 in
          rw (go, same)
            (record {
              tiles =
                  plan_loop-Tiles total (min requested max_read_chunk_bytes) t c room start 0
                    (omega arith);
              few = (omega arith, omega arith);
              small = omega (
                arith,
                total_len-plan_loop total (min requested max_read_chunk_bytes) t c room start 0
                    (omega arith),
              );
            })
    ]

-- A window planned before the end of the file asks for at least one byte.
pub plan_window_from_progress :
    (start total requested max_requests : ℕ)
    → start < total
    → 0 < requested
    → 0 < max_requests
    → total ≤ u64_max
    → 0 < total_len (plan_window_from start total requested max_requests)
unfolding plan_window_from plan_loop
plan_window_from_progress start total requested zero s r m t = elim m [ ]
plan_window_from_progress start total requested (suc max_requests) s r m t =
    let c = min (min requested max_read_chunk_bytes) u32_max in
    let room : min (suc max_requests) max_pipeline_requests ≡ suc (min max_requests 7) =
      omega arith in
    rw room (ground (arith, next_len_bounds total c start 0 t))

-- Whatever the server states, a read is between 1 byte and 2 MiB. It is no longer than a read
-- limit that the server states, if that is not 0, and with its header it fits into a packet limit
-- that the server states, if that is more than the header.
pub effective_read_chunk_bounds :
    (server_packet_len server_read_len : Option ℕ) (packet limit : ℕ)
    → 9 < packet
    → 0 < limit
    → (1 ≤ effective_read_chunk server_packet_len server_read_len)
      × (effective_read_chunk server_packet_len server_read_len ≤ max_read_chunk_bytes)
      × (effective_read_chunk (some packet) server_read_len + 9 ≤ packet)
      × (effective_read_chunk server_packet_len (some limit) ≤ limit)
unfolding effective_read_chunk
effective_read_chunk_bounds server_packet_len server_read_len packet limit p l =
    (omega arith, omega arith, packet_fits server_read_len, limit_holds server_packet_len)
  where
    packet_fits : (o : Option ℕ) → effective_read_chunk (some packet) o + 9 ≤ packet
    packet_fits none = ground arith
    packet_fits (some n) = ground arith

    limit_holds : (o : Option ℕ) → effective_read_chunk o (some limit) ≤ limit
    limit_holds none = ground arith
    limit_holds (some n) = ground arith
