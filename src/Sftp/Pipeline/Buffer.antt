-- ===== src/Sftp/Pipeline/Buffer.antt =====
-- `OrderedChunkBuffer` of core/sftp/pipeline.rs: answers that came early wait here until every byte
-- before them has come. The map from offsets is only asked by key, so an association list stands
-- for it.
pub mod Laws
use qingzhou_ssh.Prelude.{
  ℕ, zero, suc, ◌+◌, ◌-◌, Bool, true, false, ◌||◌, Option, none, some, List, [], ◌∷◌, length, ltb,
  ◌==◌, if◌then◌else◌,
}
use qingzhou_ssh.Sftp.Pipeline.Window.{saturating_add}

abbrev pub Bytes : Type 0
Bytes = List ℕ

abbrev pub Chunks : Type 0
Chunks = List (ℕ × Bytes)

abbrev pub is_empty : Bytes → Bool
is_empty [] = true
is_empty (b ∷ bs) = false

unfoldable pub lookup : ℕ → Chunks → Option Bytes
lookup key [] = none
lookup key ((offset, bytes) ∷ cs) = if offset == key then some bytes else lookup key cs

unfoldable pub remove : ℕ → Chunks → Chunks
remove key [] = []
remove key ((offset, bytes) ∷ cs) =
    let rest = remove key cs in if offset == key then cs else (offset, bytes) ∷ rest

abbrev pub contains_key : ℕ → Chunks → Bool
contains_key key cs = elim (lookup key cs) [ none ↦ false | some _ ↦ true ]

pub record OrderedChunkBuffer : Type 0 where
  pub next_offset : ℕ
  pub chunks : Chunks
  pub buffered_bytes : ℕ

abbrev pub new : ℕ → OrderedChunkBuffer
new next_offset = record { next_offset = next_offset; chunks = []; buffered_bytes = 0 }

unfoldable pub insert : OrderedChunkBuffer → ℕ → Bytes → OrderedChunkBuffer × Bool
insert b offset bytes =
    if is_empty bytes || (ltb offset b.next_offset || contains_key offset b.chunks)
    then (b, false)
    else (
      record b {
        buffered_bytes = saturating_add b.buffered_bytes (length bytes);
        chunks = (offset, bytes) ∷ b.chunks;
      },
      true,
    )

-- One pass of the loop of `drain_ready`, for the bytes found at `next_offset`.
unfoldable pub take_next : OrderedChunkBuffer → Bytes → OrderedChunkBuffer
take_next b bytes = record {
  next_offset = saturating_add b.next_offset (length bytes);
  chunks = remove b.next_offset b.chunks;
  buffered_bytes = b.buffered_bytes - length bytes;
}

-- Each pass removes a chunk, so the number of chunks bounds the passes.
unfoldable pub drain_loop : ℕ → OrderedChunkBuffer → OrderedChunkBuffer × Chunks
drain_loop zero b = (b, [])
drain_loop (suc fuel) b = elim (lookup b.next_offset b.chunks) [
  | none ↦ (b, [])
  | some bytes ↦
      let (after, drained) = drain_loop fuel (take_next b bytes) in
      (after, (b.next_offset, bytes) ∷ drained)
]

unfoldable pub drain_ready : OrderedChunkBuffer → OrderedChunkBuffer × Chunks
drain_ready b = drain_loop (length b.chunks) b
