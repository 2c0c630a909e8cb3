-- ===== src/Events/Utf8.antt =====
-- src-tauri/src/domain/events.rs: `Utf8Chunker`, with `std::str::from_utf8` on a list of bytes.
pub mod Reads
pub mod Drain
pub mod Pieces
use qingzhou_ssh.Prelude.{
  ℕ, zero, suc, ◌+◌, ◌-◌, ◌*◌, Bool, true, false, not, ◌&&◌, List, [], ◌∷◌, ◌++◌, length, leb, ltb,
  ◌==◌, if◌then◌else◌,
}
use qingzhou_ssh.Prelude.Result.{ok, err}
use qingzhou_ssh.Error.{AppResult, validation}
use qingzhou_ssh.Events.{split_utf8, max_event_bytes}

-- What the first bytes are: a character and what follows it, a wrong sequence and what follows it, or
-- the beginning of a character.
pub data Decoded : Type 0 where
  whole : ℕ → List ℕ → Decoded
  wrong : List ℕ → Decoded
  short : Decoded

-- So many more bytes of a character, each from 0x80 to 0xBF.
abbrev pub decode_tail : ℕ → ℕ → List ℕ → Decoded
decode_tail zero value bs = whole value bs
decode_tail (suc n) value [] = short
decode_tail (suc n) value (b ∷ bs) =
    let after = decode_tail n (value * 64 + (b - 0x80)) bs in
    if leb 0x80 b && leb b 0xBF then after else wrong (b ∷ bs)

-- The second byte has bounds of its own.
abbrev pub decode_second : ℕ → ℕ → ℕ → ℕ → List ℕ → Decoded
decode_second low high n value [] = short
decode_second low high n value (b ∷ bs) =
    if leb low b && leb b high then decode_tail n (value * 64 + (b - 0x80)) bs else wrong (b ∷ bs)

unfoldable pub decode_one : List ℕ → Decoded
decode_one [] = short
decode_one (b ∷ bs) =
    if ltb b 0x80
    then whole b bs
    else if leb 0xC2 b && leb b 0xDF
    then decode_second 0x80 0xBF 0 (b - 0xC0) bs
    else if b == 0xE0
    then decode_second 0xA0 0xBF 1 0 bs
    else if b == 0xED
    then decode_second 0x80 0x9F 1 13 bs
    else if leb 0xE1 b && leb b 0xEF
    then decode_second 0x80 0xBF 1 (b - 0xE0) bs
    else if b == 0xF0
    then decode_second 0x90 0xBF 2 0 bs
    else if leb 0xF1 b && leb b 0xF3
    then decode_second 0x80 0xBF 2 (b - 0xF0) bs
    else if b == 0xF4
    then decode_second 0x80 0x8F 2 4 bs
    else wrong bs

-- `from_utf8`: the valid text; or the text up to a wrong sequence (`error_len` is given) and what
-- follows the sequence; or the text up to a character that is not complete, and its bytes.
pub data Utf8Check : Type 0 where
  all_valid : List ℕ → Utf8Check
  fails : List ℕ → List ℕ → Utf8Check
  ends : List ℕ → List ℕ → Utf8Check

abbrev pub with_char : ℕ → Utf8Check → Utf8Check
with_char c (all_valid text) = all_valid (c ∷ text)
with_char c (fails text rest) = fails (c ∷ text) rest
with_char c (ends text left) = ends (c ∷ text) left

-- One character for each unit of fuel; there are no more characters than bytes.
unfoldable pub check_utf8 : ℕ → List ℕ → Utf8Check
check_utf8 n [] = all_valid []
check_utf8 zero (b ∷ bs) = ends [] (b ∷ bs)
check_utf8 (suc n) (b ∷ bs) = elim (decode_one (b ∷ bs)) [
  | whole c rest ↦ with_char c (check_utf8 n rest)
  | wrong rest ↦ fails [] rest
  | short ↦ ends [] (b ∷ bs)
]

-- The character that stands for bytes that are none.
abbrev pub replacement : ℕ
replacement = 0xFFFD

abbrev pub prefixed : List ℕ → List ℕ × List ℕ → List ℕ × List ℕ
prefixed text (after, left) = (text ++ (replacement ∷ after), left)

-- The loop of `drain_decodable`: the text and what stays pending. Each round drops a byte at least.
unfoldable pub drain_decodable : ℕ → Bool → List ℕ → List ℕ × List ℕ
drain_decodable zero finish pending = ([], pending)
drain_decodable (suc n) finish pending = elim (check_utf8 (length pending) pending) [
  | all_valid text ↦ (text, [])
  | fails text rest ↦ prefixed text (drain_decodable n finish rest)
  | ends text left ↦ if finish then (text ++ (replacement ∷ []), []) else (text, left)
]

pub record Utf8Chunker : Type 0 where
  pub max_bytes : ℕ
  pub pending : List ℕ

-- `Utf8Chunker::new`.
unfoldable pub new_chunker : ℕ → AppResult Utf8Chunker
new_chunker max_bytes =
    if not (leb 4 max_bytes && leb max_bytes max_event_bytes)
    then err (validation "UTF-8 事件片段上限必须在 4 到 32768 字节之间")
    else ok (record { max_bytes = max_bytes; pending = [] })

abbrev pub drained : Utf8Chunker → List ℕ × List ℕ → Utf8Chunker × List (List ℕ)
drained c (text, left) = (record c { pending = left }, split_utf8 c.max_bytes text)

-- `push`.
unfoldable pub push_bytes : Utf8Chunker → List ℕ → Utf8Chunker × List (List ℕ)
push_bytes c bytes =
    drained c (drain_decodable (suc (length (c.pending ++ bytes))) false (c.pending ++ bytes))

-- `finish`.
unfoldable pub finish_chunker : Utf8Chunker → Utf8Chunker × List (List ℕ)
finish_chunker c = drained c (drain_decodable (suc (length c.pending)) true c.pending)
