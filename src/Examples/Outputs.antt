-- ===== src/Examples/Outputs.antt =====
-- The output of an execution on concrete bytes.
use qingzhou_ssh.Prelude.{ℕ, ◌≡◌, refl, List, [], ◌∷◌}
use qingzhou_ssh.Prelude.Result.{ok}
use qingzhou_ssh.Events.{split_loop, split_utf8}
use qingzhou_ssh.Events.Split.{joined}
use qingzhou_ssh.Events.Utf8.{
  Utf8Chunker, new_chunker, decode_one, check_utf8, drain_decodable, push_bytes, finish_chunker,
}
use qingzhou_ssh.Events.Utf8.Pieces.{output, Shows, output-Shows}

-- The bytes of "a", U+8F7B and "b" in two pieces that part the character; a byte that is none; and the
-- beginning of a character.
abbrev some_pieces : List (List ℕ)
some_pieces = (0x61 ∷ 0xE8 ∷ 0xBD ∷ []) ∷ (0xBB ∷ 0x62 ∷ 0xFF ∷ []) ∷ (0xE8 ∷ []) ∷ []

abbrev a_chunker : Utf8Chunker
a_chunker = record { max_bytes = 4; pending = [] }

output_runs :
    output a_chunker some_pieces
    ≡ ((0x61 ∷ []) ∷ (0x8F7B ∷ 0x62 ∷ []) ∷ (0xFFFD ∷ []) ∷ (0xFFFD ∷ []) ∷ [])
unfolding output push_bytes finish_chunker drain_decodable check_utf8 decode_one split_utf8
    split_loop
output_runs = refl

made : new_chunker 4 ≡ ok a_chunker
unfolding new_chunker
made = refl

output-Shows_example : Shows 4 (joined some_pieces) (output a_chunker some_pieces)
output-Shows_example = output-Shows 4 a_chunker some_pieces made
