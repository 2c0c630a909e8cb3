-- ===== src/Events.antt =====
-- src-tauri/src/domain/events.rs: how the output of an execution is counted, cut and split into events.
pub mod Split
pub mod Utf8
use qingzhou_ssh.Prelude.{
  ℕ, ◌+◌, ◌*◌, ◌^◌, Bool, true, false, List, [], ◌∷◌, ◌++◌, min, ltb, leb, if◌then◌else◌,
}
use qingzhou_ssh.Prelude.Text.{byte_len, utf8_width}
use qingzhou_ssh.Prelude.Result.{ok, err}
use qingzhou_ssh.Error.{AppResult, output_limit_exceeded}
use qingzhou_ssh.Error.Cut.{cut}

abbrev pub max_event_bytes : ℕ
max_event_bytes = 32 * 1024

-- `EventSequence::next`: the number of the next event, which is kept.
unfoldable pub next_sequence : ℕ → ℕ
next_sequence current = min (current + 1) 18446744073709551615

pub record OutputBudget : Type 0 where
  pub limit : ℕ
  pub consumed : ℕ

abbrev pub new_budget : ℕ → OutputBudget
new_budget limit = record { limit = limit; consumed = 0 }

-- `consume`: the sum must fit in 64 bits and in the limit; the answer is what was consumed so far.
unfoldable pub consume : OutputBudget → ℕ → AppResult (OutputBudget × ℕ)
consume budget bytes =
    if leb 18446744073709551616 (budget.consumed + bytes)
    then err (output_limit_exceeded budget.limit)
    else if ltb budget.limit (budget.consumed + bytes)
    then err (output_limit_exceeded budget.limit)
    else ok (record budget { consumed = budget.consumed + bytes }, budget.consumed + bytes)

unfoldable pub truncate_utf8 : List ℕ → ℕ → List ℕ
truncate_utf8 value max_bytes = cut max_bytes value

abbrev pub push_if : Bool → List ℕ → List (List ℕ) → List (List ℕ)
push_if true part parts = part ∷ parts
push_if false part parts = parts

-- The loop of `split_utf8` over the characters; `current` is the text from `start` on, up to the next
-- character.
unfoldable pub split_loop : ℕ → List ℕ → List ℕ → List (List ℕ)
split_loop max_bytes current [] = push_if (ltb 0 (byte_len current)) current []
split_loop max_bytes current (c ∷ cs) =
    let full = ltb max_bytes (byte_len current + utf8_width c) in
    push_if full current (split_loop max_bytes (if full then c ∷ [] else current ++ (c ∷ [])) cs)

unfoldable pub split_utf8 : ℕ → List ℕ → List (List ℕ)
split_utf8 max_bytes [] = []
split_utf8 max_bytes (c ∷ cs) = split_loop max_bytes [] (c ∷ cs)
