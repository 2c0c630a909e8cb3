-- ===== src/Examples/Downloads.antt =====
-- Downloads of small files, windows, and a cut of a text, for core/sftp and error.rs.
use qingzhou_ssh.Prelude.{
  ℕ, ◌+◌, ◌*◌, ◌≤◌, ◌<◌, ◌≡◌, refl, min, none, some, List, [], ◌∷◌, ◌++◌, arith,
}
use qingzhou_ssh.Prelude.Text.{byte_len}
use qingzhou_ssh.Error.Cut.{cut}
use qingzhou_ssh.Error.Cut.Longest.{cut_longest}
use qingzhou_ssh.Sftp.Pipeline.Window.{
  PipelineStats, plan_window_from, effective_read_chunk, max_read_chunk_bytes,
  max_pipeline_requests, max_pipeline_bytes,
}
use qingzhou_ssh.Sftp.Pipeline.Chunking.{
  IsWindow, total_len, plan_window_from-IsWindow, plan_window_from_progress,
  effective_read_chunk_bounds,
}
use qingzhou_ssh.Sftp.Download.{Local, Event, completed, answered, finished, start, run, feed}
use qingzhou_ssh.Sftp.Download.Safety.{finished_complete}
use qingzhou_ssh.Sftp.Download.Honest.{slice, run_served, served_download}
use qingzhou_ssh.Prelude.{length}
use qingzhou_ssh.Sftp.Pipeline.Buffer.{lookup, drain_loop, take_next, remove}

-- The byte at each place of a file.
abbrev file : ℕ → ℕ
file p = p * 3 + 1

-- Which read ends, and with how many bytes.
abbrev choices : List (ℕ × ℕ)
choices =
    (2, 4) ∷ (0, 1) ∷ (1, 2) ∷ (0, 9) ∷ (0, 3) ∷ (1, 1) ∷ (0, 0) ∷ (3, 2) ∷ (0, 4) ∷ (0, 4) ∷ []

served_download_example :
    (l : Local) × (stats : PipelineStats) × (run_served file 10 4 (start 10 4) choices
      ≡ finished l stats)
    × (l.written ≡ slice file 0 10)
    × (l.hashed ≡ l.written)
served_download_example =
    served_download file 10 4 choices (omega arith) (omega arith) (omega arith)

-- The second read ends first.
abbrev events : List Event
events =
    completed 1 (answered (4 ∷ 5 ∷ 6 ∷ [])) [] ∷ completed 0 (answered (1 ∷ 2 ∷ 3 ∷ [])) [] ∷ []

abbrev local_file : Local
local_file = record {
  written = 1 ∷ 2 ∷ 3 ∷ 4 ∷ 5 ∷ 6 ∷ [];
  hashed = 1 ∷ 2 ∷ 3 ∷ 4 ∷ 5 ∷ 6 ∷ [];
  transferred = 6;
}

abbrev stats_of_two : PipelineStats
stats_of_two = record { max_in_flight = 2; max_buffered_bytes = 6 }

two_reads : run 6 3 (start 6 3) events ≡ finished local_file stats_of_two
unfolding run start plan_window_from lookup drain_loop take_next remove feed
two_reads = refl

finished_complete_example :
    (local_file.transferred ≡ 6)
    × (length local_file.written ≡ 6)
    × (local_file.hashed ≡ local_file.written)
    × (stats_of_two.max_in_flight ≤ max_pipeline_requests)
    × (stats_of_two.max_buffered_bytes ≤ max_pipeline_bytes)
finished_complete_example =
    finished_complete 6 3 events local_file stats_of_two (omega arith) (omega arith) two_reads

plan_window_from-IsWindow_example :
    IsWindow 5 20 (min 4 max_read_chunk_bytes) 3 (plan_window_from 5 20 4 3)
plan_window_from-IsWindow_example = plan_window_from-IsWindow 5 20 4 3 (omega arith)

plan_window_from_progress_example : 0 < total_len (plan_window_from 5 20 4 3)
plan_window_from_progress_example =
    plan_window_from_progress 5 20 4 3 (omega arith) (omega arith) (omega arith) (omega arith)

effective_read_chunk_bounds_example :
    (1 ≤ effective_read_chunk (some 100) none)
    × (effective_read_chunk (some 100) none ≤ max_read_chunk_bytes)
    × (effective_read_chunk (some 34000) none + 9 ≤ 34000)
    × (effective_read_chunk (some 100) (some 50) ≤ 50)
effective_read_chunk_bounds_example =
    effective_read_chunk_bounds (some 100) none 34000 50 (omega arith) (omega arith)

-- Two characters of three bytes each, cut at four bytes.
cut_longest_example :
    (byte_len (cut 4 ((0x8F7B ∷ []) ++ 0x821F ∷ [])) ≤ 4)
    × (byte_len (0x8F7B ∷ []) ≤ byte_len (cut 4 ((0x8F7B ∷ []) ++ 0x821F ∷ [])))
    × (rest : List ℕ) × ((0x8F7B ∷ []) ++ 0x821F ∷ []
        ≡ cut 4 ((0x8F7B ∷ []) ++ 0x821F ∷ []) ++ rest)
cut_longest_example = cut_longest 4 (0x8F7B ∷ []) (0x821F ∷ []) (omega arith)
