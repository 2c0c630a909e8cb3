-- ===== src/Transfer/Table/Rows.antt =====
-- The table as a list of rows: a look-up by key, `UPDATE ... WHERE`, and what an update does to a
-- row.
use qingzhou_ssh.Prelude.{
  ℕ, String, Bool, ◌&&◌, Option, List, count, find?, map, ◌==◌, if◌then◌else◌,
}
use qingzhou_ssh.Prelude.Text.{str_eq}
use qingzhou_ssh.Transfer.Job.{TransferJob, is_active}

abbrev pub Table : Type 0 → Type 0
Table F = List (TransferJob F)

module _ {F : Type 0} where
  -- `SELECT ... WHERE id=?`; `id` is the primary key.
  unfoldable pub get : Table F → ℕ → Option (TransferJob F)
  get t id = find? (λ job. job.id == id) t

  -- `UPDATE ... SET change WHERE test`, with the number of rows affected.
  unfoldable pub update_where :
      (TransferJob F → Bool) → (TransferJob F → TransferJob F) → Table F → Table F × ℕ
  update_where test change t = (map (λ job. if test job then change job else job) t, count test t)

  -- `SELECT COUNT(*) ... WHERE server_id=? AND status IN (active)`.
  unfoldable pub count_active : String → Table F → ℕ
  count_active server_id t = count (λ job. str_eq job.server_id server_id && is_active job.status) t
