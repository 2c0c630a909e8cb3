-- ===== src/Transfer/Table.antt =====
-- src-tauri/src/repositories/transfer_job_repository.rs: the table `transfer_jobs` and each statement
-- on it. The table is the list of its rows; the database answers every query, and `now` is what the
-- clock says. `F` is f64, of which the code writes the value 100.
pub mod Rows
pub mod Endings
pub mod Ops
pub mod Change
pub mod Invariant
pub mod Moves
pub mod Claim
unfoldable pub use Rows.{Table, get, update_where, count_active}
use qingzhou_ssh.Prelude.{
  ℕ, zero, suc, ◌+◌, ◌^◌, String, Bool, true, false, not, ◌&&◌, ◌||◌, Option, none, some, List, [],
  ◌∷◌, ◌++◌, any, ltb, leb, ◌==◌, if◌then◌else◌,
}
use qingzhou_ssh.Prelude.Text.{str_eq, codes, contains, is_blank}
use qingzhou_ssh.Prelude.Result.{Result, ok, err, ◌>>=◌, ◌>>◌}
use qingzhou_ssh.Error.{AppError, AppResult, validation}
use qingzhou_ssh.Error.Cut.{cut}
use qingzhou_ssh.Transfer.Job.{
  TransferJob, NewTransferJob, TransferJobStatus, queued, connecting, succeeded, failed, cancelled,
  uncertain, is_terminal, is_active, is_queued,
}

pub record TransferJobFinish : Type 0 where
  pub status : TransferJobStatus
  pub retryable : Bool
  pub error_category : Option String
  pub error_message : Option (List ℕ)
  pub sha256 : Option String
  pub location : Option String

pub data CancelTransferAction : Type 0 where
  cancelled_queued : CancelTransferAction
  signal_execution : ℕ → CancelTransferAction
  await_execution_id : CancelTransferAction

unfoldable pub validate_draft : NewTransferJob → AppResult (Unit {0})
validate_draft draft =
    if is_blank (codes draft.server_id)
      || (is_blank (codes draft.source_path)
          || (is_blank (codes draft.target_path)
              || (contains (codes draft.source_path) (0 ∷ [])
                  || contains (codes draft.target_path) (0 ∷ []))))
    then err (validation "传输任务定义不完整")
    else if str_eq draft.verification "balanced"
        || (str_eq draft.verification "strict" || str_eq draft.verification "transport_only")
    then ok tt
    else err (validation "传输校验策略无效")

-- `to_i64`: what a u64 column can hold.
unfoldable pub to_i64 : ℕ → String → AppResult ℕ
to_i64 value label = if ltb value (2 ^ 63) then ok value else err (validation label)

unfoldable pub to_i64? : Option ℕ → String → AppResult (Option ℕ)
unfolding to_i64
to_i64? none label = ok none
to_i64? (some value) label = to_i64 value label >>= λ v. ok (some v)

abbrev pub is_failed : TransferJobStatus → Bool
is_failed failed = true
is_failed _ = false

abbrev pub is_uncertain : TransferJobStatus → Bool
is_uncertain uncertain = true
is_uncertain _ = false

abbrev pub is_succeeded : TransferJobStatus → Bool
is_succeeded succeeded = true
is_succeeded _ = false

abbrev pub or_now : Option ℕ → ℕ → Option ℕ
or_now none now = some now
or_now (some at) now = some at

module _ {F : Type 0} where
  -- The row that `create` inserts; what the statement leaves out has the schema's default.
  unfoldable pub new_row : ℕ → ℕ → NewTransferJob → TransferJob F
  new_row id now draft = record {
    id = id;
    execution_id = none;
    server_id = draft.server_id;
    direction = draft.direction;
    source_path = draft.source_path;
    target_path = draft.target_path;
    overwrite = draft.overwrite;
    verification = draft.verification;
    status = queued;
    transferred = 0;
    total = none;
    percent = none;
    bytes_per_second = none;
    average_bytes_per_second = none;
    eta_seconds = none;
    attempt_count = 0;
    max_attempts = 3;
    cancel_requested = false;
    retryable = false;
    error_category = none;
    error_message = none;
    sha256 = none;
    location = none;
    created_at = now;
    updated_at = now;
    started_at = none;
    finished_at = none;
  }

  -- `require`.
  unfoldable pub require : Table F → ℕ → AppResult (TransferJob F)
  unfolding get
  require t id = elim (get t id) [ some job ↦ ok job | none ↦ err (validation "传输任务不存在") ]

  -- `create` with the new UUID and the time; a UUID that is taken breaks the primary key.
  unfoldable pub create : Table F → ℕ → ℕ → NewTransferJob → AppResult (Table F × TransferJob F)
  unfolding validate_draft new_row get
  create t id now draft = do
    validate_draft draft
    elim (get t id) [
      | some job ↦ err (AppError.database "UNIQUE constraint failed: transfer_jobs.id")
      | none ↦ let row = new_row id now draft in ok (t ++ row ∷ [], row)
    ]

  -- A queued job of a server that has fewer than two active ones.
  unfoldable pub is_runnable : Table F → TransferJob F → Bool
  unfolding count_active
  is_runnable t job = is_queued job.status && ltb (count_active job.server_id t) 2

  -- `ORDER BY created_at,id`.
  unfoldable pub earlier : TransferJob F → TransferJob F → Bool
  earlier a b = ltb a.created_at b.created_at || a.created_at == b.created_at && leb a.id b.id

  unfoldable pub first_of : TransferJob F → Option (TransferJob F) → TransferJob F
  unfolding earlier
  first_of a none = a
  first_of a (some b) = if earlier a b then a else b

  unfoldable pub first_runnable : Table F → List (TransferJob F) → Option (TransferJob F)
  unfolding is_runnable first_of
  first_runnable t [] = none
  first_runnable t (job ∷ jobs) =
      let rest = first_runnable t jobs in
      if is_runnable t job then some (first_of job rest) else rest

  unfoldable pub next_runnable : Table F → Option (TransferJob F)
  unfolding first_runnable
  next_runnable t = first_runnable t t

  unfoldable pub has_pending : Table F → Bool
  has_pending t = any (λ job. is_queued job.status || is_active job.status) t

  unfoldable pub claim_row : ℕ → TransferJob F → TransferJob F
  claim_row now job = record job {
    status = connecting;
    attempt_count = job.attempt_count + 1;
    cancel_requested = false;
    retryable = false;
    error_category = none;
    error_message = none;
    sha256 = none;
    location = none;
    transferred = 0;
    total = none;
    percent = none;
    bytes_per_second = none;
    average_bytes_per_second = none;
    eta_seconds = none;
    started_at = or_now job.started_at now;
    finished_at = none;
    updated_at = now;
  }

  unfoldable pub claim : Table F → ℕ → ℕ → Table F × Bool
  unfolding update_where claim_row
  claim t id now =
      let (t', affected) =
        update_where (λ job. job.id == id && is_queued job.status) (claim_row now) t in
      (t', affected == 1)

  unfoldable pub set_execution : Table F → ℕ → ℕ → ℕ → Table F × Bool
  unfolding update_where
  set_execution t id execution_id now =
      let (t', affected) =
        update_where (λ job. job.id == id && is_active job.status)
          (λ job. record job { execution_id = some execution_id; updated_at = now }) t in
      (t', affected == 1)
