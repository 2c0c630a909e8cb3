-- ===== src/Transfer/Table/Endings.antt =====
-- The statements of transfer_job_repository.rs that report progress, end a job or put it back into
-- the queue.
use qingzhou_ssh.Prelude.{
  ℕ, Bool, true, false, not, ◌&&◌, ◌||◌, Option, none, some, List, ltb, ◌==◌, if◌then◌else◌,
}
use qingzhou_ssh.Prelude.Result.{ok, err, ◌>>=◌}
use qingzhou_ssh.Error.{AppResult, validation}
use qingzhou_ssh.Error.Cut.{cut}
use qingzhou_ssh.Prelude.Text.{codes}
use qingzhou_ssh.Transfer.Job.{
  TransferJob, TransferJobStatus, queued, cancelled, uncertain, is_terminal, is_active, is_queued,
}
use qingzhou_ssh.Transfer.Table.{
  Table, get, update_where, require, TransferJobFinish, CancelTransferAction, cancelled_queued,
  signal_execution, await_execution_id, to_i64, to_i64?, is_failed, is_uncertain, is_succeeded,
}

abbrev pub cut_message : Option (List ℕ) → Option (List ℕ)
cut_message none = none
cut_message (some message) = some (cut 8192 message)

abbrev pub cancel_action : Option ℕ → CancelTransferAction
cancel_action none = await_execution_id
cancel_action (some execution_id) = signal_execution execution_id

-- What a progress event reports.
pub record Progress (F : Type 0) : Type 0 where
  pub status : TransferJobStatus
  pub transferred : ℕ
  pub total : Option ℕ
  pub percent : Option F
  pub bytes_per_second : Option F
  pub average_bytes_per_second : Option F
  pub eta_seconds : Option ℕ

module _ {F : Type 0} where
  unfoldable pub progress_row : Progress F → ℕ → TransferJob F → TransferJob F
  progress_row p now job = record job {
    status = p.status;
    transferred = p.transferred;
    total = p.total;
    percent = p.percent;
    bytes_per_second = p.bytes_per_second;
    average_bytes_per_second = p.average_bytes_per_second;
    eta_seconds = p.eta_seconds;
    updated_at = now;
  }

  unfoldable pub update_progress : Table F → ℕ → Progress F → ℕ → AppResult (Table F)
  unfolding update_where to_i64 to_i64? progress_row
  update_progress t id p now = if not (is_active p.status) then err (validation "传输进度状态无效") else do
    _ ← to_i64 p.transferred "已传输字节数"
    _ ← to_i64? p.total "文件总字节数"
    _ ← to_i64? p.eta_seconds "预计剩余秒数"
    ok (update_where (λ job. job.id == id && is_active job.status) (progress_row p now) t).0

  unfoldable pub finish_row : F → TransferJobFinish → ℕ → TransferJob F → TransferJob F
  finish_row hundred finish now job = record job {
    status = finish.status;
    retryable = finish.retryable;
    error_category = finish.error_category;
    error_message = cut_message finish.error_message;
    sha256 = finish.sha256;
    location = finish.location;
    percent = if is_succeeded finish.status then some hundred else job.percent;
    finished_at = some now;
    updated_at = now;
  }

  unfoldable pub finish : F → Table F → ℕ → TransferJobFinish → ℕ → AppResult (Table F)
  unfolding update_where finish_row
  finish hundred t id ending now =
      if not (is_terminal ending.status)
      then err (validation "传输任务终态无效")
      else let (t', affected) =
          update_where (λ job. job.id == id && is_active job.status) (finish_row hundred ending now)
            t in
        if affected == 1 then ok t' else err (validation "传输任务已经结束")

  unfoldable pub cancel_row : ℕ → TransferJob F → TransferJob F
  cancel_row now job = record job {
    status = cancelled;
    cancel_requested = true;
    retryable = false;
    finished_at = some now;
    updated_at = now;
  }

  unfoldable pub request_cancel : Table F → ℕ → ℕ → AppResult (Table F × CancelTransferAction)
  unfolding update_where get cancel_row
  request_cancel t id now = elim (get t id) [
    | none ↦ err (validation "传输任务不存在")
    | some row ↦
        if is_queued row.status
        then ok (
          (update_where (λ job. job.id == id && is_queued job.status) (cancel_row now) t).0,
          cancelled_queued,
        )
        else if is_active row.status
        then ok (
          (update_where (λ job. job.id == id)
              (λ job. record job { cancel_requested = true; updated_at = now }) t).0,
          cancel_action row.execution_id,
        )
        else err (validation "传输任务已经结束")
  ]

  unfoldable pub should_cancel : Table F → ℕ → Bool
  unfolding get
  should_cancel t id = elim (get t id) [ none ↦ false | some job ↦ job.cancel_requested ]

  abbrev pub may_retry : TransferJob F → Bool
  may_retry job = job.retryable && ltb job.attempt_count job.max_attempts

  unfoldable pub retry_row : ℕ → TransferJob F → TransferJob F
  retry_row now job = record job {
    status = queued;
    execution_id = none;
    cancel_requested = false;
    retryable = false;
    error_category = none;
    error_message = none;
    finished_at = none;
    updated_at = now;
  }

  unfoldable pub retry : Table F → ℕ → ℕ → AppResult (Table F × TransferJob F)
  unfolding update_where require retry_row
  retry t id now =
      let (t', affected) =
        update_where
          (λ job.
            job.id == id && ((is_failed job.status || is_uncertain job.status) && may_retry job))
          (retry_row now) t in
      if affected == 1
      then (require t' id >>= λ job. ok (t', job))
      else err (validation "该传输不能重试或已达到重试上限")

  -- `retryable` stays as it was here.
  unfoldable pub requeue_row : ℕ → TransferJob F → TransferJob F
  requeue_row now job = record job {
    status = queued;
    execution_id = none;
    cancel_requested = false;
    error_category = none;
    error_message = none;
    finished_at = none;
    updated_at = now;
  }

  unfoldable pub requeue_automatically : Table F → ℕ → ℕ → Table F × Bool
  unfolding update_where requeue_row
  requeue_automatically t id now =
      let (t', affected) =
        update_where (λ job. job.id == id && (is_failed job.status && may_retry job))
          (requeue_row now) t in
      (t', affected == 1)

  unfoldable pub interrupted_row : ℕ → TransferJob F → TransferJob F
  interrupted_row now job = record job {
    status = uncertain;
    retryable = true;
    error_category = some "interrupted";
    error_message = some (codes "应用退出时传输结果未能确认");
    finished_at = some now;
    updated_at = now;
  }

  unfoldable pub recover_interrupted : Table F → ℕ → Table F × ℕ
  unfolding update_where interrupted_row
  recover_interrupted t now = update_where (λ job. is_active job.status) (interrupted_row now) t
