-- ===== src/Transfer/Queue.antt =====
-- src-tauri/src/services/transfer_queue_service.rs: what a worker does with a job that it claimed. The
-- transfer itself is the execution service's; its events and its answer are arguments here, as are
-- the times. A worker is followed alone: what other workers write at its waits is not interleaved.
pub mod Settles
use qingzhou_ssh.Prelude.{
  ℕ, String, Bool, true, false, ◌&&◌, Option, none, some, List, [], ◌∷◌, ◌++◌, find?, if◌then◌else◌,
}
use qingzhou_ssh.Prelude.Text.{str_eq}
use qingzhou_ssh.Prelude.Result.{Result, ok, err, ◌>>=◌}
use qingzhou_ssh.Error.{AppError, AppResult, validation, code, retryable}
use qingzhou_ssh.Transfer.Job.{
  TransferJob, TransferJobStatus, TransferPhase, is_terminal, status_of_phase,
  can_automatically_retry,
}
use qingzhou_ssh.Transfer.Table.{Table, TransferJobFinish, require, set_execution, is_failed}
use qingzhou_ssh.Transfer.Table.Endings.{
  Progress, update_progress, finish, should_cancel, requeue_automatically,
}

-- `ExecutionStatus` of domain/execution.rs.
pub data ExecutionStatus : Type 0 where
  queued running succeeded failed cancelled uncertain : ExecutionStatus

-- What `result_fields` reads of a JSON value: its fields that are texts.
pub data JsonField : Type 0 where
  text : String → JsonField
  other_field : JsonField

pub data JsonValue : Type 0 where
  object : List (String × JsonField) → JsonValue
  other_value : JsonValue

-- `ExecutionEventPayload` of domain/events.rs, as far as the queue reads it.
pub data Payload (F : Type 0) : Type 0 where
  started : ℕ → Payload F
  progress : TransferPhase → ℕ → Option ℕ → Option F → Option F → Option F → Option ℕ → Payload F
  finished : ExecutionStatus → Option JsonValue → Payload F
  failed : String → List ℕ → Bool → Payload F
  stdout stderr file_produced : Payload F

-- The execution record that the transfer returns, as far as the queue reads it.
pub record Details : Type 0 where
  pub status : ExecutionStatus
  pub error_category : Option String
  pub error_message : Option (List ℕ)
  pub retryable : Bool

unfoldable pub execution_status : ExecutionStatus → TransferJobStatus
execution_status ExecutionStatus.succeeded = TransferJobStatus.succeeded
execution_status ExecutionStatus.cancelled = TransferJobStatus.cancelled
execution_status ExecutionStatus.uncertain = TransferJobStatus.uncertain
execution_status _ = TransferJobStatus.failed

unfoldable pub text_field : String → Option JsonValue → Option String
text_field name (some (object fields)) = elim (find? (λ f. str_eq f.0 name) fields) [
  | some (n, text value) ↦ some value
  | _ ↦ none
]
text_field name _ = none

unfoldable pub result_fields : Option JsonValue → Option String × Option String
unfolding text_field
result_fields result = (text_field "sha256" result, text_field "location" result)

pub data VerificationPolicy : Type 0 where
  balanced strict transport_only : VerificationPolicy

unfoldable pub verification_name : VerificationPolicy → String
verification_name balanced = "balanced"
verification_name strict = "strict"
verification_name transport_only = "transport_only"

unfoldable pub parse_verification : String → AppResult VerificationPolicy
parse_verification value =
    if str_eq value "balanced"
    then ok balanced
    else if str_eq value "strict"
    then ok strict
    else if str_eq value "transport_only"
    then ok transport_only
    else err (validation "传输校验策略无效")

abbrev pub ending_of_event : ExecutionStatus → Option JsonValue → TransferJobFinish
ending_of_event status result = record {
  status = execution_status status;
  retryable = false;
  error_category = none;
  error_message = none;
  sha256 = (result_fields result).0;
  location = (result_fields result).1;
}

-- The status of a failure, by its category.
unfoldable pub failure_status : String → TransferJobStatus
failure_status category =
    if str_eq category "cancelled"
    then TransferJobStatus.cancelled
    else if str_eq category "remote_state_uncertain"
    then TransferJobStatus.uncertain
    else TransferJobStatus.failed

abbrev pub ending_of_failure : String → List ℕ → Bool → TransferJobFinish
ending_of_failure category message retryable = record {
  status = failure_status category;
  retryable = retryable;
  error_category = some category;
  error_message = some message;
  sha256 = none;
  location = none;
}

module _ {F : Type 0} (hundred : F) where
  abbrev pub progress_of :
      TransferPhase → ℕ → Option ℕ → Option F → Option F → Option F → Option ℕ → Progress F
  progress_of phase transferred total percent bps average eta = record {
    status = status_of_phase phase;
    transferred = transferred;
    total = total;
    percent = percent;
    bytes_per_second = bps;
    average_bytes_per_second = average;
    eta_seconds = eta;
  }

  -- One event. The second part is the execution that the registry is asked to cancel.
  unfoldable pub process_event : Table F → ℕ → ℕ → Payload F → AppResult (Table F × Option ℕ)
  unfolding set_execution should_cancel update_progress finish failure_status execution_status
  process_event t job_id now (started execution_id) =
      let t' = (set_execution t job_id execution_id now).0 in
      ok (t', if should_cancel t' job_id then some execution_id else none)
  process_event t job_id now (progress phase transferred total percent bps average eta) =
      update_progress t job_id (progress_of phase transferred total percent bps average eta) now
      >>= λ t'. ok (t', none)
  process_event t job_id now (finished status result) =
      finish hundred t job_id (ending_of_event status result) now >>= λ t'. ok (t', none)
  process_event t job_id now (failed category message retry) =
      finish hundred t job_id (ending_of_failure category message retry) now >>= λ t'. ok (t', none)
  process_event t job_id now _ = ok (t, none)

  -- The loop of `process_events`: it stops at the first event that is refused.
  unfoldable pub process_events :
      Table F → ℕ → List (ℕ × Payload F) → Table F × AppResult (Unit {0})
  unfolding process_event
  process_events t job_id [] = (t, ok tt)
  process_events t job_id ((now, payload) ∷ events) = elim (process_event t job_id now payload) [
    | err e ↦ (t, err e)
    | ok (t', asked) ↦ process_events t' job_id events
  ]

  -- What `QueueEventSink` captured: the result of the last `Finished` event.
  unfoldable pub captured : List (ℕ × Payload F) → Option JsonValue → Option JsonValue
  captured [] last = last
  captured ((now, finished status result) ∷ events) last = captured events result
  captured (event ∷ events) last = captured events last

  abbrev pub ending_of_details : Details → Option JsonValue → TransferJobFinish
  ending_of_details details result = record {
    status = execution_status details.status;
    retryable = details.retryable;
    error_category = details.error_category;
    error_message = details.error_message;
    sha256 = (result_fields result).0;
    location = (result_fields result).1;
  }

  -- A statement that may be refused, with the table as it is after it.
  abbrev pub settle_with : Table F → AppResult (Table F) → Table F × AppResult (Unit {0})
  settle_with t (ok t') = (t', ok tt)
  settle_with t (err e) = (t, err e)

  unfoldable pub ensure_finished :
      Table F → ℕ → Details → Option JsonValue → ℕ → Table F × AppResult (Unit {0})
  unfolding require finish
  ensure_finished t id details result now = elim (require t id) [
    | err e ↦ (t, err e)
    | ok job ↦
        if is_terminal job.status
        then (t, ok tt)
        else settle_with t (finish hundred t id (ending_of_details details result) now)
  ]

  -- What happens to the worker from outside while it runs a job.
  pub record Environment : Type 0 where
    pub events : List (ℕ × Payload F)
    pub answer : AppResult Details
    pub ended_at : ℕ
    pub failed_at : ℕ
    pub requeued_at : ℕ

  unfoldable pub execute_inner : Table F → ℕ → Environment → Table F × AppResult (Unit {0})
  unfolding require parse_verification process_events captured ensure_finished
  execute_inner t id env = elim (require t id) [
    | err e ↦ (t, err e)
    | ok job ↦ elim (parse_verification job.verification) [
      | err e ↦ (t, err e)
      | ok policy ↦
          let (t', updated) = process_events t id env.events in
          elim updated [
            | err e ↦ (t', err e)
            | ok done ↦ elim env.answer [
              | err e ↦ (t', err e)
              | ok details ↦ ensure_finished t' id details (captured env.events none) env.ended_at
            ]
          ]
    ]
  ]

  abbrev pub text_or_empty : Option String → String
  text_or_empty none = ""
  text_or_empty (some s) = s

  abbrev pub message_or_empty : Option (List ℕ) → List ℕ
  message_or_empty none = []
  message_or_empty (some m) = m

  -- `display` is how an error prints.
  module _ (display : AppError → List ℕ) where
    abbrev pub ending_of_error : AppError → TransferJobFinish
    ending_of_error error = record {
      status = TransferJobStatus.failed;
      retryable = retryable error;
      error_category = some (code error);
      error_message = some (display error);
      sha256 = none;
      location = none;
    }

    -- `if let Err(error) = result { let _ = finish(...) }`.
    unfoldable pub record_error : ℕ → ℕ → Table F × AppResult (Unit {0}) → Table F
    unfolding finish
    record_error id now (t, ok done) = t
    record_error id now (t, err error) =
        (settle_with t (finish hundred t id (ending_of_error error) now)).0

    unfoldable pub retry_if_transient : Table F → ℕ → ℕ → Table F
    unfolding require requeue_automatically can_automatically_retry
    retry_if_transient t id now = elim (require t id) [
      | err e ↦ t
      | ok job ↦
          if is_failed job.status
            && (job.retryable
                && can_automatically_retry (text_or_empty job.error_category)
                    (message_or_empty job.error_message) job.attempt_count job.max_attempts)
          then (requeue_automatically t id now).0
          else t
    ]

    unfoldable pub execute : Table F → ℕ → Environment → Table F
    unfolding execute_inner record_error retry_if_transient
    execute t id env =
        retry_if_transient (record_error id env.failed_at (execute_inner t id env)) id
          env.requeued_at
