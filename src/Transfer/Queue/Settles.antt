-- ===== src/Transfer/Queue/Settles.antt =====
-- A worker does not leave the job that it ran active, whatever the transfer reports and answers.
use qingzhou_ssh.Prelude.{
  ℕ, ◌≡◌, refl, ap, subst, inl, inr, true, false, ◌&&◌, Option, none, some, List, [], ◌∷◌, arith,
  Bool-cases, &&_parts,
}
use qingzhou_ssh.Prelude.Result.{ok, err, ◌>>=◌, ok-injective, Result-cases}
use qingzhou_ssh.Error.{AppError, AppResult, validation}
use qingzhou_ssh.Transfer.Job.{
  TransferJob, TransferJobStatus, is_terminal, is_active, can_transition_to,
  can_automatically_retry,
}
use qingzhou_ssh.Transfer.Table.{Table, TransferJobFinish, get, set_execution, require, is_failed}
use qingzhou_ssh.Transfer.Table.Endings.{
  Progress, finish, finish_row, update_progress, requeue_automatically,
}
use qingzhou_ssh.Transfer.Table.Ops.{
  Op, op_set_execution, op_update_progress, op_finish, op_requeue, apply, table_or,
}
use qingzhou_ssh.Transfer.Table.Invariant.{IsTable, apply-IsTable}
use qingzhou_ssh.Transfer.Table.Moves.{apply-get, status_moves, MayBecome}
use qingzhou_ssh.Transfer.Table.Claim.{count_updated, count_refused, get_updated}
use qingzhou_ssh.Transfer.Queue.{
  ExecutionStatus, Payload, started, progress, finished, failed, stdout, stderr, file_produced,
  Details, Environment, execution_status, ending_of_event, ending_of_failure, ending_of_details,
  ending_of_error, process_event, progress_of, process_events, JsonValue, captured,
  parse_verification, text_or_empty, message_or_empty, settle_with, ensure_finished, execute_inner,
  record_error, retry_if_transient, execute,
}

execution_status-is_terminal : (s : ExecutionStatus) → is_terminal (execution_status s) ≡ true
unfolding execution_status
execution_status-is_terminal ExecutionStatus.queued = refl
execution_status-is_terminal ExecutionStatus.running = refl
execution_status-is_terminal ExecutionStatus.succeeded = refl
execution_status-is_terminal ExecutionStatus.failed = refl
execution_status-is_terminal ExecutionStatus.cancelled = refl
execution_status-is_terminal ExecutionStatus.uncertain = refl

terminal_inactive : (s : TransferJobStatus) → is_terminal s ≡ true → is_active s ≡ false
terminal_inactive s h = ground arith

failed_stays_inactive :
    (s s' : TransferJobStatus) → is_failed s ≡ true → MayBecome s s' → is_active s' ≡ false
unfolding can_transition_to
failed_stays_inactive s s' f h = ground arith

module _ {F : Type 0} (hundred : F) (id : ℕ) where
  -- The job is in the table.
  abbrev pub Kept : Table F → Type 0
  Kept t = IsTable hundred t × (j : TransferJob F) × (get t id ≡ some j)

  -- It is there and not active.
  abbrev pub Settled : Table F → Type 0
  Settled t =
      IsTable hundred t × (j : TransferJob F) × (get t id ≡ some j) × (is_active j.status ≡ false)

  forget : (t : Table F) → Settled t → Kept t
  forget t (h, j, found, a) = (h, j, found)

  apply-Kept : (op : Op F) (t : Table F) → Kept t → Kept (apply hundred op t)
  apply-Kept op t (h, j, found) =
      let (k, there, change) = apply-get hundred op t id j h.0 found in
      (apply-IsTable hundred op t h, k, there)

  finish-Kept :
      (t t' : Table F) (ending : TransferJobFinish) (now : ℕ)
      → Kept t
      → finish hundred t id ending now ≡ ok t'
      → Kept t'
  finish-Kept t t' ending now h e =
      subst Kept {x = apply hundred (op_finish id ending now) t} (unfold apply in ap (table_or t) e)
        (apply-Kept (op_finish id ending now) t h)

  update_progress-Kept :
      (t t' : Table F) (p : Progress F) (now : ℕ)
      → Kept t
      → update_progress t id p now ≡ ok t'
      → Kept t'
  update_progress-Kept t t' p now h e =
      subst Kept {x = apply hundred (op_update_progress id p now) t}
        (unfold apply in ap (table_or t) e) (apply-Kept (op_update_progress id p now) t h)

  set_execution-Kept :
      (t : Table F) (execution_id now : ℕ) → Kept t → Kept (set_execution t id execution_id now).0
  set_execution-Kept t execution_id now h =
      unfold apply in apply-Kept (op_set_execution id execution_id now) t h

  quiet-ok :
      (m : AppResult (Table F)) (t' : Table F) (asked : Option ℕ)
      → ◌≡◌ {A = AppResult (Table F × Option ℕ)} (m >>= λ s. ok (s, none)) (ok (t', asked))
      → m ≡ ok t'
  quiet-ok (ok s) t' asked h = ap ok (ap (λ p. p.0) (ok-injective h))
  quiet-ok (err e) t' asked h = cc

  process_event-Kept :
      (t t' : Table F) (now : ℕ) (payload : Payload F) (asked : Option ℕ)
      → Kept t
      → process_event hundred t id now payload ≡ ok (t', asked)
      → Kept t'
  unfolding process_event
  process_event-Kept t t' now (started execution_id) asked h e =
      subst Kept (ap (λ p. p.0) (ok-injective e)) (set_execution-Kept t execution_id now h)
  process_event-Kept t t' now (progress phase transferred total percent bps average eta) asked h e =
      update_progress-Kept t t'
        (progress_of hundred phase transferred total percent bps average eta) now h
        (quiet-ok _ t' asked e)
  process_event-Kept t t' now (finished status result) asked h e =
      finish-Kept t t' (ending_of_event status result) now h (quiet-ok _ t' asked e)
  process_event-Kept t t' now (failed category message retry) asked h e =
      finish-Kept t t' (ending_of_failure category message retry) now h (quiet-ok _ t' asked e)
  process_event-Kept t t' now stdout asked h e = subst Kept (ap (λ p. p.0) (ok-injective e)) h
  process_event-Kept t t' now stderr asked h e = subst Kept (ap (λ p. p.0) (ok-injective e)) h
  process_event-Kept t t' now file_produced asked h e =
      subst Kept (ap (λ p. p.0) (ok-injective e)) h

  process_events-Kept :
      (t : Table F) (events : List (ℕ × Payload F))
      → Kept t
      → Kept (process_events hundred t id events).0
  unfolding process_events
  process_events-Kept t [] h = h
  process_events-Kept t ((now, payload) ∷ events) h =
      elim (Result-cases (process_event hundred t id now payload)) [
        | inl r ↦
            rw (r.1, process_events)
              (process_events-Kept r.0.0 events
                (process_event-Kept t r.0.0 now payload r.0.1 h r.1))
        | inr r ↦ rw (r.1, process_events) h
      ]

  finish_active :
      (t : Table F) (ending : TransferJobFinish) (now : ℕ) (j : TransferJob F)
      → IsTable hundred t
      → get t id ≡ some j
      → is_terminal ending.status ≡ true
      → is_active j.status ≡ true
      → (t' : Table F) × (finish hundred t id ending now ≡ ok t')
        × (get t' id ≡ some (finish_row hundred ending now j))
  unfolding finish
  finish_active t ending now j h found e a =
      let counted =
        count_updated (λ k. true) (λ k. is_active k.status) (finish_row hundred ending now) id t j
          h.0 found a in
      (
        _,
        rw (e, counted.1) refl,
        get_updated (λ k. is_active k.status) (finish_row hundred ending now) id t j (λ k. refl)
            found a,
      )

  finish_ended :
      (t : Table F) (ending : TransferJobFinish) (now : ℕ) (j : TransferJob F)
      → IsTable hundred t
      → get t id ≡ some j
      → is_active j.status ≡ false
      → (e : AppError) × (finish hundred t id ending now ≡ err e)
  unfolding finish
  finish_ended t ending now j h found a =
      let counted = count_refused (λ k. is_active k.status) id t j h.0 found a in
      elim (Bool-cases (is_terminal ending.status)) [
        | inl terminal ↦ (validation "传输任务已经结束", rw (terminal, counted) refl)
        | inr other ↦ (validation "传输任务终态无效", rw other refl)
      ]

  -- `finish` with a terminal status ends an active job, and is refused on one that is not active.
  finish-Settled :
      (t : Table F) (ending : TransferJobFinish) (now : ℕ)
      → is_terminal ending.status ≡ true
      → Kept t
      → Settled (settle_with hundred t (finish hundred t id ending now)).0
  finish-Settled t ending now e (h, j, found) = elim (Bool-cases (is_active j.status)) [
    | inl active ↦
        let (t', done, there) = finish_active t ending now j h found e active in
        rw done (
          (finish-Kept t t' ending now (h, j, found) done).0,
          finish_row hundred ending now j,
          there,
          unfold finish_row in terminal_inactive ending.status e,
        )
    | inr ended ↦
        let (e', refused) = finish_ended t ending now j h found ended in
        rw refused (h, j, found, ended)
  ]

  -- Where a stage of the worker leaves the job: settled if it went well.
  abbrev pub Left : Table F × AppResult (Unit {0}) → Type 0
  Left (t, ok done) = Settled t
  Left (t, err e) = Kept t

  require-some : (t : Table F) (j : TransferJob F) → get t id ≡ some j → require t id ≡ ok j
  unfolding require
  require-some t j h = rw (h, require) refl

  settle_with-Left :
      (t : Table F) (ending : TransferJobFinish) (now : ℕ)
      → is_terminal ending.status ≡ true
      → Kept t
      → Left (settle_with hundred t (finish hundred t id ending now))
  settle_with-Left t ending now e h = elim (Result-cases (finish hundred t id ending now)) [
    | inl r ↦
        rw r.1
          (subst (λ x. Settled (settle_with hundred t x).0) r.1 (finish-Settled t ending now e h))
    | inr r ↦ rw r.1 h
  ]

  ensure_finished-Left :
      (t : Table F) (details : Details) (result : Option JsonValue) (now : ℕ)
      → Kept t
      → Left (ensure_finished hundred t id details result now)
  unfolding ensure_finished
  ensure_finished-Left t details result now (h, j, found) =
      rw (require-some t j found, ensure_finished)
        elim (Bool-cases (is_terminal j.status)) [
          | inl terminal ↦ rw terminal (h, j, found, terminal_inactive j.status terminal)
          | inr other ↦ rw other (
              settle_with-Left t (ending_of_details hundred details result) now
                (execution_status-is_terminal details.status) (h, j, found))
        ]

  execute_inner-Left :
      (t : Table F) (env : Environment hundred) → Kept t → Left (execute_inner hundred t id env)
  unfolding execute_inner
  execute_inner-Left t env (h, j, found) =
      let events = process_events-Kept t env.events (h, j, found) in
      rw (require-some t j found, execute_inner)
        elim (Result-cases (parse_verification j.verification)) [
          | inr bad ↦ rw bad.1 (h, j, found)
          | inl good ↦ rw good.1 elim (Result-cases (process_events hundred t id env.events).1) [
            | inr stopped ↦ rw stopped.1 events
            | inl went ↦ rw went.1 elim (Result-cases env.answer) [
              | inr failure ↦ rw failure.1 events
              | inl answer ↦ rw answer.1 (
                  ensure_finished-Left (process_events hundred t id env.events).0 answer.0
                    (captured hundred env.events none) env.ended_at events)
            ]
          ]
        ]

  requeue-Settled :
      (t : Table F) (now : ℕ) (j : TransferJob F)
      → IsTable hundred t
      → get t id ≡ some j
      → is_failed j.status ≡ true
      → Settled (requeue_automatically t id now).0
  requeue-Settled t now j h found f =
      let (k, there, moves, same) = status_moves hundred (op_requeue id now) t id j h found in
      (
        unfold apply in apply-IsTable hundred (op_requeue id now) t h,
        k,
        unfold apply in there,
        failed_stays_inactive j.status k.status f moves,
      )

  module _ (display : AppError → List ℕ) where
    record_error-Settled :
        (now : ℕ) (p : Table F × AppResult (Unit {0}))
        → Left p
        → Settled (record_error hundred display id now p)
    unfolding record_error
    record_error-Settled now (t, ok done) h = h
    record_error-Settled now (t, err e) h =
        finish-Settled t (ending_of_error hundred display e) now refl h

    retry_if_transient-Settled :
        (t : Table F) (now : ℕ) → Settled t → Settled (retry_if_transient hundred display t id now)
    unfolding retry_if_transient
    retry_if_transient-Settled t now (h, j, found, a) =
        let transient =
          is_failed j.status
          && (j.retryable
              && can_automatically_retry (text_or_empty hundred j.error_category)
                  (message_or_empty hundred j.error_message) j.attempt_count j.max_attempts) in
        rw (require-some t j found, retry_if_transient)
          elim (Bool-cases transient) [
            | inr no_more ↦ rw no_more (h, j, found, a)
            | inl again ↦
                rw again (requeue-Settled t now j h found (&&_parts (is_failed j.status) _ again).0)
          ]

-- Whatever the transfer reports, in whatever order, and whatever it answers or whichever statement is
-- refused on the way: after `execute` the job is still in the table and is not active, so it does not
-- hold one of its server's two places.
pub execute_settles :
    {F : Type 0} (hundred : F) (display : AppError → List ℕ) (t : Table F) (id : ℕ)
    (env : Environment hundred) (j : TransferJob F)
    → IsTable hundred t
    → get t id ≡ some j
    → IsTable hundred (execute hundred display t id env)
      × (k : TransferJob F) × (get (execute hundred display t id env) id ≡ some k)
      × (is_active k.status ≡ false)
unfolding execute
execute_settles hundred display t id env j h found =
    retry_if_transient-Settled hundred id display _ env.requeued_at (
      record_error-Settled hundred id display env.failed_at _
        (execute_inner-Left hundred id t env (h, j, found)))
