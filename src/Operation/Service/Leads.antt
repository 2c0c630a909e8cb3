-- ===== src/Operation/Service/Leads.antt =====
-- How `run_dangerous` ends, whatever the services answer: each part of it, up to the whole.
use qingzhou_ssh.Prelude.{
  ℕ, zero, suc, ◌+◌, ◌≡◌, refl, true, Option, none, some, List, [], ◌∷◌, arith, any, ltb,
}
use qingzhou_ssh.Prelude.Result.{ok, err}
use qingzhou_ssh.Error.{AppError, AppResult}
use qingzhou_ssh.Operation.Status.{
  OperationStatus, backup, execute, verify, rollback, same_operation, OperationStepStatus,
}
use qingzhou_ssh.Operation.Table.Steps.{set_result}
use qingzhou_ssh.Operation.Action.{
  Effect, captured, confirmed, restored, World, pure, throw, given, Ensured, >>=-Ensures,
  if-Ensures,
}
use qingzhou_ssh.Operation.Service.{failed_step}
use qingzhou_ssh.Operation.Service.Dangerous.{
  OperationRestorePointStatus, DangerousPlan, Answers, step_end, rollback_outcome, rollback_summary,
  end_rollback, finish_dangerous_failure, end_backups, failure_of_capture, capture_failed,
  end_verified, after_committed, after_finalized, verify_change, after_verify, verify_steps,
  changes_ip, after_execute, run_captured, after_capture, back_up, confirm_dangerous, with_backup,
  run_dangerous, recoverable_tasks,
}
use qingzhou_ssh.Operation.Service.Settled.{
  IsBacked, Untouched, IsCaptured, IsRestored, note-Ensures, pure-Keeps, given-Keeps,
  now_millis-Keeps, db-Keeps, move_to-Keeps, mark_running-Keeps, skip_from-Keeps, end_step-Keeps,
}
use qingzhou_ssh.Prelude.{not, ◌||◌, if◌then◌else◌}
use qingzhou_ssh.Prelude.Text.{str_eq, codes}
use qingzhou_ssh.Operation.Service.Dangerous.{roll_back}
use qingzhou_ssh.Error.{validation}
use qingzhou_ssh.Operation.Service.Outcome.{
  Outcome, Leads, KeepsCaptured, kept, undone, fresh, is_rollback_end, is_early_end,
  point_taken_end, point_applied_end, nothing_done_end, run_phase-Keeps,
}

module _ (shown : AppError → List ℕ) where
  rollback_outcome_ends :
      (answer : AppResult OperationRestorePointStatus)
      → is_rollback_end (rollback_outcome shown answer).1 ≡ true
  unfolding rollback_outcome
  rollback_outcome_ends (ok OperationRestorePointStatus.creating) = refl
  rollback_outcome_ends (ok OperationRestorePointStatus.available) = refl
  rollback_outcome_ends (ok OperationRestorePointStatus.rolling_back) = refl
  rollback_outcome_ends (ok OperationRestorePointStatus.rolled_back) = refl
  rollback_outcome_ends (ok OperationRestorePointStatus.partial) = refl
  rollback_outcome_ends (ok OperationRestorePointStatus.failed) = refl
  rollback_outcome_ends (ok OperationRestorePointStatus.expired) = refl
  rollback_outcome_ends (ok OperationRestorePointStatus.cleanup_pending) = refl
  rollback_outcome_ends (err e) = ground arith

  end_rollback-Leads :
      (id : ℕ) (outcome : OperationStepStatus × OperationStatus × Option (List ℕ))
      → is_rollback_end outcome.1 ≡ true
      → Leads IsRestored id (end_rollback id outcome)
  unfolding end_rollback
  end_rollback-Leads id (step_status, run_status, message) back =
      >>=-Ensures
        (end_step-Keeps IsRestored IsBacked undone id rollback 0
          (step_end step_status (rollback_summary step_status) message))
        (λ u. point_applied_end id run_status back)

  restored-IsRestored : (log : List Effect) → IsCaptured log → IsRestored (restored ∷ log)
  restored-IsRestored log h = ground arith

  roll_back-Leads :
      (id : ℕ) (answer : AppResult OperationRestorePointStatus)
      → Leads IsCaptured id (roll_back shown id answer)
  unfolding roll_back
  roll_back-Leads id answer =
      >>=-Ensures (move_to-Keeps IsCaptured IsBacked kept id OperationStatus.rollback_available)
        (λ u.
          >>=-Ensures (move_to-Keeps IsCaptured IsBacked kept id OperationStatus.rolling_back) (λ u.
            >>=-Ensures (mark_running-Keeps IsCaptured IsBacked kept id rollback 0) (λ u.
              >>=-Ensures (note-Ensures IsCaptured IsRestored IsBacked restored restored-IsRestored)
                (λ u.
                  end_rollback-Leads id (rollback_outcome shown answer)
                    (rollback_outcome_ends answer)))))

  finish_failure-Leads :
      (id : ℕ) (answer : AppResult OperationRestorePointStatus) (status : OperationStatus)
      → Leads IsCaptured id (finish_dangerous_failure shown id answer status)
  unfolding finish_dangerous_failure
  finish_failure-Leads id answer status =
      if-Ensures (same_operation status OperationStatus.uncertain)
        (point_taken_end id OperationStatus.uncertain refl) (roll_back-Leads id answer)

  end_backups-Keeps : (id index left : ℕ) → KeepsCaptured (end_backups id index left)
  unfolding end_backups
  end_backups-Keeps id index zero = pure-Keeps IsCaptured IsBacked kept tt
  end_backups-Keeps id index (suc left) =
      let end =
        end_step-Keeps IsCaptured IsBacked kept id backup index
          (step_end OperationStepStatus.succeeded (some "恢复项已校验并保存在项目数据目录") none) in
      if-Ensures (ltb 0 index)
        (>>=-Ensures (mark_running-Keeps IsCaptured IsBacked kept id backup index)
          (λ u. >>=-Ensures end (λ u. end_backups-Keeps id (index + 1) left)))
        (>>=-Ensures end (λ u. end_backups-Keeps id (index + 1) left))

  failure_of_capture_ends : (e : AppError) → is_early_end (failure_of_capture e) ≡ true
  failure_of_capture_ends e = ground arith

  capture_failed-Leads : (id : ℕ) (e : AppError) → Leads Untouched id (capture_failed shown id e)
  unfolding capture_failed
  capture_failed-Leads id e =
      >>=-Ensures (end_step-Keeps Untouched IsBacked fresh id backup 0 (failed_step shown e)) (λ u.
        >>=-Ensures (skip_from-Keeps Untouched IsBacked fresh id backup 1)
          (λ u. nothing_done_end id (failure_of_capture e) (failure_of_capture_ends e)))

  end_verified-Leads :
      (id : ℕ) (result : AppResult (List ℕ)) → Leads IsCaptured id (end_verified id result)
  unfolding end_verified
  end_verified-Leads id result = >>=-Ensures (now_millis-Keeps IsCaptured IsBacked kept) (λ now.
      >>=-Ensures (db-Keeps IsCaptured IsBacked kept (λ s. set_result s id result now))
        (λ u. point_taken_end id OperationStatus.succeeded refl))

  after_committed-Leads :
      (id : ℕ) (a : Answers) (answer : AppResult (Unit {0}))
      → Leads IsCaptured id (after_committed shown id a answer)
  unfolding after_committed
  after_committed-Leads id a (err e) =
      >>=-Ensures
        (end_step-Keeps IsCaptured IsBacked kept id verify 0
          (step_end OperationStepStatus.uncertain (some "新 IP 已验证，但本地服务器地址更新失败") (some (shown e))))
        (λ u. point_taken_end id OperationStatus.uncertain refl)
  after_committed-Leads id a (ok u) =
      >>=-Ensures
        (end_step-Keeps IsCaptured IsBacked kept id verify 0
          (step_end OperationStepStatus.succeeded (some "已通过新 IP 建立独立 SSH 连接并核验地址、路由和主机指纹") none))
        (λ u. end_verified-Leads id a.result)

  after_finalized-Leads :
      (id : ℕ) (a : Answers) (answer : AppResult (Unit {0}))
      → Leads IsCaptured id (after_finalized shown id a answer)
  unfolding after_finalized
  after_finalized-Leads id a (err e) =
      >>=-Ensures
        (end_step-Keeps IsCaptured IsBacked kept id verify 0 (
          step_end OperationStepStatus.uncertain (some "未能通过新 IP 完成独立验证；远端定时恢复保持有效")
            (some (shown e))))
        (λ u. finish_failure-Leads id a.rollback OperationStatus.uncertain)
  after_finalized-Leads id a (ok u) = after_committed-Leads id a a.committed

  confirmed-IsCaptured : (log : List Effect) → IsCaptured log → IsCaptured (confirmed ∷ log)
  confirmed-IsCaptured log h = ground arith

  verify_change-Leads : (id : ℕ) (a : Answers) → Leads IsCaptured id (verify_change shown id a)
  unfolding verify_change
  verify_change-Leads id a =
      >>=-Ensures (mark_running-Keeps IsCaptured IsBacked kept id verify 0) (λ u.
        if-Ensures a.is_cancelled_at_verify
          (>>=-Ensures
            (end_step-Keeps IsCaptured IsBacked kept id verify 0 (
              step_end OperationStepStatus.uncertain none (some (codes "已安排远端自动恢复；取消后等待服务器恢复原网络"))))
            (λ u. finish_failure-Leads id a.rollback OperationStatus.uncertain))
          (>>=-Ensures (note-Ensures IsCaptured IsCaptured IsBacked confirmed confirmed-IsCaptured)
            (λ u. after_finalized-Leads id a a.finalized)))

  after_verify-Leads :
      (id : ℕ) (a : Answers) (failure : Option OperationStatus)
      → Leads IsCaptured id (after_verify shown id a failure)
  unfolding after_verify
  after_verify-Leads id a none = end_verified-Leads id a.result
  after_verify-Leads id a (some status) = finish_failure-Leads id a.rollback status

  verify_steps-Leads : (id : ℕ) (a : Answers) → Leads IsCaptured id (verify_steps shown id a)
  unfolding verify_steps
  verify_steps-Leads id a =
      >>=-Ensures (run_phase-Keeps shown id verify 0 a.verify_turns)
        (λ failure. after_verify-Leads id a failure)

  after_execute-Leads :
      (id : ℕ) (plan : DangerousPlan) (a : Answers) (failure : Option OperationStatus)
      → Leads IsCaptured id (after_execute shown id plan a failure)
  unfolding after_execute
  after_execute-Leads id plan a (some status) = finish_failure-Leads id a.rollback status
  after_execute-Leads id plan a none =
      >>=-Ensures (move_to-Keeps IsCaptured IsBacked kept id OperationStatus.verifying)
        (λ u. if-Ensures (changes_ip plan) (verify_change-Leads id a) (verify_steps-Leads id a))

  for_ip_change :
      (plan : DangerousPlan) (answer : AppResult (Unit {0}))
      → KeepsCaptured (if changes_ip plan then given answer else pure tt)
  for_ip_change plan answer =
      if-Ensures (changes_ip plan) (given-Keeps IsCaptured IsBacked kept answer)
        (pure-Keeps IsCaptured IsBacked kept tt)

  run_captured-Leads :
      (id : ℕ) (plan : DangerousPlan) (items : ℕ) (a : Answers)
      → Leads IsCaptured id (run_captured shown id plan items a)
  unfolding run_captured
  run_captured-Leads id plan items a = >>=-Ensures (end_backups-Keeps id 0 items) (λ u.
      >>=-Ensures (for_ip_change plan a.recovery) (λ u.
        >>=-Ensures (for_ip_change plan a.attach) (λ u.
          >>=-Ensures (given-Keeps IsCaptured IsBacked kept a.elevated) (λ u.
            >>=-Ensures (move_to-Keeps IsCaptured IsBacked kept id OperationStatus.running) (λ u.
              >>=-Ensures (run_phase-Keeps shown id execute 0 a.execute_turns)
                (λ failure. after_execute-Leads id plan a failure))))))

  captured-IsCaptured : (log : List Effect) → Untouched log → IsCaptured (captured ∷ log)
  captured-IsCaptured log h = ground arith

  after_capture-Leads :
      (id : ℕ) (plan : DangerousPlan) (items : ℕ) (a : Answers) (answer : AppResult (Unit {0}))
      → Leads Untouched id (after_capture shown id plan items a answer)
  unfolding after_capture
  after_capture-Leads id plan items a (err e) = capture_failed-Leads id e
  after_capture-Leads id plan items a (ok u) =
      >>=-Ensures (note-Ensures Untouched IsCaptured IsBacked captured captured-IsCaptured)
        (λ u. run_captured-Leads id plan items a)

  confirm_dangerous-Leads :
      (id : ℕ) (plan : DangerousPlan) (items : ℕ) (a : Answers)
      → Leads Untouched id (confirm_dangerous shown id plan items a)
  unfolding confirm_dangerous back_up
  confirm_dangerous-Leads id plan items a =
      >>=-Ensures (move_to-Keeps Untouched IsBacked fresh id OperationStatus.waiting_confirmation)
        (λ u. if-Ensures a.is_cancelled (nothing_done_end id OperationStatus.cancelled refl) (
          >>=-Ensures (move_to-Keeps Untouched IsBacked fresh id OperationStatus.backing_up) (λ u.
            >>=-Ensures (mark_running-Keeps Untouched IsBacked fresh id backup 0)
              (λ u. after_capture-Leads id plan items a a.capture))))

  throw-Leads : (id : ℕ) (e : AppError) → Leads Untouched id (throw e)
  throw-Leads id e = record { holds = λ w l. fresh w.log l }

  with_backup-Leads :
      (id : ℕ) (plan : DangerousPlan) (a : Answers) (items : Option ℕ)
      → Leads Untouched id (with_backup shown id plan a items)
  unfolding with_backup
  with_backup-Leads id plan a none = throw-Leads id (validation "危险任务缺少恢复点声明")
  with_backup-Leads id plan a (some items) =
      if-Ensures (not plan.has_verify_steps || not plan.has_rollback_plan)
        (throw-Leads id (validation "危险任务缺少验证或回滚声明，已阻止运行"))
        (confirm_dangerous-Leads id plan items a)

  run_dangerous-Leads :
      (id : ℕ) (plan : DangerousPlan) (a : Answers)
      → Leads Untouched id (run_dangerous shown id plan a)
  unfolding run_dangerous
  run_dangerous-Leads id plan a =
      if-Ensures (not (any (str_eq plan.task_id) recoverable_tasks))
        (throw-Leads id (validation "该危险任务的恢复执行器尚未完成，服务器未发生修改"))
        (with_backup-Leads id plan a plan.backup_items)

-- Whatever the services answer, from a world in which nothing was done: if `run_dangerous` gives back
-- a run, that run is in the table with a terminal status; a command was run only after a restore
-- point was captured; if a command was run, the status is a success, uncertain, or tells of a
-- rollback; a status that tells of a rollback means that the restore point was applied, and after a
-- success it was not. If it gives an error, no command was run without a restore point.
pub run_dangerous-Outcome :
    (shown : AppError → List ℕ) (id : ℕ) (plan : DangerousPlan) (a : Answers) (w : World)
    → w.log ≡ []
    → Ensured (Outcome id) (λ w. IsBacked w.log) (run_dangerous shown id plan a w)
run_dangerous-Outcome shown id plan a w h = (run_dangerous-Leads shown id plan a).holds w h
