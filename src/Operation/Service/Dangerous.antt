-- ===== src/Operation/Service/Dangerous.antt =====
-- `run_dangerous`, `finish_dangerous_failure` and `rollback_operation` of
-- src-tauri/src/services/operation_service.rs: a task that changes a server runs between a restore
-- point and its verification, and is rolled back when it fails.
use qingzhou_ssh.Prelude.{
  ℕ, zero, suc, ◌+◌, String, Bool, not, ◌||◌, Option, none, some, List, [], ◌∷◌, any, ltb,
  if◌then◌else◌,
}
use qingzhou_ssh.Prelude.Text.{str_eq, codes}
use qingzhou_ssh.Prelude.Result.{ok, err}
use qingzhou_ssh.Error.{AppError, AppResult, validation}
use qingzhou_ssh.Operation.Status.{
  OperationStatus, same_operation, backup, execute, verify, rollback, OperationStepStatus,
}
use qingzhou_ssh.Operation.Table.{OperationRunRecord}
use qingzhou_ssh.Operation.Table.Steps.{set_result}
use qingzhou_ssh.Operation.Action.{
  Action, pure, throw, given, ◌>>=◌, ◌>>◌, now_millis, note, captured, confirmed, restored, db,
}
use qingzhou_ssh.Operation.Service.{
  StepTurn, StepEnd, operation_status_for_error, move_to, mark_running, skip_from, end_step,
  end_run_as, failed_step, run_phase,
}

-- domain/operation_restore.rs.
pub data OperationRestorePointStatus : Type 0 where
  creating available rolling_back rolled_back partial failed expired cleanup_pending :
      OperationRestorePointStatus

-- What `run_dangerous` reads of the definition and of the plan.
pub record DangerousPlan : Type 0 where
  pub task_id : String
  pub backup_items : Option ℕ
  pub has_verify_steps : Bool
  pub has_rollback_plan : Bool

-- What the service is answered: the restore service (`capture`, `attach`, `rollback`), the making of
-- the commands (`recovery`, `elevated`), the execution service, the confirmation of a new address
-- (`finalized`, `committed`), and the parsed result as it is encoded.
pub record Answers : Type 0 where
  pub is_cancelled : Bool
  pub capture : AppResult (Unit {0})
  pub recovery : AppResult (Unit {0})
  pub attach : AppResult (Unit {0})
  pub elevated : AppResult (Unit {0})
  pub execute_turns : List StepTurn
  pub is_cancelled_at_verify : Bool
  pub finalized : AppResult (Unit {0})
  pub committed : AppResult (Unit {0})
  pub verify_turns : List StepTurn
  pub rollback : AppResult OperationRestorePointStatus
  pub result : AppResult (List ℕ)

abbrev pub recoverable_tasks : List String
recoverable_tasks =
    "system.hostname_change" ∷ "system.timezone_change" ∷ "system.time_sync_change"
    ∷ "storage.swap_manage" ∷ "security.file_permissions" ∷ "service.start" ∷ "service.stop"
    ∷ "service.restart" ∷ "service.boot_policy" ∷ "service.cron_manage" ∷ "container.action"
    ∷ "network.hosts_manage" ∷ "security.firewall_open_port" ∷ "network.ip_change" ∷ []

abbrev pub step_end : OperationStepStatus → Option String → Option (List ℕ) → StepEnd
step_end status summary message = record {
  status = status;
  execution_id = none;
  output_summary = elim summary [ none ↦ none | some text ↦ some (codes text) ];
  error_message = message;
}

abbrev pub ends_uncertain : AppError → Bool
ends_uncertain e = same_operation (operation_status_for_error e) OperationStatus.uncertain

abbrev pub rollback_summary : OperationStepStatus → Option String
rollback_summary OperationStepStatus.succeeded = some "已核验恢复到修改前状态"
rollback_summary _ = none

-- The end of `finish_dangerous_failure`, once the restore service has answered.
unfoldable pub end_rollback :
    ℕ → OperationStepStatus × OperationStatus × Option (List ℕ) → Action OperationRunRecord
end_rollback id (step_status, run_status, message) = do
  end_step id rollback 0 (step_end step_status (rollback_summary step_status) message)
  end_run_as id run_status

-- The rows of the backup are ended one by one; the first is running since before the capture.
unfoldable pub end_backups : ℕ → ℕ → ℕ → Action (Unit {0})
end_backups id index zero = pure tt
end_backups id index (suc left) =
    let rest = end_backups id (index + 1) left in
    let end =
      end_step id backup index
        (step_end OperationStepStatus.succeeded (some "恢复项已校验并保存在项目数据目录") none) in
    if ltb 0 index then (do mark_running id backup index; end; rest) else (do end; rest)

abbrev pub failure_of_capture : AppError → OperationStatus
failure_of_capture AppError.cancelled = OperationStatus.cancelled
failure_of_capture _ = OperationStatus.failed

-- The end of a run whose phases have passed.
unfoldable pub end_verified : ℕ → AppResult (List ℕ) → Action OperationRunRecord
end_verified id result = do
  now ← now_millis
  db (λ s. set_result s id result now)
  end_run_as id OperationStatus.succeeded

abbrev pub changes_ip : DangerousPlan → Bool
changes_ip plan = str_eq plan.task_id "network.ip_change"

module _ (shown : AppError → List ℕ) where
  -- The `match` on the answer of a rollback.
  unfoldable pub rollback_outcome :
      AppResult OperationRestorePointStatus
      → OperationStepStatus × OperationStatus × Option (List ℕ)
  rollback_outcome (ok OperationRestorePointStatus.rolled_back) =
      (OperationStepStatus.succeeded, OperationStatus.rolled_back, none)
  rollback_outcome (ok OperationRestorePointStatus.partial) = (
    OperationStepStatus.failed,
    OperationStatus.rollback_partial,
    some (codes "只恢复了部分项目，请查看恢复点详情"),
  )
  rollback_outcome (ok _) =
      (OperationStepStatus.failed, OperationStatus.rollback_failed, some (codes "自动回滚失败，恢复点仍保留"))
  rollback_outcome (err e) =
      if ends_uncertain e
      then (OperationStepStatus.uncertain, OperationStatus.uncertain, some (shown e))
      else (OperationStepStatus.failed, OperationStatus.rollback_failed, some (shown e))

  unfoldable pub roll_back : ℕ → AppResult OperationRestorePointStatus → Action OperationRunRecord
  roll_back id answer = do
    move_to id OperationStatus.rollback_available
    move_to id OperationStatus.rolling_back
    mark_running id rollback 0
    note restored
    end_rollback id (rollback_outcome answer)

  unfoldable pub finish_dangerous_failure :
      ℕ → AppResult OperationRestorePointStatus → OperationStatus → Action OperationRunRecord
  finish_dangerous_failure id answer failure_status =
      if same_operation failure_status OperationStatus.uncertain
      then end_run_as id OperationStatus.uncertain
      else roll_back id answer

  -- A restore point could not be captured.
  unfoldable pub capture_failed : ℕ → AppError → Action OperationRunRecord
  capture_failed id e = do
    end_step id backup 0 (failed_step shown e)
    skip_from id backup 1
    end_run_as id (failure_of_capture e)

  -- The address of the server in the database is changed, or that fails.
  unfoldable pub after_committed : ℕ → Answers → AppResult (Unit {0}) → Action OperationRunRecord
  after_committed id a (err e) = do
    end_step id verify 0
        (step_end OperationStepStatus.uncertain (some "新 IP 已验证，但本地服务器地址更新失败") (some (shown e)))
    end_run_as id OperationStatus.uncertain
  after_committed id a (ok u) = do
    end_step id verify 0
        (step_end OperationStepStatus.succeeded (some "已通过新 IP 建立独立 SSH 连接并核验地址、路由和主机指纹") none)
    end_verified id a.result

  -- The new address is confirmed by a connection to it, or that fails.
  unfoldable pub after_finalized : ℕ → Answers → AppResult (Unit {0}) → Action OperationRunRecord
  after_finalized id a (err e) = do
    end_step id verify 0 (
        step_end OperationStepStatus.uncertain (some "未能通过新 IP 完成独立验证；远端定时恢复保持有效") (some (shown e)))
    finish_dangerous_failure id a.rollback OperationStatus.uncertain
  after_finalized id a (ok u) = after_committed id a a.committed

  -- The verification of a new address.
  unfoldable pub verify_change : ℕ → Answers → Action OperationRunRecord
  verify_change id a = do
    mark_running id verify 0
    if a.is_cancelled_at_verify
        then (do
          end_step id verify 0
              (step_end OperationStepStatus.uncertain none (some (codes "已安排远端自动恢复；取消后等待服务器恢复原网络")))
          finish_dangerous_failure id a.rollback OperationStatus.uncertain)
        else (do note confirmed; after_finalized id a a.finalized)

  unfoldable pub after_verify : ℕ → Answers → Option OperationStatus → Action OperationRunRecord
  after_verify id a (some status) = finish_dangerous_failure id a.rollback status
  after_verify id a none = end_verified id a.result

  -- The verification by the steps of the plan.
  unfoldable pub verify_steps : ℕ → Answers → Action OperationRunRecord
  verify_steps id a = do
    failure ← run_phase shown id verify 0 a.verify_turns
    after_verify id a failure

  -- The commands were run, or one failed.
  unfoldable pub after_execute :
      ℕ → DangerousPlan → Answers → Option OperationStatus → Action OperationRunRecord
  after_execute id plan a (some status) = finish_dangerous_failure id a.rollback status
  after_execute id plan a none = do
    move_to id OperationStatus.verifying
    if changes_ip plan then verify_change id a else verify_steps id a

  -- From the captured restore point on.
  unfoldable pub run_captured : ℕ → DangerousPlan → ℕ → Answers → Action OperationRunRecord
  run_captured id plan items a = do
    end_backups id 0 items
    if changes_ip plan then given a.recovery else pure tt
    if changes_ip plan then given a.attach else pure tt
    given a.elevated
    move_to id OperationStatus.running
    failure ← run_phase shown id execute 0 a.execute_turns
    after_execute id plan a failure

  unfoldable pub after_capture :
      ℕ → DangerousPlan → ℕ → Answers → AppResult (Unit {0}) → Action OperationRunRecord
  after_capture id plan items a (err e) = capture_failed id e
  after_capture id plan items a (ok u) = do note captured; run_captured id plan items a

  -- The restore point is captured while the first row of the backup is running.
  unfoldable pub back_up : ℕ → DangerousPlan → ℕ → Answers → Action OperationRunRecord
  back_up id plan items a = do
    move_to id OperationStatus.backing_up
    mark_running id backup 0
    after_capture id plan items a a.capture

  unfoldable pub confirm_dangerous : ℕ → DangerousPlan → ℕ → Answers → Action OperationRunRecord
  confirm_dangerous id plan items a = do
    move_to id OperationStatus.waiting_confirmation
    if a.is_cancelled then end_run_as id OperationStatus.cancelled else back_up id plan items a

  unfoldable pub with_backup : ℕ → DangerousPlan → Answers → Option ℕ → Action OperationRunRecord
  with_backup id plan a none = throw (validation "危险任务缺少恢复点声明")
  with_backup id plan a (some items) =
      if not plan.has_verify_steps || not plan.has_rollback_plan
      then throw (validation "危险任务缺少验证或回滚声明，已阻止运行")
      else confirm_dangerous id plan items a

  unfoldable pub run_dangerous : ℕ → DangerousPlan → Answers → Action OperationRunRecord
  run_dangerous id plan a =
      if not (any (str_eq plan.task_id) recoverable_tasks)
      then throw (validation "该危险任务的恢复执行器尚未完成，服务器未发生修改")
      else with_backup id plan a plan.backup_items
