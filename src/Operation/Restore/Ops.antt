-- ===== src/Operation/Restore/Ops.antt =====
-- The statements on restore points and their items as one type of operations. One that is refused
-- leaves the tables as they were.
use qingzhou_ssh.Prelude.{ℕ, String, Option, List, [], ◌∷◌}
use qingzhou_ssh.Prelude.Result.{ok, err}
use qingzhou_ssh.Error.{AppResult}
use qingzhou_ssh.Operation.Table.{Store}
use qingzhou_ssh.Operation.Service.Dangerous.{OperationRestorePointStatus}
use qingzhou_ssh.Operation.Restore.{
  OperationRestoreItem, OperationRestoreItemStatus, NewOperationRestorePoint, Points, create_point,
  add_item, mark_available, attach_remote_asset, begin_cleanup, finish_cleanup,
  mark_remote_rollback_observed, mark_creation_failed, mark_item_rolling_back, finish_item_rollback,
  recover_points, begin_rollback, finish_rollback,
}

pub data PointStatement : Type 0 where
  pt_create : Store → AppResult (Unit {0}) → ℕ → ℕ → NewOperationRestorePoint → PointStatement
  pt_add_item : AppResult (Unit {0}) → AppResult (Unit {0}) → OperationRestoreItem → PointStatement
  pt_available : ℕ → ℕ → PointStatement
  pt_attach : AppResult (Unit {0}) → ℕ → String → ℕ → ℕ → PointStatement
  pt_begin_cleanup : ℕ → ℕ → ℕ → PointStatement
  pt_finish_cleanup : ℕ → ℕ → PointStatement
  pt_observed : ℕ → ℕ → PointStatement
  pt_creation_failed : ℕ → ℕ → PointStatement
  pt_item_rolling_back : ℕ → PointStatement
  pt_finish_item : ℕ → OperationRestoreItemStatus → Option (List ℕ) → PointStatement
  pt_recover : ℕ → PointStatement
  pt_begin_rollback : ℕ → ℕ → PointStatement
  pt_finish_rollback : ℕ → OperationRestorePointStatus → ℕ → PointStatement

abbrev pub points_or : Points → AppResult Points → Points
points_or s (ok s') = s'
points_or s (err e) = s

unfoldable pub apply_point_statement : PointStatement → Points → Points
apply_point_statement (pt_create operations valid id now draft) s =
    points_or s (create_point s operations valid id now draft)
apply_point_statement (pt_add_item valid fits item) s = points_or s (add_item s valid fits item)
apply_point_statement (pt_available id now) s = points_or s (mark_available s id now)
apply_point_statement (pt_attach valid id asset expires_at now) s =
    points_or s (attach_remote_asset s valid id asset expires_at now)
apply_point_statement (pt_begin_cleanup id now clock) s = points_or s (begin_cleanup s id now clock)
apply_point_statement (pt_finish_cleanup id now) s = points_or s (finish_cleanup s id now)
apply_point_statement (pt_observed id now) s = points_or s (mark_remote_rollback_observed s id now)
apply_point_statement (pt_creation_failed id now) s = points_or s (mark_creation_failed s id now)
apply_point_statement (pt_item_rolling_back id) s = points_or s (mark_item_rolling_back s id)
apply_point_statement (pt_finish_item id status error_summary) s =
    points_or s (finish_item_rollback s id status error_summary)
apply_point_statement (pt_recover now) s = (recover_points s now).0
apply_point_statement (pt_begin_rollback id now) s = points_or s (begin_rollback s id now)
apply_point_statement (pt_finish_rollback id status now) s =
    points_or s (finish_rollback s id status now)

unfoldable pub apply_point_statements : List PointStatement → Points → Points
apply_point_statements [] s = s
apply_point_statements (st ∷ sts) s = apply_point_statements sts (apply_point_statement st s)
