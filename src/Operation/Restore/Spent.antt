-- ===== src/Operation/Restore/Spent.antt =====
-- A restore point that was applied is spent.
use qingzhou_ssh.Prelude.{ℕ, ◌≡◌, ap, Bool, true, false, some, List, [], ◌∷◌, arith, ◌==◌}
use qingzhou_ssh.Prelude.Rows.{Grows-find?}
use qingzhou_ssh.Operation.Service.Dangerous.{OperationRestorePointStatus}
use qingzhou_ssh.Operation.Restore.{OperationRestorePoint, Points, is_point, get_point}
use qingzhou_ssh.Operation.Restore.Ops.{
  PointStatement, pt_create, pt_add_item, pt_available, pt_attach, pt_begin_cleanup,
  pt_finish_cleanup, pt_observed, pt_creation_failed, pt_item_rolling_back, pt_finish_item,
  pt_recover, pt_begin_rollback, pt_finish_rollback, apply_point_statement, apply_point_statements,
}
use qingzhou_ssh.Operation.Restore.Life.{PointMove, IsNewPoint, PointsMove}
use qingzhou_ssh.Operation.Restore.Moves.{
  create-Moves, add_item-Moves, available-Moves, attach-Moves, begin_cleanup-Moves,
  finish_cleanup-Moves, observed-Moves, creation_failed-Moves, recover-Moves, finish_rollback-Moves,
  begin_rollback-Moves, item_rolling-Moves, finish_item-Moves,
}

-- Every statement, refused or not, leaves a point's status or moves it along `point_may_become`.
pub statement-PointsMove :
    (st : PointStatement) (s : Points) → PointsMove s (apply_point_statement st s)
unfolding apply_point_statement
statement-PointsMove (pt_create operations valid id now draft) s =
    create-Moves s operations valid id now draft
statement-PointsMove (pt_add_item valid fits item) s = add_item-Moves s valid fits item
statement-PointsMove (pt_available id now) s = available-Moves s id now
statement-PointsMove (pt_attach valid id asset expires_at now) s =
    attach-Moves s valid id asset expires_at now
statement-PointsMove (pt_begin_cleanup id now clock) s = begin_cleanup-Moves s id now clock
statement-PointsMove (pt_finish_cleanup id now) s = finish_cleanup-Moves s id now
statement-PointsMove (pt_observed id now) s = observed-Moves s id now
statement-PointsMove (pt_creation_failed id now) s = creation_failed-Moves s id now
statement-PointsMove (pt_item_rolling_back id) s = item_rolling-Moves s id
statement-PointsMove (pt_finish_item id status error_summary) s =
    finish_item-Moves s id status error_summary
statement-PointsMove (pt_recover now) s = recover-Moves s now
statement-PointsMove (pt_begin_rollback id now) s = begin_rollback-Moves s id now
statement-PointsMove (pt_finish_rollback id status now) s = finish_rollback-Moves s id status now

abbrev pub is_spent : OperationRestorePointStatus → Bool
is_spent OperationRestorePointStatus.rolled_back = true
is_spent OperationRestorePointStatus.cleanup_pending = true
is_spent OperationRestorePointStatus.expired = true
is_spent _ = false

PointMove-spent :
    (p q : OperationRestorePoint)
    → PointMove p q
    → is_spent p.status ≡ true
    → is_spent q.status ≡ true
PointMove-spent p q h spent = ground arith

-- A point whose restore point was applied whole, or that is being cleaned up, is never applied again:
-- whatever statements run, it stays in the table and is rolled back, about to be cleaned up, or
-- expired.
pub spent_stays :
    (sts : List PointStatement) (s : Points) (id : ℕ) (p : OperationRestorePoint)
    → get_point s id ≡ some p
    → is_spent p.status ≡ true
    → (q : OperationRestorePoint) × (get_point (apply_point_statements sts s) id ≡ some q)
      × (is_spent q.status ≡ true)
unfolding apply_point_statements
spent_stays [] s id p found spent = (p, found, spent)
spent_stays (st ∷ sts) s id p found spent =
    let (q, there, move) =
      Grows-find? PointMove IsNewPoint (is_point id) (λ a b m. ap (λ x. x == id) m.same_id) s.points
        (apply_point_statement st s).points p (statement-PointsMove st s)
        (unfold get_point in found) in
    spent_stays sts (apply_point_statement st s) id q (unfold get_point in there)
      (PointMove-spent p q move spent)
