-- ===== src/Operation/Restore/Life.antt =====
-- How the status of a restore point may move, and what an update of the table does to it.
use qingzhou_ssh.Prelude.{
  ℕ, String, ◌≡◌, refl, ◌⊎◌, inl, inr, Bool, true, false, List, count, ◌==◌, Bool-cases,
}
use qingzhou_ssh.Prelude.Rows.{update_rows, Grows, Grows-refl, Grows-update_rows}
use qingzhou_ssh.Operation.Service.Dangerous.{OperationRestorePointStatus}
use qingzhou_ssh.Operation.Restore.{
  OperationRestorePoint, OperationRestoreItem, Points, ensure_one, set_point_status,
}
use qingzhou_ssh.Operation.Restore.Ops.{points_or}

-- The life of a restore point, by its status.
abbrev pub point_may_become : OperationRestorePointStatus → OperationRestorePointStatus → Bool
point_may_become OperationRestorePointStatus.creating OperationRestorePointStatus.available = true
point_may_become OperationRestorePointStatus.creating OperationRestorePointStatus.failed = true
point_may_become OperationRestorePointStatus.available OperationRestorePointStatus.rolling_back =
    true
point_may_become OperationRestorePointStatus.partial OperationRestorePointStatus.rolling_back = true
point_may_become OperationRestorePointStatus.failed OperationRestorePointStatus.rolling_back = true
point_may_become OperationRestorePointStatus.available OperationRestorePointStatus.rolled_back =
    true
point_may_become OperationRestorePointStatus.rolling_back OperationRestorePointStatus.rolled_back =
    true
point_may_become OperationRestorePointStatus.rolling_back OperationRestorePointStatus.partial = true
point_may_become OperationRestorePointStatus.rolling_back OperationRestorePointStatus.failed = true
point_may_become OperationRestorePointStatus.rolled_back
      OperationRestorePointStatus.cleanup_pending =
    true
point_may_become OperationRestorePointStatus.available OperationRestorePointStatus.cleanup_pending =
    true
point_may_become OperationRestorePointStatus.partial OperationRestorePointStatus.cleanup_pending =
    true
point_may_become OperationRestorePointStatus.failed OperationRestorePointStatus.cleanup_pending =
    true
point_may_become OperationRestorePointStatus.cleanup_pending OperationRestorePointStatus.expired =
    true
point_may_become _ _ = false

-- A point keeps its key, and its status or moves on.
pub record PointMove (p q : OperationRestorePoint) : Type 0 where
  pub same_id : q.id ≡ p.id
  pub moves_on : (q.status ≡ p.status) ⊎ (point_may_become p.status q.status ≡ true)

abbrev pub IsNewPoint : OperationRestorePoint → Type 0
IsNewPoint p = p.status ≡ OperationRestorePointStatus.creating

abbrev pub PointsMove : Points → Points → Type 0
PointsMove s s' = Grows PointMove IsNewPoint s.points s'.points

pub point_stays : (p : OperationRestorePoint) → PointMove p p
point_stays p = record { same_id = refl; moves_on = inl refl }

pub points_stay : (s : Points) → PointsMove s s
points_stay s = Grows-refl PointMove IsNewPoint point_stays s.points

-- An update of the points that pass a test.
pub updated :
    (s : Points) (items : List OperationRestoreItem) (test : OperationRestorePoint → Bool)
    (change : OperationRestorePoint → OperationRestorePoint)
    → ((p : OperationRestorePoint) → test p ≡ true → PointMove p (change p))
    → PointsMove s (record { points = update_rows test change s.points; items = items })
updated s items test change h =
    Grows-update_rows PointMove IsNewPoint test change point_stays h s.points

pub checked :
    (s s' : Points) (rows : ℕ) (message : String)
    → PointsMove s s'
    → PointsMove s (points_or s (ensure_one rows message s'))
unfolding ensure_one
checked s s' rows message h = elim (Bool-cases (rows == 1)) [
  | inl one ↦ rw one h
  | inr other ↦ rw other (points_stay s)
]

pub set_status-Moves :
    (s : Points) (test : OperationRestorePoint → Bool) (status : OperationRestorePointStatus)
    (now : ℕ) (message : String)
    → ((p : OperationRestorePoint) → test p ≡ true → point_may_become p.status status ≡ true)
    → PointsMove s (points_or s (set_point_status s test status now message))
unfolding set_point_status
set_status-Moves s test status now message h =
    checked s
      (record s {
        points = update_rows test (λ p. record p { status = status; updated_at = now }) s.points;
      })
      (count test s.points) message
      (updated s s.items test (λ p. record p { status = status; updated_at = now })
        (λ p passed. record { same_id = refl; moves_on = inr (h p passed) }))
