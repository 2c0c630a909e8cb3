-- ===== src/Operation/Restore/Moves.antt =====
-- What each statement does to the restore points.
use qingzhou_ssh.Prelude.{
  ℕ, String, ◌≡◌, refl, inl, inr, Bool, true, false, not, ◌&&◌, ◌||◌, Option, none, some, List,
  arith, any, count, ◌==◌, Bool-cases, Option-cases,
}
use qingzhou_ssh.Prelude.Text.{str_eq}
use qingzhou_ssh.Prelude.Result.{ok, err, ◌>>=◌, Result-cases}
use qingzhou_ssh.Prelude.Rows.{update_rows, Grows-snoc, Grows-update_rows}
use qingzhou_ssh.Error.{AppResult}
use qingzhou_ssh.Operation.Table.{Store, get_run}
use qingzhou_ssh.Operation.Service.Dangerous.{OperationRestorePointStatus}
use qingzhou_ssh.Operation.Restore.{
  OperationRestorePoint, OperationRestoreItem, OperationRestoreItemStatus, NewOperationRestorePoint,
  Points, is_point, get_point, set_point_status, new_point, insert_point, create_point, add_item,
  insert_item, same_item_key, mark_available, attach_remote_asset, begin_cleanup, finish_cleanup,
  mark_remote_rollback_observed, with_items_rolled_back, mark_creation_failed,
  mark_item_rolling_back, finish_item_rollback, recover_points, begin_rollback, finish_rollback,
  point_is_creating, point_is_available, point_is_rolling_back, point_is_rolled_back,
  point_is_cleanup_pending, point_may_roll_back, point_may_end, item_may_roll_back,
  item_is_rolling_back, all_items_available, expired_by, item_may_end,
}
use qingzhou_ssh.Operation.Restore.Ops.{points_or}
use qingzhou_ssh.Operation.Restore.Life.{
  PointMove, IsNewPoint, PointsMove, point_stays, points_stay, updated, checked, set_status-Moves,
}

pub insert-Moves :
    (s : Points) (p : OperationRestorePoint)
    → IsNewPoint p
    → PointsMove s (points_or s (insert_point s p))
unfolding insert_point
insert-Moves s p new =
    elim (Bool-cases
      (any (λ q. q.id == p.id || q.operation_run_id == p.operation_run_id) s.points)) [
        | inl taken ↦ rw taken (points_stay s)
        | inr fresh ↦ rw fresh (Grows-snoc PointMove IsNewPoint point_stays s.points p new)
      ]

pub create-Moves :
    (s : Points) (operations : Store) (valid : AppResult (Unit {0})) (id now : ℕ)
    (draft : NewOperationRestorePoint)
    → PointsMove s (points_or s (create_point s operations valid id now draft))
unfolding create_point new_point
create-Moves s operations (err e) id now draft = points_stay s
create-Moves s operations (ok u) id now draft =
    elim (Option-cases (get_run operations draft.operation_run_id)) [
      | inl missing ↦ rw (missing, create_point) (points_stay s)
      | inr (run, found) ↦
          rw (found, create_point)
            elim (Bool-cases (
              not (str_eq run.server_id draft.server_id)
              || not (str_eq run.task_id draft.task_id))) [
                | inl other ↦ rw other (points_stay s)
                | inr fits ↦ rw fits (insert-Moves s (new_point id now draft) refl)
              ]
    ]

insert_item-Moves :
    (s : Points) (item : OperationRestoreItem) → PointsMove s (points_or s (insert_item s item))
unfolding insert_item
insert_item-Moves s item = elim (Bool-cases (any (same_item_key item) s.items)) [
  | inl taken ↦ rw taken (points_stay s)
  | inr fresh ↦ rw fresh (points_stay s)
]

pub add_item-Moves :
    (s : Points) (valid fits : AppResult (Unit {0})) (item : OperationRestoreItem)
    → PointsMove s (points_or s (add_item s valid fits item))
unfolding add_item
add_item-Moves s (err e) fits item = points_stay s
add_item-Moves s (ok u) fits item = elim (Option-cases (get_point s item.restore_point_id)) [
  | inl missing ↦ rw (missing, add_item) (points_stay s)
  | inr (point, found) ↦
      rw (found, add_item)
        elim (Bool-cases (not (point_is_creating point.status))) [
          | inl late ↦ rw late (points_stay s)
          | inr early ↦ rw early elim (Result-cases fits) [
            | inl (v, e) ↦ rw e (insert_item-Moves s item)
            | inr (e, h) ↦ rw h (points_stay s)
          ]
        ]
]

pub available-Moves :
    (s : Points) (id now : ℕ) → PointsMove s (points_or s (mark_available s id now))
unfolding mark_available
available-Moves s id now =
    set_status-Moves s
      (λ p. is_point id p && (point_is_creating p.status && all_items_available s id))
      OperationRestorePointStatus.available now "恢复点尚未完成全部恢复项，不能标记为可用" (λ p passed. ground arith)

pub attach-Moves :
    (s : Points) (valid : AppResult (Unit {0})) (id : ℕ) (asset : String) (expires_at now : ℕ)
    → PointsMove s (points_or s (attach_remote_asset s valid id asset expires_at now))
unfolding attach_remote_asset
attach-Moves s (err e) id asset expires_at now = points_stay s
attach-Moves s (ok u) id asset expires_at now =
    let test : OperationRestorePoint → Bool = λ p.
      is_point id p
      && (point_is_available p.status && elim p.remote_asset_id [ none ↦ true | some a ↦ false ]) in
    let change : OperationRestorePoint → OperationRestorePoint = λ p. record p {
      remote_asset_id = some asset;
      expires_at = some expires_at;
      updated_at = now;
    } in
    checked s (record s { points = update_rows test change s.points }) (count test s.points)
      "恢复点无法登记远程恢复资产"
      (updated s s.items test change (λ p passed. record { same_id = refl; moves_on = inl refl }))

pub begin_cleanup-Moves :
    (s : Points) (id now clock : ℕ) → PointsMove s (points_or s (begin_cleanup s id now clock))
unfolding begin_cleanup
begin_cleanup-Moves s id now clock =
    set_status-Moves s
      (λ p.
        is_point id p
        && (point_is_rolled_back p.status
            || expired_by now p.expires_at && point_may_roll_back p.status))
      OperationRestorePointStatus.cleanup_pending clock "只能清理已经使用或已经过期的恢复资产"
      (λ p passed. ground arith)

pub finish_cleanup-Moves :
    (s : Points) (id now : ℕ) → PointsMove s (points_or s (finish_cleanup s id now))
unfolding finish_cleanup
finish_cleanup-Moves s id now =
    let test : OperationRestorePoint → Bool =
      λ p. is_point id p && point_is_cleanup_pending p.status in
    let change : OperationRestorePoint → OperationRestorePoint = λ p. record p {
      status = OperationRestorePointStatus.expired;
      remote_asset_id = none;
      updated_at = now;
    } in
    checked s (record s { points = update_rows test change s.points }) (count test s.points)
      "恢复资产没有处于待清理状态"
      (updated s s.items test change
        (λ p passed. record { same_id = refl; moves_on = ground arith }))

observed_step :
    (s : Points) (r : AppResult Points) (next : Points → Points)
    → ((s' : Points) → (next s').points ≡ s'.points)
    → PointsMove s (points_or s r)
    → PointsMove s (points_or s (r >>= λ s'. ok (next s')))
observed_step s (ok s') next same h = rw (same s') h
observed_step s (err e) next same h = h

pub observed-Moves :
    (s : Points) (id now : ℕ) → PointsMove s (points_or s (mark_remote_rollback_observed s id now))
unfolding mark_remote_rollback_observed with_items_rolled_back
observed-Moves s id now =
    observed_step s
      (set_point_status s (λ p. is_point id p && point_is_available p.status)
        OperationRestorePointStatus.rolled_back now "只有可用恢复点可以记录远程自动回滚")
      (with_items_rolled_back id) (λ s'. refl)
      (set_status-Moves s (λ p. is_point id p && point_is_available p.status)
        OperationRestorePointStatus.rolled_back now "只有可用恢复点可以记录远程自动回滚" (λ p passed. ground arith))

pub creation_failed-Moves :
    (s : Points) (id now : ℕ) → PointsMove s (points_or s (mark_creation_failed s id now))
unfolding mark_creation_failed
creation_failed-Moves s id now =
    set_status-Moves s (λ p. is_point id p && point_is_creating p.status)
      OperationRestorePointStatus.failed now "恢复点不处于创建状态" (λ p passed. ground arith)

pub recover-Moves : (s : Points) (now : ℕ) → PointsMove s (recover_points s now).0
unfolding recover_points
recover-Moves s now =
    Grows-update_rows PointMove IsNewPoint (λ p. point_is_rolling_back p.status)
      (λ p. record p { status = OperationRestorePointStatus.partial; updated_at = now }) point_stays
      (λ p passed. record { same_id = refl; moves_on = ground arith }) s.points

pub finish_rollback-Moves :
    (s : Points) (id : ℕ) (status : OperationRestorePointStatus) (now : ℕ)
    → PointsMove s (points_or s (finish_rollback s id status now))
unfolding finish_rollback
finish_rollback-Moves s id status now = elim (Bool-cases (point_may_end status)) [
  | inr refused ↦ rw refused (points_stay s)
  | inl accepted ↦ rw accepted (
      set_status-Moves s (λ p. is_point id p && point_is_rolling_back p.status) status now
        "恢复点不处于回滚执行状态" (λ p passed. ground arith))
]

pub begin_rollback-Moves :
    (s : Points) (id now : ℕ) → PointsMove s (points_or s (begin_rollback s id now))
unfolding begin_rollback
begin_rollback-Moves s id now =
    let test : OperationRestorePoint → Bool = λ p. is_point id p && point_may_roll_back p.status in
    let change : OperationRestorePoint → OperationRestorePoint =
      λ p. record p { status = OperationRestorePointStatus.rolling_back; updated_at = now } in
    elim (Bool-cases (count test s.points == 1)) [
      | inl one ↦ rw one (
          updated s s.items test change
            (λ p passed. record { same_id = refl; moves_on = ground arith }))
      | inr other ↦ rw other elim (Option-cases (get_point s id)) [
        | inl missing ↦ rw missing (points_stay s)
        | inr (point, found) ↦ rw found elim (Bool-cases (point_is_rolled_back point.status)) [
          | inl spent ↦ rw spent (points_stay s)
          | inr refused ↦ rw refused (points_stay s)
        ]
      ]
    ]

pub item_rolling-Moves :
    (s : Points) (id : ℕ) → PointsMove s (points_or s (mark_item_rolling_back s id))
unfolding mark_item_rolling_back
item_rolling-Moves s id =
    checked s _ (count (λ i. i.id == id && item_may_roll_back i.status) s.items) "恢复项当前状态不允许回滚"
      (points_stay s)

pub finish_item-Moves :
    (s : Points) (id : ℕ) (status : OperationRestoreItemStatus) (error_summary : Option (List ℕ))
    → PointsMove s (points_or s (finish_item_rollback s id status error_summary))
unfolding finish_item_rollback
finish_item-Moves s id status error_summary = elim (Bool-cases (item_may_end status)) [
  | inr refused ↦ rw refused (points_stay s)
  | inl accepted ↦ rw accepted (
      checked s _ (count (λ i. i.id == id && item_is_rolling_back i.status) s.items) "恢复项不处于回滚执行状态"
        (points_stay s))
]
