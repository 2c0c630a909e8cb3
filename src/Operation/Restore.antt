-- ===== src/Operation/Restore.antt =====
-- src-tauri/src/domain/operation_restore.rs and
-- src-tauri/src/repositories/operation_restore_repository.rs: the restore points of runs, their items,
-- and each statement on them. `now` is what the clock says.
pub mod Ops
pub mod Life
pub mod Moves
pub mod Spent
use qingzhou_ssh.Prelude.{
  ℕ, ◌^◌, String, Bool, true, false, not, ◌&&◌, ◌||◌, Option, none, some, List, [], ◌∷◌, ◌++◌, any,
  all, filter, find?, count, ltb, leb, ◌==◌, if◌then◌else◌,
}
use qingzhou_ssh.Prelude.Text.{str_eq, codes}
use qingzhou_ssh.Prelude.Result.{Result, ok, err, ◌>>=◌, ◌>>◌}
use qingzhou_ssh.Prelude.Rows.{update_rows}
use qingzhou_ssh.Error.{AppError, AppResult, validation, database, restore_point_already_consumed}
use qingzhou_ssh.Error.Cut.{cut}
use qingzhou_ssh.Operation.Table.Steps.{cap_utf8}
use qingzhou_ssh.Operation.Table.{OperationRunRecord, Store, get_run}
use qingzhou_ssh.Operation.Service.Dangerous.{OperationRestorePointStatus}

pub data OperationRestoreItemStatus : Type 0 where
  pending available rolling_back rolled_back failed skipped : OperationRestoreItemStatus

-- A row of `operation_restore_points`; the directory, which no statement changes, is left out.
pub record OperationRestorePoint : Type 0 where
  pub id : ℕ
  pub operation_run_id : ℕ
  pub server_id : String
  pub task_id : String
  pub status : OperationRestorePointStatus
  pub remote_asset_id : Option String
  pub expires_at : Option ℕ
  pub created_at : ℕ
  pub updated_at : ℕ

pub record NewOperationRestorePoint : Type 0 where
  pub operation_run_id : ℕ
  pub server_id : String
  pub task_id : String
  pub remote_asset_id : Option String
  pub expires_at : Option ℕ

-- A row of `operation_restore_items`; what no statement changes is left out.
pub record OperationRestoreItem : Type 0 where
  pub id : ℕ
  pub restore_point_id : ℕ
  pub ordinal : ℕ
  pub status : OperationRestoreItemStatus
  pub error_summary : Option (List ℕ)

pub record Points : Type 0 where
  pub points : List OperationRestorePoint
  pub items : List OperationRestoreItem

abbrev pub is_point : ℕ → OperationRestorePoint → Bool
is_point id point = point.id == id

unfoldable pub get_point : Points → ℕ → Option OperationRestorePoint
get_point s id = find? (is_point id) s.points

-- `ensure_one`: the tables after a statement that changed one row.
unfoldable pub ensure_one : ℕ → String → Points → AppResult Points
ensure_one rows message s = if rows == 1 then ok s else err (validation message)

abbrev pub point_is_creating : OperationRestorePointStatus → Bool
point_is_creating OperationRestorePointStatus.creating = true
point_is_creating _ = false

abbrev pub point_is_available : OperationRestorePointStatus → Bool
point_is_available OperationRestorePointStatus.available = true
point_is_available _ = false

abbrev pub point_is_rolling_back : OperationRestorePointStatus → Bool
point_is_rolling_back OperationRestorePointStatus.rolling_back = true
point_is_rolling_back _ = false

abbrev pub point_is_rolled_back : OperationRestorePointStatus → Bool
point_is_rolled_back OperationRestorePointStatus.rolled_back = true
point_is_rolled_back _ = false

abbrev pub point_is_cleanup_pending : OperationRestorePointStatus → Bool
point_is_cleanup_pending OperationRestorePointStatus.cleanup_pending = true
point_is_cleanup_pending _ = false

-- `status IN ('available','partial','failed')`.
abbrev pub point_may_roll_back : OperationRestorePointStatus → Bool
point_may_roll_back OperationRestorePointStatus.available = true
point_may_roll_back OperationRestorePointStatus.partial = true
point_may_roll_back OperationRestorePointStatus.failed = true
point_may_roll_back _ = false

abbrev pub item_is_available : OperationRestoreItemStatus → Bool
item_is_available OperationRestoreItemStatus.available = true
item_is_available _ = false

abbrev pub item_is_rolling_back : OperationRestoreItemStatus → Bool
item_is_rolling_back OperationRestoreItemStatus.rolling_back = true
item_is_rolling_back _ = false

-- `UPDATE operation_restore_points SET status=?,updated_at=? WHERE test`, of one row.
unfoldable pub set_point_status :
    Points
    → (OperationRestorePoint → Bool)
    → OperationRestorePointStatus
    → ℕ
    → String
    → AppResult Points
set_point_status s test status now message = ensure_one (count test s.points) message (record s {
  points = update_rows test (λ p. record p { status = status; updated_at = now }) s.points;
})

unfoldable pub new_point : ℕ → ℕ → NewOperationRestorePoint → OperationRestorePoint
new_point id now draft = record {
  id = id;
  operation_run_id = draft.operation_run_id;
  server_id = draft.server_id;
  task_id = draft.task_id;
  status = OperationRestorePointStatus.creating;
  remote_asset_id = draft.remote_asset_id;
  expires_at = draft.expires_at;
  created_at = now;
  updated_at = now;
}

-- The insertion of `create`; the run of a point is unique.
unfoldable pub insert_point : Points → OperationRestorePoint → AppResult Points
insert_point s point =
    if any (λ p. p.id == point.id || p.operation_run_id == point.operation_run_id) s.points
    then err (database "UNIQUE constraint failed: operation_restore_points")
    else ok (record s { points = s.points ++ point ∷ [] })

-- `create`; `valid` is what the check of the draft's texts and path gives.
unfoldable pub create_point :
    Points → Store → AppResult (Unit {0}) → ℕ → ℕ → NewOperationRestorePoint → AppResult Points
create_point s operations valid id now draft = do
  valid
  elim (get_run operations draft.operation_run_id) [
    | none ↦ err (validation "运维运行不存在")
    | some run ↦
        if not (str_eq run.server_id draft.server_id) || not (str_eq run.task_id draft.task_id)
        then err (validation "恢复点与运维运行的服务器或任务不一致")
        else insert_point s (new_point id now draft)
  ]

-- The keys of the items: the id, and the ordinal within a point.
abbrev pub same_item_key : OperationRestoreItem → OperationRestoreItem → Bool
same_item_key a b =
    a.id == b.id || a.restore_point_id == b.restore_point_id && a.ordinal == b.ordinal

unfoldable pub insert_item : Points → OperationRestoreItem → AppResult Points
insert_item s item =
    if any (same_item_key item) s.items
    then err (database "UNIQUE constraint failed: operation_restore_items")
    else ok (record s { items = s.items ++ item ∷ [] })

-- `add_item`; `valid` is what the check of the draft gives, and `fits` that of its path and metadata
-- against the point.
unfoldable pub add_item :
    Points → AppResult (Unit {0}) → AppResult (Unit {0}) → OperationRestoreItem → AppResult Points
add_item s valid fits item = do
  valid
  elim (get_point s item.restore_point_id) [
    | none ↦ err (validation "运维恢复点不存在")
    | some point ↦
        if not (point_is_creating point.status)
        then err (validation "只能向创建中的恢复点添加恢复项")
        else fits >> insert_item s item
  ]

abbrev pub item_of : ℕ → OperationRestoreItem → Bool
item_of id item = item.restore_point_id == id

-- The two `EXISTS` of `mark_available`.
unfoldable pub all_items_available : Points → ℕ → Bool
all_items_available s id =
    any (item_of id) s.items
    && not (any (λ item. item_of id item && not (item_is_available item.status)) s.items)

unfoldable pub mark_available : Points → ℕ → ℕ → AppResult Points
mark_available s id now =
    set_point_status s
      (λ p. is_point id p && (point_is_creating p.status && all_items_available s id))
      OperationRestorePointStatus.available now "恢复点尚未完成全部恢复项，不能标记为可用"

-- `attach_remote_asset`; `valid` is what the check of the asset's name gives.
unfoldable pub attach_remote_asset :
    Points → AppResult (Unit {0}) → ℕ → String → ℕ → ℕ → AppResult Points
attach_remote_asset s valid id asset expires_at now =
    let test : OperationRestorePoint → Bool = λ p.
      is_point id p
      && (point_is_available p.status && elim p.remote_asset_id [ none ↦ true | some a ↦ false ]) in
    valid
    >> ensure_one (count test s.points) "恢复点无法登记远程恢复资产" (record s {
      points =
          update_rows test
            (λ p. record p {
              remote_asset_id = some asset;
              expires_at = some expires_at;
              updated_at = now;
            })
            s.points;
    })

abbrev pub expired_by : ℕ → Option ℕ → Bool
expired_by now none = false
expired_by now (some at) = leb at now

unfoldable pub begin_cleanup : Points → ℕ → ℕ → ℕ → AppResult Points
begin_cleanup s id now clock =
    set_point_status s
      (λ p.
        is_point id p
        && (point_is_rolled_back p.status
            || expired_by now p.expires_at && point_may_roll_back p.status))
      OperationRestorePointStatus.cleanup_pending clock "只能清理已经使用或已经过期的恢复资产"

unfoldable pub finish_cleanup : Points → ℕ → ℕ → AppResult Points
finish_cleanup s id now =
    let test : OperationRestorePoint → Bool =
      λ p. is_point id p && point_is_cleanup_pending p.status in
    ensure_one (count test s.points) "恢复资产没有处于待清理状态" (record s {
      points =
          update_rows test
            (λ p. record p {
              status = OperationRestorePointStatus.expired;
              remote_asset_id = none;
              updated_at = now;
            })
            s.points;
    })

-- The items of a point whose rollback was seen.
unfoldable pub with_items_rolled_back : ℕ → Points → Points
with_items_rolled_back id s = record s {
  items =
      update_rows (λ item. item_of id item && item_is_available item.status)
        (λ item. record item {
          status = OperationRestoreItemStatus.rolled_back;
          error_summary = none;
        })
        s.items;
}

unfoldable pub mark_remote_rollback_observed : Points → ℕ → ℕ → AppResult Points
mark_remote_rollback_observed s id now = do
  s' ←
      set_point_status s (λ p. is_point id p && point_is_available p.status)
        OperationRestorePointStatus.rolled_back now "只有可用恢复点可以记录远程自动回滚"
  ok (with_items_rolled_back id s')

unfoldable pub mark_creation_failed : Points → ℕ → ℕ → AppResult Points
mark_creation_failed s id now =
    set_point_status s (λ p. is_point id p && point_is_creating p.status)
      OperationRestorePointStatus.failed now "恢复点不处于创建状态"

-- The items whose rollback may begin.
abbrev pub item_may_roll_back : OperationRestoreItemStatus → Bool
item_may_roll_back OperationRestoreItemStatus.available = true
item_may_roll_back OperationRestoreItemStatus.failed = true
item_may_roll_back _ = false

unfoldable pub mark_item_rolling_back : Points → ℕ → AppResult Points
mark_item_rolling_back s id =
    let test : OperationRestoreItem → Bool = λ i. i.id == id && item_may_roll_back i.status in
    ensure_one (count test s.items) "恢复项当前状态不允许回滚" (record s {
      items =
          update_rows test
            (λ i. record i {
              status = OperationRestoreItemStatus.rolling_back;
              error_summary = none;
            })
            s.items;
    })

abbrev pub item_may_end : OperationRestoreItemStatus → Bool
item_may_end OperationRestoreItemStatus.rolled_back = true
item_may_end OperationRestoreItemStatus.failed = true
item_may_end OperationRestoreItemStatus.skipped = true
item_may_end _ = false

unfoldable pub finish_item_rollback :
    Points → ℕ → OperationRestoreItemStatus → Option (List ℕ) → AppResult Points
finish_item_rollback s id status error_summary =
    let test : OperationRestoreItem → Bool = λ i. i.id == id && item_is_rolling_back i.status in
    if not (item_may_end status)
    then err (validation "恢复项回滚结果状态无效")
    else ensure_one (count test s.items) "恢复项不处于回滚执行状态" (record s {
      items =
          update_rows test
            (λ i. record i { status = status; error_summary = cap_utf8 error_summary }) s.items;
    })

unfoldable pub recover_points : Points → ℕ → Points × ℕ
recover_points s now = (
  record {
    items =
        update_rows (λ i. item_is_rolling_back i.status)
          (λ i. record i {
            status = OperationRestoreItemStatus.failed;
            error_summary = some (codes "应用退出时恢复项状态未确认");
          })
          s.items;
    points =
        update_rows (λ p. point_is_rolling_back p.status)
          (λ p. record p { status = OperationRestorePointStatus.partial; updated_at = now })
          s.points;
  },
  count (λ p. point_is_rolling_back p.status) s.points,
)

unfoldable pub begin_rollback : Points → ℕ → ℕ → AppResult Points
begin_rollback s id now =
    let test : OperationRestorePoint → Bool = λ p. is_point id p && point_may_roll_back p.status in
    if count test s.points == 1
    then ok (record s {
      points =
          update_rows test
            (λ p. record p { status = OperationRestorePointStatus.rolling_back; updated_at = now })
            s.points;
    })
    else elim (get_point s id) [
      | none ↦ err (validation "运维恢复点不存在")
      | some point ↦
          if point_is_rolled_back point.status
          then err restore_point_already_consumed
          else err (validation "恢复点当前状态不允许回滚")
    ]

abbrev pub point_may_end : OperationRestorePointStatus → Bool
point_may_end OperationRestorePointStatus.rolled_back = true
point_may_end OperationRestorePointStatus.partial = true
point_may_end OperationRestorePointStatus.failed = true
point_may_end _ = false

unfoldable pub finish_rollback : Points → ℕ → OperationRestorePointStatus → ℕ → AppResult Points
finish_rollback s id status now =
    if not (point_may_end status)
    then err (validation "恢复点回滚结果状态无效")
    else set_point_status s (λ p. is_point id p && point_is_rolling_back p.status) status now
        "恢复点不处于回滚执行状态"
