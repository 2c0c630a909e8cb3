-- ===== src/Transfer/Table/Ops.antt =====
-- The statements as one type of operations. One that is refused leaves the table as it was.
use qingzhou_ssh.Prelude.{ℕ, List, [], ◌∷◌}
use qingzhou_ssh.Prelude.Result.{ok, err}
use qingzhou_ssh.Error.{AppResult}
use qingzhou_ssh.Transfer.Job.{NewTransferJob}
use qingzhou_ssh.Transfer.Table.{Table, TransferJobFinish, create, claim, set_execution}
use qingzhou_ssh.Transfer.Table.Endings.{
  Progress, update_progress, finish, request_cancel, retry, requeue_automatically,
  recover_interrupted,
}

pub data Op (F : Type 0) : Type 0 where
  op_create : ℕ → ℕ → NewTransferJob → Op F
  op_claim : ℕ → ℕ → Op F
  op_set_execution : ℕ → ℕ → ℕ → Op F
  op_update_progress : ℕ → Progress F → ℕ → Op F
  op_finish : ℕ → TransferJobFinish → ℕ → Op F
  op_request_cancel : ℕ → ℕ → Op F
  op_retry : ℕ → ℕ → Op F
  op_requeue : ℕ → ℕ → Op F
  op_recover : ℕ → Op F

module _ {F : Type 0} where
  -- The table after a result that may be an error.
  abbrev pub table_or : Table F → AppResult (Table F) → Table F
  table_or t (ok t') = t'
  table_or t (err e) = t

  abbrev pub first_or {ℓ} : {A : Type ℓ} → Table F → AppResult (Table F × A) → Table F
  first_or t (ok (t', a)) = t'
  first_or t (err e) = t

module _ {F : Type 0} (hundred : F) where
  unfoldable pub apply : Op F → Table F → Table F
  apply (op_create id now draft) t = first_or t (create t id now draft)
  apply (op_claim id now) t = (claim t id now).0
  apply (op_set_execution id execution_id now) t = (set_execution t id execution_id now).0
  apply (op_update_progress id p now) t = table_or t (update_progress t id p now)
  apply (op_finish id ending now) t = table_or t (finish hundred t id ending now)
  apply (op_request_cancel id now) t = first_or t (request_cancel t id now)
  apply (op_retry id now) t = first_or t (retry t id now)
  apply (op_requeue id now) t = (requeue_automatically t id now).0
  apply (op_recover now) t = (recover_interrupted t now).0

  unfoldable pub apply_all : List (Op F) → Table F → Table F
  unfolding apply
  apply_all [] t = t
  apply_all (op ∷ ops) t = apply_all ops (apply op t)
