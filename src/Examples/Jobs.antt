-- ===== src/Examples/Jobs.antt =====
-- Small tables of transfer jobs, for transfer_job_repository.rs and transfer_queue_service.rs.
use qingzhou_ssh.Prelude.{ℕ, ◌+◌, ◌≡◌, refl, true, false, none, some, List, [], ◌∷◌, if◌then◌else◌}
use qingzhou_ssh.Prelude.Text.{str_eq, codes}
use qingzhou_ssh.Prelude.Result.{ok}
use qingzhou_ssh.Error.{AppError, code}
use qingzhou_ssh.Transfer.Job.{
  TransferJob, NewTransferJob, upload, download, verifying, transferring_phase, is_active, as_str,
  status_from, direction_as_str, direction_from,
}
use qingzhou_ssh.Transfer.Job.Laws.{job_round_trips}
use qingzhou_ssh.Transfer.Table.{
  Table, get, create, count_active, new_row, claim, claim_row, next_runnable,
}
use qingzhou_ssh.Transfer.Table.Endings.{cancel_row, request_cancel}
use qingzhou_ssh.Transfer.Table.Ops.{
  Op, op_create, op_claim, op_request_cancel, op_retry, op_recover, apply, apply_all,
}
use qingzhou_ssh.Transfer.Table.Invariant.{IsTable, statements-IsTable}
use qingzhou_ssh.Transfer.Table.Moves.{MayBecome, final_unchanged, status_moves}
use qingzhou_ssh.Transfer.Table.Claim.{Found, next_runnable_lem, claim_once, claim-count_active}
use qingzhou_ssh.Transfer.Queue.{
  Environment, ExecutionStatus, started, progress, finished, Details, execute,
}
use qingzhou_ssh.Transfer.Queue.Settles.{execute_settles}

abbrev draft : NewTransferJob
draft = record {
  server_id = "web";
  direction = download;
  source_path = "/var/log/a";
  target_path = "D:/a";
  overwrite = false;
  verification = "balanced";
}

-- `F` is a number here, and 100 is 100.
abbrev creates : List (Op ℕ)
creates = op_create 1 5 draft ∷ op_create 2 4 draft ∷ []

abbrev created : Table ℕ
created = apply_all 100 creates []

abbrev first_job : TransferJob ℕ
first_job = new_row 1 5 draft

first_there : get created 1 ≡ some first_job
unfolding apply_all get create
first_there = refl

created-IsTable : IsTable 100 created
created-IsTable = statements-IsTable 100 creates

statements-IsTable_example :
    IsTable {F = ℕ} 100
      (apply_all 100 (op_create 1 5 draft ∷ op_claim 1 6 ∷ op_recover 7 ∷ op_retry 1 8 ∷ []) [])
statements-IsTable_example =
    statements-IsTable 100 (op_create 1 5 draft ∷ op_claim 1 6 ∷ op_recover 7 ∷ op_retry 1 8 ∷ [])

next_runnable_lem_example : Found created created (next_runnable created)
next_runnable_lem_example = next_runnable_lem created

claim_once_example :
    ((claim created 1 6).1 ≡ true)
    × (get (claim created 1 6).0 1 ≡ some (claim_row 6 first_job))
    × ((claim (claim created 1 6).0 1 7).1 ≡ false)
unfolding new_row
claim_once_example = claim_once 100 created 1 6 7 first_job created-IsTable first_there refl

claim-count_active_example :
    count_active "web" (claim created 1 6).0
    ≡ count_active "web" created + (if str_eq first_job.server_id "web" then 1 else 0)
unfolding new_row
claim-count_active_example =
    claim-count_active 100 created 1 6 first_job "web" created-IsTable first_there refl

status_moves_example :
    (k : TransferJob ℕ) × (get (apply 100 (op_claim 1 6) created) 1 ≡ some k)
    × MayBecome first_job.status k.status
    × (k.id ≡ first_job.id)
status_moves_example =
    status_moves 100 (op_claim 1 6) created 1 first_job created-IsTable first_there

abbrev cancels : List (Op ℕ)
cancels = op_create 1 5 draft ∷ op_request_cancel 1 6 ∷ []

abbrev cancelled_job : TransferJob ℕ
cancelled_job = cancel_row 6 first_job

cancelled_there : get (apply_all 100 cancels []) 1 ≡ some cancelled_job
unfolding apply_all get request_cancel create
cancelled_there = refl

final_unchanged_example :
    get (apply_all 100 (op_retry 1 7 ∷ op_claim 1 8 ∷ []) (apply_all 100 cancels [])) 1
    ≡ some cancelled_job
unfolding cancel_row
final_unchanged_example =
    final_unchanged 100 (op_retry 1 7 ∷ op_claim 1 8 ∷ []) (apply_all 100 cancels []) 1
      cancelled_job (statements-IsTable 100 cancels) cancelled_there refl

abbrev claims : List (Op ℕ)
claims = op_create 1 5 draft ∷ op_claim 1 6 ∷ []

abbrev claimed_job : TransferJob ℕ
claimed_job = claim_row 6 first_job

claimed_there : get (apply_all 100 claims []) 1 ≡ some claimed_job
unfolding apply_all get claim create
claimed_there = refl

abbrev details : Details
details = record {
  status = ExecutionStatus.succeeded;
  error_category = none;
  error_message = none;
  retryable = false;
}

abbrev environment : Environment {F = ℕ} 100
environment = record {
  events =
      (7, started 40)
      ∷ (8, progress transferring_phase 3 (some 9) none none none none)
      ∷ (9, finished ExecutionStatus.succeeded none)
      ∷ [];
  answer = ok details;
  ended_at = 10;
  failed_at = 11;
  requeued_at = 12;
}

abbrev display : AppError → List ℕ
display e = codes (code e)

execute_settles_example :
    IsTable 100 (execute 100 display (apply_all 100 claims []) 1 environment)
    × (k : TransferJob ℕ) × (get (execute 100 display (apply_all 100 claims []) 1 environment) 1
        ≡ some k)
    × (is_active k.status ≡ false)
execute_settles_example =
    execute_settles 100 display (apply_all 100 claims []) 1 environment claimed_job
      (statements-IsTable 100 claims) claimed_there

job_round_trips_example :
    (status_from (as_str verifying) ≡ ok verifying)
    × (direction_from (direction_as_str upload) ≡ ok upload)
job_round_trips_example = job_round_trips verifying upload
