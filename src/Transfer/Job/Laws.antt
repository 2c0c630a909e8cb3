-- ===== src/Transfer/Job/Laws.antt =====
-- The names under which statuses and directions are stored, and the policies parsed from a job.
use qingzhou_ssh.Prelude.{◌≡◌, refl}
use qingzhou_ssh.Prelude.Result.{ok}
use qingzhou_ssh.Transfer.Job.{
  TransferDirection, upload, download, direction_as_str, direction_from, TransferJobStatus, queued,
  connecting, transferring, verifying, finalizing, succeeded, failed, cancelled, uncertain, as_str,
  status_from,
}

status_round_trip : (s : TransferJobStatus) → status_from (as_str s) ≡ ok s
unfolding as_str status_from
status_round_trip queued = refl
status_round_trip connecting = refl
status_round_trip transferring = refl
status_round_trip verifying = refl
status_round_trip finalizing = refl
status_round_trip succeeded = refl
status_round_trip failed = refl
status_round_trip cancelled = refl
status_round_trip uncertain = refl

direction_round_trip : (d : TransferDirection) → direction_from (direction_as_str d) ≡ ok d
unfolding direction_as_str direction_from
direction_round_trip upload = refl
direction_round_trip download = refl

-- A status and a direction that are stored by name are read back as they were.
pub job_round_trips :
    (s : TransferJobStatus) (d : TransferDirection)
    → (status_from (as_str s) ≡ ok s) × (direction_from (direction_as_str d) ≡ ok d)
job_round_trips s d = (status_round_trip s, direction_round_trip d)
