-- ===== src/Transfer/Job.antt =====
-- src-tauri/src/domain/transfer_job.rs: a transfer job, its status, and when it is tried again.
pub mod Laws
use qingzhou_ssh.Prelude.{
  ℕ, String, Bool, true, false, not, ◌&&◌, ◌||◌, Option, none, some, List, [], ◌∷◌, leb, ◌==◌, any,
  if◌then◌else◌,
}
use qingzhou_ssh.Prelude.Text.{str_eq, codes, contains, to_ascii_lowercase}
use qingzhou_ssh.Prelude.Result.{ok, err}
use qingzhou_ssh.Error.{AppResult, validation}

pub data TransferDirection : Type 0 where
  upload download : TransferDirection

unfoldable pub direction_as_str : TransferDirection → String
direction_as_str upload = "upload"
direction_as_str download = "download"

-- `TryFrom<&str>`.
unfoldable pub direction_from : String → AppResult TransferDirection
direction_from value =
    if str_eq value "upload"
    then ok upload
    else if str_eq value "download"
    then ok download
    else err (validation "未知传输方向")

-- `TransferPhase` of core/sftp/progress.rs.
pub data TransferPhase : Type 0 where
  connecting_phase transferring_phase verifying_phase finalizing_phase : TransferPhase

pub data TransferJobStatus : Type 0 where
  queued connecting transferring verifying finalizing : TransferJobStatus
  succeeded failed cancelled uncertain : TransferJobStatus

pub TransferJobStatus-discrete : Discrete TransferJobStatus
TransferJobStatus-discrete = hlevel

unfoldable pub as_str : TransferJobStatus → String
as_str queued = "queued"
as_str connecting = "connecting"
as_str transferring = "transferring"
as_str verifying = "verifying"
as_str finalizing = "finalizing"
as_str succeeded = "succeeded"
as_str failed = "failed"
as_str cancelled = "cancelled"
as_str uncertain = "uncertain"

unfoldable pub status_from : String → AppResult TransferJobStatus
status_from value =
    if str_eq value "queued"
    then ok queued
    else if str_eq value "connecting"
    then ok connecting
    else if str_eq value "transferring"
    then ok transferring
    else if str_eq value "verifying"
    then ok verifying
    else if str_eq value "finalizing"
    then ok finalizing
    else if str_eq value "succeeded"
    then ok succeeded
    else if str_eq value "failed"
    then ok failed
    else if str_eq value "cancelled"
    then ok cancelled
    else if str_eq value "uncertain"
    then ok uncertain
    else err (validation "未知传输状态")

abbrev pub is_terminal : TransferJobStatus → Bool
is_terminal succeeded = true
is_terminal failed = true
is_terminal cancelled = true
is_terminal uncertain = true
is_terminal _ = false

abbrev pub is_active : TransferJobStatus → Bool
is_active connecting = true
is_active transferring = true
is_active verifying = true
is_active finalizing = true
is_active _ = false

abbrev pub is_queued : TransferJobStatus → Bool
is_queued queued = true
is_queued _ = false

-- `self == next`, derived.
unfoldable pub same_status : TransferJobStatus → TransferJobStatus → Bool
same_status a b = elim (TransferJobStatus-discrete a b) [ yes e ↦ true | no e ↦ false ]

-- The `match` after the test for equality.
unfoldable pub allowed_next : TransferJobStatus → TransferJobStatus → Bool
allowed_next queued connecting = true
allowed_next queued cancelled = true
allowed_next connecting transferring = true
allowed_next connecting failed = true
allowed_next connecting cancelled = true
allowed_next connecting uncertain = true
allowed_next transferring verifying = true
allowed_next transferring finalizing = true
allowed_next transferring failed = true
allowed_next transferring cancelled = true
allowed_next transferring uncertain = true
allowed_next verifying finalizing = true
allowed_next verifying failed = true
allowed_next verifying cancelled = true
allowed_next verifying uncertain = true
allowed_next finalizing succeeded = true
allowed_next finalizing failed = true
allowed_next finalizing cancelled = true
allowed_next finalizing uncertain = true
allowed_next failed queued = true
allowed_next uncertain queued = true
allowed_next _ _ = false

unfoldable pub can_transition_to : TransferJobStatus → TransferJobStatus → Bool
unfolding same_status allowed_next
can_transition_to self next = if same_status self next then true else allowed_next self next

-- `From<TransferPhase>`.
unfoldable pub status_of_phase : TransferPhase → TransferJobStatus
status_of_phase connecting_phase = connecting
status_of_phase transferring_phase = transferring
status_of_phase verifying_phase = verifying
status_of_phase finalizing_phase = finalizing

-- A row of the queue. `F` is f64, an id is the 128-bit value of a UUID, a time is in milliseconds, and
-- an error message is its code points.
pub record TransferJob (F : Type 0) : Type 0 where
  pub id : ℕ
  pub execution_id : Option ℕ
  pub server_id : String
  pub direction : TransferDirection
  pub source_path : String
  pub target_path : String
  pub overwrite : Bool
  pub verification : String
  pub status : TransferJobStatus
  pub transferred : ℕ
  pub total : Option ℕ
  pub percent : Option F
  pub bytes_per_second : Option F
  pub average_bytes_per_second : Option F
  pub eta_seconds : Option ℕ
  pub attempt_count : ℕ
  pub max_attempts : ℕ
  pub cancel_requested : Bool
  pub retryable : Bool
  pub error_category : Option String
  pub error_message : Option (List ℕ)
  pub sha256 : Option String
  pub location : Option String
  pub created_at : ℕ
  pub updated_at : ℕ
  pub started_at : Option ℕ
  pub finished_at : Option ℕ

pub record NewTransferJob : Type 0 where
  pub server_id : String
  pub direction : TransferDirection
  pub source_path : String
  pub target_path : String
  pub overwrite : Bool
  pub verification : String

abbrev pub non_transient_markers : List String
non_transient_markers =
    "auth" ∷ "host key" ∷ "fingerprint" ∷ "permission" ∷ "denied" ∷ "disk" ∷ "no space"
    ∷ "integrity" ∷ "checksum" ∷ "hash mismatch" ∷ []

unfoldable pub can_automatically_retry : String → List ℕ → ℕ → ℕ → Bool
can_automatically_retry category message attempt_count max_attempts =
    if leb max_attempts attempt_count
      || not (str_eq category "io" || (str_eq category "ssh" || str_eq category "transfer"))
    then false
    else not (any (λ m. contains (to_ascii_lowercase message) (codes m)) non_transient_markers)
