-- ===== src/Update/Manager/Ops.antt =====
-- The operations of an update manager as one type, and their sequences.
use qingzhou_ssh.Prelude.{ℕ, String, Bool, Option, none, List, [], ◌∷◌}
use qingzhou_ssh.Prelude.Result.{Result}
use qingzhou_ssh.Prelude.Stateful.{Act}
use qingzhou_ssh.Update.Lifecycle.{default_lifecycle}
use qingzhou_ssh.Update.Check.{Libraries, check_update}
use qingzhou_ssh.Update.Policy.{TrustedSourcePolicy, SourceCheckError}
use qingzhou_ssh.Update.Staging.{Manager, System, UpdatePersistentState, Io}
use qingzhou_ssh.Update.Service.{DownloadAnswers, InstallAnswers, ClearAnswers}
use qingzhou_ssh.Update.Manager.{
  UpdateManagerError, CheckAnswers, check_updates, download, install, clear_downloaded,
  set_auto_check,
}
use qingzhou_ssh.Update.Shown.{UpdateStatus}

-- An operation with what the sources, the files and the installer answer.
pub data ManagerOp : Type 0 where
  checks : Bool → ℕ → (List ℕ → Result SourceCheckError (List ℕ)) → CheckAnswers → ManagerOp
  downloads : DownloadAnswers → Io (Unit {0}) → ManagerOp
  installs : Bool → InstallAnswers → Io (Unit {0}) → ManagerOp
  clears : ClearAnswers → Io (Unit {0}) → ManagerOp
  sets_auto : Bool → Io (Unit {0}) → Io (Unit {0}) → Io (Unit {0}) → ManagerOp

-- `new_with_components`.
abbrev pub new_manager : Option UpdatePersistentState → Manager
new_manager state_file = record {
  lifecycle = default_lifecycle;
  fallback_reason = none;
  staged = none;
  pending = none;
  state_file = state_file;
  handed = [];
}

module _ {V : Type 0} (lib : Libraries V) (policy : TrustedSourcePolicy) (system : System)
    (key current : String) where
  unfoldable pub perform : ManagerOp → Act Manager UpdateManagerError UpdateStatus
  perform (checks manual now fetch a) =
      check_updates system current manual now (check_update lib policy fetch key current) a
  perform (downloads a read) = download system current a read
  perform (installs confirmed a read) = install system current confirmed a read
  perform (clears a read) = clear_downloaded system current a read
  perform (sets_auto enabled state_read state_written read) =
      set_auto_check system current enabled state_read state_written read

  unfoldable pub perform_all : List ManagerOp → Manager → Manager
  perform_all [] s = s
  perform_all (op ∷ ops) s = perform_all ops (perform op s).0
