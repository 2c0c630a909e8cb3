-- ===== src/Update/Manager.antt =====
-- src-tauri/src/services/update_service.rs: `UpdateManager`, which moves the phases of an update and
-- calls the checker and the service.
pub mod Keeps
pub mod Ops
use qingzhou_ssh.Prelude.{
  ℕ, ◌+◌, ◌*◌, String, Bool, true, false, not, ◌&&◌, Option, none, some, List, [], ◌∷◌, max, min,
  if◌then◌else◌,
}
use qingzhou_ssh.Prelude.Text.{codes}
use qingzhou_ssh.Prelude.Result.{Result, ok, err}
use qingzhou_ssh.Prelude.Stateful.{Act, ◌>>=◌, ◌>>◌, pure, throw, modify, get, map_err, attempt}
use qingzhou_ssh.Update.Release.{UpdateRelease, UpdateSource, github, modelscope}
use qingzhou_ssh.Update.Lifecycle.{
  UpdateLifecycle, UpdatePhase, UpdateTransitionError, Moved, begin_check, set_up_to_date,
  set_available, begin_download, set_downloaded, begin_install, fail, reset,
}
use qingzhou_ssh.Update.Check.{SourceSelection, ManifestDecision}
use qingzhou_ssh.Update.Policy.{SourceCheckError, SourceFailureKind}
use qingzhou_ssh.Update.Staging.{
  UpdateAdapterError, UpdateStateStoreError, UpdateServiceError, StoredCheckStatus,
  StoredCheckResult, UpdatePersistentState, automatic_check_due, StagedUpdate, Manager, System, Io,
}
use qingzhou_ssh.Update.Service.{
  DownloadAnswers, InstallAnswers, ClearAnswers, load_state, save_state, download_release,
  install_pending, clear_service,
}
use qingzhou_ssh.Update.Shown.{
  public_source_error, public_service_error, source_label, AvailableUpdate, available_update,
  UpdateStatus, shown_release, status_of, UpdateProgressEvent, progress_events,
}

-- `panicked` is the failure of an `expect`.
pub data UpdateManagerError : Type 0 where
  source : SourceCheckError → UpdateManagerError
  transition : UpdateTransitionError → UpdateManagerError
  store : UpdateStateStoreError → UpdateManagerError
  service : UpdateServiceError → UpdateManagerError
  panicked : UpdateManagerError

abbrev pub ManagerAct : Type 0 → Type 0
ManagerAct = Act Manager UpdateManagerError

-- A move of the lifecycle; a refused one changes nothing.
abbrev pub moved_to : Manager → Moved → Manager × Result UpdateManagerError (Unit {0})
moved_to s (ok lifecycle) = (record s { lifecycle = lifecycle }, ok tt)
moved_to s (err e) = (s, err (transition e))

unfoldable pub move : (UpdateLifecycle → Moved) → ManagerAct (Unit {0})
move f s = moved_to s (f s.lifecycle)

unfoldable pub fail_with : String → ManagerAct (Unit {0})
fail_with message = modify (λ s. record s { lifecycle = fail (codes message) s.lifecycle })

unfoldable pub set_fallback_reason : Option (List ℕ) → ManagerAct (Unit {0})
set_fallback_reason reason = modify (λ s. record s { fallback_reason = reason })

unfoldable pub set_staged : Option StagedUpdate → ManagerAct (Unit {0})
set_staged staged = modify (λ s. record s { staged = staged })

unfoldable pub reset_lifecycle : ManagerAct (Unit {0})
reset_lifecycle = modify (λ s. record s { lifecycle = reset s.lifecycle })

abbrev pub taken :
    Manager → Option UpdateRelease → Manager × Result UpdateManagerError UpdateRelease
taken s none = (s, err panicked)
taken s (some release) = (s, ok release)

-- `release().cloned().expect(…)`.
unfoldable pub expect_release : ManagerAct UpdateRelease
expect_release s = taken s s.lifecycle.release

-- The block that gives `download` its release.
unfoldable pub begin_release : ManagerAct UpdateRelease
begin_release = do move begin_download; expect_release

-- What the files answer to a check.
pub record CheckAnswers : Type 0 where
  pub first_read : Io (Unit {0})
  pub result_read : Io (Unit {0})
  pub result_written : Io (Unit {0})
  pub status_read : Io (Unit {0})

-- `AUTOMATIC_CHECK_INTERVAL`, in seconds.
abbrev pub automatic_check_interval : ℕ
automatic_check_interval = 6 * 60 * 60

module _ (system : System) (current : String) where
  unfoldable pub status : Io (Unit {0}) → ManagerAct UpdateStatus
  status read = do
    state ← map_err store (load_state system read)
    s ← get
    pure (status_of current state s)

  unfoldable pub persist_check : ℕ → StoredCheckResult → CheckAnswers → ManagerAct (Unit {0})
  persist_check now result a = do
    state ← map_err store (load_state system a.result_read)
    map_err store (
        save_state system (record state { last_checked_at = some now; last_result = some result })
          a.result_written)

  -- The move for what a check decided, and what is kept of it.
  unfoldable pub take_decision : UpdateSource → ManifestDecision → ManagerAct StoredCheckResult
  take_decision origin ManifestDecision.up_to_date = do
    move set_up_to_date
    pure (record {
      status = StoredCheckStatus.up_to_date;
      version = some current;
      source = some origin;
      message = some "当前已是最新版本";
    })
  take_decision origin (ManifestDecision.available release) = do
    move (set_available release)
    pure (record {
      status = StoredCheckStatus.available;
      version = some release.version;
      source = some origin;
      message = some "发现可用更新";
    })

  unfoldable pub after_check :
      ℕ → CheckAnswers → Result SourceCheckError SourceSelection → ManagerAct UpdateStatus
  after_check now a (ok selection) = do
    set_fallback_reason selection.fallback_reason
    result ← take_decision selection.source selection.decision
    persist_check now result a
    status a.status_read
  after_check now a (err e) = do
    fail_with (public_source_error e.kind)
    persist_check now
        (record {
          status = StoredCheckStatus.failed;
          version = none;
          source = none;
          message = some (public_source_error e.kind);
        })
        a
    throw (source e)

  -- `UpdateManager::check`; the checker answers with `selection`.
  unfoldable pub check_updates :
      Bool → ℕ → Result SourceCheckError SourceSelection → CheckAnswers → ManagerAct UpdateStatus
  check_updates manual now selection a = do
    persistent ← map_err store (load_state system a.first_read)
    if not manual && not (automatic_check_due persistent now automatic_check_interval)
        then status a.status_read
        else (do move begin_check; set_fallback_reason none; after_check now a selection)

  unfoldable pub after_download :
      Io (Unit {0}) → Result UpdateServiceError StagedUpdate → ManagerAct UpdateStatus
  after_download read (ok staged) = do set_staged (some staged); move set_downloaded; status read
  after_download read (err e) = do fail_with (public_service_error e); throw (service e)

  -- `UpdateManager::download`.
  unfoldable pub download : DownloadAnswers → Io (Unit {0}) → ManagerAct UpdateStatus
  download a read = do
    release ← begin_release
    result ← attempt (download_release system release a)
    after_download read result

  unfoldable pub after_install :
      Io (Unit {0}) → Result UpdateServiceError (Unit {0}) → ManagerAct UpdateStatus
  after_install read (ok done) = status read
  after_install read (err e) = do fail_with (public_service_error e); throw (service e)

  -- `UpdateManager::install`.
  unfoldable pub install : Bool → InstallAnswers → Io (Unit {0}) → ManagerAct UpdateStatus
  install confirmed a read =
      if not confirmed then throw (service UpdateServiceError.confirmation_required) else do
        move begin_install
        result ← attempt (install_pending system true a)
        after_install read result

  -- `UpdateManager::clear_downloaded`.
  unfoldable pub clear_downloaded : ClearAnswers → Io (Unit {0}) → ManagerAct UpdateStatus
  clear_downloaded a read = do
    removed ← map_err service (clear_service system a)
    set_staged none
    set_fallback_reason none
    reset_lifecycle
    status read

  unfoldable pub set_auto_check :
      Bool → Io (Unit {0}) → Io (Unit {0}) → Io (Unit {0}) → ManagerAct UpdateStatus
  set_auto_check enabled state_read state_written read = do
    state ← map_err store (load_state system state_read)
    map_err store (save_state system (record state { auto_check = enabled }) state_written)
    status read
