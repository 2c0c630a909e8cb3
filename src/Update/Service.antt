-- ===== src/Update/Service.antt =====
-- src-tauri/src/services/update_service.rs and src-tauri/src/core/updates/state_store.rs: the state file,
-- and the operations of `UpdateService`.
use qingzhou_ssh.Prelude.{ℕ, Bool, false, not, Option, none, some, List, ◌∷◌, if◌then◌else◌}
use qingzhou_ssh.Prelude.Result.{Result}
use qingzhou_ssh.Prelude.Stateful.{Act, ◌>>=◌, ◌>>◌, pure, throw, given, modify, get, map_err}
use qingzhou_ssh.Update.Release.{UpdateRelease}
use qingzhou_ssh.Update.Staging.{
  UpdateAdapterError, UpdateStateStoreError, UpdateServiceError, adapter, not_downloaded,
  confirmation_required, store, io, UpdatePersistentState, default_state, StagedUpdate,
  PendingUpdate, Manager, System, Io, FileAnswers, staged_relative_path, write_verified_file,
  verify_bytes, validate_staged_file,
}

abbrev pub StoreAct : Type 0 → Type 0
StoreAct = Act Manager UpdateStateStoreError

abbrev pub ServiceAct : Type 0 → Type 0
ServiceAct = Act Manager UpdateServiceError

abbrev pub state_of : Option UpdatePersistentState → UpdatePersistentState
state_of none = default_state
state_of (some state) = state

abbrev pub lower : {A : Type 0} → Io A → ServiceAct A
lower answer = map_err store (given answer)

-- A file operation; its error is an `io::Error`.
abbrev pub on_disk : {A : Type 0} → Io A → ServiceAct A
on_disk answer = map_err (λ e. io) (given answer)

-- What a download asks of the files.
pub record DownloadAnswers : Type 0 where
  pub downloaded : Result UpdateAdapterError (List ℕ)
  pub files : FileAnswers
  pub state_read : Io (Unit {0})
  pub state_written : Io (Unit {0})

pub record InstallAnswers : Type 0 where
  pub bytes : Io (List ℕ)
  pub installed : Result UpdateAdapterError (Unit {0})

-- `removed` tells a file that was removed from one that was not there.
pub record ClearAnswers : Type 0 where
  pub state_read : Io (Unit {0})
  pub removed : Io Bool
  pub state_written : Io (Unit {0})

abbrev pub staged_of : UpdateRelease → List ℕ → StagedUpdate
staged_of release path = record {
  version = release.version;
  relative_path = path;
  sha256 = release.sha256.text;
  size = release.size;
}

-- The path to clear: of the pending update, or else the state file's.
abbrev pub path_to_clear : Option PendingUpdate → Option (List ℕ) → Option (List ℕ)
path_to_clear none file = file
path_to_clear (some pending) file = some pending.staged.relative_path

unfoldable pub set_pending : Option PendingUpdate → ServiceAct (Unit {0})
set_pending pending = modify (λ s. record s { pending = pending })

abbrev pub pending_or_error : Option PendingUpdate → ServiceAct PendingUpdate
pending_or_error none = throw not_downloaded
pending_or_error (some pending) = pure pending

unfoldable pub require_pending : ServiceAct PendingUpdate
require_pending = do s ← get; pending_or_error s.pending

-- The bytes are handed to the installer of the platform.
unfoldable pub hand_over : UpdateRelease → List ℕ → ServiceAct (Unit {0})
hand_over release bytes =
    modify (λ s. record s { handed = record { release = release; bytes = bytes } ∷ s.handed })

module _ (system : System) where
  -- `load`; `read` is whether the file could be read.
  unfoldable pub load_state : Io (Unit {0}) → StoreAct UpdatePersistentState
  load_state read = do
    given read
    s ← get
    given (validate_staged_file system (state_of s.state_file).staged_file)
    pure (state_of s.state_file)

  -- `save`.
  unfoldable pub save_state : UpdatePersistentState → Io (Unit {0}) → StoreAct (Unit {0})
  save_state state written = do
    given (validate_staged_file system state.staged_file)
    given written
    modify (λ s. record s { state_file = some state })

  -- `UpdateService::download`; the name of the partial file and its removal are left out.
  unfoldable pub download_release : UpdateRelease → DownloadAnswers → ServiceAct StagedUpdate
  download_release release a = do
    bytes ← map_err adapter (given a.downloaded)
    given (verify_bytes system release bytes)
    path ← given (staged_relative_path release)
    lower (validate_staged_file system (some path))
    on_disk a.files.parent_made
    on_disk (write_verified_file a.files bytes)
    state ← map_err store (load_state a.state_read)
    map_err store (save_state (record state { staged_file = some path }) a.state_written)
    set_pending (some (record { release = release; staged = staged_of release path }))
    pure (staged_of release path)

  -- `UpdateService::install`.
  unfoldable pub install_pending : Bool → InstallAnswers → ServiceAct (Unit {0})
  install_pending confirmed a = if not confirmed then throw confirmation_required else do
    pending ← require_pending
    lower (validate_staged_file system (some pending.staged.relative_path))
    bytes ← on_disk a.bytes
    given (verify_bytes system pending.release bytes)
    hand_over pending.release bytes
    map_err adapter (given a.installed)

  unfoldable pub remove_staged : Option (List ℕ) → Io Bool → ServiceAct Bool
  remove_staged none removed = pure false
  remove_staged (some path) removed = do
    lower (validate_staged_file system (some path))
    on_disk removed

  -- `UpdateService::clear_downloaded`: `take` empties the pending update first.
  unfoldable pub clear_service : ClearAnswers → ServiceAct Bool
  clear_service a = do
    before ← get
    set_pending none
    state ← map_err store (load_state a.state_read)
    removed ← remove_staged (path_to_clear before.pending state.staged_file) a.removed
    map_err store (save_state (record state { staged_file = none }) a.state_written)
    pure removed
