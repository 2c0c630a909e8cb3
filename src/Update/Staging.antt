-- ===== src/Update/Staging.antt =====
-- src-tauri/src/services/update_service.rs and src-tauri/src/core/updates/state_store.rs: the data of a
-- download, the checks of its bytes and its path, and how it is written. SHA-256, the path rules of the
-- system and the files answer by arguments.
use qingzhou_ssh.Prelude.{
  ℕ, ◌-◌, String, Bool, true, false, not, ◌&&◌, Option, none, some, List, [], ◌∷◌, ◌++◌, all, any,
  length, leb, ◌==◌, if◌then◌else◌,
}
use qingzhou_ssh.Prelude.Text.{str_eq, codes, same_codes}
use qingzhou_ssh.Prelude.Result.{Result, ok, err, ◌>>=◌, ◌>>◌}
use qingzhou_ssh.Update.Release.{UpdateSource, UpdateRelease}
use qingzhou_ssh.Update.Lifecycle.{UpdateLifecycle}
use qingzhou_ssh.Update.Policy.{}

pub data UpdateAdapterError : Type 0 where
  network signature manifest install_failed : UpdateAdapterError

pub data UpdateStateStoreError : Type 0 where
  file_error serialization atomic_write : UpdateStateStoreError
  invalid_staged_path : List ℕ → UpdateStateStoreError

pub data UpdateServiceError : Type 0 where
  adapter : UpdateAdapterError → UpdateServiceError
  integrity not_downloaded confirmation_required : UpdateServiceError
  store : UpdateStateStoreError → UpdateServiceError
  io : UpdateServiceError

pub data StoredCheckStatus : Type 0 where
  up_to_date available failed : StoredCheckStatus

pub record StoredCheckResult : Type 0 where
  pub status : StoredCheckStatus
  pub version : Option String
  pub source : Option UpdateSource
  pub message : Option String

pub record UpdatePersistentState : Type 0 where
  pub auto_check : Bool
  pub last_checked_at : Option ℕ
  pub last_result : Option StoredCheckResult
  pub staged_file : Option (List ℕ)

-- `UpdatePersistentState::default`.
abbrev pub default_state : UpdatePersistentState
default_state = record {
  auto_check = true;
  last_checked_at = none;
  last_result = none;
  staged_file = none;
}

-- `automatic_check_due`; `saturating_sub` is subtraction on natural numbers.
unfoldable pub automatic_check_due : UpdatePersistentState → ℕ → ℕ → Bool
automatic_check_due state now interval =
    if not state.auto_check
    then false
    else elim state.last_checked_at [ none ↦ true | some last ↦ leb interval (now - last) ]

pub record StagedUpdate : Type 0 where
  pub version : String
  pub relative_path : List ℕ
  pub sha256 : String
  pub size : ℕ

pub record PendingUpdate : Type 0 where
  pub release : UpdateRelease
  pub staged : StagedUpdate

-- What was handed to the installer.
pub record Handed : Type 0 where
  pub release : UpdateRelease
  pub bytes : List ℕ

-- `UpdateManager` with its `UpdateService`: what they keep, the state file (none before the first
-- `save`), and the installs that were begun, the latest first.
pub record Manager : Type 0 where
  pub lifecycle : UpdateLifecycle
  pub fallback_reason : Option (List ℕ)
  pub staged : Option StagedUpdate
  pub pending : Option PendingUpdate
  pub state_file : Option UpdatePersistentState
  pub handed : List Handed

-- The parts of a path (`std::path::Component`).
pub data Component : Type 0 where
  normal : List ℕ → Component
  other : Component

-- `components` reads a path by the rules of the system, `sha256` gives a digest in lower-case hex.
pub record System : Type 0 where
  pub components : List ℕ → List Component
  pub sha256 : List ℕ → String

unfoldable pub is_normal : Component → Bool
is_normal (normal name) = true
is_normal other = false

unfoldable pub starts_staged : List Component → Bool
starts_staged (normal name ∷ rest) = same_codes name (codes "staged")
starts_staged _ = false

-- What the system answers to a file operation.
abbrev pub Io : Type 0 → Type 0
Io A = Result UpdateStateStoreError A

-- `staged_relative_path`.
abbrev pub suffix_of : String → Option String
suffix_of platform =
    if any (str_eq platform)
      ("windows-x86_64" ∷ "windows-x86_64-nsis" ∷ "windows-aarch64-nsis" ∷ [])
    then some "exe"
    else if any (str_eq platform) ("macos-x86_64-dmg" ∷ "macos-aarch64-dmg" ∷ [])
    then some "app.tar.gz"
    else if any (str_eq platform) ("linux-x86_64-appimage" ∷ "linux-aarch64-appimage" ∷ [])
    then some "AppImage"
    else none

unfoldable pub staged_relative_path : UpdateRelease → Result UpdateServiceError (List ℕ)
staged_relative_path release = elim (suffix_of release.platform) [
  | none ↦ err integrity
  | some suffix ↦ ok (
      codes "staged/"
      ++ codes release.version
      ++ codes "/QingzhouSSH-"
      ++ codes release.version
      ++ codes "-"
      ++ codes release.platform
      ++ codes "."
      ++ codes suffix)
]

-- What the files answer while a download is written.
pub record FileAnswers : Type 0 where
  pub parent_made : Io (Unit {0})
  pub exists_already : Bool
  pub existing : Io (List ℕ)
  pub old_removed : Io (Unit {0})
  pub opened : Io (Unit {0})
  pub written : Io (Unit {0})
  pub synced : Io (Unit {0})
  pub renamed : Io (Unit {0})

unfoldable pub write_anew : FileAnswers → Io (Unit {0})
write_anew a = a.opened >> (a.written >> (a.synced >> a.renamed))

-- `write_verified_file`.
unfoldable pub write_verified_file : FileAnswers → List ℕ → Io (Unit {0})
write_verified_file a bytes =
    if not a.exists_already
    then write_anew a
    else a.existing >>= λ old. if same_codes old bytes then ok tt else a.old_removed >> write_anew a

module _ (system : System) where
  -- `verify_bytes`.
  unfoldable pub verify_bytes : UpdateRelease → List ℕ → Result UpdateServiceError (Unit {0})
  verify_bytes release bytes =
      if not (length bytes == release.size)
      then err integrity
      else if not (str_eq (system.sha256 bytes) release.sha256.text)
      then err integrity
      else ok tt

  -- `safe` in `validate_staged_file`.
  unfoldable pub is_safe_path : List Component → Bool
  is_safe_path components =
      not (length components == 0)
      && (leb (length components) 4 && (starts_staged components && all is_normal components))

  unfoldable pub validate_staged_file : Option (List ℕ) → Io (Unit {0})
  validate_staged_file none = ok tt
  validate_staged_file (some value) =
      if is_safe_path (system.components value) then ok tt else err (invalid_staged_path value)
