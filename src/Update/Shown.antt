-- ===== src/Update/Shown.antt =====
-- src-tauri/src/services/update_service.rs: what the front end is shown of an update.
use qingzhou_ssh.Prelude.{ℕ, ◌+◌, String, Bool, Option, none, some, List, [], ◌∷◌, max, min}
use qingzhou_ssh.Update.Release.{UpdateRelease, UpdateSource, github, modelscope}
use qingzhou_ssh.Update.Lifecycle.{UpdatePhase}
use qingzhou_ssh.Update.Policy.{SourceFailureKind}
use qingzhou_ssh.Update.Staging.{
  UpdateAdapterError, UpdateServiceError, StoredCheckResult, UpdatePersistentState, StagedUpdate,
  Manager,
}

unfoldable pub public_source_error : SourceFailureKind → String
public_source_error SourceFailureKind.network = "更新网络暂时不可用"
public_source_error SourceFailureKind.not_found = "更新源尚未发布版本清单"
public_source_error SourceFailureKind.server = "更新服务暂时不可用"
public_source_error SourceFailureKind.invalid_manifest = "更新清单格式或内容无效"
public_source_error SourceFailureKind.security = "更新源安全校验失败"

unfoldable pub public_service_error : UpdateServiceError → String
public_service_error (UpdateServiceError.adapter UpdateAdapterError.network) = "更新网络暂时不可用"
public_service_error (UpdateServiceError.adapter UpdateAdapterError.signature) = "更新签名验证失败"
public_service_error (UpdateServiceError.adapter UpdateAdapterError.manifest) = "更新清单校验失败"
public_service_error (UpdateServiceError.adapter UpdateAdapterError.install_failed) = "更新安装器启动失败"
public_service_error UpdateServiceError.integrity = "更新包完整性校验失败"
public_service_error UpdateServiceError.not_downloaded = "更新包尚未完成下载"
public_service_error UpdateServiceError.confirmation_required = "安装更新前必须明确确认"
public_service_error (UpdateServiceError.store e) = "更新状态存储失败"
public_service_error UpdateServiceError.io = "更新文件操作失败"

unfoldable pub source_label : UpdateSource → String
source_label github = "GitHub Releases"
source_label modelscope = "ModelScope 国内镜像"

pub record AvailableUpdate : Type 0 where
  pub version : String
  pub notes : String
  pub published_at : Option String
  pub size : ℕ
  pub build_id : String
  pub source : UpdateSource
  pub source_label : String

unfoldable pub available_update : UpdateRelease → AvailableUpdate
available_update release = record {
  version = release.version;
  notes = release.notes;
  published_at = release.published_at;
  size = release.size;
  build_id = release.build_id;
  source = release.source;
  source_label = source_label release.source;
}

pub record UpdateStatus : Type 0 where
  pub current_version : String
  pub phase : UpdatePhase
  pub auto_check : Bool
  pub last_checked_at : Option ℕ
  pub last_result : Option StoredCheckResult
  pub release : Option AvailableUpdate
  pub fallback_reason : Option (List ℕ)
  pub staged : Option StagedUpdate
  pub last_error : Option (List ℕ)

abbrev pub shown_release : Option UpdateRelease → Option AvailableUpdate
shown_release none = none
shown_release (some release) = some (available_update release)

unfoldable pub status_of : String → UpdatePersistentState → Manager → UpdateStatus
status_of current state s = record {
  current_version = current;
  phase = s.lifecycle.phase;
  auto_check = state.auto_check;
  last_checked_at = state.last_checked_at;
  last_result = state.last_result;
  release = shown_release s.lifecycle.release;
  fallback_reason = s.fallback_reason;
  staged = s.staged;
  last_error = s.lifecycle.last_error;
}

pub record UpdateProgressEvent : Type 0 where
  pub sequence : ℕ
  pub downloaded_bytes : ℕ
  pub total_bytes : Option ℕ

-- The callback of `download`, called for each report with what its closure keeps.
unfoldable pub progress_events : ℕ → ℕ → List (ℕ × Option ℕ) → List UpdateProgressEvent
progress_events sequence last [] = []
progress_events sequence last ((downloaded, total) ∷ reports) =
    let next = min (sequence + 1) 18446744073709551615 in
    record { sequence = next; downloaded_bytes = max last downloaded; total_bytes = total }
    ∷ progress_events next (max last downloaded) reports
