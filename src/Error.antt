-- ===== src/Error.antt =====
-- src-tauri/src/error.rs: `AppError`, its code and whether a caller may retry, and the cut of a text
-- at a byte limit. An error of a third-party library is kept as the text that it prints.
pub mod Cut
use qingzhou_ssh.Prelude.{ℕ, suc, ◌+◌, String, Bool, true, false, List}
use qingzhou_ssh.Prelude.Result.{Result}

pub data AppError : Type 0 where
  validation compatibility serialization ipc : String → AppError
  output_limit_exceeded : ℕ → AppError
  transfer integrity permission : String → AppError
  passwordless_sudo_required restore_point_already_consumed : AppError
  disk_space : String → AppError
  cancelled : AppError
  remote_state_uncertain : String → AppError
  not_ready : AppError
  security : String → AppError
  unsupported_script_package forbidden_script_field unsafe_script_package : String → AppError
  script_confirmation_required script_preview_expired : String → AppError
  update io database migration ssh : String → AppError
  -- The exit status is an i32, kept as its 32-bit pattern; the output is its code points.
  ssh_command : ℕ → List ℕ → AppError
  tauri : String → AppError

abbrev pub AppResult {ℓ} : Type ℓ → Type ℓ
AppResult A = Result AppError A

unfoldable pub code : AppError → String
code (validation _) = "validation"
code (compatibility _) = "compatibility"
code (serialization _) = "serialization"
code (ipc _) = "ipc"
code (output_limit_exceeded _) = "output_limit_exceeded"
code (transfer _) = "transfer"
code (integrity _) = "integrity"
code (permission _) = "permission"
code passwordless_sudo_required = "passwordless_sudo_required"
code restore_point_already_consumed = "restore_point_already_consumed"
code (disk_space _) = "disk_space"
code cancelled = "cancelled"
code (remote_state_uncertain _) = "remote_state_uncertain"
code not_ready = "not_ready"
code (security _) = "security"
code (unsupported_script_package _) = "unsupported_script_package"
code (forbidden_script_field _) = "forbidden_script_field"
code (unsafe_script_package _) = "unsafe_script_package"
code (script_confirmation_required _) = "script_confirmation_required"
code (script_preview_expired _) = "script_preview_expired"
code (update _) = "update"
code (io _) = "io"
code (database _) = "database"
code (migration _) = "migration"
code (ssh _) = "ssh"
code (ssh_command _ _) = "ssh_command"
code (tauri _) = "tauri"

unfoldable pub retryable : AppError → Bool
retryable (io _) = true
retryable (ssh _) = true
retryable (transfer _) = true
retryable (disk_space _) = true
retryable (remote_state_uncertain _) = true
retryable _ = false
