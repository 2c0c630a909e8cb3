-- ===== src/Update/Lifecycle.antt =====
-- src-tauri/src/domain/update.rs: the phases of an update and the moves between them.
pub mod Keeps
use qingzhou_ssh.Prelude.{
  ℕ, ◌≡◌, Bool, true, false, Option, none, some, List, [], ◌∷◌, arith, ◌==◌, if◌then◌else◌,
}
use qingzhou_ssh.Prelude.Result.{Result, ok, err, ◌>>=◌, ◌>>◌}
use qingzhou_ssh.Update.Release.{UpdateRelease}

pub data UpdatePhase : Type 0 where
  idle checking up_to_date available downloading downloaded installing failed : UpdatePhase

pub record UpdateTransitionError : Type 0 where
  pub before : UpdatePhase
  pub after : UpdatePhase

-- The discriminant of the enum.
abbrev pub update_ordinal : UpdatePhase → ℕ
update_ordinal idle = 0
update_ordinal checking = 1
update_ordinal up_to_date = 2
update_ordinal available = 3
update_ordinal downloading = 4
update_ordinal downloaded = 5
update_ordinal installing = 6
update_ordinal failed = 7

-- `==`, derived.
abbrev pub same_update : UpdatePhase → UpdatePhase → Bool
same_update a b = update_ordinal a == update_ordinal b

pub record UpdateLifecycle : Type 0 where
  pub phase : UpdatePhase
  pub release : Option UpdateRelease
  pub last_error : Option (List ℕ)

-- `UpdateLifecycle::default`.
abbrev pub default_lifecycle : UpdateLifecycle
default_lifecycle = record { phase = idle; release = none; last_error = none }

abbrev pub Moved : Type 0
Moved = Result UpdateTransitionError UpdateLifecycle

unfoldable pub require_phase :
    UpdateLifecycle → UpdatePhase → UpdatePhase → Result UpdateTransitionError (Unit {0})
require_phase l expected next =
    if same_update l.phase expected then ok tt else err (record { before = l.phase; after = next })

-- `begin_check`, from a phase.
unfoldable pub may_check : UpdatePhase → Bool
may_check idle = true
may_check up_to_date = true
may_check available = true
may_check failed = true
may_check _ = false

unfoldable pub begin_check : UpdateLifecycle → Moved
begin_check l =
    if may_check l.phase
    then ok (record { phase = checking; release = none; last_error = none })
    else err (record { before = l.phase; after = checking })

unfoldable pub set_up_to_date : UpdateLifecycle → Moved
set_up_to_date l = do
  require_phase l checking up_to_date
  ok (record l { phase = up_to_date; release = none })

unfoldable pub set_available : UpdateRelease → UpdateLifecycle → Moved
set_available release l = do
  require_phase l checking available
  ok (record l { phase = available; release = some release })

unfoldable pub begin_download : UpdateLifecycle → Moved
begin_download l = do require_phase l available downloading; ok (record l { phase = downloading })

unfoldable pub set_downloaded : UpdateLifecycle → Moved
set_downloaded l = do require_phase l downloading downloaded; ok (record l { phase = downloaded })

unfoldable pub begin_install : UpdateLifecycle → Moved
begin_install l = do require_phase l downloaded installing; ok (record l { phase = installing })

unfoldable pub fail : List ℕ → UpdateLifecycle → UpdateLifecycle
fail message l = record l { phase = failed; last_error = some message }

-- `reset`.
unfoldable pub reset : UpdateLifecycle → UpdateLifecycle
reset l = default_lifecycle

-- A phase in which there is a release, one in which there is none, and one in which there may be.
abbrev pub fits_release : UpdatePhase → Option UpdateRelease → Bool
fits_release idle (some r) = false
fits_release checking (some r) = false
fits_release up_to_date (some r) = false
fits_release available none = false
fits_release downloading none = false
fits_release downloaded none = false
fits_release installing none = false
fits_release _ _ = true

-- Just a failure has a message.
abbrev pub fits_error : UpdatePhase → Option (List ℕ) → Bool
fits_error failed none = false
fits_error failed (some e) = true
fits_error _ none = true
fits_error _ (some e) = false

pub record IsLifecycle (l : UpdateLifecycle) : Type 0 where
  pub release_fits : fits_release l.phase l.release ≡ true
  pub error_fits : fits_error l.phase l.last_error ≡ true
