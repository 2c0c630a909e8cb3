-- ===== src/Update/Lifecycle/Keeps.antt =====
-- That the moves of a lifecycle keep it well-formed, and keep what holds of its release.
use qingzhou_ssh.Prelude.{ℕ, ◌≡◌, refl, Option, none, some, List, arith, Option-cases, inl, inr}
use qingzhou_ssh.Prelude.Result.{ok}
use qingzhou_ssh.Update.Release.{UpdateRelease}
use qingzhou_ssh.Update.Lifecycle.{
  UpdateLifecycle, Moved, IsLifecycle, require_phase, may_check, begin_check, set_up_to_date,
  set_available, begin_download, set_downloaded, begin_install, fail,
}

-- What holds of a value, if there is one.
abbrev pub IfSome : {A : Type 0} → (A → Type 0) → Option A → Type 0
IfSome P none = Unit {0}
IfSome P (some a) = P a

-- `Offered` is what holds of a release that a check gave.
module _ (Offered : UpdateRelease → Type 0) where
  -- A move of the lifecycle that keeps what holds of it.
  abbrev pub KeepsLifecycle : (UpdateLifecycle → Moved) → Type 0
  KeepsLifecycle f =
      (l : UpdateLifecycle)
      → IsLifecycle l
      → IfSome Offered l.release
      → (m : UpdateLifecycle) → f l ≡ ok m
      → IsLifecycle m × IfSome Offered m.release

  pub begin_check-Keeps : KeepsLifecycle begin_check
  unfolding begin_check may_check
  begin_check-Keeps l good offered m h = ground (arith, good.release_fits, good.error_fits)

  pub set_up_to_date-Keeps : KeepsLifecycle set_up_to_date
  unfolding set_up_to_date require_phase
  set_up_to_date-Keeps l good offered m h = ground (arith, good.release_fits, good.error_fits)

  pub set_available-Keeps :
      (release : UpdateRelease) → Offered release → KeepsLifecycle (set_available release)
  unfolding set_available require_phase
  set_available-Keeps release is_offered l good offered m h =
      ground (arith, good.release_fits, good.error_fits)

  pub begin_download-Keeps : KeepsLifecycle begin_download
  unfolding begin_download require_phase
  begin_download-Keeps l good offered m h = ground (arith, good.release_fits, good.error_fits)

  pub set_downloaded-Keeps : KeepsLifecycle set_downloaded
  unfolding set_downloaded require_phase
  set_downloaded-Keeps l good offered m h = ground (arith, good.release_fits, good.error_fits)

  pub begin_install-Keeps : KeepsLifecycle begin_install
  unfolding begin_install require_phase
  begin_install-Keeps l good offered m h = ground (arith, good.release_fits, good.error_fits)

  pub fail-Keeps :
      (message : List ℕ) (l : UpdateLifecycle) → IsLifecycle l → IsLifecycle (fail message l)
  unfolding fail
  fail-Keeps message l good = record {
    release_fits = ground (arith, good.release_fits);
    error_fits = refl;
  }

  pub begun :
      (l m : UpdateLifecycle)
      → IsLifecycle l
      → begin_download l ≡ ok m
      → (release : UpdateRelease) × (m.release ≡ some release)
  unfolding begin_download require_phase
  begun l m good h = elim (Option-cases l.release) [
    | inl missing ↦ absurd (ground (arith, good.release_fits, missing))
    | inr (release, found) ↦ (release, ground (arith, found))
  ]
