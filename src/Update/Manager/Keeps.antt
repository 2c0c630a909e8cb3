-- ===== src/Update/Manager/Keeps.antt =====
-- That the parts of an update manager's operations keep what holds of it, and do not panic.
use qingzhou_ssh.Prelude.{ℕ, ◌≡◌, refl, String, Bool, true, false, Option, none, some, List, arith}
use qingzhou_ssh.Prelude.Text.{codes}
use qingzhou_ssh.Prelude.Result.{ok, err}
use qingzhou_ssh.Prelude.Stateful.{
  Act, continue, ◌>>=◌, map_err, attempt, Keeps, Ended, Answered, >>=-Keeps, pure-Keeps,
  modify-Keeps, get-Keeps, map_err-Keeps, attempt-Keeps,
}
use qingzhou_ssh.Update.Release.{UpdateRelease}
use qingzhou_ssh.Update.Lifecycle.{
  UpdateLifecycle, Moved, IsLifecycle, default_lifecycle, begin_download, fail, reset,
}
use qingzhou_ssh.Update.Lifecycle.Keeps.{
  IfSome, KeepsLifecycle, begin_download-Keeps, fail-Keeps, begun,
}
use qingzhou_ssh.Update.Safe.{IsSafe, Any, same_rest, load_state-Keeps, save_state-Keeps}
use qingzhou_ssh.Update.Staging.{
  UpdateStateStoreError, UpdateServiceError, StagedUpdate, Manager, System, UpdatePersistentState,
  Io,
}
use qingzhou_ssh.Update.Service.{load_state, save_state}
use qingzhou_ssh.Update.Manager.{
  UpdateManagerError, store, service, panicked, moved_to, move, fail_with, set_fallback_reason,
  set_staged, reset_lifecycle, taken, expect_release, begin_release, status,
}

abbrev pub is_panic : UpdateManagerError → Bool
is_panic panicked = true
is_panic _ = false

abbrev pub NoPanic : UpdateManagerError → Type 0
NoPanic e = is_panic e ≡ false

-- `Offered` is what holds of a release that a check gave.
module _ (system : System) (Offered : UpdateRelease → Type 0) where
  -- An operation that keeps the manager safe and does not panic.
  abbrev pub Kept : {A : Type 0} → (A → Type 0) → Act Manager UpdateManagerError A → Type 0
  Kept Q action = Keeps (λ s. IsSafe system Offered s) (λ e. NoPanic e) Q action

  moved_to-Ended :
      (s : Manager)
      → IsSafe system Offered s
      → (r : Moved) → ((m : UpdateLifecycle) → r ≡ ok m → IsLifecycle m × IfSome Offered m.release)
      → Ended (λ t. IsSafe system Offered t) (λ e. NoPanic e) (λ a. Any a) (moved_to s r)
  moved_to-Ended s safe (ok m) h = (
    record {
      good_lifecycle = (h m refl).0;
      release_offered = (h m refl).1;
      pending_offered = safe.pending_offered;
      all_verified = safe.all_verified;
    },
    tt,
  )
  moved_to-Ended s safe (err e) h = (safe, refl)

  pub move-Keeps :
      (f : UpdateLifecycle → Moved) → KeepsLifecycle Offered f → Kept (λ a. Any a) (move f)
  unfolding move
  move-Keeps f h = record {
    holds = λ s safe.
        moved_to-Ended s safe (f s.lifecycle)
          (h s.lifecycle safe.good_lifecycle safe.release_offered);
  }

  -- What the store and the service do.
  on_store :
      {A : Type 0} {action : Act Manager UpdateStateStoreError A}
      → Keeps (λ s. IsSafe system Offered s) (λ e. Any e) (λ a. Any a) action
      → Kept (λ a. Any a) (map_err store action)
  on_store h =
      map_err-Keeps (λ s. IsSafe system Offered s) (λ e. Any e) (λ e. NoPanic e) store (λ e x. refl)
        h

  pub on_service :
      {A : Type 0} {action : Act Manager UpdateServiceError A}
      → Keeps (λ s. IsSafe system Offered s) (λ e. Any e) (λ a. Any a) action
      → Kept (λ a. Any a) (map_err service action)
  on_service h =
      map_err-Keeps (λ s. IsSafe system Offered s) (λ e. Any e) (λ e. NoPanic e) service
        (λ e x. refl) h

  pub attempted_service :
      {A : Type 0} {action : Act Manager UpdateServiceError A}
      → Keeps (λ s. IsSafe system Offered s) (λ e. Any e) (λ a. Any a) action
      → Kept (λ r. Answered (λ e. Any e) (λ a. Any a) r) (attempt action)
  attempted_service h =
      attempt-Keeps (λ s. IsSafe system Offered s) (λ e. Any e) (λ e. NoPanic e) (λ a. Any a) h

  pub read_any : (read : Io (Unit {0})) → Kept (λ a. Any a) (map_err store (load_state system read))
  read_any read = on_store (load_state-Keeps system Offered read)

  pub write_any :
      (state : UpdatePersistentState) (written : Io (Unit {0}))
      → Kept (λ a. Any a) (map_err store (save_state system state written))
  write_any state written = on_store (save_state-Keeps system Offered state written)

  pub set_fallback_reason-Keeps :
      (reason : Option (List ℕ)) → Kept (λ a. Any a) (set_fallback_reason reason)
  unfolding set_fallback_reason
  set_fallback_reason-Keeps reason =
      modify-Keeps _ (λ s safe. same_rest system Offered s _ refl refl refl safe)

  pub set_staged-Keeps : (staged : Option StagedUpdate) → Kept (λ a. Any a) (set_staged staged)
  unfolding set_staged
  set_staged-Keeps staged =
      modify-Keeps _ (λ s safe. same_rest system Offered s _ refl refl refl safe)

  with_lifecycle :
      (s : Manager) (l : UpdateLifecycle)
      → IsLifecycle l
      → IfSome Offered l.release
      → IsSafe system Offered s
      → IsSafe system Offered (record s { lifecycle = l })
  with_lifecycle s l good offered safe = record {
    good_lifecycle = good;
    release_offered = offered;
    pending_offered = safe.pending_offered;
    all_verified = safe.all_verified;
  }

  pub fail_with-Keeps : (message : String) → Kept (λ a. Any a) (fail_with message)
  unfolding fail_with fail
  fail_with-Keeps message = modify-Keeps _ (λ s safe.
      with_lifecycle s _ (fail-Keeps Offered (codes message) s.lifecycle safe.good_lifecycle)
        safe.release_offered safe)

  pub reset_lifecycle-Keeps : Kept (λ a. Any a) reset_lifecycle
  unfolding reset_lifecycle reset
  reset_lifecycle-Keeps = modify-Keeps _ (λ s safe.
      with_lifecycle s default_lifecycle (record { release_fits = refl; error_fits = refl }) tt
        safe)

  pub status-Keeps :
      (current : String) (read : Io (Unit {0})) → Kept (λ a. Any a) (status system current read)
  unfolding status
  status-Keeps current read =
      >>=-Keeps (read_any read) (λ state x. >>=-Keeps get-Keeps (λ s safe. pure-Keeps _ tt))

  taken-Ended :
      (s : Manager)
      → IsSafe system Offered s
      → (found : Option UpdateRelease) → IfSome Offered found
      → ((release : UpdateRelease) × (found ≡ some release))
      → Ended (λ t. IsSafe system Offered t) (λ e. NoPanic e) (λ r. Offered r) (taken s found)
  taken-Ended s safe none offered has = absurd (ground (arith, has.1))
  taken-Ended s safe (some release) offered has = (safe, offered)

  released :
      (s : Manager)
      → IsSafe system Offered s
      → (r : Moved) → begin_download s.lifecycle ≡ r
      → Ended
          (λ t. IsSafe system Offered t)
          (λ e. NoPanic e)
          (λ r. Offered r)
          (continue (λ u. expect_release) (moved_to s r))
  unfolding expect_release
  released s safe (err e) h = (safe, refl)
  released s safe (ok m) h =
      let kept =
        begin_download-Keeps Offered s.lifecycle safe.good_lifecycle safe.release_offered m h in
      taken-Ended (record s { lifecycle = m }) (with_lifecycle s m kept.0 kept.1 safe) m.release
        kept.1 (begun Offered s.lifecycle m safe.good_lifecycle h)

  pub begin_release-Keeps : Kept (λ r. Offered r) begin_release
  unfolding begin_release ◌>>=◌ move
  begin_release-Keeps = record {
    holds = λ s safe. released s safe (begin_download s.lifecycle) refl;
  }
