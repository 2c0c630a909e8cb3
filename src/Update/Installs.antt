-- ===== src/Update/Installs.antt =====
-- What holds of an update manager through all its operations, and of what it hands to the installer.
use qingzhou_ssh.Prelude.{
  ℕ, ◌≡◌, ◌≢◌, not, refl, String, true, Option, none, List, [], ◌∷◌, All, arith,
}
use qingzhou_ssh.Prelude.Result.{Result, ok, err}
use qingzhou_ssh.Prelude.Stateful.{Act, Ended, >>=-Keeps, pure-Keeps, throw-Keeps, if-Keeps}
use qingzhou_ssh.Update.Release.{UpdateSource}
use qingzhou_ssh.Update.Lifecycle.{IsLifecycle}
use qingzhou_ssh.Update.Lifecycle.Keeps.{
  begin_check-Keeps, set_up_to_date-Keeps, set_available-Keeps, set_downloaded-Keeps,
  begin_install-Keeps,
}
use qingzhou_ssh.Update.Safe.{
  IsSafe, IsVerified, Any, download_release-Keeps, install_pending-Keeps, clear_service-Keeps,
}
use qingzhou_ssh.Update.Check.{Libraries, SourceSelection, ManifestDecision, check_update}
use qingzhou_ssh.Update.Policy.{TrustedSourcePolicy, SourceCheckError}
use qingzhou_ssh.Update.Check.Trusted.{IsOffered, check_update-IsTrusted}
use qingzhou_ssh.Update.Staging.{
  UpdateServiceError, StagedUpdate, Manager, System, UpdatePersistentState, Io, StoredCheckResult,
}
use qingzhou_ssh.Update.Manager.{
  UpdateManagerError, panicked, CheckAnswers, persist_check, take_decision, after_check,
  check_updates, after_download, download, after_install, install, clear_downloaded, set_auto_check,
}
use qingzhou_ssh.Update.Shown.{UpdateStatus}
use qingzhou_ssh.Update.Manager.Keeps.{
  NoPanic, Kept, move-Keeps, attempted_service, on_service, read_any, write_any,
  set_fallback_reason-Keeps, set_staged-Keeps, fail_with-Keeps, reset_lifecycle-Keeps, status-Keeps,
  begin_release-Keeps,
}
use qingzhou_ssh.Update.Manager.Ops.{
  ManagerOp, checks, downloads, installs, clears, sets_auto, new_manager, perform, perform_all,
}

module _ {V : Type 0} (lib : Libraries V) (policy : TrustedSourcePolicy) (system : System)
    (key current : String) where
  abbrev KeptHere : {A : Type 0} → (A → Type 0) → Act Manager UpdateManagerError A → Type 0
  KeptHere Q action = Kept system (λ r. IsOffered lib policy current r) Q action

  abbrev DecisionOffered : ManifestDecision → Type 0
  DecisionOffered ManifestDecision.up_to_date = Unit {0}
  DecisionOffered (ManifestDecision.available release) = IsOffered lib policy current release

  take_decision-Keeps :
      (origin : UpdateSource) (decision : ManifestDecision)
      → DecisionOffered decision
      → KeptHere (λ a. Any a) (take_decision system current origin decision)
  unfolding take_decision
  take_decision-Keeps origin ManifestDecision.up_to_date offered =
      >>=-Keeps
        (move-Keeps system (λ r. IsOffered lib policy current r) _
          (set_up_to_date-Keeps (λ r. IsOffered lib policy current r)))
        (λ u x. pure-Keeps _ tt)
  take_decision-Keeps origin (ManifestDecision.available release) offered =
      >>=-Keeps
        (move-Keeps system (λ r. IsOffered lib policy current r) _
          (set_available-Keeps (λ r. IsOffered lib policy current r) release offered))
        (λ u x. pure-Keeps _ tt)

  persist_check-Keeps :
      (now : ℕ) (result : StoredCheckResult) (a : CheckAnswers)
      → KeptHere (λ a. Any a) (persist_check system current now result a)
  unfolding persist_check
  persist_check-Keeps now result a =
      >>=-Keeps (read_any system (λ r. IsOffered lib policy current r) a.result_read)
        (λ state x. write_any system (λ r. IsOffered lib policy current r) _ a.result_written)

  abbrev SelectionOffered : Result SourceCheckError SourceSelection → Type 0
  SelectionOffered (ok selection) = DecisionOffered selection.decision
  SelectionOffered (err e) = Unit {0}

  after_check-Keeps :
      (now : ℕ) (a : CheckAnswers) (selection : Result SourceCheckError SourceSelection)
      → SelectionOffered selection
      → KeptHere (λ s. Any s) (after_check system current now a selection)
  unfolding after_check
  after_check-Keeps now a (ok selection) offered =
      >>=-Keeps (set_fallback_reason-Keeps system (λ r. IsOffered lib policy current r) _) (λ u x.
        >>=-Keeps (take_decision-Keeps selection.source selection.decision offered) (λ result x.
          >>=-Keeps (persist_check-Keeps now result a) (λ u x.
            status-Keeps system (λ r. IsOffered lib policy current r) current a.status_read)))
  after_check-Keeps now a (err e) offered =
      >>=-Keeps (fail_with-Keeps system (λ r. IsOffered lib policy current r) _)
        (λ u x. >>=-Keeps (persist_check-Keeps now _ a) (λ u x. throw-Keeps _ refl))

  after_download-Keeps :
      (read : Io (Unit {0})) (r : Result UpdateServiceError StagedUpdate)
      → KeptHere (λ s. Any s) (after_download system current read r)
  unfolding after_download
  after_download-Keeps read (ok staged) =
      >>=-Keeps (set_staged-Keeps system (λ r. IsOffered lib policy current r) _) (λ u x.
        >>=-Keeps
          (move-Keeps system (λ r. IsOffered lib policy current r) _
            (set_downloaded-Keeps (λ r. IsOffered lib policy current r)))
          (λ u x. status-Keeps system (λ r. IsOffered lib policy current r) current read))
  after_download-Keeps read (err e) =
      >>=-Keeps (fail_with-Keeps system (λ r. IsOffered lib policy current r) _)
        (λ u x. throw-Keeps _ refl)

  after_install-Keeps :
      (read : Io (Unit {0})) (r : Result UpdateServiceError (Unit {0}))
      → KeptHere (λ s. Any s) (after_install system current read r)
  unfolding after_install
  after_install-Keeps read (ok done) =
      status-Keeps system (λ r. IsOffered lib policy current r) current read
  after_install-Keeps read (err e) =
      >>=-Keeps (fail_with-Keeps system (λ r. IsOffered lib policy current r) _)
        (λ u x. throw-Keeps _ refl)

  decision_offered :
      (fetch : List ℕ → Result SourceCheckError (List ℕ)) (selection : SourceSelection)
      (decision : ManifestDecision)
      → check_update lib policy fetch key current ≡ ok selection
      → selection.decision ≡ decision
      → DecisionOffered decision
  decision_offered fetch selection ManifestDecision.up_to_date h is = tt
  decision_offered fetch selection (ManifestDecision.available release) h is = record {
    origin = selection.source;
    trusted = (check_update-IsTrusted lib policy fetch key current selection release h is).0;
  }

  selection_offered :
      (fetch : List ℕ → Result SourceCheckError (List ℕ))
      (r : Result SourceCheckError SourceSelection)
      → check_update lib policy fetch key current ≡ r
      → SelectionOffered r
  selection_offered fetch (ok selection) h =
      decision_offered fetch selection selection.decision h refl
  selection_offered fetch (err e) h = tt

  perform-Keeps :
      (op : ManagerOp) → KeptHere (λ s. Any s) (perform lib policy system key current op)
  unfolding perform check_updates download install clear_downloaded set_auto_check
  perform-Keeps (checks manual now fetch a) =
      >>=-Keeps (read_any system (λ r. IsOffered lib policy current r) a.first_read) (λ state x.
        if-Keeps _ (status-Keeps system (λ r. IsOffered lib policy current r) current a.status_read)
          (>>=-Keeps
            (move-Keeps system (λ r. IsOffered lib policy current r) _
              (begin_check-Keeps (λ r. IsOffered lib policy current r)))
            (λ u x.
              >>=-Keeps
                (set_fallback_reason-Keeps system (λ r. IsOffered lib policy current r) none)
                (λ u x.
                  after_check-Keeps now a (check_update lib policy fetch key current)
                    (selection_offered fetch (check_update lib policy fetch key current) refl)))))
  perform-Keeps (downloads a read) =
      >>=-Keeps (begin_release-Keeps system (λ r. IsOffered lib policy current r))
        (λ release offered.
          >>=-Keeps
            (attempted_service system (λ r. IsOffered lib policy current r)
              (download_release-Keeps system (λ r. IsOffered lib policy current r) release a
                offered))
            (λ r x. after_download-Keeps read r))
  perform-Keeps (installs confirmed a read) = if-Keeps (not confirmed) (throw-Keeps _ refl) (
      >>=-Keeps
        (move-Keeps system (λ r. IsOffered lib policy current r) _
          (begin_install-Keeps (λ r. IsOffered lib policy current r)))
        (λ u x.
          >>=-Keeps
            (attempted_service system (λ r. IsOffered lib policy current r)
              (install_pending-Keeps system (λ r. IsOffered lib policy current r) true a))
            (λ r x. after_install-Keeps read r)))
  perform-Keeps (clears a read) =
      >>=-Keeps
        (on_service system (λ r. IsOffered lib policy current r)
          (clear_service-Keeps system (λ r. IsOffered lib policy current r) a))
        (λ removed x.
          >>=-Keeps (set_staged-Keeps system (λ r. IsOffered lib policy current r) none) (λ u x.
            >>=-Keeps (set_fallback_reason-Keeps system (λ r. IsOffered lib policy current r) none)
              (λ u x.
                >>=-Keeps (reset_lifecycle-Keeps system (λ r. IsOffered lib policy current r))
                  (λ u x. status-Keeps system (λ r. IsOffered lib policy current r) current read))))
  perform-Keeps (sets_auto enabled state_read state_written read) =
      >>=-Keeps (read_any system (λ r. IsOffered lib policy current r) state_read) (λ state x.
        >>=-Keeps (write_any system (λ r. IsOffered lib policy current r) _ state_written)
          (λ u x. status-Keeps system (λ r. IsOffered lib policy current r) current read))

  state_after :
      (x : Manager × Result UpdateManagerError UpdateStatus)
      → Ended
          (λ s. IsSafe system (λ r. IsOffered lib policy current r) s)
          (λ e. NoPanic e)
          (λ s. Any s)
          x
      → IsSafe system (λ r. IsOffered lib policy current r) x.0
  state_after (s, ok a) h = h.0
  state_after (s, err e) h = h.0

  perform_all-IsSafe :
      (ops : List ManagerOp) (s : Manager)
      → IsSafe system (λ r. IsOffered lib policy current r) s
      → IsSafe system
          (λ r. IsOffered lib policy current r)
          (perform_all lib policy system key current ops s)
  unfolding perform_all
  perform_all-IsSafe [] s safe = safe
  perform_all-IsSafe (op ∷ ops) s safe =
      perform_all-IsSafe ops (perform lib policy system key current op s).0
        (state_after (perform lib policy system key current op s) ((perform-Keeps op).holds s safe))

  new_manager-IsSafe :
      (file : Option UpdatePersistentState)
      → IsSafe system (λ r. IsOffered lib policy current r) (new_manager file)
  new_manager-IsSafe file = record {
    good_lifecycle = record { release_fits = refl; error_fits = refl };
    release_offered = tt;
    pending_offered = tt;
    all_verified = tt;
  }

  -- Whatever operations a new manager performs, in whatever order, and whatever the sources, the files
  -- and the installer answer: what was handed to the installer has the size and the SHA-256 digest that
  -- its release announces, and the release was trusted by a check: its fields are sound, it is newer than
  -- the current version, and its address is an HTTPS one without credentials, port or fragment in the
  -- project of its source.
  pub perform_all-IsVerified :
      (file : Option UpdatePersistentState) (ops : List ManagerOp)
      → All
          (λ h. IsOffered lib policy current h.release × IsVerified system h)
          (perform_all lib policy system key current ops (new_manager file)).handed
  perform_all-IsVerified file ops =
      (perform_all-IsSafe ops (new_manager file) (new_manager-IsSafe file)).all_verified

  ends_well :
      (x : Manager × Result UpdateManagerError UpdateStatus)
      → Ended
          (λ s. IsSafe system (λ r. IsOffered lib policy current r) s)
          (λ e. NoPanic e)
          (λ s. Any s)
          x
      → x.1 ≢ err panicked
  ends_well (s, ok a) h is = absurd (ground arith)
  ends_well (s, err e) h is = absurd (ground (arith, h.1))

  -- Whatever operations a new manager has performed, its lifecycle has a release where its phase needs
  -- one and none where there may be none, and a message just after a failure; and the next operation
  -- does not fail in the `expect` of `download`.
  pub perform_all-IsLifecycle :
      (file : Option UpdatePersistentState) (ops : List ManagerOp) (op : ManagerOp)
      → IsLifecycle (perform_all lib policy system key current ops (new_manager file)).lifecycle
        × ((perform lib policy system key current op
              (perform_all lib policy system key current ops (new_manager file))).1
            ≢ err panicked)
  perform_all-IsLifecycle file ops op =
      let safe = perform_all-IsSafe ops (new_manager file) (new_manager-IsSafe file) in
      (safe.good_lifecycle, ends_well _ ((perform-Keeps op).holds _ safe))
