-- ===== src/Update/Succeeds.antt =====
-- That an update goes through when everything answers as it should.
use qingzhou_ssh.Prelude.{ℕ, ◌≡◌, refl, ap, ◌∙◌, String, true, Option, none, some, List, [], ◌∷◌}
use qingzhou_ssh.Prelude.Result.{Result, ok}
use qingzhou_ssh.Prelude.Stateful.{◌>>=◌, pure, throw, given, modify, get, map_err, attempt}
use qingzhou_ssh.Update.Release.{UpdateRelease, UpdateSource}
use qingzhou_ssh.Update.Lifecycle.{
  UpdatePhase, may_check, begin_check, set_available, begin_download, set_downloaded, begin_install,
  require_phase,
}
use qingzhou_ssh.Update.Policy.{SourceCheckError, TrustedSourcePolicy}
use qingzhou_ssh.Update.Check.{Libraries, ManifestDecision, check_update}
use qingzhou_ssh.Update.Staging.{
  System, Manager, StoredCheckStatus, StoredCheckResult, UpdatePersistentState, FileAnswers, Handed,
  verify_bytes, staged_relative_path, write_verified_file, validate_staged_file,
}
use qingzhou_ssh.Update.Service.{
  DownloadAnswers, InstallAnswers, state_of, staged_of, load_state, save_state, set_pending,
  download_release, require_pending, hand_over, install_pending,
}
use qingzhou_ssh.Update.Manager.{
  CheckAnswers, move, set_fallback_reason, set_staged, expect_release, begin_release, status,
  persist_check, take_decision, after_check, check_updates, after_download, download, after_install,
  install,
}
use qingzhou_ssh.Update.Manager.Ops.{
  ManagerOp, checks, downloads, installs, new_manager, perform, perform_all,
}

abbrev pub fine_check : CheckAnswers
fine_check = record {
  first_read = ok tt;
  result_read = ok tt;
  result_written = ok tt;
  status_read = ok tt;
}

abbrev pub fine_download : List ℕ → FileAnswers → DownloadAnswers
fine_download bytes files = record {
  downloaded = ok bytes;
  files = record files { parent_made = ok tt };
  state_read = ok tt;
  state_written = ok tt;
}

abbrev pub fine_install : List ℕ → InstallAnswers
fine_install bytes = record { bytes = ok bytes; installed = ok tt }

-- A check by hand, the download of these bytes, and their install.
abbrev pub whole_update :
    (List ℕ → Result SourceCheckError (List ℕ)) → ℕ → List ℕ → FileAnswers → List ManagerOp
whole_update fetch now bytes files =
    checks true now fetch fine_check
    ∷ downloads (fine_download bytes files) (ok tt)
    ∷ installs true (fine_install bytes) (ok tt)
    ∷ []

-- What a check keeps of an offer.
abbrev offered_result : UpdateSource → UpdateRelease → StoredCheckResult
offered_result origin release = record {
  status = StoredCheckStatus.available;
  version = some release.version;
  source = some origin;
  message = some "发现可用更新";
}

-- The manager after the check.
abbrev checked_manager :
    Option UpdatePersistentState → Option (List ℕ) → UpdateRelease → StoredCheckResult → ℕ → Manager
checked_manager file reason release result now = record {
  lifecycle = record { phase = UpdatePhase.available; release = some release; last_error = none };
  fallback_reason = reason;
  staged = none;
  pending = none;
  state_file =
      some (record (state_of file) { last_checked_at = some now; last_result = some result });
  handed = [];
}

module _ (system : System) (current : String) (release : UpdateRelease) where
  check_goes :
      (file : Option UpdatePersistentState) (origin : UpdateSource) (reason : Option (List ℕ))
      (now : ℕ)
      → validate_staged_file system (state_of file).staged_file ≡ ok tt
      → (check_updates system current true now
          (ok (record {
            source = origin;
            decision = ManifestDecision.available release;
            fallback_reason = reason;
          }))
          fine_check
          (new_manager file)).0
        ≡ checked_manager file reason release (offered_result origin release) now
  unfolding check_updates ◌>>=◌ pure throw given modify get map_err load_state save_state move
      begin_check set_fallback_reason after_check take_decision persist_check status set_available
      require_phase may_check
  check_goes file origin reason now readable = rw (readable, readable, readable, readable) refl

  -- The manager after the download.
  abbrev downloaded_manager : Manager → List ℕ → Manager
  downloaded_manager s path = record {
    lifecycle = record {
      phase = UpdatePhase.downloaded;
      release = some release;
      last_error = none;
    };
    fallback_reason = s.fallback_reason;
    staged = some (staged_of release path);
    pending = some (record { release = release; staged = staged_of release path });
    state_file = some (record (state_of s.state_file) { staged_file = some path });
    handed = [];
  }

  module _ (bytes path : List ℕ) (fit : verify_bytes system release bytes ≡ ok tt)
      (safe : validate_staged_file system (some path) ≡ ok tt) where
    download_goes :
        (file : Option UpdatePersistentState) (files : FileAnswers) (reason : Option (List ℕ))
        (result : StoredCheckResult) (now : ℕ)
        → validate_staged_file system (state_of file).staged_file ≡ ok tt
        → staged_relative_path release ≡ ok path
        → write_verified_file (record files { parent_made = ok tt }) bytes ≡ ok tt
        → (download system current
            (fine_download bytes files)
            (ok tt)
            (checked_manager file reason release result now)).0
          ≡ downloaded_manager (checked_manager file reason release result now) path
    unfolding ◌>>=◌ pure throw given modify get map_err save_state download_release set_pending
        load_state download begin_release move begin_download require_phase expect_release
        after_download attempt set_staged set_downloaded status
    download_goes file files reason result now readable named written =
        rw (fit, named, safe, written, readable, safe) refl

    install_goes :
        (s : Manager)
        → (install system current true
            (fine_install bytes)
            (ok tt)
            (downloaded_manager s path)).0.handed
          ≡ (record { release = release; bytes = bytes } ∷ [])
    unfolding ◌>>=◌ pure throw given modify get map_err load_state install_pending require_pending
        hand_over install move begin_install require_phase attempt after_install status
    install_goes s = rw (safe, fit, safe) refl

module _ {V : Type 0} (lib : Libraries V) (policy : TrustedSourcePolicy) (system : System)
    (key current : String) where
  -- If the sources offer a release, the bytes downloaded have its size and digest, its path has a name
  -- that may be staged, the path that the state file has from before may be staged, and the files are
  -- read and written, then a check by hand, a download and an install by a new manager hand just these
  -- bytes to the installer.
  pub whole_update_lem :
      (fetch : List ℕ → Result SourceCheckError (List ℕ)) (now : ℕ)
      (file : Option UpdatePersistentState) (origin : UpdateSource) (reason : Option (List ℕ))
      (release : UpdateRelease) (bytes path : List ℕ) (files : FileAnswers)
      → validate_staged_file system (state_of file).staged_file ≡ ok tt
      → check_update lib policy fetch key current
        ≡ ok (record {
          source = origin;
          decision = ManifestDecision.available release;
          fallback_reason = reason;
        })
      → verify_bytes system release bytes ≡ ok tt
      → staged_relative_path release ≡ ok path
      → validate_staged_file system (some path) ≡ ok tt
      → write_verified_file (record files { parent_made = ok tt }) bytes ≡ ok tt
      → (perform_all lib policy system key current
          (whole_update fetch now bytes files)
          (new_manager file)).handed
        ≡ (record { release = release; bytes = bytes } ∷ [])
  unfolding perform_all perform
  whole_update_lem fetch now file origin reason release bytes path files readable found fit named
        safe written =
      let after_download : Manager → Manager =
        λ s. (download system current (fine_download bytes files) (ok tt) s).0 in
      let handed_after : Manager → List Handed =
        λ s. (install system current true (fine_install bytes) (ok tt) s).0.handed in
      ap
        (λ r. handed_after (
          after_download (check_updates system current true now r fine_check (new_manager file)).0))
        found
      ∙ ap (λ s. handed_after (after_download s))
          (check_goes system current release file origin reason now readable)
      ∙ ap handed_after (
          download_goes system current release bytes path fit safe file files reason
            (offered_result origin release) now readable named written)
      ∙ install_goes system current release bytes path fit safe
          (checked_manager file reason release (offered_result origin release) now)
