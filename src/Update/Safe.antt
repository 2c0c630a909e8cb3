-- ===== src/Update/Safe.antt =====
-- What holds of an update manager at all times, and that the operations of its service keep it.
use qingzhou_ssh.Prelude.{
  ℕ, ◌≡◌, not, refl, subst, sym, Bool, true, Option, none, some, List, All, length, arith,
}
use qingzhou_ssh.Prelude.Text.{str_eq}
use qingzhou_ssh.Prelude.Result.{Result, ok}
use qingzhou_ssh.Prelude.Stateful.{
  Act, given, map_err, Keeps, >>=-Keeps, pure-Keeps, throw-Keeps, given-Keeps, modify-Keeps,
  get-Keeps, if-Keeps, map_err-Keeps,
}
use qingzhou_ssh.Update.Release.{UpdateRelease}
use qingzhou_ssh.Update.Lifecycle.{IsLifecycle}
use qingzhou_ssh.Update.Lifecycle.Keeps.{IfSome}
use qingzhou_ssh.Update.Staging.{
  UpdateStateStoreError, UpdateServiceError, PendingUpdate, Handed, Manager, System,
  UpdatePersistentState, verify_bytes, Io, validate_staged_file,
}
use qingzhou_ssh.Update.Service.{
  DownloadAnswers, InstallAnswers, ClearAnswers, state_of, load_state, save_state, set_pending,
  pending_or_error, download_release, require_pending, hand_over, install_pending, remove_staged,
  clear_service,
}

-- The bytes are those that the release announced.
pub record IsVerified (system : System) (h : Handed) : Type 0 where
  pub right_size : length h.bytes ≡ h.release.size
  pub right_digest : str_eq (system.sha256 h.bytes) h.release.sha256.text ≡ true

-- Nothing is claimed of the value.
abbrev pub Any : {E : Type 0} → E → Type 0
Any e = Unit {0}

-- `Offered` is what holds of a release that a check gave.
module _ (system : System) (Offered : UpdateRelease → Type 0) where
  pub record IsSafe (s : Manager) : Type 0 where
    pub good_lifecycle : IsLifecycle s.lifecycle
    pub release_offered : IfSome Offered s.lifecycle.release
    pub pending_offered : IfSome (λ p. Offered p.release) s.pending
    pub all_verified : All (λ h. Offered h.release × IsVerified system h) s.handed

  -- Parts of the state that nothing is claimed of.
  pub same_rest :
      (s t : Manager)
      → t.lifecycle ≡ s.lifecycle
      → t.pending ≡ s.pending
      → t.handed ≡ s.handed
      → IsSafe s
      → IsSafe t
  same_rest s t l p h safe = record {
    good_lifecycle = subst (λ x. IsLifecycle x) (sym l) safe.good_lifecycle;
    release_offered = subst (λ x. IfSome Offered x.release) (sym l) safe.release_offered;
    pending_offered = subst (λ x. IfSome (λ q. Offered q.release) x) (sym p) safe.pending_offered;
    all_verified =
        subst (λ x. All (λ i. Offered i.release × IsVerified system i) x) (sym h) safe.all_verified;
  }

  pub given_any : {E A : Type 0} (r : Result E A) → Keeps IsSafe (λ e. Any e) (λ a. Any a) (given r)
  given_any r = given-Keeps r (λ a h. tt) (λ e h. tt)

  pub load_state-Keeps :
      (read : Io (Unit {0})) → Keeps IsSafe (λ e. Any e) (λ a. Any a) (load_state system read)
  unfolding load_state
  load_state-Keeps read = >>=-Keeps (given_any read) (λ u x. >>=-Keeps get-Keeps (λ s safe.
      >>=-Keeps (given_any (validate_staged_file system (state_of s.state_file).staged_file))
        (λ v y. pure-Keeps _ tt)))

  pub save_state-Keeps :
      (state : UpdatePersistentState) (written : Io (Unit {0}))
      → Keeps IsSafe (λ e. Any e) (λ a. Any a) (save_state system state written)
  unfolding save_state
  save_state-Keeps state written =
      >>=-Keeps (given_any (validate_staged_file system state.staged_file)) (λ u x.
        >>=-Keeps (given_any written)
          (λ v y. modify-Keeps _ (λ s safe. same_rest s _ refl refl refl safe)))

  -- What is known of the result of a step that changes nothing.
  mapped_any :
      {E F A : Type 0} (f : E → F) (r : Result E A)
      → Keeps IsSafe (λ e. Any e) (λ a. Any a) (map_err f (given r))
  mapped_any f r = map_err-Keeps IsSafe (λ e. Any e) (λ e. Any e) f (λ e x. tt) (given_any r)

  verify_bytes-IsVerified :
      (release : UpdateRelease) (bytes : List ℕ) (u : Unit {0})
      → verify_bytes system release bytes ≡ ok u
      → IsVerified system (record { release = release; bytes = bytes })
  unfolding verify_bytes
  verify_bytes-IsVerified release bytes u h = record {
    right_size = ground arith;
    right_digest = ground arith;
  }

  set_pending-Keeps :
      (pending : Option PendingUpdate)
      → IfSome (λ p. Offered p.release) pending
      → Keeps IsSafe (λ e. Any e) (λ a. Any a) (set_pending pending)
  unfolding set_pending
  set_pending-Keeps pending offered = modify-Keeps _ (λ s safe. record {
    good_lifecycle = safe.good_lifecycle;
    release_offered = safe.release_offered;
    pending_offered = offered;
    all_verified = safe.all_verified;
  })

  store_any :
      {A : Type 0} {action : Act Manager UpdateStateStoreError A}
      → Keeps IsSafe (λ e. Any e) (λ a. Any a) action
      → Keeps IsSafe (λ e. Any e) (λ a. Any a) (map_err UpdateServiceError.store action)
  store_any h =
      map_err-Keeps IsSafe (λ e. Any e) (λ e. Any e) UpdateServiceError.store (λ e x. tt) h

  pub download_release-Keeps :
      (release : UpdateRelease) (a : DownloadAnswers)
      → Offered release
      → Keeps IsSafe (λ e. Any e) (λ a. Any a) (download_release system release a)
  unfolding download_release
  download_release-Keeps release a offered = >>=-Keeps (mapped_any _ _) (λ bytes x.
      >>=-Keeps (given_any _) (λ u x. >>=-Keeps (given_any _) (λ path x.
        >>=-Keeps (mapped_any _ _) (λ u x. >>=-Keeps (mapped_any _ _) (λ u x.
          >>=-Keeps (mapped_any _ _) (λ u x. >>=-Keeps (store_any (load_state-Keeps _)) (λ state x.
            >>=-Keeps (store_any (save_state-Keeps _ _))
              (λ u x. >>=-Keeps (set_pending-Keeps _ offered) (λ u x. pure-Keeps _ tt)))))))))

  pending_or_error-Keeps :
      (pending : Option PendingUpdate)
      → IfSome (λ p. Offered p.release) pending
      → Keeps IsSafe (λ e. Any e) (λ p. Offered p.release) (pending_or_error pending)
  pending_or_error-Keeps none h = throw-Keeps _ tt
  pending_or_error-Keeps (some p) h = pure-Keeps _ h

  require_pending-Keeps : Keeps IsSafe (λ e. Any e) (λ p. Offered p.release) require_pending
  unfolding require_pending
  require_pending-Keeps =
      >>=-Keeps get-Keeps (λ s safe. pending_or_error-Keeps s.pending safe.pending_offered)

  hand_over-Keeps :
      (release : UpdateRelease) (bytes : List ℕ)
      → Offered release
      → IsVerified system (record { release = release; bytes = bytes })
      → Keeps IsSafe (λ e. Any e) (λ a. Any a) (hand_over release bytes)
  unfolding hand_over
  hand_over-Keeps release bytes offered verified = modify-Keeps _ (λ s safe. record {
    good_lifecycle = safe.good_lifecycle;
    release_offered = safe.release_offered;
    pending_offered = safe.pending_offered;
    all_verified = ((offered, verified), safe.all_verified);
  })

  pub install_pending-Keeps :
      (confirmed : Bool) (a : InstallAnswers)
      → Keeps IsSafe (λ e. Any e) (λ a. Any a) (install_pending system confirmed a)
  unfolding install_pending
  install_pending-Keeps confirmed a = if-Keeps (not confirmed) (throw-Keeps _ tt) (
      >>=-Keeps require_pending-Keeps (λ p offered. >>=-Keeps (mapped_any _ _) (λ u x.
        >>=-Keeps (mapped_any _ _) (λ bytes x.
          >>=-Keeps {Q = λ u. IsVerified system (record { release = p.release; bytes = bytes })}
            (given-Keeps (verify_bytes system p.release bytes)
              (λ u h. verify_bytes-IsVerified p.release bytes u h) (λ e h. tt))
            (λ u verified.
              >>=-Keeps (hand_over-Keeps p.release bytes offered verified)
                (λ u x. mapped_any _ _))))))

  remove_staged-Keeps :
      (path : Option (List ℕ)) (removed : Io Bool)
      → Keeps IsSafe (λ e. Any e) (λ a. Any a) (remove_staged system path removed)
  unfolding remove_staged
  remove_staged-Keeps none removed = pure-Keeps _ tt
  remove_staged-Keeps (some path) removed = >>=-Keeps (mapped_any _ _) (λ u x. mapped_any _ _)

  pub clear_service-Keeps :
      (a : ClearAnswers) → Keeps IsSafe (λ e. Any e) (λ b. Any b) (clear_service system a)
  unfolding clear_service
  clear_service-Keeps a = >>=-Keeps get-Keeps (λ s safe.
      >>=-Keeps (set_pending-Keeps none tt) (λ u x.
        >>=-Keeps (store_any (load_state-Keeps _)) (λ state x.
          >>=-Keeps (remove_staged-Keeps _ _)
            (λ removed x. >>=-Keeps (store_any (save_state-Keeps _ _)) (λ u x. pure-Keeps _ tt)))))
