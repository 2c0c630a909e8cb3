-- ===== src/Examples/Updates.antt =====
-- Updates of the program on concrete inputs: a release that is offered, downloaded and installed.
use qingzhou_ssh.Prelude.{
  ℕ, ◌≡◌, ◌≢◌, refl, String, true, false, none, some, List, [], ◌∷◌, All, length, ltb,
  if◌then◌else◌,
}
use qingzhou_ssh.Prelude.Text.{str_eq, codes}
use qingzhou_ssh.Prelude.Result.{Result, ok, err}
use qingzhou_ssh.Update.Release.{UpdateRelease, github}
use qingzhou_ssh.Update.Lifecycle.{IsLifecycle}
use qingzhou_ssh.Update.Check.{
  PlatformManifest, StaticManifest, Libraries, SourceSelection, ManifestDecision, check_update,
}
use qingzhou_ssh.Update.Policy.{
  validate_github_url, manifest_endpoint, Url, TrustedSourcePolicy, SourceCheckError,
}
use qingzhou_ssh.Update.Check.Trusted.{Chosen, IsOffered, check_update-IsTrusted}
use qingzhou_ssh.Update.Staging.{UpdatePersistentState, System, Component, FileAnswers, Manager}
use qingzhou_ssh.Update.Manager.{panicked}
use qingzhou_ssh.Update.Safe.{IsVerified}
use qingzhou_ssh.Update.Installs.{perform_all-IsVerified, perform_all-IsLifecycle}
use qingzhou_ssh.Update.Manager.Ops.{ManagerOp, downloads, new_manager, perform, perform_all}
use qingzhou_ssh.Prelude.Stateful.{◌>>=◌, pure, throw, given, modify, get, map_err, attempt}
use qingzhou_ssh.Update.Release.{
  is_digest, parse_digest, release_of, parse_version, check_fields, new_release, is_newer_than,
}
use qingzhou_ssh.Update.Lifecycle.{
  may_check, begin_check, set_available, begin_download, set_downloaded, begin_install,
  require_phase,
}
use qingzhou_ssh.Update.Check.{
  check_source, parse_manifest_for_platform, decide, manifest_of, select_platform,
  validate_download_url, parsed_url, is_plain, validate_for, checked_fields,
}
use qingzhou_ssh.Update.Staging.{
  automatic_check_due, verify_bytes, staged_relative_path, write_verified_file, write_anew,
  validate_staged_file, is_safe_path, starts_staged, is_normal,
}
use qingzhou_ssh.Update.Service.{
  load_state, save_state, download_release, install_pending, set_pending, require_pending,
  hand_over,
}
use qingzhou_ssh.Update.Manager.{
  check_updates, download, install, move, set_fallback_reason, after_check, take_decision,
  persist_check, status, begin_release, expect_release, after_download, set_staged, after_install,
}
use qingzhou_ssh.Update.Succeeds.{fine_download, whole_update, whole_update_lem}

abbrev a_digest : String
a_digest = "0123456789abcdef0123456789abcdef0123456789abcdef0123456789abcdef"

a_digest_fits : is_digest a_digest ≡ true
unfolding is_digest
a_digest_fits = refl

abbrev a_platform : PlatformManifest
a_platform = record {
  url = "https://github.com/owner/QingzhouSSH/releases/download/v2/setup.exe";
  signature = "signed";
  sha256 = a_digest;
  size = 3;
  build_id = "b2";
}

abbrev a_manifest : StaticManifest
a_manifest = record {
  version = "2.0.0";
  notes = "";
  pub_date = none;
  platforms = ("windows-x86_64-nsis", a_platform) ∷ [];
}

abbrev a_url : Url
a_url = record {
  scheme = "https";
  username = "";
  password = none;
  port = none;
  fragment = none;
  host_str = some "github.com";
  path = codes "/owner/QingzhouSSH/releases/download/v2/setup.exe";
  query = none;
  query_pairs = [];
}

-- Two versions, one URL and one manifest are known.
abbrev some_libraries : Libraries ℕ
some_libraries = record {
  parse =
      λ text. if str_eq text "2.0.0" then some 2 else if str_eq text "1.0.0" then some 1 else none;
  newer = λ a b. ltb b a;
  parse_url = λ text. some a_url;
  read_manifest = λ bytes. some a_manifest;
}

abbrev a_policy : TrustedSourcePolicy
a_policy = record { github_owner = "owner"; modelscope_namespace = "owner" }

abbrev some_system : System
some_system = record {
  components = λ path. Component.normal (codes "staged") ∷ Component.normal path ∷ [];
  sha256 = λ bytes. a_digest;
}

abbrev fine_files : FileAnswers
fine_files = record {
  parent_made = ok tt;
  exists_already = false;
  existing = ok [];
  old_removed = ok tt;
  opened = ok tt;
  written = ok tt;
  synced = ok tt;
  renamed = ok tt;
}

abbrev served : List ℕ → Result SourceCheckError (List ℕ)
served endpoint = ok (123 ∷ [])

abbrev some_bytes : List ℕ
some_bytes = 1 ∷ 2 ∷ 3 ∷ []

abbrev an_update : List ManagerOp
an_update = whole_update served 100 some_bytes fine_files

abbrev updated : Manager
updated =
    perform_all some_libraries a_policy some_system "windows-x86_64-nsis" "1.0.0" an_update
      (new_manager none)

perform_all-IsVerified_example :
    All
      (λ h. IsOffered some_libraries a_policy "1.0.0" h.release × IsVerified some_system h)
      updated.handed
perform_all-IsVerified_example =
    perform_all-IsVerified some_libraries a_policy some_system "windows-x86_64-nsis" "1.0.0" none
      an_update

perform_all-IsLifecycle_example :
    IsLifecycle updated.lifecycle
    × ((perform some_libraries a_policy some_system "windows-x86_64-nsis" "1.0.0"
          (downloads (fine_download some_bytes fine_files) (ok tt))
          updated).1
        ≢ err panicked)
perform_all-IsLifecycle_example =
    perform_all-IsLifecycle some_libraries a_policy some_system "windows-x86_64-nsis" "1.0.0" none
      an_update (downloads (fine_download some_bytes fine_files) (ok tt))

update_runs : length updated.handed ≡ 1
unfolding perform_all perform check_updates download install ◌>>=◌ pure throw given modify get
    map_err attempt load_state save_state download_release install_pending set_pending
    require_pending hand_over automatic_check_due move begin_check set_fallback_reason after_check
    take_decision persist_check status set_available begin_download set_downloaded begin_install
    require_phase may_check check_update check_source parse_manifest_for_platform decide manifest_of
    select_platform validate_download_url parsed_url is_plain validate_for validate_github_url
    checked_fields new_release parse_version check_fields parse_digest release_of is_newer_than
    verify_bytes staged_relative_path write_verified_file write_anew validate_staged_file
    is_safe_path starts_staged is_normal begin_release expect_release after_download set_staged
    after_install manifest_endpoint is_digest
update_runs = refl

abbrev a_release : UpdateRelease
a_release = record {
  version = "2.0.0";
  notes = "";
  published_at = none;
  platform = "windows-x86_64-nsis";
  download_url = "https://github.com/owner/QingzhouSSH/releases/download/v2/setup.exe";
  signature = "signed";
  sha256 = record { text = a_digest; valid = a_digest_fits };
  size = 3;
  build_id = "b2";
  source = github;
}

abbrev a_selection : SourceSelection
a_selection = record {
  source = github;
  decision = ManifestDecision.available a_release;
  fallback_reason = none;
}

selected :
    check_update some_libraries a_policy served "windows-x86_64-nsis" "1.0.0" ≡ ok a_selection
unfolding check_update check_source parse_manifest_for_platform decide manifest_of select_platform
    validate_download_url parsed_url is_plain validate_for validate_github_url checked_fields
    new_release parse_version check_fields parse_digest release_of is_newer_than manifest_endpoint
    is_digest a_digest_fits
selected = refl

check_update-IsTrusted_example :
    Chosen some_libraries a_policy served "windows-x86_64-nsis" "1.0.0" a_selection a_release
check_update-IsTrusted_example =
    check_update-IsTrusted some_libraries a_policy served "windows-x86_64-nsis" "1.0.0" a_selection
      a_release selected refl

abbrev a_path : List ℕ
a_path = codes "staged/2.0.0/QingzhouSSH-2.0.0-windows-x86_64-nsis.exe"

bytes_fit : verify_bytes some_system a_release some_bytes ≡ ok tt
unfolding verify_bytes
bytes_fit = refl

path_named : staged_relative_path a_release ≡ ok a_path
unfolding staged_relative_path
path_named = refl

path_safe : validate_staged_file some_system (some a_path) ≡ ok tt
unfolding validate_staged_file is_safe_path starts_staged is_normal
path_safe = refl

files_written : write_verified_file fine_files some_bytes ≡ ok tt
unfolding write_verified_file write_anew
files_written = refl

-- A state file that an earlier check left.
abbrev old_state : UpdatePersistentState
old_state = record {
  auto_check = false;
  last_checked_at = some 40;
  last_result = none;
  staged_file = some a_path;
}

whole_update_lem_example :
    (perform_all some_libraries a_policy some_system "windows-x86_64-nsis" "1.0.0" an_update
      (new_manager (some old_state))).handed
    ≡ (record { release = a_release; bytes = some_bytes } ∷ [])
whole_update_lem_example =
    whole_update_lem some_libraries a_policy some_system "windows-x86_64-nsis" "1.0.0" served 100
      (some old_state) github none a_release some_bytes a_path fine_files path_safe selected
      bytes_fit path_named path_safe files_written
