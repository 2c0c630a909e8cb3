-- ===== src/Update/Release.antt =====
-- src-tauri/src/domain/update.rs: a release, the check of its fields, and which is newer. A version is
-- read and compared by the semver library.
use qingzhou_ssh.Prelude.{
  ℕ, ◌*◌, ◌≤◌, ◌<◌, ◌≡◌, refl, subst, String, Bool, true, false, not, ◌&&◌, ◌||◌, Option, none,
  some, List, [], ◌∷◌, any, all, arith, ltb, leb, ◌==◌, if◌then◌else◌, Option-cases,
}
use qingzhou_ssh.Prelude.Text.{str_eq, codes, byte_len, is_blank, is_ascii_digit}
use qingzhou_ssh.Prelude.Result.{Result, ok, err, ◌>>=◌, ◌>>◌, ok-injective, >>=-eq-ok}
use qingzhou_ssh.Prelude.{inl, inr}

pub data UpdateSource : Type 0 where
  github modelscope : UpdateSource

pub data UpdateValidationError : Type 0 where
  invalid_version invalid_platform invalid_signature invalid_sha256 : UpdateValidationError
  invalid_size invalid_build_id invalid_url : UpdateValidationError

-- `MAX_UPDATE_BYTES`.
abbrev pub max_update_bytes : ℕ
max_update_bytes = 512 * 1024 * 1024

abbrev pub supported_update_platforms : List String
supported_update_platforms =
    "windows-x86_64-nsis" ∷ "windows-aarch64-nsis" ∷ "macos-x86_64-dmg" ∷ "macos-aarch64-dmg"
    ∷ "linux-x86_64-appimage" ∷ "linux-aarch64-appimage" ∷ "windows-x86_64" ∷ []

-- 0 to 9 and a to f.
abbrev pub is_lower_hex : ℕ → Bool
is_lower_hex c = is_ascii_digit c || leb b'a' c && leb c b'f'

-- The test of `Sha256Digest::parse`.
unfoldable pub is_digest : String → Bool
is_digest value = byte_len (codes value) == 64 && all is_lower_hex (codes value)

-- `Sha256Digest`: a text that passed the test.
pub record Sha256Digest : Type 0 where
  pub text : String
  pub valid : is_digest text ≡ true

abbrev pub digest_if :
    (value : String) (passed : Bool)
    → is_digest value ≡ passed
    → Result UpdateValidationError Sha256Digest
digest_if value true h = ok (record { text = value; valid = h })
digest_if value false h = err invalid_sha256

-- `Sha256Digest::parse`.
unfoldable pub parse_digest : String → Result UpdateValidationError Sha256Digest
parse_digest value = digest_if value (is_digest value) refl

pub record UpdateReleaseInput : Type 0 where
  pub version : String
  pub notes : String
  pub published_at : Option String
  pub platform : String
  pub download_url : String
  pub signature : String
  pub sha256 : String
  pub size : ℕ
  pub build_id : String
  pub source : UpdateSource

pub record UpdateRelease : Type 0 where
  pub version : String
  pub notes : String
  pub published_at : Option String
  pub platform : String
  pub download_url : String
  pub signature : String
  pub sha256 : Sha256Digest
  pub size : ℕ
  pub build_id : String
  pub source : UpdateSource

unfoldable pub release_of : UpdateReleaseInput → Sha256Digest → UpdateRelease
release_of input digest = record {
  version = input.version;
  notes = input.notes;
  published_at = input.published_at;
  platform = input.platform;
  download_url = input.download_url;
  signature = input.signature;
  sha256 = digest;
  size = input.size;
  build_id = input.build_id;
  source = input.source;
}

-- `parse` reads a version, and `newer a b` says that `a` comes after `b`.
module _ {V : Type 0} (parse : String → Option V) where
  -- `Version::parse` with its error mapped.
  unfoldable pub parse_version : String → Result UpdateValidationError V
  parse_version text = elim (parse text) [ none ↦ err invalid_version | some v ↦ ok v ]

  -- The tests of `UpdateRelease::new` after the version, in their order.
  unfoldable pub check_fields : UpdateReleaseInput → Result UpdateValidationError (Unit {0})
  check_fields input =
      if not (any (str_eq input.platform) supported_update_platforms)
      then err invalid_platform
      else if is_blank (codes input.download_url)
      then err invalid_url
      else if is_blank (codes input.signature) || ltb (16 * 1024) (byte_len (codes input.signature))
      then err invalid_signature
      else if input.size == 0 || ltb max_update_bytes input.size
      then err invalid_size
      else if is_blank (codes input.build_id) || ltb 128 (byte_len (codes input.build_id))
      then err invalid_build_id
      else ok tt

  -- `UpdateRelease::new`.
  unfoldable pub new_release : UpdateReleaseInput → Result UpdateValidationError UpdateRelease
  new_release input = do
    version ← parse_version input.version
    check_fields input
    digest ← parse_digest input.sha256
    ok (release_of input digest)

  unfoldable pub is_newer_than :
      (V → V → Bool) → UpdateRelease → String → Result UpdateValidationError Bool
  is_newer_than newer release current = do
    candidate ← parse_version release.version
    now ← parse_version current
    ok (newer candidate now)

  -- What every release has.
  pub record IsRelease (release : UpdateRelease) : Type 0 where
    pub has_version : (v : V) × (parse release.version ≡ some v)
    pub supported : any (str_eq release.platform) supported_update_platforms ≡ true
    pub has_url : is_blank (codes release.download_url) ≡ false
    pub signed : is_blank (codes release.signature) ≡ false
    pub signature_fits : byte_len (codes release.signature) ≤ 16384
    pub not_empty : 0 < release.size
    pub size_fits : release.size ≤ 536870912
    pub has_build_id : is_blank (codes release.build_id) ≡ false
    pub build_id_fits : byte_len (codes release.build_id) ≤ 128

  pub version_parses : (text : String) (v : V) → parse_version text ≡ ok v → parse text ≡ some v
  unfolding parse_version
  version_parses text v h = elim (Option-cases (parse text)) [
    | inl missing ↦ absurd (ground (arith, missing))
    | inr (w, found) ↦ ground (arith, found)
  ]

  fields_fit :
      (input : UpdateReleaseInput) (digest : Sha256Digest) (v : V)
      → parse input.version ≡ some v
      → check_fields input ≡ ok tt
      → IsRelease (release_of input digest)
  unfolding check_fields release_of
  fields_fit input digest v p h = record {
    has_version = (v, p);
    supported = ground arith;
    has_url = ground arith;
    signed = ground arith;
    signature_fits = ground arith;
    not_empty = ground arith;
    size_fits = ground arith;
    has_build_id = ground arith;
    build_id_fits = ground arith;
  }

  -- A release is made of the fields of its input, and only of fields that pass every test.
  pub new_release-IsRelease :
      (input : UpdateReleaseInput) (release : UpdateRelease)
      → new_release input ≡ ok release
      → (digest : Sha256Digest) × (release_of input digest ≡ release) × IsRelease release
  unfolding new_release
  new_release-IsRelease input release h =
      let (v, read, rest) = >>=-eq-ok (parse_version input.version) _ h in
      let (_, fit, after) = >>=-eq-ok (check_fields input) _ rest in
      let (digest, _, made) = >>=-eq-ok (parse_digest input.sha256) _ after in
      (
        digest,
        ok-injective made,
        subst (λ r. IsRelease r) (ok-injective made)
            (fields_fit input digest v (version_parses input.version v read) fit),
      )
