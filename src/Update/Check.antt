-- ===== src/Update/Check.antt =====
-- src-tauri/src/core/updates/mod.rs: which source is asked for an update, and what of its answer is
-- believed. The transport, the JSON reader and the URL parser are arguments.
pub mod Trusted
use qingzhou_ssh.Prelude.{
  ℕ, ◌*◌, String, Bool, true, false, not, ◌&&◌, ◌||◌, Option, none, some, List, [], ◌∷◌, ◌++◌, all,
  length, ltb, ◌==◌, if◌then◌else◌,
}
use qingzhou_ssh.Prelude.Text.{
  str_eq, codes, byte_len, contains, starts_with, is_ascii_alphanumeric,
}
use qingzhou_ssh.Prelude.Result.{Result, ok, err, ◌>>=◌, ◌>>◌}
use qingzhou_ssh.Update.Release.{
  UpdateSource, github, modelscope, UpdateValidationError, invalid_version, invalid_platform,
  invalid_signature, invalid_sha256, invalid_size, invalid_build_id, invalid_url,
  UpdateReleaseInput, UpdateRelease, new_release, is_newer_than,
}
use qingzhou_ssh.Update.Policy.{
  SourceFailureKind, SourceCheckError, source_error, allows_fallback, Url, TrustedSourcePolicy,
  valid_namespace, new_policy, manifest_endpoint, is_some, is_text, github_prefix, modelscope_path,
  validate_github_url, query_values, check_file_path, validate_modelscope_url, network, not_found,
  server, invalid_manifest, security,
}

-- `Display` of an `UpdateValidationError`.
abbrev pub validation_text : UpdateValidationError → String
validation_text invalid_version = "更新版本不是有效的 SemVer"
validation_text invalid_platform = "更新平台不受支持"
validation_text invalid_signature = "更新签名缺失或过长"
validation_text invalid_sha256 = "更新 SHA-256 格式无效"
validation_text invalid_size = "更新包大小无效"
validation_text invalid_build_id = "更新构建标识无效"
validation_text invalid_url = "更新下载地址为空"

-- `map_err(map_validation_error)`.
unfoldable pub checked_fields :
    {A : Type 0} → Result UpdateValidationError A → Result SourceCheckError A
checked_fields (ok a) = ok a
checked_fields (err e) = source_error invalid_manifest (validation_text e)

-- The manifest as serde reads it.
pub record PlatformManifest : Type 0 where
  pub url : String
  pub signature : String
  pub sha256 : String
  pub size : ℕ
  pub build_id : String

pub record StaticManifest : Type 0 where
  pub version : String
  pub notes : String
  pub pub_date : Option String
  pub platforms : List (String × PlatformManifest)

abbrev pub platform_of : String → List (String × PlatformManifest) → Option PlatformManifest
platform_of key [] = none
platform_of key ((k, p) ∷ platforms) = if str_eq k key then some p else platform_of key platforms

pub data ManifestDecision : Type 0 where
  up_to_date : ManifestDecision
  available : UpdateRelease → ManifestDecision

pub record SourceSelection : Type 0 where
  pub source : UpdateSource
  pub decision : ManifestDecision
  pub fallback_reason : Option (List ℕ)

-- `selected_key`, with the entry that the manifest has for it.
unfoldable pub select_platform :
    String → List (String × PlatformManifest) → Result SourceCheckError (String × PlatformManifest)
select_platform key platforms = elim (platform_of key platforms) [
  | some p ↦ ok (key, p)
  | none ↦
      if str_eq key "windows-x86_64-nsis"
      then elim (platform_of "windows-x86_64" platforms) [
        | some p ↦ ok ("windows-x86_64", p)
        | none ↦
            err (record { kind = invalid_manifest; message = codes "更新清单缺少当前平台 " ++ codes key })
      ]
      else err (record { kind = invalid_manifest; message = codes "更新清单缺少当前平台 " ++ codes key })
]

abbrev pub release_input :
    StaticManifest → UpdateSource → String × PlatformManifest → UpdateReleaseInput
release_input manifest source (key, p) = record {
  version = manifest.version;
  notes = manifest.notes;
  published_at = manifest.pub_date;
  platform = key;
  download_url = p.url;
  signature = p.signature;
  sha256 = p.sha256;
  size = p.size;
  build_id = p.build_id;
  source = source;
}

-- The functions of the libraries: `Version::parse` and the order of versions, `Url::parse`,
-- `serde_json::from_slice`.
pub record Libraries (V : Type 0) : Type 0 where
  pub parse : String → Option V
  pub newer : V → V → Bool
  pub parse_url : String → Option Url
  pub read_manifest : List ℕ → Option StaticManifest

module _ {V : Type 0} (lib : Libraries V) (policy : TrustedSourcePolicy) where
  unfoldable pub parsed_url : String → Result SourceCheckError Url
  parsed_url value = elim (lib.parse_url value) [
    | none ↦ source_error security "更新包地址无效"
    | some url ↦ ok url
  ]

  -- What holds of the URL for each source, and then for its own.
  unfoldable pub is_plain : Url → Bool
  is_plain url =
      str_eq url.scheme "https"
      && (str_eq url.username ""
          && (not (is_some url.password) && (not (is_some url.port) && not (is_some url.fragment))))

  unfoldable pub validate_for : UpdateSource → Url → Result SourceCheckError (Unit {0})
  validate_for github url = validate_github_url policy url
  validate_for modelscope url = validate_modelscope_url policy url

  unfoldable pub validate_download_url : UpdateSource → String → Result SourceCheckError (Unit {0})
  validate_download_url source value = do
    url ← parsed_url value
    if not (is_plain url)
        then source_error security "更新包必须使用无凭据的标准 HTTPS 地址"
        else validate_for source url

  unfoldable pub manifest_of : List ℕ → Result SourceCheckError StaticManifest
  manifest_of bytes = elim (lib.read_manifest bytes) [
    | none ↦ source_error invalid_manifest "更新清单格式无效"
    | some manifest ↦ ok manifest
  ]

  -- What `parse_manifest_for_platform` makes of a manifest.
  unfoldable pub decide :
      UpdateSource → String → String → StaticManifest → Result SourceCheckError ManifestDecision
  decide source current key manifest = do
    chosen ← select_platform key manifest.platforms
    validate_download_url source chosen.1.url
    release ← checked_fields (new_release lib.parse (release_input manifest source chosen))
    newer ← checked_fields (is_newer_than lib.parse lib.newer release current)
    ok (if newer then available release else up_to_date)

  unfoldable pub parse_manifest_for_platform :
      UpdateSource → String → List ℕ → String → Result SourceCheckError ManifestDecision
  parse_manifest_for_platform source current bytes key =
      if length bytes == 0 || ltb (128 * 1024) (length bytes)
      then source_error invalid_manifest "更新清单大小无效"
      else manifest_of bytes >>= decide source current key

  -- `fetch` answers for an endpoint; `key` is the platform of the build.
  module _ (fetch : List ℕ → Result SourceCheckError (List ℕ)) (key current : String) where
    unfoldable pub check_source : UpdateSource → Result SourceCheckError ManifestDecision
    check_source source = do
      bytes ← fetch (manifest_endpoint policy source)
      parse_manifest_for_platform source current bytes key

    abbrev pub from_modelscope :
        SourceCheckError
        → Result SourceCheckError ManifestDecision
        → Result SourceCheckError SourceSelection
    from_modelscope first (ok decision) =
        ok (record {
          source = modelscope;
          decision = decision;
          fallback_reason = some first.message;
        })
    from_modelscope first (err e) = err e

    abbrev pub or_modelscope :
        Result SourceCheckError ManifestDecision → Result SourceCheckError SourceSelection
    or_modelscope (ok decision) =
        ok (record { source = github; decision = decision; fallback_reason = none })
    or_modelscope (err e) =
        if allows_fallback e.kind then from_modelscope e (check_source modelscope) else err e

    -- `DualSourceChecker::check`.
    unfoldable pub check_update : Result SourceCheckError SourceSelection
    check_update = or_modelscope (check_source github)
