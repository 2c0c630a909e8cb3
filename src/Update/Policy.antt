-- ===== src/Update/Policy.antt =====
-- src-tauri/src/core/updates/mod.rs: the sources of updates that are trusted, and the addresses that belong
-- to them. The URL parser is an argument.
pub mod Address
use qingzhou_ssh.Prelude.{
  ℕ, String, Bool, true, false, not, ◌&&◌, ◌||◌, Option, none, some, List, [], ◌∷◌, ◌++◌, all, ltb,
  ◌==◌, if◌then◌else◌,
}
use qingzhou_ssh.Prelude.Text.{
  str_eq, codes, byte_len, contains, starts_with, is_ascii_alphanumeric, same_codes,
}
use qingzhou_ssh.Prelude.Result.{Result, ok, err, ◌>>=◌}
use qingzhou_ssh.Update.Release.{UpdateSource, github, modelscope}

pub data SourceFailureKind : Type 0 where
  network not_found server invalid_manifest security : SourceFailureKind

pub record SourceCheckError : Type 0 where
  pub kind : SourceFailureKind
  pub message : List ℕ

abbrev pub source_error : {A : Type 0} → SourceFailureKind → String → Result SourceCheckError A
source_error kind message = err (record { kind = kind; message = codes message })

-- `allows_fallback`.
abbrev pub allows_fallback : SourceFailureKind → Bool
allows_fallback network = true
allows_fallback not_found = true
allows_fallback server = true
allows_fallback _ = false

-- What is asked of a parsed URL.
pub record Url : Type 0 where
  pub scheme : String
  pub username : String
  pub password : Option String
  pub port : Option ℕ
  pub fragment : Option String
  pub host_str : Option String
  pub path : List ℕ
  pub query : Option String
  pub query_pairs : List (String × String)

-- `TrustedSourcePolicy`: what `new` returns has passed `valid_namespace`.
pub record TrustedSourcePolicy : Type 0 where
  pub github_owner : String
  pub modelscope_namespace : String

unfoldable pub valid_namespace : String → Bool
valid_namespace value =
    not (byte_len (codes value) == 0)
    && (not (ltb 64 (byte_len (codes value)))
        && all (λ c. is_ascii_alphanumeric c || (c == b'-' || c == b'_')) (codes value))

unfoldable pub new_policy : String → String → Result SourceCheckError TrustedSourcePolicy
new_policy owner namespace =
    if not (valid_namespace owner) || not (valid_namespace namespace)
    then source_error security "更新源命名空间无效"
    else ok (record { github_owner = owner; modelscope_namespace = namespace })

unfoldable pub manifest_endpoint : TrustedSourcePolicy → UpdateSource → List ℕ
manifest_endpoint policy github =
    codes "https://github.com/"
    ++ codes policy.github_owner
    ++ codes "/QingzhouSSH/releases/latest/download/latest.json"
manifest_endpoint policy modelscope =
    codes "https://modelscope.cn/api/v1/models/"
    ++ codes policy.modelscope_namespace
    ++ codes "/QingzhouSSH/repo?Revision=master&FilePath=releases%2Flatest.json"

abbrev pub is_some : {A : Type 0} → Option A → Bool
is_some none = false
is_some (some a) = true

abbrev pub is_text : String → Option String → Bool
is_text expected none = false
is_text expected (some value) = str_eq value expected

abbrev pub github_prefix : TrustedSourcePolicy → List ℕ
github_prefix policy =
    codes "/" ++ codes policy.github_owner ++ codes "/QingzhouSSH/releases/download/"

abbrev pub modelscope_path : TrustedSourcePolicy → List ℕ
modelscope_path policy =
    codes "/api/v1/models/" ++ codes policy.modelscope_namespace ++ codes "/QingzhouSSH/repo"

unfoldable pub validate_github_url : TrustedSourcePolicy → Url → Result SourceCheckError (Unit {0})
validate_github_url policy url =
    if not (is_text "github.com" url.host_str)
      || (not (starts_with url.path (github_prefix policy)) || is_some url.query)
    then source_error security "GitHub 更新包不属于固定公开仓库"
    else ok tt

-- The loop over the query's pairs, with the revision and the path that were found.
unfoldable pub query_values :
    List (String × String)
    → Option String
    → Option String
    → Result SourceCheckError (Option String × Option String)
query_values [] revision path = ok (revision, path)
query_values ((key, value) ∷ pairs) revision path =
    if str_eq key "Revision" && not (is_some revision)
    then query_values pairs (some value) path
    else if str_eq key "FilePath" && not (is_some path)
    then query_values pairs revision (some value)
    else source_error security "ModelScope 更新地址包含未知参数"

unfoldable pub check_file_path : Option String × Option String → Result SourceCheckError (Unit {0})
check_file_path (revision, none) = source_error security "ModelScope 更新地址缺少文件路径"
check_file_path (revision, some file) =
    if not (is_text "master" revision)
      || (not (starts_with (codes file) (codes "releases/"))
          || (contains (codes file) (codes "..")
              || (contains (codes file) (codes "\\") || starts_with (codes file) (codes "/"))))
    then source_error security "ModelScope 更新文件越过 releases 目录"
    else ok tt

unfoldable pub validate_modelscope_url :
    TrustedSourcePolicy → Url → Result SourceCheckError (Unit {0})
validate_modelscope_url policy url =
    if not (is_text "modelscope.cn" url.host_str || is_text "www.modelscope.cn" url.host_str)
      || not (same_codes url.path (modelscope_path policy))
    then source_error security "ModelScope 更新包不属于固定公开项目"
    else do values ← query_values url.query_pairs none none; check_file_path values
