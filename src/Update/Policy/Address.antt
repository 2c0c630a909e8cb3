-- ===== src/Update/Policy/Address.antt =====
-- Which addresses belong to a source, said apart from the tests of the code, and that these find them.
use qingzhou_ssh.Prelude.{
  ◌≡◌, refl, ap, ◌∙◌, ◌⊎◌, inl, inr, String, true, false, not, ◌||◌, Option, none, some, List, [],
  ◌∷◌, arith, Bool-cases, some_inj,
}
use qingzhou_ssh.Prelude.Text.{str_eq, eq_iff, codes, contains, starts_with, same_codes_sound}
use qingzhou_ssh.Prelude.Result.{ok, ok-injective, >>=-eq-ok}
use qingzhou_ssh.Update.Release.{UpdateSource, github, modelscope}
use qingzhou_ssh.Update.Policy.{
  TrustedSourcePolicy, Url, is_some, is_text, github_prefix, modelscope_path, validate_github_url,
  validate_modelscope_url, query_values, check_file_path,
}

-- The query of an address at ModelScope: the master revision and a file below `releases`, in either
-- order, and nothing else.
pub record IsReleaseQuery (pairs : List (String × String)) : Type 0 where
  pub file : String
  pub has_both :
      (pairs ≡ (("Revision", "master") ∷ ("FilePath", file) ∷ []))
      ⊎ (pairs ≡ (("FilePath", file) ∷ ("Revision", "master") ∷ []))
  pub in_releases : starts_with (codes file) (codes "releases/") ≡ true
  pub no_parent : contains (codes file) (codes "..") ≡ false
  pub no_backslash : contains (codes file) (codes "\\") ≡ false

-- Where a release of a source may be downloaded from.
abbrev pub IsOwn : TrustedSourcePolicy → UpdateSource → Url → Type 0
IsOwn policy github url =
    (url.host_str ≡ some "github.com")
    × (starts_with url.path (github_prefix policy) ≡ true)
    × (url.query ≡ none)
IsOwn policy modelscope url =
    ((url.host_str ≡ some "modelscope.cn") ⊎ (url.host_str ≡ some "www.modelscope.cn"))
    × (url.path ≡ modelscope_path policy)
    × IsReleaseQuery url.query_pairs

-- An HTTPS address without credentials, port or fragment, in the source's own project.
pub record IsOwnUrl (policy : TrustedSourcePolicy) (source : UpdateSource) (url : Url)
    : Type 0 where
  pub scheme : url.scheme ≡ "https"
  pub username : url.username ≡ ""
  pub password : url.password ≡ none
  pub port : url.port ≡ none
  pub fragment : url.fragment ≡ none
  pub own : IsOwn policy source url

pub not_some : {A : Type 0} (o : Option A) → not (is_some o) ≡ true → o ≡ none
not_some none h = refl
not_some (some a) h = cc

pub is_none : {A : Type 0} (o : Option A) → is_some o ≡ false → o ≡ none
is_none none h = refl
is_none (some a) h = cc

pub this_text :
    (expected : String) (o : Option String) → is_text expected o ≡ true → o ≡ some expected
this_text expected none h = cc
this_text expected (some value) h = ap some ((eq_iff value expected).0 h)

-- What `query_values` answers from what it has found before.
abbrev Finds :
    List (String × String) → Option String → Option String → Option String → Option String → Type 0
Finds pairs revision path r p = query_values pairs revision path ≡ ok (r, p)

both_read :
    (pairs : List (String × String)) (a b : String) (r p : Option String)
    → Finds pairs (some a) (some b) r p
    → (pairs ≡ []) × (some a ≡ r) × (some b ≡ p)
unfolding query_values
both_read [] a b r p h = (refl, ap (λ x. x.0) (ok-injective h), ap (λ x. x.1) (ok-injective h))
both_read ((key, value) ∷ pairs) a b r p h = absurd (ground arith)

file_left :
    (pairs : List (String × String)) (a file : String) (r : Option String)
    → Finds pairs (some a) none r (some file)
    → (pairs ≡ (("FilePath", file) ∷ [])) × (some a ≡ r)
unfolding query_values
file_left [] a file r h = absurd (ground arith)
file_left ((key, value) ∷ pairs) a file r h = elim (Bool-cases (str_eq key "FilePath")) [
  | inl is ↦
      let found = both_read pairs a value r (some file) (ground (arith, is)) in
      (
        ap (λ q. (q, value) ∷ pairs) ((eq_iff key "FilePath").0 is)
            ∙ (ap (λ v. ("FilePath", v) ∷ pairs) (some_inj found.2)
                ∙ ap (λ rest. ("FilePath", file) ∷ rest) found.0),
        found.1,
      )
  | inr other ↦ absurd (ground (arith, other))
]

revision_left :
    (pairs : List (String × String)) (b revision : String) (p : Option String)
    → Finds pairs none (some b) (some revision) p
    → (pairs ≡ (("Revision", revision) ∷ [])) × (some b ≡ p)
unfolding query_values
revision_left [] b revision p h = absurd (ground arith)
revision_left ((key, value) ∷ pairs) b revision p h = elim (Bool-cases (str_eq key "Revision")) [
  | inl is ↦
      let found = both_read pairs value b (some revision) p (ground (arith, is)) in
      (
        ap (λ q. (q, value) ∷ pairs) ((eq_iff key "Revision").0 is)
            ∙ (ap (λ v. ("Revision", v) ∷ pairs) (some_inj found.1)
                ∙ ap (λ rest. ("Revision", revision) ∷ rest) found.0),
        found.2,
      )
  | inr other ↦ absurd (ground (arith, other))
]

HasBoth : List (String × String) → String → String → Type 0
HasBoth pairs revision file =
    (pairs ≡ (("Revision", revision) ∷ ("FilePath", file) ∷ []))
    ⊎ (pairs ≡ (("FilePath", file) ∷ ("Revision", revision) ∷ []))

both_found :
    (pairs : List (String × String)) (revision file : String)
    → Finds pairs none none (some revision) (some file)
    → HasBoth pairs revision file
unfolding query_values HasBoth
both_found [] revision file h = absurd (ground arith)
both_found ((key, value) ∷ pairs) revision file h = elim (Bool-cases (str_eq key "Revision")) [
  | inl is ↦
      let left = file_left pairs value file (some revision) (ground (arith, is)) in
      inl (
        ap (λ q. (q, value) ∷ pairs) ((eq_iff key "Revision").0 is)
        ∙ (ap (λ v. ("Revision", v) ∷ pairs) (some_inj left.1)
            ∙ ap (λ rest. ("Revision", revision) ∷ rest) left.0))
  | inr other ↦ elim (Bool-cases (str_eq key "FilePath")) [
    | inl is ↦
        let left = revision_left pairs value revision (some file) (ground (arith, other, is)) in
        inr (
          ap (λ q. (q, value) ∷ pairs) ((eq_iff key "FilePath").0 is)
          ∙ (ap (λ v. ("FilePath", v) ∷ pairs) (some_inj left.1)
              ∙ ap (λ rest. ("FilePath", file) ∷ rest) left.0))
    | inr neither ↦ absurd (ground (arith, other, neither))
  ]
]

release_query :
    (pairs : List (String × String)) (r p : Option String)
    → Finds pairs none none r p
    → check_file_path (r, p) ≡ ok tt
    → IsReleaseQuery pairs
unfolding check_file_path HasBoth
release_query pairs r none h checked = absurd (ground arith)
release_query pairs r (some file) h checked =
    let is_master = this_text "master" r (ground arith) in
    record {
      file = file;
      has_both = both_found pairs "master" file (rw is_master at h);
      in_releases = ground arith;
      no_parent = ground arith;
      no_backslash = ground arith;
    }

host_of :
    (url : Url)
    → (is_text "modelscope.cn" url.host_str || is_text "www.modelscope.cn" url.host_str) ≡ true
    → (url.host_str ≡ some "modelscope.cn") ⊎ (url.host_str ≡ some "www.modelscope.cn")
host_of url h = elim (Bool-cases (is_text "modelscope.cn" url.host_str)) [
  | inl plain ↦ inl (this_text "modelscope.cn" url.host_str plain)
  | inr other ↦ inr (this_text "www.modelscope.cn" url.host_str (ground (arith, other)))
]

pub validate_github_url-IsOwn :
    (policy : TrustedSourcePolicy) (url : Url)
    → validate_github_url policy url ≡ ok tt
    → IsOwn policy github url
unfolding validate_github_url
validate_github_url-IsOwn policy url h = (
  this_text "github.com" url.host_str (ground arith),
  ground arith,
  is_none url.query (ground arith),
)

pub validate_modelscope_url-IsOwn :
    (policy : TrustedSourcePolicy) (url : Url)
    → validate_modelscope_url policy url ≡ ok tt
    → IsOwn policy modelscope url
unfolding validate_modelscope_url
validate_modelscope_url-IsOwn policy url h =
    let ((r, p), found, checked) =
      >>=-eq-ok (query_values url.query_pairs none none) check_file_path (ground arith) in
    (
      host_of url (ground arith),
      same_codes_sound url.path (modelscope_path policy) (ground arith),
      release_query url.query_pairs r p found checked,
    )
