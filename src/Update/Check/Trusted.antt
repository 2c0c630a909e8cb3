-- ===== src/Update/Check/Trusted.antt =====
-- What is believed of a source's answer: the releases that a check can give.
use qingzhou_ssh.Prelude.{
  ℕ, ◌*◌, ◌≡◌, refl, sym, subst, ◌⊎◌, ap, ◌∙◌, String, Bool, true, false, ◌||◌, some, List, length,
  arith, ltb, ◌==◌, if◌then◌else◌, Bool-cases, Option-cases, inl, inr,
}
use qingzhou_ssh.Prelude.Text.{eq_iff}
use qingzhou_ssh.Prelude.Result.{Result, ok, err, ◌>>=◌, ok-injective, >>=-eq-ok}
use qingzhou_ssh.Update.Release.{
  UpdateSource, UpdateValidationError, github, modelscope, UpdateRelease, new_release,
  is_newer_than, IsRelease, new_release-IsRelease, parse_version, version_parses, release_of,
}
use qingzhou_ssh.Update.Check.{
  Libraries, parsed_url, checked_fields, validate_for, validate_download_url, is_plain, manifest_of,
  decide, select_platform, release_input, ManifestDecision, up_to_date, available,
  parse_manifest_for_platform, SourceSelection, check_source, from_modelscope, or_modelscope,
  check_update, StaticManifest,
}
use qingzhou_ssh.Update.Policy.{
  TrustedSourcePolicy, Url, network, not_found, server, security, invalid_manifest,
  SourceCheckError, SourceFailureKind, manifest_endpoint, allows_fallback, source_error,
}
use qingzhou_ssh.Update.Policy.Address.{
  IsOwn, IsOwnUrl, validate_github_url-IsOwn, validate_modelscope_url-IsOwn, not_some,
}

module _ {V : Type 0} (lib : Libraries V) (policy : TrustedSourcePolicy) where
  -- A release that passed every check, of a source, and newer than the current version.
  pub record IsTrusted (source : UpdateSource) (current : String) (release : UpdateRelease)
      : Type 0 where
    pub sound : IsRelease lib.parse release
    pub of_source : release.source ≡ source
    pub url_is_own :
        (url : Url) × (lib.parse_url release.download_url ≡ some url) × IsOwnUrl policy source url
    pub is_new :
        (candidate : V) × ((now : V) × (lib.parse release.version ≡ some candidate)
          × (lib.parse current ≡ some now)
          × (lib.newer candidate now ≡ true))

  -- A release that a check may offer.
  pub record IsOffered (current : String) (release : UpdateRelease) : Type 0 where
    pub origin : UpdateSource
    pub trusted : IsTrusted origin current release

  parsed_url-some :
      (value : String) (url : Url)
      → parsed_url lib policy value ≡ ok url
      → lib.parse_url value ≡ some url
  unfolding parsed_url
  parsed_url-some value url h = elim (Option-cases (lib.parse_url value)) [
    | inl missing ↦ absurd (ground (arith, missing))
    | inr (u, found) ↦ ground (arith, found)
  ]

  checked_fields-ok :
      {A : Type 0} (r : Result UpdateValidationError A) (a : A) → checked_fields r ≡ ok a → r ≡ ok a
  unfolding checked_fields
  checked_fields-ok (ok b) a h = ap ok (ok-injective h)
  checked_fields-ok (err e) a h = absurd (ground arith)

  validate_for-IsOwn :
      (source : UpdateSource) (url : Url)
      → validate_for lib policy source url ≡ ok tt
      → IsOwn policy source url
  unfolding validate_for
  validate_for-IsOwn github url h = validate_github_url-IsOwn policy url h
  validate_for-IsOwn modelscope url h = validate_modelscope_url-IsOwn policy url h

  plain_url :
      (source : UpdateSource) (url : Url)
      → is_plain lib policy url ≡ true
      → IsOwn policy source url
      → IsOwnUrl policy source url
  unfolding is_plain
  plain_url source url plain own = record {
    scheme = (eq_iff url.scheme "https").0 (ground arith);
    username = (eq_iff url.username "").0 (ground arith);
    password = not_some url.password (ground arith);
    port = not_some url.port (ground arith);
    fragment = not_some url.fragment (ground arith);
    own = own;
  }

  valid_url :
      (source : UpdateSource) (value : String)
      → validate_download_url lib policy source value ≡ ok tt
      → (url : Url) × (lib.parse_url value ≡ some url) × IsOwnUrl policy source url
  unfolding validate_download_url
  valid_url source value h =
      let (url, parsed, rest) = >>=-eq-ok (parsed_url lib policy value) _ h in
      (
        url,
        parsed_url-some value url parsed,
        plain_url source url (ground arith) (validate_for-IsOwn source url (ground arith)),
      )

  newer_than :
      (release : UpdateRelease) (current : String)
      → is_newer_than lib.parse lib.newer release current ≡ ok true
      → (candidate : V) × ((now : V) × (lib.parse release.version ≡ some candidate)
          × (lib.parse current ≡ some now)
          × (lib.newer candidate now ≡ true))
  unfolding is_newer_than
  newer_than release current h =
      let (candidate, read, rest) = >>=-eq-ok (parse_version lib.parse release.version) _ h in
      let (now, known, after) = >>=-eq-ok (parse_version lib.parse current) _ rest in
      (
        candidate,
        (
          now,
          version_parses lib.parse release.version candidate read,
          version_parses lib.parse current now known,
          ok-injective after,
        ),
      )

  -- A failure that a second source may make up for: the first could not be reached, has no manifest, or
  -- is out of order.
  abbrev pub IsOutage : SourceFailureKind → Type 0
  IsOutage kind = (kind ≡ network) ⊎ ((kind ≡ not_found) ⊎ (kind ≡ server))

  allows_fallback-IsOutage :
      (kind : SourceFailureKind) → allows_fallback kind ≡ true → IsOutage kind
  allows_fallback-IsOutage network h = inl refl
  allows_fallback-IsOutage not_found h = inr (inl refl)
  allows_fallback-IsOutage server h = inr (inr refl)
  allows_fallback-IsOutage invalid_manifest h = cc
  allows_fallback-IsOutage security h = cc

  not_refused :
      {A : Type 0} (test : Bool) (kind : SourceFailureKind) (message : String)
      (r : Result SourceCheckError A) (a : A)
      → (if test then source_error kind message else r) ≡ ok a
      → r ≡ ok a
  not_refused true kind message r a h = absurd (ground arith)
  not_refused false kind message r a h = h

  decided :
      (newer : Bool) (r release : UpdateRelease)
      → ◌≡◌ {A = Result SourceCheckError ManifestDecision}
          (ok (if newer then available r else up_to_date))
          (ok (available release))
      → (r ≡ release) × (newer ≡ true)
  decided true r release h = (ground arith, refl)
  decided false r release h = absurd (ground arith)

  decide-IsTrusted :
      (source : UpdateSource) (current key : String) (manifest : StaticManifest)
      (release : UpdateRelease)
      → decide lib policy source current key manifest ≡ ok (available release)
      → IsTrusted source current release
  unfolding decide release_of
  decide-IsTrusted source current key manifest release h =
      let (chosen, _, h2) = >>=-eq-ok (select_platform key manifest.platforms) _ h in
      let (_, fit, h3) = >>=-eq-ok (validate_download_url lib policy source chosen.1.url) _ h2 in
      let (r, made, h4) =
        >>=-eq-ok (checked_fields (new_release lib.parse (release_input manifest source chosen))) _
          h3 in
      let (newer, is_new, h5) =
        >>=-eq-ok (checked_fields (is_newer_than lib.parse lib.newer r current)) _ h4 in
      let (same, yes_newer) = decided newer r release h5 in
      let (digest, whole, sound) =
        new_release-IsRelease lib.parse (release_input manifest source chosen) r
          (checked_fields-ok _ r made) in
      subst (λ q. IsTrusted source current q) same
        (record {
          sound = sound;
          of_source = subst (λ q. q.source ≡ source) whole refl;
          url_is_own =
              subst
                (λ q.
                  (url : Url) × (lib.parse_url q.download_url ≡ some url)
                  × IsOwnUrl policy source url)
                whole (valid_url source chosen.1.url fit);
          is_new = newer_than r current (checked_fields-ok _ true (is_new ∙ ap ok yes_newer));
        })

  parse_manifest_for_platform-IsTrusted :
      (source : UpdateSource) (current : String) (bytes : List ℕ) (key : String)
      (release : UpdateRelease)
      → parse_manifest_for_platform lib policy source current bytes key ≡ ok (available release)
      → IsTrusted source current release
  unfolding parse_manifest_for_platform
  parse_manifest_for_platform-IsTrusted source current bytes key release h =
      let read_it : Result SourceCheckError ManifestDecision =
        manifest_of lib policy bytes >>= decide lib policy source current key in
      let h1 : read_it ≡ ok (available release) =
        not_refused (length bytes == 0 || ltb (128 * 1024) (length bytes)) invalid_manifest
          "更新清单大小无效" read_it (available release) h in
      let (manifest, _, h2) =
        >>=-eq-ok (manifest_of lib policy bytes) (decide lib policy source current key) h1 in
      decide-IsTrusted source current key manifest release h2

  module _ (fetch : List ℕ → Result SourceCheckError (List ℕ)) (key current : String) where
    check_source-IsTrusted :
        (source : UpdateSource) (release : UpdateRelease)
        → check_source lib policy fetch key current source ≡ ok (available release)
        → IsTrusted source current release
    unfolding check_source
    check_source-IsTrusted source release h =
        let (bytes, _, h1) = >>=-eq-ok (fetch (manifest_endpoint policy source)) _ h in
        parse_manifest_for_platform-IsTrusted source current bytes key release h1

    -- What is claimed of a selection that offers a release.
    abbrev pub Chosen : SourceSelection → UpdateRelease → Type 0
    Chosen selection release =
        IsTrusted selection.source current release
        × ((selection.source ≡ github)
            ⊎ ((e : SourceCheckError) × (check_source lib policy fetch key current github ≡ err e)
                × IsOutage e.kind))

    selected_by :
        (selection : SourceSelection) (release : UpdateRelease) (made : SourceSelection)
        → selection.decision ≡ available release
        → ◌≡◌ {A = Result SourceCheckError SourceSelection} (ok made) (ok selection)
        → ((made.decision ≡ available release) → Chosen made release)
        → Chosen selection release
    selected_by selection release made offered same chosen =
        subst (λ s. Chosen s release) (ok-injective same)
          (chosen (subst (λ s. s.decision ≡ available release) (sym (ok-injective same)) offered))

    after_github :
        (selection : SourceSelection) (release : UpdateRelease) (e : SourceCheckError)
        → check_source lib policy fetch key current github ≡ err e
        → IsOutage e.kind
        → selection.decision ≡ available release
        → (r : Result SourceCheckError ManifestDecision)
        → check_source lib policy fetch key current modelscope ≡ r
        → from_modelscope lib policy fetch key current e r ≡ ok selection
        → Chosen selection release
    after_github selection release e first fallback offered (ok d) second h =
        selected_by selection release _ offered h (λ is.
          (check_source-IsTrusted modelscope release (second ∙ ap ok is), inr (e, first, fallback)))
    after_github selection release e first fallback offered (err f) second h = absurd (ground arith)

    selected_first :
        (selection : SourceSelection) (release : UpdateRelease)
        → selection.decision ≡ available release
        → (r : Result SourceCheckError ManifestDecision)
        → check_source lib policy fetch key current github ≡ r
        → or_modelscope lib policy fetch key current r ≡ ok selection
        → Chosen selection release
    selected_first selection release offered (ok d) first h =
        selected_by selection release _ offered h
          (λ is. (check_source-IsTrusted github release (first ∙ ap ok is), inl refl))
    selected_first selection release offered (err e) first h =
        elim (Bool-cases (allows_fallback e.kind)) [
          | inl fallback ↦
              after_github selection release e first (allows_fallback-IsOutage e.kind fallback)
                offered (check_source lib policy fetch key current modelscope) refl
                (rw fallback at h)
          | inr strict ↦ absurd (ground (arith, strict))
        ]

    -- A release that a check gives has sound fields (IsRelease), is of the source that is named, and is
    -- newer than the current version. Its address is an HTTPS one without credentials, port or fragment
    -- in the source's own project: below the releases' downloads and without a query at GitHub, and at
    -- ModelScope with a query of just the master revision and a file below releases. It is of the
    -- second source only if the first could not be reached, had no manifest or was out of order.
    pub check_update-IsTrusted :
        (selection : SourceSelection) (release : UpdateRelease)
        → check_update lib policy fetch key current ≡ ok selection
        → selection.decision ≡ available release
        → Chosen selection release
    unfolding check_update
    check_update-IsTrusted selection release h offered =
        selected_first selection release offered (check_source lib policy fetch key current github)
          refl h
