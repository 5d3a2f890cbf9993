-- ===== src/ContractAsset/Contract.antt =====
-- internal/contractasset/asset.go: `ValidateLinked` lets through a release that embeds nothing, or both
-- contracts with a manifest that describes exactly them.
use course_infra.Base.{
  ℕ, ◌≡◌, ◌≢◌, refl, sym, subst, ap, String, true, false, none, some, List, [], ◌∷◌, ◌⊎◌, ◌↔◌, inl,
  inr, arith, Bool-cases, str_eq, eq_iff,
}
use course_infra.Errors.{Result-cases, ok, ok-injective, >>=-ok}
use course_infra.Config.{is_empty, contains}
use course_infra.ContractAsset.{
  SourceFile, SourceManifest, Assets, openapi_destination, proto_destination, expected, check_files,
  check_seen, check_manifest, validate_linked,
}

is_empty-cases : (l : List ℕ) → ((l ≡ []) × (is_empty l ≡ true)) ⊎ ((l ≢ []) × (is_empty l ≡ false))
is_empty-cases [] = inl (refl, refl)
is_empty-cases (x ∷ l) = inr ((λ e. ground arith), refl)

not_empty : (l : List ℕ) → l ≢ [] → is_empty l ≡ false
not_empty [] h = absurd (h refl)
not_empty (x ∷ l) h = refl

module _ (A : Assets) where
  abbrev pub openapi_file : SourceFile
  openapi_file = record { destination = openapi_destination; sha256 = A.sha256 A.openapi }

  abbrev pub proto_file : SourceFile
  proto_file = record { destination = proto_destination; sha256 = A.sha256 A.proto }

  -- The manifest has a source identity and lists exactly the two contracts, in some order.
  abbrev pub IsDescribed : SourceManifest → Type 0
  IsDescribed source =
      (source.source_repository ≢ "")
      × (source.source_commit ≢ "")
      × ((source.files ≡ openapi_file ∷ proto_file ∷ [])
          ⊎ (source.files ≡ proto_file ∷ openapi_file ∷ []))

  abbrev pub IsComplete : Type 0
  IsComplete =
      (A.openapi ≢ [])
      × (A.proto ≢ [])
      × (A.manifest ≢ [])
      × ((source : SourceManifest) × (A.decode A.manifest ≡ ok source) × IsDescribed source)

  -- What the loop has found out about a file that it has passed.
  check_files-first :
      (seen result : List String) (file : SourceFile) (files : List SourceFile) (content : List ℕ)
      → expected A file.destination ≡ some content
      → check_files A seen (file ∷ files) ≡ ok result
      → (contains file.destination seen ≡ false)
        × (A.sha256 content ≡ file.sha256)
        × (check_files A (file.destination ∷ seen) files ≡ ok result)
  unfolding check_files
  check_files-first seen result file files content e h =
      elim (Bool-cases (contains file.destination seen)) [
        | inl f ↦ absurd (ground (arith, rw (check_files, e, f) at h))
        | inr f ↦ elim (Bool-cases (str_eq (A.sha256 content) file.sha256)) [
          | inr g ↦ absurd (ground (arith, rw (check_files, e, f, g) at h))
          | inl g ↦ (f, (eq_iff (A.sha256 content) file.sha256).0 g, rw (check_files, e, f, g) at h)
        ]
      ]

  expected-cases :
      (name : String)
      → (expected A name ≡ none)
        ⊎ (((name ≡ openapi_destination) × (expected A name ≡ some A.openapi))
            ⊎ ((name ≡ proto_destination) × (expected A name ≡ some A.proto)))
  unfolding expected
  expected-cases name = elim (Bool-cases (str_eq name openapi_destination)) [
    | inl e ↦ inr (inl ((eq_iff name openapi_destination).0 e, rw (expected, e) refl))
    | inr e ↦ elim (Bool-cases (str_eq name proto_destination)) [
      | inl f ↦ inr (inr ((eq_iff name proto_destination).0 f, rw (expected, e, f) refl))
      | inr f ↦ inl (rw (expected, e, f) refl)
    ]
  ]

  -- A file that the loop has passed is one of the two, and was not seen before.
  check_files-head :
      (seen result : List String) (file : SourceFile) (files : List SourceFile)
      → check_files A seen (file ∷ files) ≡ ok result
      → ((file ≡ openapi_file) ⊎ (file ≡ proto_file))
        × (contains file.destination seen ≡ false)
        × (check_files A (file.destination ∷ seen) files ≡ ok result)
  unfolding check_files
  check_files-head seen result file files h = elim (expected-cases file.destination) [
    | inl e ↦ absurd (ground (arith, rw (check_files, e) at h))
    | inr (inl (name, e)) ↦
        let (new, hash, rest) = check_files-first seen result file files A.openapi e h in
        (inl (λ i. record { destination = name i; sha256 = sym hash i }), new, rest)
    | inr (inr (name, e)) ↦
        let (new, hash, rest) = check_files-first seen result file files A.proto e h in
        (inr (λ i. record { destination = name i; sha256 = sym hash i }), new, rest)
  ]

  -- Once both are seen, no further file passes.
  check_files-none :
      (seen result : List String) (files : List SourceFile)
      → contains openapi_destination seen ≡ true
      → contains proto_destination seen ≡ true
      → check_files A seen files ≡ ok result
      → files ≡ []
  check_files-none seen result [] o p h = refl
  check_files-none seen result (file ∷ files) o p h =
      let (one, new, rest) = check_files-head seen result file files h in
      elim one [
        | inl e ↦ absurd (ground (arith, o, new, ap (λ f. contains f.destination seen) e))
        | inr e ↦ absurd (ground (arith, p, new, ap (λ f. contains f.destination seen) e))
      ]

  -- After two different files there is no third one.
  check_files-both :
      (result : List String) (a b : SourceFile) (files : List SourceFile)
      → check_files A [] (a ∷ b ∷ files) ≡ ok result
      → (a ∷ b ∷ files ≡ openapi_file ∷ proto_file ∷ [])
        ⊎ (a ∷ b ∷ files ≡ proto_file ∷ openapi_file ∷ [])
  check_files-both result a b files h =
      let (first, _, h1) = check_files-head [] result a (b ∷ files) h in
      let (second, new, h2) = check_files-head (a.destination ∷ []) result b files h1 in
      let seen = b.destination ∷ a.destination ∷ [] in
      elim first [
        | inl ea ↦ elim second [
          | inl eb ↦ absurd (ground (arith, rw (ea, eb) at new))
          | inr eb ↦
              let none_left =
                check_files-none seen result files (rw (ea, eb) refl) (rw (ea, eb) refl) h2 in
              inl (rw (ea, eb, none_left) refl)
        ]
        | inr ea ↦ elim second [
          | inr eb ↦ absurd (ground (arith, rw (ea, eb) at new))
          | inl eb ↦
              let none_left =
                check_files-none seen result files (rw (ea, eb) refl) (rw (ea, eb) refl) h2 in
              inr (rw (ea, eb, none_left) refl)
        ]
      ]

  -- A single file leaves a contract out.
  check_seen-one :
      (file : SourceFile)
      → ((file ≡ openapi_file) ⊎ (file ≡ proto_file))
      → check_seen A (file.destination ∷ []) ≢ ok tt
  unfolding check_seen
  check_seen-one file (inl e) h = ground (arith, rw e at h)
  check_seen-one file (inr e) h = ground (arith, rw e at h)

  check_files-AreBoth :
      (result : List String) (files : List SourceFile)
      → check_files A [] files ≡ ok result
      → check_seen A result ≡ ok tt
      → (files ≡ openapi_file ∷ proto_file ∷ []) ⊎ (files ≡ proto_file ∷ openapi_file ∷ [])
  unfolding check_files check_seen
  check_files-AreBoth result [] h k =
      absurd (ground (arith, subst (λ r. check_seen A r ≡ ok tt) (sym (ok-injective h)) k))
  check_files-AreBoth result (a ∷ []) h k =
      let (first, _, rest) = check_files-head [] result a [] h in
      absurd
        (check_seen-one a first (subst (λ r. check_seen A r ≡ ok tt) (sym (ok-injective rest)) k))
  check_files-AreBoth result (a ∷ b ∷ files) h k = check_files-both result a b files h

  check_manifest-IsDescribed :
      (source : SourceManifest) → check_manifest A source ≡ ok tt → IsDescribed source
  unfolding check_manifest
  check_manifest-IsDescribed source h = elim (Bool-cases (str_eq source.source_repository "")) [
    | inl e ↦ absurd (ground (arith, rw (check_manifest, e) at h))
    | inr e ↦ elim (Bool-cases (str_eq source.source_commit "")) [
      | inl f ↦ absurd (ground (arith, rw (check_manifest, e, f) at h))
      | inr f ↦
          let (result, passed, seen) =
            >>=-ok (check_files A [] source.files) _ tt (rw (check_manifest, e, f) at h) in
          (
            ground (arith, eq_iff source.source_repository ""),
            ground (arith, eq_iff source.source_commit ""),
            check_files-AreBoth result source.files passed seen,
          )
    ]
  ]

  validate_linked_complete :
      is_empty A.openapi ≡ false
      → is_empty A.proto ≡ false
      → is_empty A.manifest ≡ false
      → validate_linked A ≡ ok tt
      → (source : SourceManifest) × (A.decode A.manifest ≡ ok source) × IsDescribed source
  unfolding validate_linked
  validate_linked_complete o p m h = elim (Result-cases (A.decode A.manifest)) [
    | inr (x, e) ↦ absurd (ground (arith, rw (validate_linked, o, p, m, e) at h))
    | inl (source, e) ↦
        (source, e, check_manifest-IsDescribed source (rw (validate_linked, o, p, m, e) at h))
  ]

  validate_linked-IsComplete :
      validate_linked A ≡ ok tt
      → ((A.openapi ≡ []) × (A.proto ≡ []) × (A.manifest ≡ [])) ⊎ IsComplete
  unfolding validate_linked
  validate_linked-IsComplete h = elim (is_empty-cases A.openapi) [
    | inl (e, o) ↦ elim (is_empty-cases A.proto) [
      | inl (f, p) ↦ elim (is_empty-cases A.manifest) [
        | inl (g, m) ↦ inl (e, f, g)
        | inr (_, m) ↦ absurd (ground (arith, rw (validate_linked, o, p, m) at h))
      ]
      | inr (_, p) ↦ absurd (ground (arith, rw (validate_linked, o, p) at h))
    ]
    | inr (e, o) ↦ elim (is_empty-cases A.proto) [
      | inl (_, p) ↦ absurd (ground (arith, rw (validate_linked, o, p) at h))
      | inr (f, p) ↦ elim (is_empty-cases A.manifest) [
        | inl (_, m) ↦ absurd (ground (arith, rw (validate_linked, o, p, m) at h))
        | inr (g, m) ↦ inr (e, f, g, validate_linked_complete o p m h)
      ]
    ]
  ]

  check_manifest-ok :
      (source : SourceManifest) → IsDescribed source → check_manifest A source ≡ ok tt
  unfolding check_manifest check_files check_seen expected
  check_manifest-ok source (r, c, files) =
      let same : (text : String) → str_eq text text ≡ true = λ text. (eq_iff text text).1 refl in
      let repository : str_eq source.source_repository "" ≡ false =
        ground (arith, eq_iff source.source_repository "") in
      let commit : str_eq source.source_commit "" ≡ false =
        ground (arith, eq_iff source.source_commit "") in
      elim files [
        | inl e ↦
            rw
              (
                check_manifest,
                repository,
                commit,
                e,
                same (A.sha256 A.openapi),
                same (A.sha256 A.proto),
              )
              refl
        | inr e ↦
            rw
              (
                check_manifest,
                repository,
                commit,
                e,
                same (A.sha256 A.openapi),
                same (A.sha256 A.proto),
              )
              refl
      ]

  validate_linked-ok :
      ((A.openapi ≡ []) × (A.proto ≡ []) × (A.manifest ≡ [])) ⊎ IsComplete
      → validate_linked A ≡ ok tt
  unfolding validate_linked
  validate_linked-ok (inl (o, p, m)) = rw (validate_linked, o, p, m) refl
  validate_linked-ok (inr (o, p, m, (source, e, described))) =
      rw (validate_linked, not_empty A.openapi o, not_empty A.proto p, not_empty A.manifest m, e)
        (check_manifest-ok source described)

  -- The check of the linked contracts succeeds exactly where nothing is embedded, or where both contracts
  -- and a manifest are, the manifest decodes, names a repository and a commit, and its files are the two
  -- contracts, in some order and nothing else, each with the SHA-256 of its embedded content.
  pub validate_linked_iff :
      (validate_linked A ≡ ok tt)
      ↔ (((A.openapi ≡ []) × (A.proto ≡ []) × (A.manifest ≡ [])) ⊎ IsComplete)
  validate_linked_iff = (validate_linked-IsComplete, validate_linked-ok)
