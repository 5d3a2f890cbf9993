-- ===== src/ContractAsset.antt =====
-- internal/contractasset/asset.go: the embedded contracts of a release and their manifest. The files,
-- the JSON decoder and SHA-256 are a parameter.
pub mod Contract
use course_infra.Base.{
  ℕ, String, Bool, true, false, Option, none, some, List, [], ◌∷◌, str_eq, ◌||◌, ◌&&◌, not,
  if◌then◌else◌,
}
use course_infra.Errors.{GoError, Result, ok, err, new, wrap, ◌>>=◌, ◌>>◌}
use course_infra.Config.{is_empty, contains}

abbrev pub openapi_destination : String
openapi_destination = "api/openapi/push-service.openapi.yaml"

abbrev pub proto_destination : String
proto_destination = "api/proto/push/v1/push.proto"

-- One of the `Files` of a `sourceManifest`.
pub record SourceFile : Type 0 where
  pub destination : String
  pub sha256 : String

-- `sourceManifest`
pub record SourceManifest : Type 0 where
  pub source_repository : String
  pub source_commit : String
  pub files : List SourceFile

-- The embedded files, `json.Unmarshal` of the manifest, and SHA-256 in hex.
pub record Assets : Type 0 where
  pub openapi : List ℕ
  pub proto : List ℕ
  pub manifest : List ℕ
  pub decode : List ℕ → Result SourceManifest
  pub sha256 : List ℕ → String

module _ (A : Assets) where
  -- `expected[file.Destination]`
  unfoldable pub expected : String → Option (List ℕ)
  expected destination =
      if str_eq destination openapi_destination
      then some A.openapi
      else if str_eq destination proto_destination
      then some A.proto
      else none

  -- The loop over the files; the result is `seen` after it.
  unfoldable pub check_files : List String → List SourceFile → Result (List String)
  unfolding expected
  check_files seen [] = ok seen
  check_files seen (file ∷ files) =
      let rest = check_files (file.destination ∷ seen) files in
      elim (expected file.destination) [
        | none ↦ err (new "embedded contract manifest has unexpected destination %q")
        | some content ↦
            if contains file.destination seen
            then err (new "embedded contract manifest has unexpected destination %q")
            else if not (str_eq (A.sha256 content) file.sha256)
            then err (new "embedded contract %s SHA-256 does not match manifest")
            else rest
      ]

  -- The loop over the destinations.
  unfoldable pub check_seen : List String → Result (Unit {0})
  check_seen seen =
      if contains openapi_destination seen && contains proto_destination seen
      then ok tt
      else err (new "embedded contract manifest is missing %s")

  -- `ValidateLinked` with a manifest.
  unfoldable pub check_manifest : SourceManifest → Result (Unit {0})
  unfolding check_files check_seen
  check_manifest source =
      if str_eq source.source_repository "" || str_eq source.source_commit ""
      then err (new "embedded contract manifest is missing source identity")
      else (check_files [] source.files >>= check_seen)

  -- `ValidateLinked`
  unfoldable pub validate_linked : Result (Unit {0})
  unfolding check_manifest
  validate_linked =
      if is_empty A.openapi && is_empty A.proto && is_empty A.manifest
      then ok tt
      else if is_empty A.openapi || is_empty A.proto || is_empty A.manifest
      then err (new "embedded contract assets are incomplete")
      else elim (A.decode A.manifest) [
        | err e ↦ err (wrap "decode embedded contract manifest: %w" e)
        | ok source ↦ check_manifest source
      ]
