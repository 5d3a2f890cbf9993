-- ===== src/Tests/Images.antt =====
-- The theorems on the release assets at concrete data: an embedded binary for amd64 and a registry that
-- answers with two digests, the second one local.
use course_infra.Base.{
  ◌≡◌, refl, ℕ, String, true, ◌⊎◌, ◌↔◌, if◌then◌else◌, ◌==◌, none, List, [], ◌∷◌,
}
use course_infra.Text.{◌<>◌}
use course_infra.Errors.{ok}
use course_infra.Effects.{◌>>=◌, refuse, lift, map_err, fail}
use course_infra.Generator.{Options, image_reference}
use course_infra.PushImage.{Artifact, Provider, x86_64, is_local_reference, ensure}
use course_infra.PushImage.Reference.{ensure-image_reference}
use course_infra.ContractAsset.{
  Assets, SourceManifest, openapi_destination, proto_destination, validate_linked,
}
use course_infra.ContractAsset.Contract.{IsComplete, validate_linked_iff}
use course_infra.Tests.Operations.{small_world}

abbrev digest : String
digest = "@sha256:0123456789abcdef0123456789abcdef0123456789abcdef0123456789abcdef"

abbrev artifact : Artifact
artifact = record {
  binary = 127 ∷ [];
  dockerfile = 70 ∷ [];
  machine = ok x86_64;
  content_hash = "0123456789abcdef01234567";
  decode_digests = λ text.
      ok (("docker.io/other" <> digest) ∷ ("localhost:5001/tripgo-push-service" <> digest) ∷ []);
}

abbrev pub provider : Provider
provider = record { artifact = artifact; goarch = "amd64" }

abbrev options : Options
options = record {
  tripgoctl_version = "v1";
  cluster_id = "c1";
  push_image_reference = "localhost:5001/tripgo-push-service" <> digest;
  workload_replicas = none;
}

ensure_run : (ensure small_world provider []).0 ≡ ok options.push_image_reference
unfolding ensure ◌>>=◌ refuse lift map_err fail
ensure_run = refl

ensure-image_reference_example :
    (is_local_reference options.push_image_reference ≡ true)
    × (image_reference options "push-service" ≡ ok options.push_image_reference)
ensure-image_reference_example = ensure-image_reference small_world provider options [] ensure_run

abbrev source : SourceManifest
source = record {
  source_repository = "course/contracts";
  source_commit = "c0ffee";
  files =
      record { destination = proto_destination; sha256 = "bb" }
      ∷ record { destination = openapi_destination; sha256 = "aa" }
      ∷ [];
}

abbrev first_hash : List ℕ → String
first_hash [] = ""
first_hash (c ∷ content) = if c == 1 then "aa" else "bb"

abbrev assets : Assets
assets = record {
  openapi = 1 ∷ [];
  proto = 2 ∷ [];
  manifest = 3 ∷ [];
  decode = λ content. ok source;
  sha256 = first_hash;
}

validate_run : validate_linked assets ≡ ok tt
unfolding validate_linked
validate_run = refl

validate_linked_iff_example :
    (validate_linked assets ≡ ok tt)
    ↔ (((assets.openapi ≡ []) × (assets.proto ≡ []) × (assets.manifest ≡ [])) ⊎ IsComplete assets)
validate_linked_iff_example = validate_linked_iff assets
