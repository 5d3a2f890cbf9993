-- ===== src/Catalog/Images.antt =====
-- internal/catalog/images.go: the image catalog, and the reference that an image is pulled by.
use course_infra.Base.{
  String, Bool, true, false, Option, none, some, List, [], ◌∷◌, str_eq, ◌||◌, not,
}
use course_infra.Base.{if◌then◌else◌}
use course_infra.Text.{◌<>◌}

abbrev pub local_push_image_repository : String
local_push_image_repository = "localhost:5001/tripgo-push-service"

-- `Image`, without its list of platforms, which no decision reads.
pub record Image : Type 0 where
  pub name : String
  pub repository : String
  pub tag : String
  pub digest : String
  pub published : Bool

-- `Reference`
unfoldable pub reference : Image → String
reference i = if not i.published || str_eq i.digest "" then "" else i.repository <> "@" <> i.digest

abbrev image : String → String → String → String → Image
image name repository tag digest = record {
  name = name;
  repository = repository;
  tag = tag;
  digest = digest;
  published = true;
}

-- `images`
abbrev pub images : List Image
images =
    image "postgres" "docker.io/library/postgres" "16.10-alpine"
      "sha256:029660641a0cfc575b14f336ba448fb8a75fd595d42e1fa316b9fb4378742297"
    ∷ image "otel-collector" "docker.io/otel/opentelemetry-collector-contrib" "0.159.0"
        "sha256:1f2c54a30e713fac6b3ae77a1ec84010c2007e29ced8ec666214fc2f6739c1cc"
    ∷ image "prometheus" "docker.io/prom/prometheus" "v3.14.0"
        "sha256:5ce7540c3c00ef4ab0c9d2c995c6a5b9c421f44b4a115d97a2c7af3b1c21cbb0"
    ∷ image "grafana" "docker.io/grafana/grafana" "13.2.0"
        "sha256:3fd54ae1214669f8355f065ec9f6445d5279a3d77095ab048ca045685272429b"
    ∷ image "loki" "docker.io/grafana/loki" "3.7.8"
        "sha256:1107dd5274e0ada47e42472b7a7e71f3b2a2fe878878108f3e2f9e51528f0193"
    ∷ image "jaeger" "docker.io/jaegertracing/jaeger" "2.20.0"
        "sha256:46a886260e04002d8f45e213fc39063fa11a50446048fdaa64786fc0840cb9f8"
    ∷ image "redpanda" "docker.io/redpandadata/redpanda" "v26.2.2"
        "sha256:468bd13a9f2bd24794cb7fddc867c767fb1008b9a07b297b89fde48c564d7d96"
    ∷ image "redpanda-console" "docker.redpanda.com/redpandadata/console" "v3.11.0"
        "sha256:bf5ed3ee83e5b2dd6d1c1f1c8095ba252f384ce9354e7a3d2f780f0b4a486c09"
    ∷ image "registry" "docker.io/library/registry" "2.8.3"
        "sha256:a3d8aaa63ed8681a604f1dea0aa03f100d5895b6a58ace528858a7b332415373"
    ∷ record {
      name = "push-service";
      repository = local_push_image_repository;
      tag = "";
      digest = "";
      published = false;
    }
    ∷ []

-- The loop of `ImageByName`.
unfoldable pub find_image : String → List Image → Option Image
find_image name [] = none
find_image name (i ∷ is) = if str_eq i.name name then some i else find_image name is

-- `ImageByName`
unfoldable pub image_by_name : String → Option Image
unfolding find_image
image_by_name name = find_image name images
