-- ===== src/Generator.antt =====
-- internal/generator/generator.go: the manifests of an environment. The embedded templates and the
-- template engine are a parameter; its functions `configChecksum` and `indent` belong to it.
pub mod Write
pub mod Rendered
pub mod Lookups
pub mod Supply
pub mod Contract
use course_infra.Base.{
  ℕ, String, Bool, true, false, Option, none, some, List, [], ◌∷◌, ◌++◌, ℤ, pos, eqb, ltb_ℤ, leb,
  ◌==◌, ◌&&◌, ◌||◌, not, length, str_eq, if◌then◌else◌,
}
use course_infra.Text.{◌<>◌, codes, padded, has_prefix}
use course_infra.Errors.{GoError, new, wrap, Result, ok, err, ◌>>=◌, ◌>>◌}
use course_infra.Catalog.{Component, Port, postgres, observability, push, redpanda}
use course_infra.Catalog.Environment.{Environment, environment_for_lab, found, absent, panic}
use course_infra.Catalog.Images.{local_push_image_repository, reference, image_by_name}
use course_infra.Config.{Config, schema_version_1, texts_equal}
use course_infra.Lab.Redpanda.{topics, reconcile_script}

abbrev is_name_start : ℕ → Bool
is_name_start c = (leb b'a' c && leb c b'z') || (leb b'0' c && leb c b'9')

abbrev is_name_char : ℕ → Bool
is_name_char c = is_name_start c || c == b'.' || c == b':' || c == b'/' || c == b'_' || c == b'-'

abbrev all_hex : List ℕ → Bool
all_hex [] = true
all_hex (c ∷ cs) = ((leb b'0' c && leb c b'9') || (leb b'a' c && leb c b'f')) && all_hex cs

abbrev pub is_digest_after : List ℕ → List ℕ → Bool
is_digest_after [] cs = length cs == 64 && all_hex cs
is_digest_after (p ∷ ps) [] = false
is_digest_after (p ∷ ps) (c ∷ cs) = (p == c) && is_digest_after ps cs

-- The part after the first character; no character of the name is an `@`.
abbrev matches_rest : List ℕ → Bool
matches_rest [] = false
matches_rest (c ∷ cs) =
    let rest = matches_rest cs in
    if c == b'@' then is_digest_after (codes "sha256:") cs else is_name_char c && rest

abbrev pub matches_name : List ℕ → Bool
matches_name [] = false
matches_name (c ∷ cs) = is_name_start c && matches_rest cs

-- `immutableImagePattern.MatchString`, for `^[a-z0-9][a-z0-9.:/_-]*@sha256:[0-9a-f]{64}$`.
unfoldable pub is_immutable : String → Bool
is_immutable reference = matches_name (codes reference)

-- `Options`
pub record Options : Type 0 where
  pub tripgoctl_version : String
  pub cluster_id : String
  pub push_image_reference : String
  pub workload_replicas : Option ℤ

-- `File`
pub record File : Type 0 where
  pub name : String
  pub content : List ℕ

-- `model`; the maps are association lists.
pub record Model : Type 0 where
  pub namespace : String
  pub lab : ℕ
  pub lab_label : String
  pub version : String
  pub cluster_id : String
  pub workload_replicas : ℤ
  pub images : List (String × String)
  pub ports : List (String × Port)
  pub redpanda_topics : String
  pub reconcile_script : String

-- The type `manifest` of `Generate`.
pub record Manifest : Type 0 where
  pub name : String
  pub template : String
  pub images : List String

-- The parsed templates: the error of `ParseFS`, and `ExecuteTemplate`.
pub record Templates : Type 0 where
  pub parse_error : Option GoError
  pub execute : String → Model → Result (List ℕ)

-- `addImage`: the reference for an image.
unfoldable pub image_reference : Options → String → Result String
unfolding image_by_name reference is_immutable
image_reference options name = elim (image_by_name name) [
  | none ↦ err (new "generator: image %q is absent from catalog")
  | some image ↦
      let is_push = str_eq name "push-service" in
      let text =
        if is_push && str_eq (reference image) ""
        then options.push_image_reference
        else reference image in
      if not (is_immutable text)
      then if is_push && str_eq text ""
        then err (
            new
              "generator: Push Service image is absent from the managed local registry; a trusted digest reference is required")
        else err (new "generator: image %q does not have a valid immutable reference")
      else if is_push && not (has_prefix text (local_push_image_repository <> "@sha256:"))
      then err (new "generator: Push Service image must come from managed local repository %q")
      else ok text
]

abbrev pub plain : String → List String → Manifest
plain name images = record {
  name = name <> ".yaml";
  template = name <> ".yaml.tmpl";
  images = images;
}

-- The manifest that every environment has.
abbrev pub namespace_manifest : Manifest
namespace_manifest = plain "namespace" []

-- The `switch` over one component.
unfoldable pub manifests_of : Component → Result (List Manifest)
manifests_of component =
    if str_eq component postgres
    then ok (plain "postgres" ("postgres" ∷ []) ∷ [])
    else if str_eq component observability
    then ok (
        plain "observability" ("otel-collector" ∷ "prometheus" ∷ "grafana" ∷ "jaeger" ∷ "loki" ∷ [])
        ∷ [])
    else if str_eq component push
    then ok (plain "push" ("push-service" ∷ []) ∷ [])
    else if str_eq component redpanda
    then ok (plain "redpanda" ("redpanda" ∷ "redpanda-console" ∷ []) ∷ plain "topics" [] ∷ [])
    else err (new "generator: unsupported component %q")

-- The loop over the components.
unfoldable pub all_manifests : List Component → Result (List Manifest)
unfolding manifests_of
all_manifests [] = ok []
all_manifests (component ∷ rest) = do
  first ← manifests_of component
  others ← all_manifests rest
  ok (first ++ others)

abbrev pub has_key {ℓ} : {A : Type ℓ} → String → List (String × A) → Bool
has_key key [] = false
has_key key ((k, v) ∷ rest) = str_eq k key || has_key key rest

-- The loop over the images of a manifest.
unfoldable pub add_images :
    Options → List String → List (String × String) → Result (List (String × String))
unfolding image_reference
add_images options [] known = ok known
add_images options (name ∷ names) known =
    if has_key name known
    then add_images options names known
    else (image_reference options name >>= λ text. add_images options names ((name, text) ∷ known))

abbrev with_images : Model → List (String × String) → Model
with_images m images = record {
  namespace = m.namespace;
  lab = m.lab;
  lab_label = m.lab_label;
  version = m.version;
  cluster_id = m.cluster_id;
  workload_replicas = m.workload_replicas;
  images = images;
  ports = m.ports;
  redpanda_topics = m.redpanda_topics;
  reconcile_script = m.reconcile_script;
}

-- The content of a file ends its last line.
abbrev pub end_line : List ℕ → List ℕ
end_line [] = b'\n' ∷ []
end_line (b ∷ []) = if b == b'\n' then b ∷ [] else b ∷ b'\n' ∷ []
end_line (b ∷ c ∷ bytes) = b ∷ end_line (c ∷ bytes)

-- The check of the number of replicas.
unfoldable pub replicas_of : Option ℤ → Result ℤ
replicas_of none = ok (pos 1)
replicas_of (some n) =
    if ltb_ℤ n (pos 0) || ltb_ℤ (pos 1) n
    then err (new "generator: unsupported workload replica count %d")
    else ok n

abbrev pub named_ports : List Port → List (String × Port)
named_ports [] = []
named_ports (p ∷ ps) = (p.endpoint.name, p) ∷ named_ports ps

abbrev pub model_of : Config → Options → Environment → ℤ → Model
unfolding padded
model_of config options entry replicas = record {
  namespace = entry.namespace;
  lab = config.lab;
  lab_label = padded config.lab;
  version = options.tripgoctl_version;
  cluster_id = options.cluster_id;
  workload_replicas = replicas;
  images = [];
  ports = named_ports entry.ports;
  redpanda_topics = topics;
  reconcile_script = reconcile_script;
}

module _ (T : Templates) where
  -- The loop over the manifests.
  unfoldable pub render_all : Options → Model → List Manifest → Result (List File)
  unfolding add_images
  render_all options m [] = ok []
  render_all options m (item ∷ items) = do
    images ← add_images options item.images m.images
    let here = with_images m images in
        elim (T.execute item.template here) [
          | err e ↦ err (wrap "generator: render %s: %w" e)
          | ok bytes ↦
              (render_all options here items >>= λ files.
              ok (record { name = item.name; content = end_line bytes } ∷ files))
        ]

  -- `Generate` after the checks of its arguments.
  unfoldable pub generate_for : Config → Options → Environment → Result (List File)
  unfolding replicas_of all_manifests render_all
  generate_for config options entry = do
    replicas ← replicas_of options.workload_replicas
    items ← all_manifests config.components
    elim T.parse_error [
      | some e ↦ err (wrap "generator: parse embedded templates: %w" e)
      | none ↦
          render_all options (model_of config options entry replicas) (namespace_manifest ∷ items)
    ]

  -- `Generate`; the lookup in the catalog does not panic.
  unfoldable pub generate : Config → Options → Result (List File)
  unfolding generate_for
  generate config options =
      if str_eq options.tripgoctl_version ""
      then err (new "generator: tripgoctl version is required")
      else if str_eq options.cluster_id ""
      then err (new "generator: cluster identity is required")
      else if not (eqb config.schema_version schema_version_1)
      then err (new "generator: unsupported schema version %d")
      else elim (environment_for_lab config.lab) [
        | absent ↦ err (new "generator: unsupported lab %d")
        | panic text ↦ err (new text)
        | found entry ↦
            if not (texts_equal config.components entry.components)
            then err
                (new "generator: configuration components are not normalized for the selected lab")
            else generate_for config options entry
      ]
