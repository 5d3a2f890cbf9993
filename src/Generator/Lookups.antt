-- ===== src/Generator/Lookups.antt =====
-- internal/generator/generator.go and the embedded templates: what the templates look up, and that the
-- loop over the images of a manifest makes them known.
use course_infra.Base.{
  ℕ, ◌≡◌, ◌≢◌, refl, subst, String, true, List, [], ◌∷◌, inl, inr, arith, All, Bool-cases, ℤ,
  str_eq, eq_iff, if◌then◌else◌, leb,
}
use course_infra.Text.{◌<>◌, has_prefix}
use course_infra.Errors.{ok}
use course_infra.Catalog.Images.{local_push_image_repository}
use course_infra.Config.{contains}
use course_infra.Generator.{
  Options, Model, Templates, is_immutable, image_reference, add_images, has_key, replicas_of,
}

-- The options that the program passes: a version, a cluster, a number of replicas that is 0 or 1, and
-- from lab 3 on an image of the Push Service from the managed repository.
pub record IsUsable (lab : ℕ) (options : Options) : Type 0 where
  pub version : options.tripgoctl_version ≢ ""
  pub cluster : options.cluster_id ≢ ""
  pub replicas : ℤ
  pub replicas_lem : replicas_of options.workload_replicas ≡ ok replicas
  pub digest : leb 3 lab ≡ true → is_immutable options.push_image_reference ≡ true
  pub managed :
      leb 3 lab ≡ true
      → has_prefix options.push_image_reference (local_push_image_repository <> "@sha256:") ≡ true

-- The names of the files for a lab, in their order.
abbrev pub file_names : ℕ → List String
file_names lab =
    "namespace.yaml"
    ∷ "postgres.yaml"
    ∷ (if leb lab 1
        then []
        else "observability.yaml"
          ∷ (if leb lab 2
              then []
              else "push.yaml" ∷ (if leb lab 3 then [] else "redpanda.yaml" ∷ "topics.yaml" ∷ [])))

-- What the templates look up with `index .Images` and with `index .Ports`, in src/templates.
abbrev pub template_images : String → List String
template_images name =
    if str_eq name "postgres.yaml.tmpl"
    then "postgres" ∷ []
    else if str_eq name "observability.yaml.tmpl"
    then "otel-collector" ∷ "jaeger" ∷ "prometheus" ∷ "grafana" ∷ "loki" ∷ []
    else if str_eq name "push.yaml.tmpl"
    then "push-service" ∷ []
    else if str_eq name "redpanda.yaml.tmpl"
    then "redpanda" ∷ "redpanda-console" ∷ []
    else []

abbrev pub template_ports : String → List String
template_ports name =
    if str_eq name "postgres.yaml.tmpl"
    then "postgres" ∷ []
    else if str_eq name "observability.yaml.tmpl"
    then "otel-grpc" ∷ "otel-http" ∷ "jaeger" ∷ "prometheus" ∷ "grafana" ∷ []
    else if str_eq name "push.yaml.tmpl"
    then "push-http" ∷ "push-grpc" ∷ []
    else if str_eq name "redpanda.yaml.tmpl"
    then "redpanda-kafka" ∷ "redpanda-console" ∷ []
    else []

-- The templates that there are.
abbrev pub template_names : List String
template_names =
    "namespace.yaml.tmpl" ∷ "postgres.yaml.tmpl" ∷ "observability.yaml.tmpl" ∷ "push.yaml.tmpl"
    ∷ "redpanda.yaml.tmpl" ∷ "topics.yaml.tmpl" ∷ []

-- A model with every image and every port that a template looks up.
abbrev pub IsServed : String → Model → Type 0
IsServed template m =
    All (λ name. has_key name m.images ≡ true) (template_images template)
    × All (λ name. has_key name m.ports ≡ true) (template_ports template)

-- The templates as they are documented: a template of this name renders a model that has what it looks
-- up.
abbrev pub Renders : Templates → Type 0
Renders T =
    (template : String)
    → contains template template_names ≡ true
    → (m : Model) → IsServed template m
    → (bytes : List ℕ) × (T.execute template m ≡ ok bytes)

abbrev pub HasReference : Options → String → Type 0
HasReference options name = (text : String) × (image_reference options name ≡ ok text)

-- A name that was known stays known, and a new one becomes known.
abbrev pub IsExtended : List String → List (String × String) → List (String × String) → Type 0
IsExtended names known images =
    ((key : String) → has_key key known ≡ true → has_key key images ≡ true)
    × ((key : String) → contains key names ≡ true → has_key key images ≡ true)

pub add_images_ok :
    (options : Options) (names : List String) (known : List (String × String))
    → All (HasReference options) names
    → (images : List (String × String)) × (add_images options names known ≡ ok images)
      × IsExtended names known images
unfolding add_images
add_images_ok options [] known h = (known, refl, (λ key e. e, λ key e. absurd (ground arith)))
add_images_ok options (name ∷ names) known ((text, e), h) = elim (Bool-cases (has_key name known)) [
  | inl f ↦
      let (images, g, (old, added)) = add_images_ok options names known h in
      (
        images,
        rw (add_images, f) g,
        (
          old,
          λ key k. elim (Bool-cases (str_eq name key)) [
            | inl same ↦
                subst (λ n. has_key n images ≡ true) ((eq_iff name key).0 same) (old name f)
            | inr other ↦ added key (ground (arith, other))
          ],
        ),
      )
  | inr f ↦
      let (images, g, (old, added)) = add_images_ok options names ((name, text) ∷ known) h in
      (
        images,
        rw (add_images, f, e) g,
        (
          λ key k. old key (ground (arith, k)),
          λ key k. elim (Bool-cases (str_eq name key)) [
            | inl same ↦ old key (ground (arith, same))
            | inr other ↦ added key (ground (arith, other))
          ],
        ),
      )
]

pub All-map :
    {P R : String → Type 0} (names : List String)
    → ((name : String) → P name → R name)
    → All P names
    → All R names
All-map [] f h = tt
All-map (name ∷ names) f (h, k) = (f name h, All-map names f k)
