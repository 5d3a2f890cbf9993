-- ===== src/Generator/Rendered.antt =====
-- internal/generator/generator.go: what the generated files contain.
use course_infra.Base.{
  ℕ, ◌≡◌, refl, sym, subst, ap, ◌∙◌, String, true, List, [], ◌∷◌, inl, inr, arith, All, Bool-cases,
  Option-cases, ℤ, eq_iff,
}
use course_infra.Text.{◌<>◌, has_prefix}
use course_infra.Errors.{GoError, Result-cases, ok, err, >>=-ok, ok-injective}
use course_infra.Catalog.Environment.{Environment, environment_for_lab, found}
use course_infra.Catalog.Images.{local_push_image_repository, image_by_name}
use course_infra.Catalog.Variables.{environment_for_lab_total}
use course_infra.Config.{Config}
use course_infra.Generator.{
  Options, File, Model, Manifest, Templates, is_immutable, image_reference, add_images, has_key,
  namespace_manifest, with_images, end_line, replicas_of, model_of, all_manifests, render_all,
  generate_for, generate,
}

-- An image reference that may be rendered: a digest, and for the Push Service one of the managed
-- repository.
pub record IsPinned (image : String × String) : Type 0 where
  pub digest : is_immutable image.1 ≡ true
  pub managed :
      image.0 ≡ "push-service"
      → has_prefix image.1 (local_push_image_repository <> "@sha256:") ≡ true

image_reference-IsPinned :
    (options : Options) (name text : String)
    → image_reference options name ≡ ok text
    → IsPinned (name, text)
unfolding image_reference
image_reference-IsPinned options name text h = elim (Option-cases (image_by_name name)) [
  | inl e ↦ absurd (ground (arith, e))
  | inr (image, e) ↦ record {
    digest = ground (arith, e);
    managed = λ f. ground (arith, e, (eq_iff name "push-service").1 f);
  }
]

add_images-IsPinned :
    (options : Options) (names : List String) (known images : List (String × String))
    → add_images options names known ≡ ok images
    → All IsPinned known
    → All IsPinned images
unfolding add_images
add_images-IsPinned options [] known images h all = subst (All IsPinned) (ok-injective h) all
add_images-IsPinned options (name ∷ names) known images h all =
    elim (Bool-cases (has_key name known)) [
      | inl e ↦ add_images-IsPinned options names known images (rw (add_images, e) at h) all
      | inr e ↦
          let (text, f, rest) =
            >>=-ok (image_reference options name)
              (λ text. add_images options names ((name, text) ∷ known)) images
              (rw (add_images, e) at h) in
          add_images-IsPinned options names ((name, text) ∷ known) images rest
            (image_reference-IsPinned options name text f, all)
    ]

err-ne-ok : {A : Type 0} {a : A} {e : GoError} → err e ≡ ok a → ⊥
err-ne-ok h = ground arith

module _ (T : Templates) where
  -- A file is the output of a template on a model of the environment, closed by an end of line.
  pub record IsRendered (m : Model) (file : File) : Type 0 where
    pub template : String
    pub images : List (String × String)
    pub bytes : List ℕ
    pub output : T.execute template (with_images m images) ≡ ok bytes
    pub content : file.content ≡ end_line bytes
    pub pinned : All IsPinned images

  render_all-IsRendered :
      (options : Options) (start m : Model) (items : List Manifest) (files : List File)
      → ((images : List (String × String)) → with_images m images ≡ with_images start images)
      → All IsPinned m.images
      → render_all T options m items ≡ ok files
      → All (IsRendered start) files
  unfolding render_all
  render_all-IsRendered options start m [] files same all h =
      subst (All (IsRendered start)) (ok-injective h) tt
  render_all-IsRendered options start m (item ∷ items) files same all h =
      let (images, e, rest) = >>=-ok (add_images options item.images m.images) _ files h in
      let here = with_images m images in
      let pinned = add_images-IsPinned options item.images m.images images e all in
      elim (Result-cases (T.execute item.template here)) [
        | inr (x, f) ↦ absurd (err-ne-ok (rw f at rest))
        | inl (bytes, f) ↦
            let (others, g, last) =
              >>=-ok (render_all T options here items)
                (λ files. ok (record { name = item.name; content = end_line bytes } ∷ files)) files
                (rw f at rest) in
            subst (All (IsRendered start)) (ok-injective last) (
              record {
                template = item.template;
                images = images;
                bytes = bytes;
                output = sym (ap (T.execute item.template) (same images)) ∙ f;
                content = refl;
                pinned = pinned;
              },
              render_all-IsRendered options start here items others same pinned g,
            )
      ]

  generate-entry :
      (config : Config) (options : Options) (files : List File)
      → generate T config options ≡ ok files
      → (entry : Environment) × (environment_for_lab config.lab ≡ found entry)
        × (generate_for T config options entry ≡ ok files)
  unfolding generate
  generate-entry config options files h = elim (environment_for_lab_total config.lab) [
    | inl (missing, e) ↦ absurd (ground (arith, e))
    | inr (entry, e, facts) ↦ (entry, e, ground (arith, e))
  ]

  generate_for-IsRendered :
      (config : Config) (options : Options) (entry : Environment) (files : List File)
      → generate_for T config options entry ≡ ok files
      → (replicas : ℤ) × (replicas_of options.workload_replicas ≡ ok replicas)
        × All (IsRendered (model_of config options entry replicas)) files
  unfolding generate_for model_of
  generate_for-IsRendered config options entry files h =
      let (replicas, e, h1) = >>=-ok (replicas_of options.workload_replicas) _ files h in
      let (items, f, h2) = >>=-ok (all_manifests config.components) _ files h1 in
      elim (Option-cases T.parse_error) [
        | inr (x, g) ↦ absurd (err-ne-ok (rw g at h2))
        | inl g ↦ (
          replicas,
          e,
          let m = model_of config options entry replicas in
              render_all-IsRendered options m m (namespace_manifest ∷ items) files (λ images. refl)
                tt (rw g at h2),
        )
      ]

  -- Every file that `Generate` returns is the output of one of the templates on the model of this
  -- environment, closed by an end of line, and every image that the template may refer to is pinned to
  -- a SHA-256 digest, the Push Service's in the managed local repository.
  pub generate-IsRendered :
      (config : Config) (options : Options) (files : List File)
      → generate T config options ≡ ok files
      → (entry : Environment) × (replicas : ℤ) × (environment_for_lab config.lab ≡ found entry)
        × (replicas_of options.workload_replicas ≡ ok replicas)
        × All (IsRendered (model_of config options entry replicas)) files
  generate-IsRendered config options files h =
      let (entry, e, h1) = generate-entry config options files h in
      let (replicas, f, all) = generate_for-IsRendered config options entry files h1 in
      (entry, replicas, e, f, all)
