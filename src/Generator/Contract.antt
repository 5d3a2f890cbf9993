-- ===== src/Generator/Contract.antt =====
-- internal/generator/generator.go: for every configuration that is read from an environment.toml the
-- manifests are generated.
use mathlib.Core.Option.{some-injective}
use course_infra.Base.{
  ◌≡◌, ◌≢◌, refl, sym, subst, ap, ◌∙◌, String, true, false, none, List, [], ◌∷◌, inl, inr, arith,
  All, ℤ, pos, eqb_iff, str_eq, eq_iff, map,
}
use course_infra.Errors.{ok}
use course_infra.Catalog.{Port}
use course_infra.Catalog.Environment.{Environment, environment_for_lab, found}
use course_infra.Catalog.Variables.{IsEntry, environment_for_lab_total}
use course_infra.Config.{Config, Document, validate, texts_equal}
use course_infra.Config.Checks.{texts_equal_refl}
use course_infra.Config.Contract.{IsAccepted, validate-IsAccepted}
use course_infra.Generator.{
  namespace_manifest, Options, File, Model, Manifest, Templates, has_key, named_ports, with_images,
  end_line, replicas_of, model_of, all_manifests, render_all, generate_for, generate,
}
use course_infra.Generator.Lookups.{
  IsUsable, file_names, Renders, IsServed, template_images, template_ports, All-map, add_images_ok,
}
use course_infra.Generator.Supply.{IsSupplied, known_lab}

module _ (T : Templates) (render : Renders T) where
  render_all_ok :
      (options : Options) (m : Model) (l : List Port) (items : List Manifest)
      → m.ports ≡ named_ports l
      → All (IsSupplied options l) items
      → (files : List File) × (render_all T options m items ≡ ok files)
        × (map (λ f. f.name) files ≡ map (λ item. item.name) items)
  unfolding render_all
  render_all_ok options m l [] same h = ([], refl, refl)
  render_all_ok options m l (item ∷ items) same (h, k) =
      let (images, e, (old, added)) = add_images_ok options item.images m.images h.references in
      let here = with_images m images in
      let served : IsServed item.template here = (
        All-map (template_images item.template) added h.looked_up,
        subst (λ ps. All (λ name. has_key name ps ≡ true) (template_ports item.template)) (sym same)
            h.ports_lem,
      ) in
      let (bytes, f) = render item.template h.known here served in
      let (files, g, names) = render_all_ok options here l items same k in
      (
        record { name = item.name; content = end_line bytes } ∷ files,
        rw (render_all, e, f, g) refl,
        ap (◌∷◌ item.name) names,
      )

  generate_for_step :
      (config : Config) (options : Options) (entry : Environment) (replicas : ℤ)
      (items : List Manifest)
      → replicas_of options.workload_replicas ≡ ok replicas
      → all_manifests config.components ≡ ok items
      → T.parse_error ≡ none
      → generate_for T config options entry
        ≡ render_all T options (model_of config options entry replicas) (namespace_manifest ∷ items)
  unfolding generate_for
  generate_for_step config options entry replicas items e f g = rw (generate_for, e, f, g) refl

  not_empty : (text : String) → text ≢ "" → str_eq text "" ≡ false
  not_empty text h = ground (arith, eq_iff text "")

  generate_step :
      (d : Document) (config : Config) (options : Options) (entry : Environment)
      → IsAccepted d config
      → IsUsable config.lab options
      → environment_for_lab config.lab ≡ found entry
      → IsEntry config.lab entry
      → generate T config options ≡ generate_for T config options entry
  unfolding generate
  generate_step d config options entry a u e facts =
      let version = not_empty options.tripgoctl_version u.version in
      let cluster = not_empty options.cluster_id u.cluster in
      let schema = (eqb_iff config.schema_version (pos 1)).1 a.schema_version in
      let same = some-injective _ _ (sym a.canonical ∙ facts.components_eq) in
      let normal : texts_equal config.components entry.components ≡ true =
        subst (λ l. texts_equal config.components l ≡ true) same
          (texts_equal_refl config.components) in
      rw (generate, version, cluster, schema, e, normal) refl

  -- For every configuration that is read from a document, with the options that the program passes
  -- (a version, a cluster, 0 or 1 replicas, and from lab 3 on a Push Service image that is pinned in the
  -- managed repository) and templates that parse, each of which renders a model that has the images and
  -- the ports that it looks up, `Generate` succeeds, and the files are those of the components of the
  -- lab, in catalog order: no template is asked for, and no image or port looked up, that is missing.
  pub generate_total :
      (path : String) (d : Document) (config : Config) (options : Options)
      → validate path d ≡ ok config
      → IsUsable config.lab options
      → T.parse_error ≡ none
      → (files : List File) × (generate T config options ≡ ok files)
        × (map (λ f. f.name) files ≡ file_names config.lab)
  unfolding model_of
  generate_total path d config options h u parsed =
      let a = validate-IsAccepted path d config h in
      elim (environment_for_lab_total config.lab) [
        | inl (missing, e) ↦ absurd (cc (missing, a.canonical))
        | inr (entry, e, facts) ↦
            let has = known_lab config options entry.ports u a.canonical facts.ports_eq in
            let (files, f, names) =
              render_all_ok options (model_of config options entry u.replicas) entry.ports
                (namespace_manifest ∷ has.items) refl has.supplied in
            (
              files,
              generate_step d config options entry a u e facts
                  ∙ generate_for_step config options entry u.replicas has.items u.replicas_lem
                      has.result parsed
                  ∙ f,
              names ∙ has.names,
            )
      ]
