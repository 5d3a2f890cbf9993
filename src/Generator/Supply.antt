-- ===== src/Generator/Supply.antt =====
-- internal/generator/generator.go and the embedded templates: every manifest of a lab brings along the
-- images and the ports that its template looks up.
use mathlib.Core.Option.{some-injective}
use course_infra.Base.{
  ℕ, ◌≡◌, refl, sym, subst, ◌∙◌, String, true, some, List, [], ◌∷◌, inl, inr, arith, All, map, leb,
}
use course_infra.Errors.{ok}
use course_infra.Catalog.{
  Component, Port, ports, components, postgres, observability, push, redpanda,
}
use course_infra.Catalog.Images.{reference, image_by_name}
use course_infra.Catalog.Variables.{IsLab, lab_1, lab_2, lab_3, lab_4, lab_5, components_cases}
use course_infra.Config.{Config, contains}
use course_infra.Generator.{
  namespace_manifest, Options, Manifest, is_immutable, image_reference, has_key, named_ports, plain,
  manifests_of, all_manifests,
}
use course_infra.Generator.Lookups.{
  IsUsable, file_names, HasReference, template_images, template_ports, template_names,
}

-- What a manifest brings along for its template: references for its images, among which are those that
-- the template looks up.
pub record IsSupplied (options : Options) (ports : List Port) (item : Manifest) : Type 0 where
  pub references : All (HasReference options) item.images
  pub known : contains item.template template_names ≡ true
  pub looked_up : All (λ name. contains name item.images ≡ true) (template_images item.template)
  pub ports_lem :
      All (λ name. has_key name (named_ports ports) ≡ true) (template_ports item.template)

-- The manifests of the components of a lab, each with what its template looks up.
pub record HasManifests (options : Options) (lab : ℕ) (l : List Component) (ports : List Port)
    : Type 0 where
  pub items : List Manifest
  pub result : all_manifests l ≡ ok items
  pub supplied : All (IsSupplied options ports) (namespace_manifest ∷ items)
  pub names : map (λ item. item.name) (namespace_manifest ∷ items) ≡ file_names lab

-- The ports that a template looks up are there.
abbrev HasPorts : List Port → String → Type 0
HasPorts ports template =
    All (λ name. has_key name (named_ports ports) ≡ true) (template_ports template)

push_reference :
    {lab : ℕ} (options : Options)
    → IsUsable lab options
    → leb 3 lab ≡ true
    → HasReference options "push-service"
unfolding image_reference image_by_name reference
push_reference options u h = (options.push_image_reference, ground (arith, u.digest h, u.managed h))

module _ (options : Options) where
  postgres_references : All (HasReference options) ("postgres" ∷ [])
  unfolding image_reference image_by_name reference is_immutable
  postgres_references = ((_, refl), tt)

  observability_references :
      All
        (HasReference options)
        ("otel-collector" ∷ "prometheus" ∷ "grafana" ∷ "jaeger" ∷ "loki" ∷ [])
  unfolding image_reference image_by_name reference is_immutable
  observability_references = ((_, refl), ((_, refl), ((_, refl), ((_, refl), ((_, refl), tt)))))

  redpanda_references : All (HasReference options) ("redpanda" ∷ "redpanda-console" ∷ [])
  unfolding image_reference image_by_name reference is_immutable
  redpanda_references = ((_, refl), ((_, refl), tt))

  namespace-IsSupplied : (ports : List Port) → IsSupplied options ports namespace_manifest
  namespace-IsSupplied ports = record {
    references = tt;
    known = refl;
    looked_up = tt;
    ports_lem = tt;
  }

  postgres-IsSupplied :
      (ports : List Port)
      → HasPorts ports "postgres.yaml.tmpl"
      → IsSupplied options ports (plain "postgres" ("postgres" ∷ []))
  postgres-IsSupplied ports h = record {
    references = postgres_references;
    known = refl;
    looked_up = (refl, tt);
    ports_lem = h;
  }

  observability-IsSupplied :
      (ports : List Port)
      → HasPorts ports "observability.yaml.tmpl"
      → IsSupplied options ports (
          plain "observability"
            ("otel-collector" ∷ "prometheus" ∷ "grafana" ∷ "jaeger" ∷ "loki" ∷ []))
  observability-IsSupplied ports h = record {
    references = observability_references;
    known = refl;
    looked_up = (refl, (refl, (refl, (refl, (refl, tt)))));
    ports_lem = h;
  }

  push-IsSupplied :
      {lab : ℕ} (ports : List Port)
      → IsUsable lab options
      → leb 3 lab ≡ true
      → HasPorts ports "push.yaml.tmpl"
      → IsSupplied options ports (plain "push" ("push-service" ∷ []))
  push-IsSupplied ports u e h = record {
    references = (push_reference options u e, tt);
    known = refl;
    looked_up = (refl, tt);
    ports_lem = h;
  }

  redpanda-IsSupplied :
      (ports : List Port)
      → HasPorts ports "redpanda.yaml.tmpl"
      → IsSupplied options ports (plain "redpanda" ("redpanda" ∷ "redpanda-console" ∷ []))
  redpanda-IsSupplied ports h = record {
    references = redpanda_references;
    known = refl;
    looked_up = (refl, (refl, tt));
    ports_lem = h;
  }

  topics-IsSupplied : (ports : List Port) → IsSupplied options ports (plain "topics" [])
  topics-IsSupplied ports = record { references = tt; known = refl; looked_up = tt; ports_lem = tt }

  broker :
      (lab : ℕ) (ports : List Port)
      → IsUsable lab options
      → leb 3 lab ≡ true
      → file_names lab ≡ file_names 4
      → HasPorts ports "postgres.yaml.tmpl"
      → HasPorts ports "observability.yaml.tmpl"
      → HasPorts ports "push.yaml.tmpl"
      → HasPorts ports "redpanda.yaml.tmpl"
      → HasManifests options lab (postgres ∷ observability ∷ push ∷ redpanda ∷ []) ports
  unfolding all_manifests manifests_of
  broker lab ports u e names p o q r = record {
    items = _;
    result = refl;
    supplied = (
      namespace-IsSupplied ports,
      (
        postgres-IsSupplied ports p,
        (
          observability-IsSupplied ports o,
          (
            push-IsSupplied ports u e q,
            (redpanda-IsSupplied ports r, (topics-IsSupplied ports, tt)),
          ),
        ),
      ),
    );
    names = sym names;
  }

  -- A lab has one list of components and one of ports.
  fixed :
      {lab : ℕ} {k : List Component} {q : List Port}
      → components lab ≡ some k
      → ports lab ≡ some q
      → HasManifests options lab k q
      → (l : List Component) (p : List Port) → components lab ≡ some l
      → ports lab ≡ some p
      → HasManifests options lab l p
  fixed {lab = lab} {k = k} {q = q} hk hq m l p hl hp =
      subst (λ c. HasManifests options lab c p) (some-injective k l (sym hk ∙ hl))
        (subst (HasManifests options lab k) (some-injective q p (sym hq ∙ hp)) m)

  manifests-HasManifests :
      {lab : ℕ}
      → IsLab lab
      → IsUsable lab options
      → (l : List Component) (p : List Port) → components lab ≡ some l
      → ports lab ≡ some p
      → HasManifests options lab l p
  unfolding components ports all_manifests manifests_of
  manifests-HasManifests lab_1 u = fixed {lab = 1} refl refl (record {
    items = _;
    result = refl;
    supplied = (namespace-IsSupplied _, (postgres-IsSupplied _ (refl, tt), tt));
    names = refl;
  })
  manifests-HasManifests lab_2 u = fixed {lab = 2} refl refl (record {
    items = _;
    result = refl;
    supplied = (
      namespace-IsSupplied _,
      (
        postgres-IsSupplied _ (refl, tt),
        (observability-IsSupplied _ (refl, (refl, (refl, (refl, (refl, tt))))), tt),
      ),
    );
    names = refl;
  })
  manifests-HasManifests lab_3 u = fixed {lab = 3} refl refl (record {
    items = _;
    result = refl;
    supplied = (
      namespace-IsSupplied _,
      (
        postgres-IsSupplied _ (refl, tt),
        (
          observability-IsSupplied _ (refl, (refl, (refl, (refl, (refl, tt))))),
          (push-IsSupplied _ u refl (refl, (refl, tt)), tt),
        ),
      ),
    );
    names = refl;
  })
  manifests-HasManifests lab_4 u = fixed {lab = 4} refl refl (
      broker 4 _ u refl refl (refl, tt) (refl, (refl, (refl, (refl, (refl, tt)))))
        (refl, (refl, tt)) (refl, (refl, tt)))
  manifests-HasManifests lab_5 u = fixed {lab = 5} refl refl (
      broker 5 _ u refl refl (refl, tt) (refl, (refl, (refl, (refl, (refl, tt)))))
        (refl, (refl, tt)) (refl, (refl, tt)))

pub known_lab :
    (config : Config) (options : Options) (p : List Port)
    → IsUsable config.lab options
    → components config.lab ≡ some config.components
    → ports config.lab ≡ some p
    → HasManifests options config.lab config.components p
known_lab config options p u h k = elim (components_cases config.lab) [
  | inl e ↦ absurd (cc (e, h))
  | inr i ↦ manifests-HasManifests options i u config.components p h k
]
