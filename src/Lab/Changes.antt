-- ===== src/Lab/Changes.antt =====
-- internal/lab/service.go: `Start` and `Stop` of an environment. Their parts on the cluster keep what
-- reads, patches and the image provider keep; they hold the operation lock, and patch only after a read.
use course_infra.Base.{refl, inl, inr, Bool-cases, ℕ, String, Bool, true, List, [], ◌∷◌, ℤ, leb}
use course_infra.Errors.{wrap}
use course_infra.Effects.{pure, map_err}
use course_infra.Effects.Keeps.{
  Keeps, Keeps-call, Keeps-bind, Keeps-fail, Keeps-pure, Keeps-for_each, Keeps-map_err, Keeps-if,
  keeps_rules,
}
use course_infra.Effects.World.{
  World, Trace, check_context, ManifestDocument, broken, blank, invalid, resource,
}
use course_infra.Config.{Config}
use course_infra.Generator.{Templates, File}
use course_infra.PushImage.{Provider, ensure}
use course_infra.Lab.{Workload}
use course_infra.Lab.Ownership.{verify_workload_ownership}
use course_infra.Lab.Readiness.{
  check_alive, check_report, readiness_round, all_workloads_ready, wait_for_workloads,
  readiness_rounds,
}
use course_infra.Lab.Manifests.{
  check_existing, verify_object, verify_documents, verify_manifest_bundle_ownership,
  apply_manifest_where, apply_manifest,
}
use course_infra.Lab.Lifecycle.{
  check_namespace, prepare_image, apply_bundle, deploy, deployed_image, scale_bundle, scale_down,
}
use course_infra.Lab.Reads.{
  IsReadable, get_object-Keeps, verify_namespace-Keeps, verify_redpanda_resources-Keeps, poll-Keeps,
}

module _ (W : World) (P : Trace W → Type 0) (reads : IsReadable W P) where
  verify_object-Keeps :
      (lab : ℕ) (name cluster_id : String) (object : W.Object)
      → Keeps P (verify_object W lab name cluster_id object)
  unfolding verify_object check_existing
  verify_object-Keeps lab name cluster_id object =
      search (keeps_rules, get_object-Keeps W P reads) depth 20

  verify_documents-Keeps :
      (lab : ℕ) (name cluster_id : String) (documents : List (ManifestDocument W.Object))
      → Keeps P (verify_documents W lab name cluster_id documents)
  unfolding verify_documents
  verify_documents-Keeps lab name cluster_id [] = Keeps-pure tt
  verify_documents-Keeps lab name cluster_id (broken e ∷ rest) = Keeps-fail _
  verify_documents-Keeps lab name cluster_id (blank ∷ rest) =
      verify_documents-Keeps lab name cluster_id rest
  verify_documents-Keeps lab name cluster_id (invalid e ∷ rest) = Keeps-fail _
  verify_documents-Keeps lab name cluster_id (resource object ∷ rest) =
      Keeps-bind _ _ (verify_object-Keeps lab name cluster_id object)
        (λ _. verify_documents-Keeps lab name cluster_id rest)

  bundle-Keeps :
      (lab : ℕ) (name cluster_id : String) (files : List File)
      → Keeps P (verify_manifest_bundle_ownership W lab name cluster_id files)
  unfolding verify_manifest_bundle_ownership
  bundle-Keeps lab name cluster_id files =
      Keeps-for_each files _
        (λ file. verify_documents-Keeps lab name cluster_id (W.documents file.content))

  check_alive-Keeps : Keeps P (check_alive W)
  unfolding check_alive
  check_alive-Keeps = Keeps-call check_context _ (reads check_context refl)

  check_report-Keeps : Keeps P (check_report W)
  unfolding check_report pure
  check_report-Keeps = record {
    at = λ t h. elim (Bool-cases (W.is_reporting t)) [
      | inl e ↦ rw e (check_alive-Keeps.at t h)
      | inr e ↦ rw e h
    ];
  }

  all_workloads_ready-Keeps :
      (name : String) (expected : ℤ) (items : List Workload)
      → Keeps P (all_workloads_ready W name expected items)
  unfolding all_workloads_ready
  all_workloads_ready-Keeps name expected [] = Keeps-pure true
  all_workloads_ready-Keeps name expected (item ∷ items) = Keeps-bind _ _ check_alive-Keeps (λ _.
      Keeps-bind _ _ (search (keeps_rules, get_object-Keeps W P reads)) (λ object.
        Keeps-bind _ _ check_alive-Keeps (λ _.
          Keeps-bind _ _ (all_workloads_ready-Keeps name expected items)
            (λ others. search (keeps_rules)))))

  readiness_round-Keeps :
      (name : String) (expected : ℤ) (items : List Workload)
      → Keeps P (readiness_round W name expected items)
  unfolding readiness_round
  readiness_round-Keeps name expected items =
      Keeps-bind _ _ (all_workloads_ready-Keeps name expected items)
        (λ is_ready. Keeps-bind _ _ check_report-Keeps (λ _. Keeps-pure is_ready))

  wait_for_workloads-Keeps :
      (name : String) (items : List Workload) (expected : ℤ)
      → Keeps P (wait_for_workloads W name items expected)
  unfolding wait_for_workloads
  wait_for_workloads-Keeps name items expected =
      Keeps-map_err _ _
        (poll-Keeps W P reads readiness_rounds _ (readiness_round-Keeps name expected items))

  workload_ownership-Keeps :
      (lab : ℕ) (name cluster_id : String)
      → Keeps P (verify_workload_ownership W lab name cluster_id)
  unfolding verify_workload_ownership
  workload_ownership-Keeps lab name cluster_id =
      search (keeps_rules, get_object-Keeps W P reads) depth 20

  check_namespace-Keeps :
      (T : Templates) (lab : ℕ) (name cluster_id : String)
      → Keeps P (check_namespace W T lab name cluster_id)
  unfolding check_namespace
  check_namespace-Keeps T lab name cluster_id =
      search (keeps_rules, get_object-Keeps W P reads, verify_namespace-Keeps W P reads) depth 20

  deployed_image-Keeps :
      (T : Templates) (lab : ℕ) (name cluster_id : String)
      → Keeps P (deployed_image W T lab name cluster_id)
  unfolding deployed_image
  deployed_image-Keeps T lab name cluster_id =
      search (keeps_rules, get_object-Keeps W P reads) depth 20

  module _ (T : Templates) (lab : ℕ) (name cluster_id : String)
      (applies : (include : W.Object → Bool) (content : List ℕ)
        → Keeps P (apply_manifest_where W lab name cluster_id include content)) where
    apply_bundle-Keeps : (files : List File) → Keeps P (apply_bundle W T lab name cluster_id files)
    unfolding apply_bundle apply_manifest
    apply_bundle-Keeps files = search (keeps_rules, applies) depth 20

    scale_bundle-Keeps : (files : List File) → Keeps P (scale_bundle W T lab name cluster_id files)
    unfolding scale_bundle
    scale_bundle-Keeps files = search (keeps_rules, applies) depth 20

  prepare_image-Keeps :
      (T : Templates) (images : Provider) (lab : ℕ)
      → Keeps P (ensure W images)
      → Keeps P (prepare_image W T images lab)
  unfolding prepare_image
  prepare_image-Keeps T images lab image =
      Keeps-if (leb 3 lab) (map_err (wrap "prepare local Push Service image: %w") (ensure W images))
        (pure "") (λ _. Keeps-map_err _ _ image) (λ _. Keeps-pure "")

  pub deploy-Keeps :
      (T : Templates) (images : Provider) (config : Config) (version name cluster_id : String)
      → ((include : W.Object → Bool) (content : List ℕ)
          → Keeps P (apply_manifest_where W config.lab name cluster_id include content))
      → Keeps P (ensure W images)
      → Keeps P (deploy W T images config version name cluster_id)
  unfolding deploy
  deploy-Keeps T images config version name cluster_id applies image =
      Keeps-bind _ _ (check_namespace-Keeps T config.lab name cluster_id) (λ _.
        Keeps-bind _ _ (prepare_image-Keeps T images config.lab image) (λ reference.
          Keeps-bind _ _ (search (keeps_rules)) (λ files.
            Keeps-bind _ _ (bundle-Keeps config.lab name cluster_id files) (λ _.
              Keeps-bind _ _ (apply_bundle-Keeps T config.lab name cluster_id applies files)
                (λ _. search (keeps_rules, wait_for_workloads-Keeps) depth 20)))))

  pub scale_down-Keeps :
      (T : Templates) (config : Config) (version name cluster_id : String)
      → ((include : W.Object → Bool) (content : List ℕ)
          → Keeps P (apply_manifest_where W config.lab name cluster_id include content))
      → Keeps P (scale_down W T config version name cluster_id)
  unfolding scale_down
  scale_down-Keeps T config version name cluster_id applies =
      search
        (
          keeps_rules,
          verify_namespace-Keeps W P reads,
          workload_ownership-Keeps,
          verify_redpanda_resources-Keeps W P reads,
          deployed_image-Keeps,
          bundle-Keeps,
          wait_for_workloads-Keeps,
          scale_bundle-Keeps T config.lab name cluster_id applies,
        )
        depth 24
