-- ===== src/Tests/Generation.antt =====
-- The theorems on the generator, and on `Start` and `Stop` of an environment, at concrete data.
use course_infra.Base.{◌≡◌, refl, arith, none, List, [], ℤ, pos, map, All, eq_iff}
use course_infra.Errors.{ok}
use course_infra.Text.{codes}
use course_infra.Catalog.Environment.{Environment, environment_for_lab, found}
use course_infra.Generator.{Options, File, Templates, replicas_of, model_of, generate}
use course_infra.Generator.Lookups.{IsUsable, Renders, file_names}
use course_infra.Generator.Contract.{generate_total}
use course_infra.Generator.Rendered.{IsRendered, generate-IsRendered}
use course_infra.Cluster.Locking.{IsUnlocked}
use course_infra.Lab.Lifecycle.{start_environment, stop_environment, deploy, scale_down}
use course_infra.Lab.Listing.{list_environments}
use course_infra.Lab.Manifests.Patches.{IsJustified}
use course_infra.Lab.Transitions.{transitions-IsUnlocked, deploy-IsJustified}
use course_infra.Tests.Images.{provider}
use course_infra.Tests.Operations.{small_world, json, service, decode}
use course_infra.Tests.Formats.{first_document, config, validate_test}

abbrev templates : Templates
templates = record { parse_error = none; execute = λ name m. ok (codes name) }

render : Renders templates
render name known m served = (codes name, refl)

abbrev options : Options
options = record {
  tripgoctl_version = "v1";
  cluster_id = "c1";
  push_image_reference = "";
  workload_replicas = none;
}

options-IsUsable : IsUsable 2 options
unfolding replicas_of
options-IsUsable = record {
  version = λ e. ground (arith, (eq_iff "v1" "").1 e);
  cluster = λ e. ground (arith, (eq_iff "c1" "").1 e);
  replicas = pos 1;
  replicas_lem = refl;
  digest = λ e. ground (arith, e);
  managed = λ e. ground (arith, e);
}

generate_total_example :
    (files : List File) × (generate templates config options ≡ ok files)
    × (map (λ f. f.name) files ≡ file_names 2)
generate_total_example =
    generate_total templates render "environment.toml" first_document config options validate_test
      options-IsUsable refl

generated :
    (files : List File) × (generate templates config options ≡ ok files)
    × (map (λ f. f.name) files ≡ file_names 2)
generated =
    generate_total templates render "environment.toml" first_document config options validate_test
      options-IsUsable refl

abbrev files : List File
files = generated.0

generate-IsRendered_example :
    (entry : Environment) × (replicas : ℤ) × (environment_for_lab 2 ≡ found entry)
    × (replicas_of none ≡ ok replicas)
    × All (IsRendered templates (model_of config options entry replicas)) files
generate-IsRendered_example = generate-IsRendered templates config options files generated.1

transitions-IsUnlocked_example :
    IsUnlocked small_world
      (start_environment small_world templates json service decode provider "/project" "v1" []).1
    × IsUnlocked small_world
        (stop_environment small_world templates json service decode "/project" "v1" []).1
    × IsUnlocked small_world (list_environments small_world json service []).1
transitions-IsUnlocked_example =
    transitions-IsUnlocked small_world templates json service decode provider "/project" "v1" []
      (refl, refl)

deploy-IsJustified_example :
    IsJustified small_world 2 "tripgo-lab-02" "c1"
      (deploy small_world templates provider config "v1" "tripgo-lab-02" "c1" []).1
    × IsJustified small_world 2 "tripgo-lab-02" "c1"
        (scale_down small_world templates config "v1" "tripgo-lab-02" "c1" []).1
deploy-IsJustified_example =
    deploy-IsJustified small_world templates provider config "v1" "tripgo-lab-02" "c1" [] tt
