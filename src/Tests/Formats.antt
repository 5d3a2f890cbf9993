-- ===== src/Tests/Formats.antt =====
-- The theorems on internal/catalog, internal/environment, internal/boundedio, internal/progress and
-- internal/cli at concrete data.
use mathlib.Core.List.Permᴰ
use course_infra.Base.{
  ◌≡◌, ◌≢◌, ◌↔◌, ◌⊎◌, refl, arith, ℕ, ◌≤◌, ◌<◌, String, true, List, [], ◌∷◌, ◌++◌, take, length,
  ltb, pos, pos_part, none, some,
}
use course_infra.Errors.{
  ok, new, wrap, wrap_two, sentinel, conflict, prerequisite, exit_code, exit_error,
}
use course_infra.Errors.ExitCode.{exit_code-ne-zero, exit_code-prerequisite, wrap_all}
use course_infra.Sorting.Laws.{IsDistinct}
use course_infra.BoundedIo as BoundedIo
use course_infra.BoundedIo.Contract.{sent, write_all-new_buffer}
use course_infra.Progress as Progress
use course_infra.Progress.Output as Output
use course_infra.Progress.Output.{events-write_all, shown_lines, split_lines}
use course_infra.Catalog.{
  Port, components, is_component, ports, find_port, port_by_name, local_registry_host_port,
}
use course_infra.Catalog.Environment.{
  env_for_lab, has_name, is_built_in_env_name, Environment, found, absent, environment_for_lab, ◌≔◌,
}
use course_infra.Catalog.Variables.{IsEntry, environment_for_lab_total}
use course_infra.Catalog.Ports.{host_port-injective, node_port-injective, port_bounds}
use course_infra.Sorting.{sort}
use course_infra.Config.{
  components_of, check_components, check_env, finish, matches_env_name, contains_control, Config,
  Document, Decoded, document, parse, validate, environment_variables,
}
use course_infra.Config.Contract.{
  IsAccepted, parse_iff, validate_reordered, environment_variables-IsDistinct,
}

abbrev pub first_document : Document
first_document = record {
  schema_version = pos 1;
  lab = pos 2;
  components = "observability" ∷ "postgres" ∷ [];
  env = ("GREETING" ≔ "hello") ∷ [];
}

abbrev second_document : Document
second_document = record {
  schema_version = pos 1;
  lab = pos 2;
  components = "postgres" ∷ "observability" ∷ [];
  env = ("GREETING" ≔ "hello") ∷ [];
}

abbrev pub config : Config
config = record {
  schema_version = pos 1;
  lab = 2;
  components = "postgres" ∷ "observability" ∷ [];
  custom_env = ("GREETING" ≔ "hello") ∷ [];
}

abbrev decode : List ℕ → Decoded
decode bytes = document first_document

pub validate_test : validate "environment.toml" first_document ≡ ok config
unfolding validate components_of check_components check_env finish is_component matches_env_name
    is_built_in_env_name contains_control sort environment_for_lab components env_for_lab has_name
validate_test = refl

parse_iff_example :
    (parse decode "environment.toml" [] ≡ ok config)
    ↔ ((d : Document) × (decode [] ≡ document d) × IsAccepted d config)
parse_iff_example = parse_iff decode "environment.toml" [] config

validate_reordered_example : validate "environment.toml" second_document ≡ ok config
validate_reordered_example =
    validate_reordered "environment.toml" first_document second_document config validate_test refl
      refl (Permᴰ.swap refl refl) (Permᴰ.refl _) (tt, tt)

environment_variables-IsDistinct_example :
    (e : Environment) × (environment_for_lab config.lab ≡ found e)
    × (environment_variables config ≡ e.env ++ config.custom_env)
    × IsDistinct (λ v. v.name) (environment_variables config)
environment_variables-IsDistinct_example =
    environment_variables-IsDistinct "environment.toml" first_document config validate_test (tt, tt)

environment_for_lab_total_example :
    ((components 4 ≡ none) × (environment_for_lab 4 ≡ absent))
    ⊎ ((e : Environment) × (environment_for_lab 4 ≡ found e) × IsEntry 4 e)
environment_for_lab_total_example = environment_for_lab_total 4

exit_code-ne-zero_example :
    (exit_code (some (wrap "start: %w" (exit_error 2 (new "usage")))) ≢ 0) × (exit_code none ≡ 0)
exit_code-ne-zero_example =
    exit_code-ne-zero (wrap "start: %w" (exit_error 2 (new "usage"))) (λ e. absurd (omega arith))

exit_code-prerequisite_example :
    exit_code (
      some (
        wrap_all
          ("start: %w" ∷ [])
          (wrap_two "%w: %w" (sentinel prerequisite) (sentinel conflict))))
    ≡ 3
exit_code-prerequisite_example =
    exit_code-prerequisite ("start: %w" ∷ []) "%w: %w" (sentinel conflict)

write_all-new_buffer_example :
    let b = BoundedIo.write_all ((1 ∷ 2 ∷ []) ∷ (3 ∷ 4 ∷ []) ∷ []) (BoundedIo.new_buffer (pos 3)) in
    (b.bytes ≡ take (pos_part (pos 3)) (sent ((1 ∷ 2 ∷ []) ∷ (3 ∷ 4 ∷ []) ∷ [])))
    × (b.truncated ≡ ltb (pos_part (pos 3)) (length (sent ((1 ∷ 2 ∷ []) ∷ (3 ∷ 4 ∷ []) ∷ []))))
    × ((BoundedIo.write (5 ∷ []) b).1 ≡ 1)
write_all-new_buffer_example =
    write_all-new_buffer (pos 3) ((1 ∷ 2 ∷ []) ∷ (3 ∷ 4 ∷ []) ∷ []) (5 ∷ [])

events-write_all_example :
    (Progress.close (
      Output.write_all
        ((104 ∷ 105 ∷ []) ∷ (10 ∷ 33 ∷ []) ∷ [])
        (Progress.new_line_writer true))).events
    ≡ shown_lines true (split_lines (sent ((104 ∷ 105 ∷ []) ∷ (10 ∷ 33 ∷ []) ∷ [])))
events-write_all_example = events-write_all true ((104 ∷ 105 ∷ []) ∷ (10 ∷ 33 ∷ []) ∷ [])

abbrev database : Port
database = record {
  endpoint = record {
    name = "postgres";
    component = "postgres";
    host_offset = 32;
    node_port_offset = 3;
    container_port = 5432;
  };
  host_port = 22032;
  node_port = 30203;
}

port_test : port_by_name 2 "postgres" ≡ some database
unfolding port_by_name ports find_port components
port_test = refl

host_port-injective_example : (◌≡◌ {A = ℕ} 2 2) × (◌≡◌ {A = String} "postgres" "postgres")
host_port-injective_example =
    host_port-injective 2 2 "postgres" "postgres" database database port_test port_test refl

node_port-injective_example : (◌≡◌ {A = ℕ} 2 2) × (◌≡◌ {A = String} "postgres" "postgres")
node_port-injective_example =
    node_port-injective 2 2 "postgres" "postgres" database database port_test port_test refl

port_bounds_example :
    ((1 ≤ 2) × (2 ≤ 5))
    × ((1024 ≤ 22032) × (22032 < 65536) × (22032 ≢ local_registry_host_port))
    × ((30000 ≤ 30203) × (30203 ≤ 32767))
port_bounds_example = port_bounds 2 "postgres" database port_test
