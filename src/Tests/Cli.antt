-- ===== src/Tests/Cli.antt =====
-- The theorems on the commands at concrete data: a terminal on which `yes` is typed.
use course_infra.Base.{◌≡◌, refl, true, false, none, [], ◌∷◌}
use course_infra.Errors.{ok, err, new}
use course_infra.Cluster.Lifecycle.{Status}
use course_infra.Cli.{Dependencies, is_exact_yes}
use course_infra.Cli.Commands.{stop_command, reset_command}
use course_infra.Cli.Confirmation.{IsConfirmed, commands-IsConfirmed}

abbrev cluster_status : Status
cluster_status = record {
  cluster_id = "c1";
  ready = true;
  registry_ready = true;
  kind_version = "v0";
  kubernetes = "v1";
  kind_config_hash = "h";
  known_namespaces = "tripgo-lab-02" ∷ "tripgo-lab-01" ∷ [];
  running_namespaces = [];
}

abbrev dependencies : Dependencies
dependencies = record {
  is_terminal = true;
  has_environment = true;
  version = "v1";
  cluster_start = λ t. ok cluster_status;
  cluster_inspect = λ t. ok cluster_status;
  cluster_stop = λ t namespaces. ok tt;
  working_directory = λ t. ok "/project";
  configured_lab = λ t cwd. ok 2;
  environment_start = λ t cwd version. err (new "not used");
  environment_status = λ t cwd. err (new "not used");
  environment_stop = λ t cwd version. err (new "not used");
  environment_reset = λ t cwd. ok tt;
  environment_list = λ t. ok [];
  parse_config = λ t cwd. err (new "not used");
  print = λ t text. ok tt;
  read_line = λ t. ("yes\n", none);
}

yes_with_line_ends : is_exact_yes "yes\r\n" ≡ true
unfolding is_exact_yes
yes_with_line_ends = refl

no_other_word : is_exact_yes "YES\n" ≡ false
unfolding is_exact_yes
no_other_word = refl

commands-IsConfirmed_example :
    IsConfirmed dependencies false (stop_command dependencies false []).1
    × IsConfirmed dependencies false (reset_command dependencies false []).1
commands-IsConfirmed_example = commands-IsConfirmed dependencies false [] tt
