-- ===== src/Tests/Listing.antt =====
-- The theorem on `List` in a world where the cluster is running and the Kubernetes API answers with one
-- environment and with a namespace of another kind.
use course_infra.Base.{◌≡◌, refl, String, List, [], ◌∷◌, pos}
use course_infra.Errors.{ok}
use course_infra.Effects.World.{World}
use course_infra.Effects.{◌>>=◌, maybe, either, refuse, for_each}
use course_infra.Cluster.{kind_version, kubernetes_version, kind_checksum}
use course_infra.Cluster.State.{State, Codec, acquire_lock, load_state}
use course_infra.Cluster.Commands.{
  check_platform, check_docker, command, kind_config, check_marker, verify_registry_ownership,
}
use course_infra.Cluster.Downloader.{ensure_kind}
use course_infra.Cluster.Lifecycle.{verify_state_and_containers, access_kubernetes}
use course_infra.Lab.Operations.{namespace_of}
use course_infra.Lab.Ownership.{verify_namespace}
use course_infra.Lab.Readiness.{status_in}
use course_infra.Lab.{RuntimeStatus}
use course_infra.Lab.Listing.{degraded, list_environments}
use course_infra.Lab.Listing.Contract.{IsListed, list_environments-IsListed}
use course_infra.Tests.Operations.{small_world, service}

abbrev hash : String
hash = "a6875aaea358acf0ac07786b1a6755d08fd640f4c79b7a2e46681cc13f49a04b"

-- Every file has this hash, and the API's marker is that of the state.
abbrev running_world : World
running_world = record small_world {
  sha256 = λ bytes. hash;
  nested_string = λ o path. "c1";
  list = λ t kind place selector. ok ("tripgo-lab-02" ∷ "other" ∷ []);
}

abbrev state : State
state = record {
  schema_version = pos 1;
  cluster_id = "c1";
  kind_version = kind_version;
  kubernetes = kubernetes_version;
  kind_config_hash = hash;
  namespaces = "tripgo-lab-02" ∷ [];
  running_namespaces = [];
}

abbrev json : Codec
json = record { decode = λ bytes. ok state; encode = λ value. ok [] }

abbrev statuses : List RuntimeStatus
statuses = degraded 2 "tripgo-lab-02" ∷ []

list_run : (list_environments running_world json service []).0 ≡ ok statuses
unfolding list_environments ◌>>=◌ maybe either refuse for_each kind_checksum acquire_lock load_state
    check_platform check_docker command kind_config check_marker verify_registry_ownership
    ensure_kind verify_state_and_containers access_kubernetes namespace_of verify_namespace
    status_in
list_run = refl

list_environments-IsListed_example : IsListed running_world json service [] statuses
list_environments-IsListed_example =
    list_environments-IsListed running_world json service statuses [] list_run
