-- ===== src/Tests/Operations.antt =====
-- The theorems on internal/cluster and internal/lab at a small world: a manifest of one Deployment, a
-- cluster whose marker is c1, and objects that carry the labels of the first lab.
use course_infra.Base.{
  ◌≡◌, refl, ap, arith, ℕ, String, true, false, none, some, List, [], ◌∷◌, str_eq, pos,
  if◌then◌else◌,
}
use course_infra.Text.{codes}
use course_infra.Errors.{GoError, Result, ok, err, new}
use course_infra.Sorting.{sort}
use course_infra.Effects.World.{Trace, World, resource, file_call, remove}
use course_infra.Config.{Config, Decoded, document}
use course_infra.Cluster.{Service}
use course_infra.Cluster.State.{State, Codec}
use course_infra.Cluster.Ownership.{IsIdentified, stop_owned-IsIdentified}
use course_infra.Cluster.Lifecycle.{start, inspect}
use course_infra.Cluster.Stopping.{stop_owned, stop}
use course_infra.Cluster.Lease.{begin_environment_operation}
use course_infra.Cluster.Locking.{IsUnlocked}
use course_infra.Cluster.Locking.Release.{
  IsHeldAfter, operations-IsUnlocked, begin_environment_operation-IsHeldAfter,
}
use course_infra.Cluster.Membership.{set_membership}
use course_infra.Cluster.Membership.Laws.{IsUpdate, set_membership-IsUpdate}
use course_infra.Lab.Waiting.{
  AreReady, IsAlive, wait_for_workloads-AreReady, wait_for_workloads-at_once,
}
use course_infra.Lab.{workloads, endpoint_services}
use course_infra.Lab.Manifests.{apply_manifest_where}
use course_infra.Lab.Manifests.Patches.{IsJustified, apply_manifest_where-IsJustified}
use course_infra.Lab.Operations.{remove_namespace, status, reset}
use course_infra.Lab.Deletion.{IsSafe, remove_namespace-IsSafe}
use course_infra.Lab.Readiness.{wait_for_workloads, readiness_round, workload_ready, status_with}
use course_infra.Lab.Guards.{changes, status_with-changes}
use course_infra.Lab.Release.{environment_operations-IsUnlocked}
use course_infra.Lab.Coverage.{served, endpoint_names, endpoint_services_complete}
use course_infra.Catalog.Variables.{lab_4}
use course_infra.Config.{itself}
use course_infra.Lab.Files.{env_content, ensure_env_writable, write_env, remove_generated_file}
use course_infra.Lab.Files.Marker.{IsFile, looked_at, written_env-IsOwn, foreign_env-IsKept}

abbrev label_of : String → String
label_of key =
    if str_eq key "app.kubernetes.io/managed-by"
    then "tripgoctl"
    else if str_eq key "app.kubernetes.io/part-of"
    then "tripgo-local"
    else if str_eq key "tripgo.course/lab"
    then "01"
    else if str_eq key "tripgo.course/environment"
    then "tripgo-lab-01"
    else ""

abbrev answer : {A : Type 0} → Result A
answer = err (new "no answer")

-- What Docker and kind print: the marker of the control plane and the labels of the registry.
abbrev output_of : List String → Result String
output_of [] = ok ""
output_of (first ∷ rest) =
    if str_eq first "exec"
    then ok "c1"
    else if str_eq first "inspect"
    then ok "tripgoctl|c1"
    else ok ""

-- Objects are names. All calls succeed but `lstat` and downloads.
abbrev pub small_world : World
small_world = record {
  Object = String;
  label = λ o key. label_of key;
  annotation = λ o key. "c1";
  kind = λ o. "Deployment";
  api_version = λ o. "apps/v1";
  name = λ o. o;
  namespace = λ o. "tripgo-lab-01";
  generation = λ o. pos 1;
  is_deleting = λ o. false;
  nested_int64 = λ o path. pos 1;
  nested_string = λ o path. "";
  nested_map = λ o path. none;
  nested_objects = λ o path. [];
  nested_texts = λ o path. [];
  identity_marker = λ cluster_id. "tripgoctl-cluster-identity";
  documents = λ content. resource "postgres" ∷ [];
  marshal = λ o. ok tt;
  get = λ t kind place name. ok name;
  list = λ t kind place selector. ok [];
  patch = λ t kind place name o. ok tt;
  delete = λ t kind name. ok tt;
  run = λ t name arguments. output_of arguments;
  lstat = λ t path. answer;
  read_file = λ t path. ok [];
  read_dir = λ t path. ok [];
  file_call = λ t c. ok tt;
  temp_name = λ t. "/tmp/file";
  lock = λ t path. ok tt;
  download = λ t url. answer;
  is_busy = λ t port. false;
  random = λ t. ok "c1";
  wait = λ t. some (new "context deadline exceeded");
  context_error = λ t. none;
  is_reporting = λ t. true;
  mentions = λ e text. false;
  sha256 = λ bytes. "";
  rest_config = λ text. ok tt;
  new_client = λ text. ok tt;
}

abbrev pub service : Service
service = record { cache_dir = "/cache"; config_dir = "/config"; goos = "linux"; goarch = "amd64" }

abbrev pub json : Codec
json = record { decode = λ bytes. answer; encode = λ value. ok [] }

abbrev pub decode : List ℕ → Decoded
decode bytes =
    document
      (record { schema_version = pos 1; lab = pos 1; components = "postgres" ∷ []; env = [] })

apply_manifest_where-IsJustified_example :
    IsJustified small_world 1 "tripgo-lab-01" "c1"
      (apply_manifest_where small_world 1 "tripgo-lab-01" "c1" (λ o. true) [] []).1
apply_manifest_where-IsJustified_example =
    apply_manifest_where-IsJustified small_world 1 "tripgo-lab-01" "c1" (λ o. true) [] [] tt

remove_namespace-IsSafe_example :
    IsSafe small_world 1 "tripgo-lab-01" "c1"
      (remove_namespace small_world json service 1 "tripgo-lab-01" "c1" []).1
remove_namespace-IsSafe_example =
    remove_namespace-IsSafe small_world 1 "tripgo-lab-01" "c1" json service [] tt

operations-IsUnlocked_example :
    IsUnlocked small_world (start small_world json service []).1
    × IsUnlocked small_world (inspect small_world json service []).1
    × IsUnlocked small_world (stop small_world json service [] []).1
operations-IsUnlocked_example = operations-IsUnlocked small_world json service [] [] (refl, refl)

abbrev state : State
state = record {
  schema_version = pos 1;
  cluster_id = "c1";
  kind_version = "v0.27.0";
  kubernetes = "v1.32.2";
  kind_config_hash = "";
  namespaces = [];
  running_namespaces = [];
}

stop_owned-IsIdentified_example :
    IsIdentified small_world "c1"
      (stop_owned small_world json service "/cache/kind" [] true true state []).1
stop_owned-IsIdentified_example =
    stop_owned-IsIdentified small_world "c1" json service "/cache/kind" [] true true state [] refl
      tt

begin_environment_operation-IsHeldAfter_example :
    IsHeldAfter small_world (begin_environment_operation small_world json service [])
begin_environment_operation-IsHeldAfter_example =
    begin_environment_operation-IsHeldAfter small_world json service [] (refl, refl)

environment_operations-IsUnlocked_example :
    IsUnlocked small_world (status small_world json service decode "/project" []).1
    × IsUnlocked small_world (reset small_world json service decode "/project" []).1
environment_operations-IsUnlocked_example =
    environment_operations-IsUnlocked small_world json service decode "/project" [] (refl, refl)

status_with-changes_example :
    changes small_world (status_with small_world 1 "c1" []).1 ≡ changes small_world []
status_with-changes_example = status_with-changes small_world 1 "c1" []

set_membership-IsUpdate_example :
    IsUpdate
      ("tripgo-lab-02" ∷ [])
      "tripgo-lab-01"
      true
      (set_membership ("tripgo-lab-02" ∷ []) "tripgo-lab-01" true)
set_membership-IsUpdate_example =
    set_membership-IsUpdate ("tripgo-lab-02" ∷ []) "tripgo-lab-01" true (tt, tt)

endpoint_services_complete_example :
    sort itself (served (endpoint_services 4)) ≡ sort itself (endpoint_names 4)
endpoint_services_complete_example = endpoint_services_complete 4 lab_4

abbrev config : Config
config = record { schema_version = pos 1; lab = 1; components = "postgres" ∷ []; custom_env = [] }

-- The same world, where every path is a regular file with this content.
abbrev world_with : List ℕ → World
world_with content = record small_world {
  lstat = λ t path. ok (record { is_symlink = false; is_regular = true; is_dir = false });
  read_file = λ t path. ok content;
}

IsFile-test : (content : List ℕ) (path : String) → IsFile (world_with content) path content []
IsFile-test content path = record {
  info = record { is_symlink = false; is_regular = true; is_dir = false };
  stat_lem = refl;
  plain = refl;
  read_lem = refl;
}

abbrev own_content : List ℕ
own_content = codes (env_content config "v1.0.0")

written_env-IsOwn_example :
    (ensure_env_writable (world_with own_content) "/project/.env" []
      ≡ (ok tt, looked_at (world_with own_content) "/project/.env" []))
    × ((remove_generated_file (world_with own_content) "/project/.env" []).1
        ≡ file_call (remove "/project/.env")
          ∷ looked_at (world_with own_content) "/project/.env" [])
written_env-IsOwn_example =
    written_env-IsOwn (world_with own_content) config "v1.0.0" "/project/.env" []
      (IsFile-test own_content "/project/.env")

abbrev foreign_content : List ℕ
foreign_content = codes "SECRET=1\n"

foreign_env-IsKept_example :
    ((e : GoError) × (write_env (world_with foreign_content) "/project" config "v1.0.0" []
        ≡ (err e, looked_at (world_with foreign_content) "/project/.env" [])))
    × (remove_generated_file (world_with foreign_content) "/project/.env" []
        ≡ (ok tt, looked_at (world_with foreign_content) "/project/.env" []))
foreign_env-IsKept_example =
    foreign_env-IsKept (world_with foreign_content) config "v1.0.0" "/project" foreign_content []
      (IsFile-test foreign_content "/project/.env") (λ e. ground arith)

postgres_test : AreReady small_world "tripgo-lab-01" (pos 1) (workloads 1) []
unfolding workload_ready workloads
postgres_test = (("postgres", refl, refl), tt)

postgres-IsAlive : IsAlive small_world "tripgo-lab-01" (pos 1) (workloads 1) []
unfolding workloads
postgres-IsAlive = (refl, refl, (λ e. refl))

wait_for_workloads-at_once_example :
    wait_for_workloads small_world "tripgo-lab-01" (workloads 1) (pos 1) []
    ≡ (ok tt, (readiness_round small_world "tripgo-lab-01" (pos 1) (workloads 1) []).1)
wait_for_workloads-at_once_example =
    wait_for_workloads-at_once small_world "tripgo-lab-01" (pos 1) (workloads 1) [] postgres_test
      postgres-IsAlive

wait_test : (wait_for_workloads small_world "tripgo-lab-01" (workloads 1) (pos 1) []).0 ≡ ok tt
wait_test =
    ap (λ r. r.0)
      (wait_for_workloads-at_once small_world "tripgo-lab-01" (pos 1) (workloads 1) [] postgres_test
        postgres-IsAlive)

wait_for_workloads-AreReady_example :
    (v : Trace small_world) × AreReady small_world "tripgo-lab-01" (pos 1) (workloads 1) v
    × ((wait_for_workloads small_world "tripgo-lab-01" (workloads 1) (pos 1) []).1
        ≡ (readiness_round small_world "tripgo-lab-01" (pos 1) (workloads 1) v).1)
wait_for_workloads-AreReady_example =
    wait_for_workloads-AreReady small_world "tripgo-lab-01" (pos 1) (workloads 1) [] wait_test
