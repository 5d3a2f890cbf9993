-- ===== src/Cluster.antt =====
-- internal/cluster: the kind cluster and the managed registry. The children are named for the files
-- and for what they prove.
pub mod State
pub mod Commands
pub mod Downloader
pub mod Lifecycle
pub mod Stopping
pub mod Lease
pub mod Membership
pub mod Locking
pub mod Ownership
use course_infra.Base.{
  ℕ, String, Bool, true, false, Option, none, some, List, [], ◌∷◌, str_eq, ◌||◌,
}
use course_infra.Base.{if◌then◌else◌}
use course_infra.Errors.{GoError, sentinel, wrap, wrap_two, prerequisite, conflict}
use course_infra.Text.{◌<>◌}

-- constants.go
abbrev pub cluster_name : String
cluster_name = "tripgo-local"

abbrev pub control_plane_container : String
control_plane_container = "tripgo-local-control-plane"

abbrev pub registry_container : String
registry_container = "tripgo-local-registry"

abbrev pub kind_version : String
kind_version = "v0.27.0"

abbrev pub kubernetes_version : String
kubernetes_version = "v1.32.2"

abbrev pub kind_node_image : String
kind_node_image =
    "kindest/node:v1.32.2@sha256:f226345927d7e348497136874b6d207e0b32cc52154ad8323129352923a3142f"

abbrev pub marker_path : String
marker_path = "/etc/tripgoctl/cluster-id"

-- `kindChecksums`
unfoldable pub kind_checksum : String → Option String
kind_checksum platform =
    if str_eq platform "darwin/amd64"
    then some "3435134325b6b9406ccfec417b13bb46a808fc74e9a2ebb0ca31b379c8293863"
    else if str_eq platform "darwin/arm64"
    then some "5240ca1acb587e1d0386532dd8c3373d81f5173b5af322919fc56f0cdd646596"
    else if str_eq platform "linux/amd64"
    then some "a6875aaea358acf0ac07786b1a6755d08fd640f4c79b7a2e46681cc13f49a04b"
    else if str_eq platform "linux/arm64"
    then some "5e4507a41c69679562610b1be82ba4f80693a7826f4e9c6e39236169a3e4f9d0"
    else none

-- The fields of `Service` that are data: the two directories and the platform.
pub record Service : Type 0 where
  pub cache_dir : String
  pub config_dir : String
  pub goos : String
  pub goarch : String

abbrev pub platform : Service → String
platform s = s.goos <> "/" <> s.goarch

abbrev pub state_path : Service → String
state_path s = s.config_dir <> "/cluster-state.json"

abbrev pub lock_path : Service → String
lock_path s = s.config_dir <> "/cluster.lock"

-- `fmt.Errorf("%w: …", ErrConflict)` and `fmt.Errorf("%w: …: %v", ErrConflict, err)`
abbrev pub conflict_error : String → GoError
conflict_error text = wrap text (sentinel conflict)

abbrev pub prerequisite_error : String → GoError
prerequisite_error text = wrap text (sentinel prerequisite)

-- `fmt.Errorf("%w: …: %w", ErrPrerequisite, err)`
abbrev pub prerequisite_of : String → GoError → GoError
prerequisite_of text e = wrap_two text (sentinel prerequisite) e

-- `contains`
unfoldable pub contains : List String → String → Bool
contains [] target = false
contains (value ∷ values) target = str_eq value target || contains values target
