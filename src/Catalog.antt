-- ===== src/Catalog.antt =====
-- internal/catalog: the infrastructure contract that is compiled into tripgoctl. A lab that is no
-- key of a Go map is `none`; `Found` also has the panic of `EnvironmentForLab`.
pub mod Environment
pub mod Images
pub mod Ports
pub mod Variables
use course_infra.Base.{
  ℕ, ◌+◌, ◌*◌, String, Bool, true, false, Option, none, some, List, [], ◌∷◌, ◌++◌,
}
use course_infra.Base.{str_eq, leb, ◌==◌, ◌||◌, if◌then◌else◌}
use course_infra.Text.{◌<>◌, itoa, padded}

-- `Component`, a Go string type with four constants.
abbrev pub Component : Type 0
Component = String

abbrev pub postgres : Component
postgres = "postgres"

abbrev pub observability : Component
observability = "observability"

abbrev pub push : Component
push = "push"

abbrev pub redpanda : Component
redpanda = "redpanda"

-- `componentsByLab` and `Components`
unfoldable pub components : ℕ → Option (List Component)
components lab =
    if lab == 1
    then some (postgres ∷ [])
    else if lab == 2
    then some (postgres ∷ observability ∷ [])
    else if lab == 3
    then some (postgres ∷ observability ∷ push ∷ [])
    else if lab == 4
    then some (postgres ∷ observability ∷ push ∷ redpanda ∷ [])
    else if lab == 5
    then some (postgres ∷ observability ∷ push ∷ redpanda ∷ [])
    else none

-- `IsComponent`
unfoldable pub is_component : String → Bool
is_component name =
    str_eq name postgres || str_eq name observability || str_eq name push || str_eq name redpanda

-- `Namespace`
unfoldable pub namespace : ℕ → Option String
unfolding components padded
namespace lab = elim (components lab) [ none ↦ none | some _ ↦ some ("tripgo-lab-" <> padded lab) ]

abbrev pub host_port_base : ℕ
host_port_base = 20000

abbrev pub host_port_lab_step : ℕ
host_port_lab_step = 1000

abbrev pub node_port_base : ℕ
node_port_base = 30000

abbrev pub node_port_lab_step : ℕ
node_port_lab_step = 100

abbrev pub local_registry_host_port : ℕ
local_registry_host_port = 5001

-- `Endpoint`
pub record Endpoint : Type 0 where
  pub name : String
  pub component : Component
  pub host_offset : ℕ
  pub node_port_offset : ℕ
  pub container_port : ℕ

-- `Port`
pub record Port : Type 0 where
  pub endpoint : Endpoint
  pub host_port : ℕ
  pub node_port : ℕ

abbrev endpoint : String → Component → ℕ → ℕ → ℕ → Endpoint
endpoint name component host_offset node_port_offset container_port = record {
  name = name;
  component = component;
  host_offset = host_offset;
  node_port_offset = node_port_offset;
  container_port = container_port;
}

-- `endpoints`
abbrev pub endpoints : List Endpoint
endpoints =
    endpoint "redpanda-console" redpanda 81 1 8080
    ∷ endpoint "redpanda-kafka" redpanda 92 2 9092
    ∷ endpoint "postgres" postgres 32 3 5432
    ∷ endpoint "grafana" observability 300 4 3000
    ∷ endpoint "otel-grpc" observability 317 5 4317
    ∷ endpoint "otel-http" observability 318 6 4318
    ∷ endpoint "jaeger" observability 686 7 16686
    ∷ endpoint "push-http" push 809 8 8090
    ∷ endpoint "push-grpc" push 905 9 9095
    ∷ endpoint "prometheus" observability 909 10 9090
    ∷ []

-- The loop of `Ports`.
abbrev pub resolve : ℕ → List Endpoint → List Port
resolve lab [] = []
resolve lab (e ∷ es) =
    record {
      endpoint = e;
      host_port = host_port_base + lab * host_port_lab_step + e.host_offset;
      node_port = node_port_base + lab * node_port_lab_step + e.node_port_offset;
    }
    ∷ resolve lab es

-- `Ports`
unfoldable pub ports : ℕ → Option (List Port)
unfolding components
ports lab = elim (components lab) [ none ↦ none | some _ ↦ some (resolve lab endpoints) ]

-- The loop of `PortByName`.
unfoldable pub find_port : String → List Port → Option Port
find_port name [] = none
find_port name (p ∷ ps) = if str_eq p.endpoint.name name then some p else find_port name ps

-- `PortByName`
unfoldable pub port_by_name : ℕ → String → Option Port
unfolding ports find_port
port_by_name lab name = elim (ports lab) [ none ↦ none | some ps ↦ find_port name ps ]
