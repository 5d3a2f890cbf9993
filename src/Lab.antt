-- ===== src/Lab.antt =====
-- internal/lab/service.go: the environment of a lab, its workloads and its endpoint services. Progress
-- reports and the pod diagnostics, which decide nothing, are not modelled.
pub mod Ownership
pub mod Endpoints
pub mod Redpanda
pub mod Readiness
pub mod Manifests
pub mod Files
pub mod Operations
pub mod Lifecycle
pub mod Listing
pub mod Changes
pub mod Outputs
pub mod Transitions
pub mod Coverage
pub mod Reads
pub mod Guards
pub mod Release
pub mod Deletion
pub mod Waiting
use course_infra.Base.{
  ℕ, String, Bool, true, false, List, [], ◌∷◌, ◌++◌, leb, if◌then◌else◌, ℤ, pos, map,
}
use course_infra.Effects.World.{Resource, deployments, stateful_sets}

abbrev pub env_marker : String
env_marker = "# Generated by tripgoctl. Do not edit manually."

-- `ComponentStatus`
pub record ComponentStatus : Type 0 where
  pub name : String
  pub desired : ℤ
  pub ready : ℤ
  pub image_digest : String

-- `RuntimeStatus`
pub record RuntimeStatus : Type 0 where
  pub lab : ℕ
  pub namespace : String
  pub state : String
  pub components : List ComponentStatus

-- `endpointPort`
pub record EndpointPort : Type 0 where
  pub name : String
  pub catalog_name : String
  pub service_port : ℤ
  pub target_port : String

-- `endpointService`; an empty type means NodePort.
pub record EndpointService : Type 0 where
  pub name : String
  pub selector_name : String
  pub service_type : String
  pub ports : List EndpointPort

-- `workload`
pub record Workload : Type 0 where
  pub name : String
  pub resource : Resource

abbrev deployment : String → Workload
deployment name = record { name = name; resource = deployments }

abbrev stateful_set : String → Workload
stateful_set name = record { name = name; resource = stateful_sets }

-- `workloads`
unfoldable pub workloads : ℕ → List Workload
workloads lab =
    (deployment "postgres" ∷ [])
    ++ (if leb 2 lab
        then map deployment ("otel-collector" ∷ "jaeger" ∷ "prometheus" ∷ "grafana" ∷ "loki" ∷ [])
        else [])
    ++ (if leb 3 lab then deployment "push-service" ∷ [] else [])
    ++ (if leb 4 lab
        then stateful_set "redpanda"
          ∷ deployment "redpanda-console"
          ∷ deployment "redpanda-topic-reconciler"
          ∷ []
        else [])

abbrev port : String → String → ℕ → String → EndpointPort
port name catalog_name service_port target_port = record {
  name = name;
  catalog_name = catalog_name;
  service_port = pos service_port;
  target_port = target_port;
}

abbrev service : String → String → String → List EndpointPort → EndpointService
service name selector_name service_type ports = record {
  name = name;
  selector_name = selector_name;
  service_type = service_type;
  ports = ports;
}

-- `endpointServices`
unfoldable pub endpoint_services : ℕ → List EndpointService
endpoint_services lab =
    (service "postgres" "" "" (port "postgres" "postgres" 5432 "postgres" ∷ []) ∷ [])
    ++ (if leb 2 lab
        then service "otel-collector" "" "" (
            port "otlp-grpc" "otel-grpc" 4317 "otlp-grpc"
            ∷ port "otlp-http" "otel-http" 4318 "otlp-http"
            ∷ [])
          ∷ service "jaeger" "" "" (port "ui" "jaeger" 16686 "ui" ∷ [])
          ∷ service "prometheus" "" "" (port "http" "prometheus" 9090 "http" ∷ [])
          ∷ service "grafana" "" "" (port "http" "grafana" 3000 "http" ∷ [])
          ∷ service "otel-collector-metrics" "otel-collector" "ClusterIP"
              (port "prometheus" "" 8889 "prometheus" ∷ [])
          ∷ service "jaeger-otlp" "jaeger" "ClusterIP" (port "otlp-grpc" "" 4317 "otlp-grpc" ∷ [])
          ∷ service "loki" "" "ClusterIP" (port "http" "" 3100 "http" ∷ [])
          ∷ []
        else [])
    ++ (if leb 3 lab
        then service "push-service" "" ""
            (port "http" "push-http" 8090 "http" ∷ port "grpc" "push-grpc" 9095 "grpc" ∷ [])
          ∷ []
        else [])
    ++ (if leb 4 lab
        then service "redpanda-external" "redpanda" ""
            (port "kafka-external" "redpanda-kafka" 19092 "kafka-external" ∷ [])
          ∷ service "redpanda-console" "" "" (port "http" "redpanda-console" 8080 "http" ∷ [])
          ∷ []
        else [])
