-- ===== src/Catalog/Ports.antt =====
-- internal/catalog/ports.go: the port ranges of the labs.
use mathlib.Core.Option.{some-injective}
use course_infra.Base.{
  ℕ, ◌+◌, ◌*◌, ◌≤◌, ◌<◌, ◌≡◌, ◌≢◌, refl, ap, subst, ◌∙◌, sym, String, Option-cases, none, some,
  List, [], ◌∷◌, arith, All, Bool-cases, inl, inr, str_eq, eq_iff, ◌==◌, if◌then◌else◌,
}
use course_infra.Catalog.{
  Component, Port, components, endpoints, resolve, ports, find_port, port_by_name,
  local_registry_host_port,
}

-- The endpoint that has a host offset, and the one that has a node port offset.
abbrev name_at : ℕ → String
name_at n =
    if n == 81
    then "redpanda-console"
    else if n == 92
    then "redpanda-kafka"
    else if n == 32
    then "postgres"
    else if n == 300
    then "grafana"
    else if n == 317
    then "otel-grpc"
    else if n == 318
    then "otel-http"
    else if n == 686
    then "jaeger"
    else if n == 809
    then "push-http"
    else if n == 905
    then "push-grpc"
    else "prometheus"

abbrev node_name_at : ℕ → String
node_name_at n =
    if n == 1
    then "redpanda-console"
    else if n == 2
    then "redpanda-kafka"
    else if n == 3
    then "postgres"
    else if n == 4
    then "grafana"
    else if n == 5
    then "otel-grpc"
    else if n == 6
    then "otel-http"
    else if n == 7
    then "jaeger"
    else if n == 8
    then "push-http"
    else if n == 9
    then "push-grpc"
    else "prometheus"

record IsPlaced (lab : ℕ) (p : Port) : Type 0 where
  host : p.host_port ≡ 20000 + lab * 1000 + p.endpoint.host_offset
  host_room : p.endpoint.host_offset < 1000
  node : p.node_port ≡ 30000 + lab * 100 + p.endpoint.node_port_offset
  node_room : p.endpoint.node_port_offset < 100
  host_name : name_at p.endpoint.host_offset ≡ p.endpoint.name
  node_name : node_name_at p.endpoint.node_port_offset ≡ p.endpoint.name

placed :
    (lab h n c : ℕ) (s k : String)
    → h < 1000
    → n < 100
    → name_at h ≡ s
    → node_name_at n ≡ s
    → IsPlaced lab (record {
      endpoint = record {
        name = s;
        component = k;
        host_offset = h;
        node_port_offset = n;
        container_port = c;
      };
      host_port = 20000 + lab * 1000 + h;
      node_port = 30000 + lab * 100 + n;
    })
placed lab h n c s k r q e f = record {
  host = refl;
  host_room = r;
  node = refl;
  node_room = q;
  host_name = e;
  node_name = f;
}

resolve-IsPlaced : (lab : ℕ) → All (IsPlaced lab) (resolve lab endpoints)
resolve-IsPlaced lab = (
  placed lab 81 1 8080 _ _ (omega arith) (omega arith) refl refl,
  (
    placed lab 92 2 9092 _ _ (omega arith) (omega arith) refl refl,
    (
      placed lab 32 3 5432 _ _ (omega arith) (omega arith) refl refl,
      (
        placed lab 300 4 3000 _ _ (omega arith) (omega arith) refl refl,
        (
          placed lab 317 5 4317 _ _ (omega arith) (omega arith) refl refl,
          (
            placed lab 318 6 4318 _ _ (omega arith) (omega arith) refl refl,
            (
              placed lab 686 7 16686 _ _ (omega arith) (omega arith) refl refl,
              (
                placed lab 809 8 8090 _ _ (omega arith) (omega arith) refl refl,
                (
                  placed lab 905 9 9095 _ _ (omega arith) (omega arith) refl refl,
                  (placed lab 909 10 9090 _ _ (omega arith) (omega arith) refl refl, tt),
                ),
              ),
            ),
          ),
        ),
      ),
    ),
  ),
)

find_port-All :
    (P : Port → Type 0) (name : String) (ps : List Port) {p : Port}
    → All P ps
    → find_port name ps ≡ some p
    → P p × (p.endpoint.name ≡ name)
unfolding find_port
find_port-All P name [] h e = cc
find_port-All P name (q ∷ ps) {p} h e = elim (Bool-cases (str_eq q.endpoint.name name)) [
  | inl t ↦
      let same : q ≡ p = some-injective q p (rw (t, find_port) at e) in
      (subst P same h.0, ap (λ r. r.endpoint.name) (sym same) ∙ (eq_iff q.endpoint.name name).0 t)
  | inr t ↦ find_port-All P name ps h.1 (rw (t, find_port) at e)
]

pub components_bounds :
    (lab : ℕ) {l : List Component} → components lab ≡ some l → (1 ≤ lab) × (lab ≤ 5)
unfolding components
components_bounds lab h = ground arith

port_by_name-IsPlaced :
    (lab : ℕ) (name : String) (p : Port)
    → port_by_name lab name ≡ some p
    → IsPlaced lab p × (p.endpoint.name ≡ name) × (1 ≤ lab) × (lab ≤ 5)
unfolding port_by_name
port_by_name-IsPlaced lab name p h = elim (Option-cases (components lab)) [
  | inl e ↦ absurd (absent e)
  | inr (l, e) ↦
      let (placed, named) =
        find_port-All (IsPlaced lab) name (resolve lab endpoints) (resolve-IsPlaced lab)
          (rw (e, port_by_name, ports) at h) in
      let (low, high) = components_bounds lab e in (placed, named, low, high)
]
  where
    absent : components lab ≡ none → ⊥
    absent e = cc (rw (e, port_by_name, ports) at h)

-- Two endpoints of any two labs that share a host port are the same endpoint of the same lab.
pub host_port-injective :
    (lab m : ℕ) (name other : String) (p q : Port)
    → port_by_name lab name ≡ some p
    → port_by_name m other ≡ some q
    → p.host_port ≡ q.host_port
    → (lab ≡ m) × (name ≡ other)
host_port-injective lab m name other p q h k e =
    let (a, b, c, d) = port_by_name-IsPlaced lab name p h in
    let (a', b', c', d') = port_by_name-IsPlaced m other q k in
    (
      omega arith,
      sym b
          ∙ sym a.host_name
          ∙ ap name_at (let f : p.endpoint.host_offset ≡ q.endpoint.host_offset = omega arith in f)
          ∙ a'.host_name
          ∙ b',
    )

-- Two endpoints of any two labs that share a node port are the same endpoint of the same lab.
pub node_port-injective :
    (lab m : ℕ) (name other : String) (p q : Port)
    → port_by_name lab name ≡ some p
    → port_by_name m other ≡ some q
    → p.node_port ≡ q.node_port
    → (lab ≡ m) × (name ≡ other)
node_port-injective lab m name other p q h k e =
    let (a, b, c, d) = port_by_name-IsPlaced lab name p h in
    let (a', b', c', d') = port_by_name-IsPlaced m other q k in
    (
      omega arith,
      sym b
          ∙ sym a.node_name
          ∙ ap node_name_at
              (let f : p.endpoint.node_port_offset ≡ q.endpoint.node_port_offset = omega arith in f)
          ∙ a'.node_name
          ∙ b',
    )

-- A resolved endpoint belongs to a lab from 1 through 5, its host port is a TCP port that is not
-- the local registry's, and its node port lies in the range of Kubernetes, 30000 to 32767.
pub port_bounds :
    (lab : ℕ) (name : String) (p : Port)
    → port_by_name lab name ≡ some p
    → ((1 ≤ lab) × (lab ≤ 5))
      × ((1024 ≤ p.host_port) × (p.host_port < 65536) × (p.host_port ≢ local_registry_host_port))
      × ((30000 ≤ p.node_port) × (p.node_port ≤ 32767))
port_bounds lab name p h = let (a, b, c, d) = port_by_name-IsPlaced lab name p h in omega arith
