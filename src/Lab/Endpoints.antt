-- ===== src/Lab/Endpoints.antt =====
-- internal/lab/service.go: the check of an endpoint service against the catalog.
use course_infra.Base.{
  ℕ, String, Bool, false, Option, none, some, List, [], ◌∷◌, length, str_eq, ◌==◌, ◌&&◌, ◌||◌, ℤ,
  pos, eqb, if◌then◌else◌,
}
use course_infra.Text.{◌<>◌, lookup}
use course_infra.Errors.{Result, ok, err, new, ◌>>=◌, ◌>>◌}
use course_infra.Effects.World.{World}
use course_infra.Catalog.{port_by_name, Port}
use course_infra.Cluster.{conflict_error}
use course_infra.Lab.{EndpointPort, EndpointService}
use course_infra.Lab.Ownership.{verify_resource_ownership}

-- `unstructured.NestedStringMap` where the error is dropped.
abbrev pub entries : Option (List (String × String)) → List (String × String)
entries none = []
entries (some l) = l

abbrev or_default : String → String → String
or_default text default = if str_eq text "" then default else text

module _ (W : World) where
  -- The inner loop over the service's ports.
  abbrev has_port : EndpointPort → ℤ → List (Option W.Object) → Bool
  has_port wanted node_port [] = false
  has_port wanted node_port (none ∷ ports) = has_port wanted node_port ports
  has_port wanted node_port (some p ∷ ports) =
      (str_eq (W.nested_string p ("name" ∷ [])) wanted.name
        && eqb (W.nested_int64 p ("port" ∷ [])) wanted.service_port
        && eqb (W.nested_int64 p ("nodePort" ∷ [])) node_port
        && str_eq (W.nested_string p ("targetPort" ∷ [])) wanted.target_port)
      || has_port wanted node_port ports

  abbrev of_catalog : Option Port → Result ℤ
  of_catalog none = err (new "unknown catalog endpoint %s")
  of_catalog (some p) = ok (pos p.node_port)

  -- `expectedNodePort`
  abbrev expected_node_port : ℕ → String → EndpointPort → Result ℤ
  expected_node_port lab service_type wanted =
      if str_eq service_type "NodePort"
      then of_catalog (port_by_name lab wanted.catalog_name)
      else ok (pos 0)

  -- The loop over `expected.ports`.
  unfoldable pub verify_ports :
      ℕ → String → List (Option W.Object) → List EndpointPort → Result (Unit {0})
  unfolding port_by_name
  verify_ports lab service_type ports [] = ok tt
  verify_ports lab service_type ports (wanted ∷ rest) =
      let others = verify_ports lab service_type ports rest in
      (expected_node_port lab service_type wanted >>= λ node_port.
      if has_port wanted node_port ports
      then others
      else err (conflict_error "%w: %s service port %s does not match the catalog endpoint"))

  -- The comparison of the service's type, selector and number of ports.
  abbrev matches_service : W.Object → String → String → String → ℕ → Bool
  matches_service service namespace selector service_type count =
      let labels = entries (W.nested_map service ("spec" ∷ "selector" ∷ [])) in
      str_eq (W.nested_string service ("spec" ∷ "type" ∷ [])) service_type
      && str_eq (lookup "app.kubernetes.io/name" labels) selector
      && str_eq (lookup "app.kubernetes.io/instance" labels) (namespace <> "-" <> selector)
      && (length (W.nested_objects service ("spec" ∷ "ports" ∷ [])) == count)

  -- `verifyEndpointService`
  unfoldable pub verify_endpoint_service :
      ℕ → String → String → EndpointService → W.Object → Result (Unit {0})
  unfolding verify_resource_ownership verify_ports
  verify_endpoint_service lab namespace cluster_id expected service =
      let selector = or_default expected.selector_name expected.name in
      let service_type = or_default expected.service_type "NodePort" in
      (verify_resource_ownership W lab namespace cluster_id service
        >> (if matches_service service namespace selector service_type (length expected.ports)
            then verify_ports lab service_type (W.nested_objects service ("spec" ∷ "ports" ∷ []))
                expected.ports
            else err (conflict_error "%w: %s service does not match the catalog endpoint")))
