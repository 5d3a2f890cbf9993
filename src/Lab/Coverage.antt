-- ===== src/Lab/Coverage.antt =====
-- internal/lab/service.go: the endpoint services against internal/catalog.
use course_infra.Base.{◌≡◌, refl, ℕ, String, none, some, List, [], ◌∷◌, ◌++◌, str_eq, if◌then◌else◌}
use course_infra.Catalog.{Endpoint, endpoints, components}
use course_infra.Catalog.Variables.{IsLab, lab_1, lab_2, lab_3, lab_4, lab_5}
use course_infra.Cluster.{contains}
use course_infra.Config.{itself}
use course_infra.Sorting.{sort}
use course_infra.Lab.{EndpointPort, EndpointService, endpoint_services}

abbrev pub port_names : List EndpointPort → List String
port_names [] = []
port_names (p ∷ ps) = p.catalog_name ∷ port_names ps

-- The catalog names of the ports of all services of type NodePort.
abbrev pub served : List EndpointService → List String
served [] = []
served (s ∷ l) = if str_eq s.service_type "" then port_names s.ports ++ served l else served l

abbrev pub names_for : List String → List Endpoint → List String
names_for present [] = []
names_for present (e ∷ es) =
    if contains present e.component then e.name ∷ names_for present es else names_for present es

-- The names of the catalog's endpoints whose component is part of the lab.
abbrev pub endpoint_names : ℕ → List String
unfolding components
endpoint_names lab = elim (components lab) [
  | none ↦ []
  | some present ↦ names_for present endpoints
]

served_lem :
    {lab : ℕ}
    → IsLab lab
    → sort itself (served (endpoint_services lab)) ≡ sort itself (endpoint_names lab)
unfolding endpoint_services sort components contains
served_lem lab_1 = refl
served_lem lab_2 = refl
served_lem lab_3 = refl
served_lem lab_4 = refl
served_lem lab_5 = refl

-- In each of the five labs the node ports that the endpoint services are checked for are, up to their
-- order, the catalog's endpoints of the lab's components: none is missing, unknown or checked twice.
pub endpoint_services_complete :
    (lab : ℕ)
    → IsLab lab
    → sort itself (served (endpoint_services lab)) ≡ sort itself (endpoint_names lab)
endpoint_services_complete lab h = served_lem h
