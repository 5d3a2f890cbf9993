-- ===== src/Cluster/Commands.antt =====
-- internal/cluster/service.go and config.go: the commands of Docker and kind, and the kind config.
use Prim.Native.Char.{code}
use course_infra.Base.{ℕ, String, Bool, none, some, List, [], ◌∷◌, ◌++◌, str_eq, not, if◌then◌else◌}
use course_infra.Text.{◌<>◌, codes, itoa, is_space}
use course_infra.Errors.{Result, ok, err, new, wrap, wrap_two, sentinel, conflict}
use course_infra.Effects.{
  Exec, pure, fail, call, map_err, attempt, ◌>>=◌, ◌>>◌, either, maybe, refuse,
}
use course_infra.Effects.World.{World, Event, run, listen}
use course_infra.Catalog.{Port, ports, local_registry_host_port}
use course_infra.Catalog.Images.{image_by_name, reference}
use course_infra.Cluster.{
  Service, platform, kind_checksum, control_plane_container, registry_container, cluster_name,
  kind_node_image, marker_path, conflict_error, prerequisite_error, prerequisite_of,
}

-- The word that is being read goes to the front of the words that follow it.
abbrev with_word : String → List String → List String
with_word word words = if str_eq word "" then words else word ∷ words

fields_from : String → String → List String
fields_from word String.[] = with_word word []
fields_from word (String.◌∷◌ c text) =
    let rest =
      fields_from (if is_space (code c) then "" else word <> String.◌∷◌ c String.[]) text in
    if is_space (code c) then with_word word rest else rest

-- `strings.Fields`
unfoldable pub fields : String → List String
unfolding fields_from
fields text = fields_from "" text

-- The lines of `kindConfig` for the ports of a lab.
abbrev mappings : List Port → String
mappings [] = ""
mappings (p ∷ ps) =
    "      - containerPort: "
    <> itoa p.node_port
    <> "\n"
    <> "        hostPort: "
    <> itoa p.host_port
    <> "\n"
    <> "        listenAddress: 127.0.0.1\n"
    <> "        protocol: TCP\n"
    <> mappings ps

-- The loop of `kindConfig` over the labs.
abbrev all_mappings : List ℕ → Result String
all_mappings [] = ok ""
all_mappings (lab ∷ labs) = elim (ports lab) [
  | none ↦ err (new "cluster: catalog has no ports for lab %d")
  | some ps ↦ elim (all_mappings labs) [ ok rest ↦ ok (mappings ps <> rest) | err e ↦ err e ]
]

abbrev pub all_labs : List ℕ
all_labs = 1 ∷ 2 ∷ 3 ∷ 4 ∷ 5 ∷ []

abbrev preamble : String
preamble =
    "kind: Cluster\napiVersion: kind.x-k8s.io/v1alpha4\nname: " <> cluster_name
    <> "\nnetworking:\n  apiServerAddress: 127.0.0.1\ncontainerdConfigPatches:\n  - |-\n"
    <> "    [plugins.\"io.containerd.grpc.v1.cri\".registry.mirrors.\"localhost:5001\"]\n"
    <> "      endpoint = [\"http://" <> registry_container <> ":5000\"]\n"
    <> "nodes:\n  - role: control-plane\n    image: " <> kind_node_image
    <> "\n    extraPortMappings:\n"

-- `checkPlatform`
unfoldable pub check_platform : {E : Type 0} → Service → Exec E (Unit {0})
check_platform s =
    maybe (kind_checksum (platform s)) (λ _. pure tt)
      (fail (prerequisite_error "%w: unsupported platform %s/%s"))

module _ (W : World) where
  -- `kindConfig`: the text and its hash.
  unfoldable pub kind_config : Result (String × String)
  unfolding ports itoa
  kind_config = elim (all_mappings all_labs) [
    | err e ↦ err e
    | ok text ↦ ok (preamble <> text, W.sha256 (codes (preamble <> text)))
  ]

  -- `s.runner.Run`
  unfoldable pub command : String → List String → Exec (Event W.Object) String
  command name arguments = call (run name arguments) (λ t. W.run t name arguments)

  -- `checkDocker`
  unfoldable pub check_docker : Exec (Event W.Object) (Unit {0})
  check_docker = do
    map_err (prerequisite_of "%w: Docker daemon is unavailable: %w")
        (command "docker" ("version" ∷ "--format" ∷ "{{.Server.Version}}" ∷ []))
    pure tt

  -- `kindClusters`
  unfoldable pub kind_clusters : String → Exec (Event W.Object) (List String)
  kind_clusters kind_path = do
    output ← map_err (wrap "list kind clusters: %w") (command kind_path ("get" ∷ "clusters" ∷ []))
    pure (fields output)

  abbrev pub read_marker : List String
  read_marker = "exec" ∷ control_plane_container ∷ "cat" ∷ marker_path ∷ []

  -- The check of the control plane's marker, which `Stop` and `verifyStateAndContainers` share.
  unfoldable pub check_marker : String → Exec (Event W.Object) (Unit {0})
  check_marker cluster_id = do
    marker ← attempt (command "docker" read_marker)
    either marker
        (λ m.
          refuse (not (str_eq m cluster_id))
            (conflict_error "%w: cluster identity marker does not match local state"))
        (λ e. fail (conflict_error "%w: cluster identity marker does not match local state"))

  abbrev pub inspect_registry : List String
  inspect_registry =
      "inspect" ∷ "--format"
      ∷ "{{index .Config.Labels \"tripgo.course/managed-by\"}}|{{index .Config.Labels \"tripgo.course/cluster-id\"}}"
      ∷ registry_container ∷ []

  -- `verifyRegistryOwnership`
  unfoldable pub verify_registry_ownership : String → Exec (Event W.Object) (Unit {0})
  verify_registry_ownership cluster_id = do
    labels ←
        map_err (λ e. wrap_two "%w: managed local registry is missing: %w" (sentinel conflict) e)
          (command "docker" inspect_registry)
    refuse (not (str_eq labels ("tripgoctl|" <> cluster_id)))
        (conflict_error "%w: registry container identity does not match local state")

  -- `containerExists`
  unfoldable pub container_exists : String → Exec (Event W.Object) Bool
  container_exists name = do
    output ← map_err (wrap "inspect Docker containers: %w") (
        command "docker"
          ("ps" ∷ "-a" ∷ "--filter" ∷ ("name=^/" <> name <> "$") ∷ "--format" ∷ "{{.Names}}" ∷ []))
    pure (str_eq output name)

  abbrev registry_image : String
  registry_image = elim (image_by_name "registry") [ none ↦ "" | some i ↦ reference i ]

  -- `startRegistry`
  unfoldable pub start_registry : String → Exec (Event W.Object) (Unit {0})
  start_registry cluster_id = do
    map_err (prerequisite_of "%w: start managed local registry: %w") (
        command "docker" (
          "run"
          ∷ "-d"
          ∷ "--restart=always"
          ∷ "--name"
          ∷ registry_container
          ∷ "-p"
          ∷ "127.0.0.1:5001:5000"
          ∷ "--label"
          ∷ "tripgo.course/managed-by=tripgoctl"
          ∷ "--label"
          ∷ ("tripgo.course/cluster-id=" <> cluster_id)
          ∷ registry_image
          ∷ []))
    pure tt

  -- The ports that `checkPorts` tries: the registry's and those of all labs.
  abbrev host_ports : List Port → List ℕ
  host_ports [] = []
  host_ports (p ∷ ps) = p.host_port ∷ host_ports ps

  abbrev lab_ports : List ℕ → List ℕ
  lab_ports [] = []
  lab_ports (lab ∷ labs) =
      let rest = lab_ports labs in
      elim (ports lab) [ none ↦ rest | some ps ↦ host_ports ps ++ rest ]

  -- The loop of `checkPorts`; the result lists the busy ports.
  unfoldable pub busy_ports : List ℕ → Exec (Event W.Object) (List ℕ)
  busy_ports [] = pure []
  busy_ports (port ∷ rest) = do
    busy ← call (listen port) (λ t. ok (W.is_busy t port))
    others ← busy_ports rest
    pure (if busy then port ∷ others else others)

  -- `checkPorts`
  unfoldable pub check_ports : Exec (Event W.Object) (List ℕ)
  unfolding ports busy_ports
  check_ports = busy_ports (local_registry_host_port ∷ lab_ports all_labs)
