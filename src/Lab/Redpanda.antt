-- ===== src/Lab/Redpanda.antt =====
-- internal/redpanda/config.go: the reconciliation contract, and the check of it in
-- internal/lab/service.go.
use course_infra.Base.{
  ℕ, suc, String, Bool, false, Option, none, some, List, [], ◌∷◌, length, str_eq, ◌==◌, ◌&&◌, ◌||◌,
  not, if◌then◌else◌,
}
use course_infra.Text.{◌<>◌, itoa, lookup, has_prefix}
use course_infra.Errors.{Result, ok, err, wrap}
use course_infra.Effects.{Exec, fail, lift, call, map_err, ◌>>=◌, ◌>>◌, refuse, maybe}
use course_infra.Effects.World.{
  World, Event, list, services, config_maps, stateful_sets, persistent_volume_claims,
}
use course_infra.Catalog.{port_by_name, Port}
use course_infra.Cluster.{conflict_error}
use course_infra.Lab.Ownership.{get_object, verify_resource_ownership, absent_or}

-- `Topics`
abbrev pub topics : String
topics = "trip.events.v1=3\n" <> "trip.commands.v1=3\n" <> "trip.commands.v1.dlq=1\n"

-- `ReconcileScript`
abbrev pub reconcile_script : String
reconcile_script =
    "#!/bin/bash\n" <> "set -euo pipefail\n" <> "broker=redpanda:9092\n" <> "reconcile() {\n"
    <> "  rm -f /tmp/topics-ready\n" <> "  while IFS== read -r topic desired; do\n"
    <> "    [ -n \"$topic\" ] || continue\n"
    <> "    if ! rpk topic list --brokers \"$broker\" | awk -v wanted=\"$topic\" '$1 == wanted {found=1} END {exit !found}'; then\n"
    <> "      rpk topic create \"$topic\" --partitions \"$desired\" --replicas 1 --brokers \"$broker\"\n"
    <> "      current=$desired\n" <> "    else\n"
    <> "      rpk topic describe \"$topic\" -p --brokers \"$broker\" >/tmp/partitions\n"
    <> "      # The partition table has one numeric data row per partition.\n"
    <> "      current=$(awk '$1 ~ /^[0-9]+$/ {count++} END {print count+0}' /tmp/partitions)\n"
    <> "    fi\n" <> "    if [ \"$current\" -lt \"$desired\" ]; then\n"
    <> "      rpk topic add-partitions \"$topic\" --num \"$((desired-current))\" --brokers \"$broker\"\n"
    <> "    elif [ \"$current\" -gt \"$desired\" ]; then\n"
    <> "      echo \"topic $topic has $current partitions; refusing destructive reduction to $desired\" >&2\n"
    <> "      return 1\n" <> "    fi\n" <> "  done </config/topics\n"
    <> "  touch /tmp/topics-ready\n" <> "}\n" <> "while true; do\n" <> "  reconcile\n"
    <> "  sleep 15\n" <> "done\n"

-- `ConfigMapData`
abbrev pub config_map_data : List (String × String)
config_map_data = ("topics", topics) ∷ ("reconcile.sh", reconcile_script) ∷ []

module _ (W : World) where
  -- The comparison of the ConfigMap's data.
  abbrev matches_contract : List (String × String) → Bool
  matches_contract data_map =
      (length data_map == length config_map_data)
      && str_eq (lookup "topics" data_map) (lookup "topics" config_map_data)
      && str_eq (lookup "reconcile.sh" data_map) (lookup "reconcile.sh" config_map_data)

  abbrev one_of : String → List String → Bool
  one_of text [] = false
  one_of text (s ∷ l) = str_eq s text || one_of text l

  -- The arguments of the first container, none where it is no map.
  abbrev first_arguments : List (Option W.Object) → List String
  first_arguments [] = []
  first_arguments (none ∷ rest) = []
  first_arguments (some container ∷ rest) = W.nested_texts container ("args" ∷ [])

  abbrev host_port_text : Option Port → String
  host_port_text none = "0"
  host_port_text (some p) = itoa p.host_port

  abbrev advertised : ℕ → String
  advertised lab =
      "--advertise-kafka-addr=internal://redpanda:9092,external://localhost:"
      <> host_port_text (port_by_name lab "redpanda-kafka")

  -- The loop over the claims; the result is `redpandaClaims`.
  unfoldable pub count_claims : ℕ → String → String → List W.Object → Result ℕ
  unfolding verify_resource_ownership has_prefix
  count_claims lab namespace cluster_id [] = ok 0
  count_claims lab namespace cluster_id (claim ∷ claims) =
      let rest = count_claims lab namespace cluster_id claims in
      if has_prefix (W.name claim) "data-redpanda-"
      then (elim (verify_resource_ownership W lab namespace cluster_id claim) [
        | err e ↦ err e
        | ok u ↦ elim rest [ ok n ↦ ok (suc n) | err e ↦ err e ]
      ])
      else rest

  -- `verifyRedpandaResources`
  unfoldable pub verify_redpanda_resources : ℕ → String → String → Exec (Event W.Object) (Unit {0})
  unfolding get_object count_claims itoa port_by_name
  verify_redpanda_resources lab namespace cluster_id = do
    topics_config ←
        map_err (absent_or W "inspect redpanda-topics: %w")
          (get_object W config_maps namespace "redpanda-topics")
    lift (verify_resource_ownership W lab namespace cluster_id topics_config)
    maybe (W.nested_map topics_config ("data" ∷ []))
        (λ data_map. refuse (not (matches_contract data_map)) (
          conflict_error
            "%w: redpanda-topics ConfigMap does not match the managed reconciliation contract"))
        (fail (conflict_error "%w: redpanda-topics ConfigMap data is invalid"))
    service ←
        map_err (absent_or W "inspect redpanda service: %w")
          (get_object W services namespace "redpanda")
    lift (verify_resource_ownership W lab namespace cluster_id service)
    stateful_set ←
        map_err (wrap "inspect Redpanda advertised listener: %w")
          (get_object W stateful_sets namespace "redpanda")
    refuse
        (not (
          one_of (advertised lab) (
            first_arguments
              (W.nested_objects stateful_set ("spec" ∷ "template" ∷ "spec" ∷ "containers" ∷ [])))))
        (conflict_error "%w: Redpanda advertised Kafka listener does not match lab %d host port")
    let selector = "app.kubernetes.io/managed-by=tripgoctl,tripgo.course/environment=" <> namespace
    claims ← map_err (wrap "list Redpanda persistent claims: %w") (
        call (list persistent_volume_claims namespace selector)
          (λ t. W.list t persistent_volume_claims namespace selector))
    count ← lift (count_claims lab namespace cluster_id claims)
    refuse (not (count == 1)) (conflict_error "%w: expected one owned Redpanda PVC, found %d")
