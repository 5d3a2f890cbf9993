-- ===== src/Cluster/Ownership.antt =====
-- internal/cluster/service.go: the reads before what `Stop` deletes.
use course_infra.Base.{
  ◌≡◌, refl, ap, ◌∙◌, String, Bool, true, List, [], ◌∷◌, inl, inr, Bool-cases, str_eq, eq_iff,
}
use course_infra.Text.{◌<>◌}
use course_infra.Errors.{GoError, ok, Result-cases}
use course_infra.Effects.{◌>>=◌, either, refuse}
use course_infra.Effects.Keeps.{
  Keeps, Keeps-bind, Keeps-if, Keeps-pure, Keeps-refuse, Keeps-call, Keeps-catch, keeps_rules,
}
use course_infra.Effects.World.{World, Trace, run, remove, file_call}
use course_infra.Config.{texts_equal}
use course_infra.Cluster.{Service}
use course_infra.Cluster.State.{State, Codec, change_file}
use course_infra.Cluster.Commands.{
  command, check_marker, read_marker, verify_registry_ownership, inspect_registry,
}
use course_infra.Cluster.Downloader.{remove_if_there}
use course_infra.Cluster.Lifecycle.{delete_cluster, remove_registry}
use course_infra.Cluster.Stopping.{stop_cluster, stop_registry, stop_owned}

module _ (W : World) (cluster_id : String) where
  -- The last call was a Docker command, and its output was this text.
  abbrev IsAnswered : List String → String → Trace W → Type 0
  IsAnswered arguments output t =
      (u : Trace W) × (t ≡ run "docker" arguments ∷ u) × (W.run u "docker" arguments ≡ ok output)

  -- Every command that deletes the cluster came directly after a read of the marker, every one that
  -- removes the registry directly after a read of its labels, which named this cluster.
  abbrev pub IsIdentified : Trace W → Type 0
  IsIdentified [] = Unit
  IsIdentified (run name arguments ∷ t) =
      (texts_equal arguments delete_cluster ≡ true → IsAnswered (read_marker W) cluster_id t)
      × (texts_equal arguments remove_registry ≡ true
          → IsAnswered (inspect_registry W) ("tripgoctl|" <> cluster_id) t)
      × IsIdentified t
  IsIdentified (e ∷ t) = IsIdentified t

  module _ (json : Codec) where
    stop_cluster-IsIdentified :
        (kind_path : String) (value : State)
        → value.cluster_id ≡ cluster_id
        → Keeps IsIdentified (stop_cluster W json kind_path value)
    unfolding stop_cluster check_marker command ◌>>=◌ either refuse
    stop_cluster-IsIdentified kind_path value same = record {
      at = λ t h.
          let seen : IsIdentified (run "docker" (read_marker W) ∷ t) = ((λ e. cc), (λ e. cc), h) in
          elim (Result-cases (W.run t "docker" (read_marker W))) [
            | inr (e, g) ↦ rw g seen
            | inl (marker, g) ↦ elim (Bool-cases (str_eq marker value.cluster_id)) [
              | inr o ↦ rw (g, o) seen
              | inl o ↦
                  let m : marker ≡ cluster_id = (eq_iff marker value.cluster_id).0 o ∙ same in
                  let deleted : IsIdentified
                      (run kind_path delete_cluster ∷ run "docker" (read_marker W) ∷ t) =
                    ((λ e. (t, refl, g ∙ ap ok m)), (λ e. cc), seen) in
                  elim (Result-cases
                    (W.run (run "docker" (read_marker W) ∷ t) kind_path delete_cluster)) [
                      | inl (_, d) ↦ rw (g, o, d) deleted
                      | inr (_, d) ↦ rw (g, o, d) deleted
                    ]
            ]
          ];
    }

    stop_registry-IsIdentified :
        (value : State)
        → value.cluster_id ≡ cluster_id
        → Keeps IsIdentified (stop_registry W json value)
    unfolding stop_registry verify_registry_ownership command ◌>>=◌ either refuse
    stop_registry-IsIdentified value same = record {
      at = λ t h.
          let seen : IsIdentified (run "docker" (inspect_registry W) ∷ t) =
            ((λ e. cc), (λ e. cc), h) in
          elim (Result-cases (W.run t "docker" (inspect_registry W))) [
            | inr (e, g) ↦ rw g seen
            | inl (labels, g) ↦
                elim (Bool-cases (str_eq labels ("tripgoctl|" <> value.cluster_id))) [
                  | inr o ↦ rw (g, o) seen
                  | inl o ↦
                      let m : labels ≡ "tripgoctl|" <> cluster_id =
                        (eq_iff labels ("tripgoctl|" <> value.cluster_id)).0 o
                        ∙ ap (λ c. "tripgoctl|" <> c) same in
                      let removed : IsIdentified
                          (run "docker" remove_registry ∷ run "docker" (inspect_registry W) ∷ t) =
                        ((λ e. cc), (λ e. (t, refl, g ∙ ap ok m)), seen) in
                      elim (Result-cases
                        (W.run (run "docker" (inspect_registry W) ∷ t) "docker" remove_registry)) [
                          | inl (_, d) ↦ rw (g, o, d) removed
                          | inr (_, d) ↦ rw (g, o, d) removed
                        ]
                ]
          ];
    }

    remove_if_there-IsIdentified :
        (context : GoError → GoError) (path : String)
        → Keeps IsIdentified (remove_if_there W context path)
    unfolding remove_if_there change_file
    remove_if_there-IsIdentified context path =
        Keeps-catch _ _ (Keeps-call (file_call (remove path)) _ (λ t h. h))
          (λ e. search (keeps_rules))

    -- Whatever the world answers: if every deletion of the cluster before came directly after a read of
    -- its marker that answered with the identity in the state, and every removal of the registry
    -- directly after a read of its labels that answered with tripgoctl and that identity, this is so
    -- after `Stop` has deleted what there is of them, also where it fails.
    pub stop_owned-IsIdentified :
        (s : Service) (kind_path : String) (expected : List String)
        (cluster_exists registry_exists : Bool) (value : State) (t : Trace W)
        → value.cluster_id ≡ cluster_id
        → IsIdentified t
        → IsIdentified
            (stop_owned W json s kind_path expected cluster_exists registry_exists value t).1
    unfolding stop_owned
    stop_owned-IsIdentified s kind_path expected cluster_exists registry_exists value t same h =
        (Keeps-bind _ _ (Keeps-refuse _ _ _) (λ _.
            Keeps-bind _ _
              (Keeps-if cluster_exists _ _ (λ _. stop_cluster-IsIdentified kind_path value same)
                (λ _. Keeps-pure tt))
              (λ _.
                Keeps-bind _ _
                  (Keeps-if registry_exists _ _ (λ _. stop_registry-IsIdentified value same)
                    (λ _. Keeps-pure tt))
                  (λ _. remove_if_there-IsIdentified _ _)))).at
          t h
