-- ===== src/Lab/Reads.antt =====
-- internal/lab/service.go: the parts that only read keep every invariant that reads keep.
use course_infra.Base.{
  ◌≡◌, refl, inl, inr, Option-cases, zero, suc, ℕ, String, Bool, true, false, List, [], ◌∷◌,
}
use course_infra.Errors.{GoError}
use course_infra.Effects.{Exec, call}
use course_infra.Effects.Keeps.{
  Keeps, Keeps-bind, Keeps-pure, Keeps-fail, Keeps-call, Keeps-if, keeps_rules,
}
use course_infra.Effects.World.{
  World, Trace, Event, Resource, get, list, lstat, read_file, read_dir, wait, check_context,
  FileInfo,
}
use course_infra.Catalog.{namespace}
use course_infra.Config.{Decoded}
use course_infra.Cluster.State.{read}
use course_infra.Lab.{Workload}
use course_infra.Lab.Ownership.{get_object, verify_namespace}
use course_infra.Lab.Redpanda.{verify_redpanda_resources}
use course_infra.Lab.Readiness.{
  check_endpoints, inspect_workload, inspect_workloads, status_in, status_with, poll,
}
use course_infra.Lab.Files.{stat, if_there}
use course_infra.Lab.Operations.{load_current_config}

abbrev pub is_read : {Object : Type 0} → Event Object → Bool
is_read (get kind place name) = true
is_read (list kind place selector) = true
is_read (lstat path) = true
is_read (read_file path) = true
is_read (read_dir path) = true
is_read wait = true
is_read check_context = true
is_read _ = false

-- Reads keep `P`.
abbrev pub IsReadable : (W : World) → (Trace W → Type 0) → Type 0
IsReadable W P = (e : Event W.Object) → is_read e ≡ true → (t : Trace W) → P t → P (e ∷ t)

module _ (W : World) (P : Trace W → Type 0) (reads : IsReadable W P) where
  pub read-Keeps : (path : String) → Keeps P (read W path)
  unfolding read
  read-Keeps path = Keeps-call (read_file path) _ (reads _ refl)

  pub stat-Keeps : (path : String) → Keeps P (stat W path)
  unfolding stat
  stat-Keeps path = Keeps-call (lstat path) _ (reads _ refl)

  pub get_object-Keeps :
      (kind : Resource) (place name : String) → Keeps P (get_object W kind place name)
  unfolding get_object
  get_object-Keeps kind place name = Keeps-call (get kind place name) _ (reads _ refl)

  pub list-Keeps :
      (kind : Resource) (place selector : String)
      → Keeps P (call (list kind place selector) (λ t. W.list t kind place selector))
  list-Keeps kind place selector = Keeps-call (list kind place selector) _ (reads _ refl)

  pub verify_namespace-Keeps :
      (lab : ℕ) (name cluster_id : String) → Keeps P (verify_namespace W lab name cluster_id)
  unfolding verify_namespace
  verify_namespace-Keeps lab name cluster_id = search (keeps_rules, get_object-Keeps) depth 20

  pub verify_redpanda_resources-Keeps :
      (lab : ℕ) (name cluster_id : String)
      → Keeps P (verify_redpanda_resources W lab name cluster_id)
  unfolding verify_redpanda_resources
  verify_redpanda_resources-Keeps lab name cluster_id =
      search (keeps_rules, get_object-Keeps, list-Keeps) depth 24

  check_endpoints-Keeps :
      (lab : ℕ) (name cluster_id : String) → Keeps P (check_endpoints W lab name cluster_id)
  unfolding check_endpoints
  check_endpoints-Keeps lab name cluster_id = search (keeps_rules, get_object-Keeps) depth 20

  inspect_workload-Keeps :
      (lab : ℕ) (name cluster_id : String) (item : Workload)
      → Keeps P (inspect_workload W lab name cluster_id item)
  unfolding inspect_workload
  inspect_workload-Keeps lab name cluster_id item = search (keeps_rules, get_object-Keeps) depth 20

  inspect_workloads-Keeps :
      (lab : ℕ) (name cluster_id : String) (items : List Workload)
      → Keeps P (inspect_workloads W lab name cluster_id items)
  unfolding inspect_workloads
  inspect_workloads-Keeps lab name cluster_id [] = Keeps-pure _
  inspect_workloads-Keeps lab name cluster_id (item ∷ items) =
      Keeps-bind _ _ (inspect_workload-Keeps lab name cluster_id item) (λ first.
        Keeps-bind (inspect_workloads W lab name cluster_id items) _
          (inspect_workloads-Keeps lab name cluster_id items) (λ rest. Keeps-pure _))

  status_in-Keeps : (lab : ℕ) (name cluster_id : String) → Keeps P (status_in W lab name cluster_id)
  unfolding status_in
  status_in-Keeps lab name cluster_id =
      search
        (
          keeps_rules, verify_namespace-Keeps, check_endpoints-Keeps,
          verify_redpanda_resources-Keeps, inspect_workloads-Keeps,
        )
        depth 20

  pub status_with-Keeps : (lab : ℕ) (cluster_id : String) → Keeps P (status_with W lab cluster_id)
  unfolding status_with
  status_with-Keeps lab cluster_id = elim (Option-cases (namespace lab)) [
    | inl e ↦ rw (e, status_with) (Keeps-fail _)
    | inr (name, e) ↦ rw (e, status_with) (status_in-Keeps lab name cluster_id)
  ]

  -- A poll keeps what each of its rounds keeps.
  pub poll-Keeps :
      (fuel : ℕ) (condition : Exec (Event W.Object) Bool)
      → Keeps P condition
      → Keeps P (poll W fuel condition)
  unfolding poll
  poll-Keeps zero condition k = Keeps-fail _
  poll-Keeps (suc fuel) condition k = Keeps-bind condition _ k (λ is_done.
      Keeps-if is_done _ _ (λ _. Keeps-pure tt)
        (λ _. Keeps-bind _ _ (Keeps-call wait _ (reads _ refl)) (λ _. poll-Keeps fuel condition k)))

  pub load_current_config-Keeps :
      (decode : List ℕ → Decoded) (cwd : String) → Keeps P (load_current_config W decode cwd)
  unfolding load_current_config
  load_current_config-Keeps decode cwd = search (keeps_rules, read-Keeps) depth 20

  pub if_there-Keeps :
      (path : String) (context : GoError → GoError)
      (k : FileInfo → Exec (Event W.Object) (Unit {0}))
      → ((info : FileInfo) → Keeps P (k info))
      → Keeps P (if_there W path context k)
  unfolding if_there
  if_there-Keeps path context k h = search (keeps_rules, stat-Keeps, h) depth 20
