-- ===== src/Effects/World.antt =====
-- The calls that leave the program, and a world that answers them: the Kubernetes API with the
-- accessors of its objects, Docker and kind, the file system, the network.
use course_infra.Base.{ℕ, ℤ, String, Bool, Option, List}
use course_infra.Errors.{GoError, Result}

-- The `GroupVersionResource`s of internal/lab/service.go.
pub data Resource : Type 0 where
  namespaces config_maps secrets persistent_volume_claims services : Resource
  pods events deployments stateful_sets : Resource

-- What `os.Lstat` tells of a path.
pub record FileInfo : Type 0 where
  pub is_symlink : Bool
  pub is_regular : Bool
  pub is_dir : Bool

-- Calls that change the file system.
pub data FileCall : Type 0 where
  mkdir_all : String → FileCall
  open_create : String → FileCall
  open_dir : String → FileCall
  create_temp : String → FileCall
  mkdir_temp : String → FileCall
  chmod : String → FileCall
  write : String → List ℕ → FileCall
  sync : String → FileCall
  close : String → FileCall
  rename : String → String → FileCall
  remove : String → FileCall
  remove_all : String → FileCall

-- The calls. In `get`, `list` and `patch` the first text is the namespace, empty where there is none.
pub data Event (Object : Type 0) : Type 0 where
  get : Resource → String → String → Event Object
  list : Resource → String → String → Event Object
  patch : Resource → String → String → Object → Event Object
  delete : Resource → String → Event Object
  run : String → List String → Event Object
  lstat : String → Event Object
  read_file : String → Event Object
  read_dir : String → Event Object
  file_call : FileCall → Event Object
  lock : String → Event Object
  unlock : Event Object
  download : String → Event Object
  listen : ℕ → Event Object
  random : Event Object
  wait : Event Object
  check_context : Event Object

-- One document of a manifest, as the YAML decoder gives it: none because the stream is broken, only
-- blanks, a value that is no resource, or a resource.
pub data ManifestDocument (Object : Type 0) : Type 0 where
  broken : GoError → ManifestDocument Object
  blank : ManifestDocument Object
  invalid : GoError → ManifestDocument Object
  resource : Object → ManifestDocument Object

-- The response of a download: its status and its body.
pub record Response : Type 0 where
  pub status : ℕ
  pub body : List ℕ

pub record World : Type 1 where
  pub Object : Type 0
  -- `GetLabels()[key]` and `GetAnnotations()[key]`, empty where there is none
  pub label : Object → String → String
  pub annotation : Object → String → String
  pub kind : Object → String
  pub api_version : Object → String
  pub name : Object → String
  pub namespace : Object → String
  pub generation : Object → ℤ
  pub is_deleting : Object → Bool
  -- `unstructured.NestedInt64` and its kin, with the zero value where they find nothing
  pub nested_int64 : Object → List String → ℤ
  pub nested_string : Object → List String → String
  pub nested_map : Object → List String → Option (List (String × String))
  pub nested_objects : Object → List String → List (Option Object)
  pub nested_texts : Object → List String → List String
  -- the ConfigMap that marks a cluster's identity
  pub identity_marker : String → Object
  -- the documents of a manifest, and `json.Marshal` of one
  pub documents : List ℕ → List (ManifestDocument Object)
  pub marshal : Object → Result (Unit {0})
  -- answers of the Kubernetes API
  pub get : List (Event Object) → Resource → String → String → Result Object
  pub list : List (Event Object) → Resource → String → String → Result (List Object)
  pub patch : List (Event Object) → Resource → String → String → Object → Result (Unit {0})
  pub delete : List (Event Object) → Resource → String → Result (Unit {0})
  -- answers of processes, of the file system and of the network
  pub run : List (Event Object) → String → List String → Result String
  pub lstat : List (Event Object) → String → Result FileInfo
  pub read_file : List (Event Object) → String → Result (List ℕ)
  pub read_dir : List (Event Object) → String → Result (List String)
  pub file_call : List (Event Object) → FileCall → Result (Unit {0})
  pub temp_name : List (Event Object) → String
  pub lock : List (Event Object) → String → Result (Unit {0})
  pub download : List (Event Object) → String → Result Response
  pub is_busy : List (Event Object) → ℕ → Bool
  pub random : List (Event Object) → Result String
  -- how a poll that has not succeeded goes on: `none` is another round
  pub wait : List (Event Object) → Option GoError
  -- `ctx.Err()` of the context of a wait, and whether a round of the wait ends with a report: there is
  -- a reporter, and its summary is new or the last one is 15 seconds old
  pub context_error : List (Event Object) → Option GoError
  pub is_reporting : List (Event Object) → Bool
  -- whether `err.Error()` has this text in it
  pub mentions : GoError → String → Bool
  -- pure library functions: SHA-256 in hex, the client libraries' decoders
  pub sha256 : List ℕ → String
  pub rest_config : String → Result (Unit {0})
  pub new_client : String → Result (Unit {0})

module _ (W : World) where
  abbrev pub Trace : Type 0
  Trace = List (Event W.Object)
