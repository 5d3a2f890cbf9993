-- ===== src/PushImage/Calls.antt =====
-- internal/pushimage/provider.go: `Ensure` makes only calls of Docker and of the file system.
use course_infra.Base.{String, List, ◌∷◌, ℕ}
use course_infra.Effects.Keeps.{Keeps, Keeps-call, keeps_rules}
use course_infra.Effects.World.{World, Trace, FileCall, file_call, run}
use course_infra.Cluster.State.{change_file}
use course_infra.Generator.Write.{new_temp_dir}
use course_infra.PushImage.{Provider, extract_asset, extract, docker, build_and_push, ensure}

module _ (W : World) (Inv : Trace W → Type 0)
    (files : (c : FileCall) (t : Trace W) → Inv t → Inv (file_call c ∷ t))
    (runs : (name : String) (arguments : List String) (t : Trace W)
      → Inv t
      → Inv (run name arguments ∷ t)) where
  change_file-Keeps : (c : FileCall) → Keeps Inv (change_file W c)
  unfolding change_file
  change_file-Keeps c = Keeps-call (file_call c) _ (files c)

  new_temp_dir-Keeps : (dir : String) → Keeps Inv (new_temp_dir W dir)
  unfolding new_temp_dir
  new_temp_dir-Keeps dir = Keeps-call _ _ (files _)

  module _ (P : Provider) where
    docker-Keeps : (arguments : List String) → Keeps Inv (docker W P arguments)
    unfolding docker
    docker-Keeps arguments = Keeps-call (run "docker" arguments) _ (runs "docker" arguments)

    extract_asset-Keeps :
        (directory name : String) (content : List ℕ)
        → Keeps Inv (extract_asset W P directory name content)
    unfolding extract_asset
    extract_asset-Keeps directory name content = search (keeps_rules, change_file-Keeps) depth 20

    extract-Keeps : (directory : String) → Keeps Inv (extract W P directory)
    unfolding extract
    extract-Keeps directory = search (keeps_rules, change_file-Keeps, extract_asset-Keeps) depth 20

    build-Keeps : (directory : String) → Keeps Inv (build_and_push W P directory)
    unfolding build_and_push
    build-Keeps directory = search (keeps_rules, extract-Keeps, docker-Keeps) depth 20

    pub ensure-Keeps : Keeps Inv (ensure W P)
    unfolding ensure
    ensure-Keeps = search (keeps_rules, change_file-Keeps, new_temp_dir-Keeps, build-Keeps) depth 20
