-- ===== src/PushImage.antt =====
-- internal/pushimage/provider.go and internal/pushartifact/artifact.go: the embedded Push Service is
-- built into an image and pushed to the managed registry. The embedded files, the ELF header and the
-- JSON decoder are a parameter.
pub mod Reference
pub mod Calls
use course_infra.Base.{
  ℕ, String, Bool, true, false, List, [], ◌∷◌, ◌==◌, str_eq, ◌&&◌, ◌||◌, not, if◌then◌else◌,
}
use course_infra.Text.{◌<>◌, codes}
use course_infra.Errors.{GoError, Result, ok, err, new, wrap}
use course_infra.Effects.{
  Exec, pure, fail, lift, call, map_err, catch, finally, ignore, ◌>>=◌, ◌>>◌, refuse,
}
use course_infra.Effects.World.{
  World, Event, run, mkdir_all, open_create, write, close, remove, remove_all,
}
use course_infra.Catalog.Images.{local_push_image_repository}
use course_infra.Cluster.State.{change_file}
use course_infra.Config.{is_empty}
use course_infra.Generator.{is_digest_after}
use course_infra.Generator.Write.{new_temp_dir}

-- `elf.Machine`, as far as the provider looks.
pub data Machine : Type 0 where
  x86_64 aarch64 other_machine : Machine

-- The embedded assets: `Binary` and `Dockerfile`, the machine of the ELF header, the first 12 bytes of
-- the SHA-256 of both in hex, and `json.Unmarshal` into a list of texts.
pub record Artifact : Type 0 where
  pub binary : List ℕ
  pub dockerfile : List ℕ
  pub machine : Result Machine
  pub content_hash : String
  pub decode_digests : String → Result (List String)

-- `immutableLocalReference.MatchString`
unfoldable pub is_local_reference : String → Bool
is_local_reference text =
    is_digest_after (codes (local_push_image_repository <> "@sha256:")) (codes text)

-- The loop over the digests.
unfoldable pub first_local : List String → Result String
unfolding is_local_reference
first_local [] = err (new "pushed image did not produce an immutable digest in %s")
first_local (reference ∷ references) =
    let rest = first_local references in if is_local_reference reference then ok reference else rest

-- `map[string]elf.Machine{…}[p.goarch]` compared with the machine of the file.
abbrev pub is_expected : String → Machine → Bool
is_expected goarch x86_64 = str_eq goarch "amd64"
is_expected goarch aarch64 = str_eq goarch "arm64"
is_expected goarch other_machine = false

-- `Provider`, with the artifact that is embedded beside it. Its runner is the world.
pub record Provider : Type 0 where
  pub artifact : Artifact
  pub goarch : String

module _ (W : World) (P : Provider) where
  -- One asset in `Extract`; the file is new, and is removed where it is not complete.
  unfoldable pub extract_asset : String → String → List ℕ → Exec (Event W.Object) (Unit {0})
  unfolding change_file
  extract_asset directory name content = do
    let path = directory <> "/" <> name
    map_err (wrap "create embedded %s: %w") (change_file W (open_create path))
    catch (change_file W (write path content)) (λ e. do
      ignore (change_file W (close path))
      ignore (change_file W (remove path))
      fail (wrap "write embedded %s: %w" e))
    catch (change_file W (close path))
        (λ e. do ignore (change_file W (remove path)); fail (wrap "close embedded %s: %w" e))

  -- `Extract`
  unfoldable pub extract : String → Exec (Event W.Object) (Unit {0})
  unfolding extract_asset change_file
  extract directory = do
    refuse (is_empty P.artifact.binary)
        (new "push service binary is not embedded in this development build")
    map_err (wrap "create Push Service build context: %w") (change_file W (mkdir_all directory))
    extract_asset directory "Dockerfile" P.artifact.dockerfile
    extract_asset directory "push-service" P.artifact.binary

  unfoldable pub docker : List String → Exec (Event W.Object) String
  docker arguments = call (run "docker" arguments) (λ t. W.run t "docker" arguments)

  abbrev pub image_tag : String
  image_tag = local_push_image_repository <> ":embedded-" <> P.artifact.content_hash

  -- `Ensure` with the build context.
  unfoldable pub build_and_push : String → Exec (Event W.Object) String
  unfolding extract docker first_local
  build_and_push directory = do
    extract directory
    map_err (wrap "build embedded Push Service image: %w") (
        docker
          ("build" ∷ "--platform" ∷ ("linux/" <> P.goarch) ∷ "--tag" ∷ image_tag ∷ directory ∷ []))
    map_err (wrap "push embedded Push Service image to managed registry: %w")
        (docker ("push" ∷ image_tag ∷ []))
    output ←
        map_err (wrap "inspect pushed Push Service digest: %w")
          (docker ("image" ∷ "inspect" ∷ "--format" ∷ "{{json .RepoDigests}}" ∷ image_tag ∷ []))
    digests ←
        map_err (wrap "decode pushed Push Service digests: %w")
          (lift (P.artifact.decode_digests output))
    lift (first_local digests)

  -- `Ensure`
  unfoldable pub ensure : Exec (Event W.Object) String
  unfolding build_and_push new_temp_dir
  ensure = do
    refuse (not (str_eq P.goarch "amd64") && not (str_eq P.goarch "arm64"))
        (new "unsupported Push Service image architecture %q")
    refuse (is_empty P.artifact.binary)
        (new "embedded Push Service binary is absent; use a release tripgoctl build")
    machine ← map_err (wrap "embedded Push Service binary is not ELF: %w") (lift P.artifact.machine)
    refuse (not (is_expected P.goarch machine))
        (new "embedded Push Service architecture %s does not match CLI architecture %s")
    directory ← map_err (wrap "create Push Service build context: %w") (new_temp_dir W "")
    finally (build_and_push directory) (ignore (change_file W (remove_all directory)))
