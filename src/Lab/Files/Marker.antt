-- ===== src/Lab/Files/Marker.antt =====
-- internal/lab/service.go: the generated `.env` and its marker line.
use course_infra.Base.{
  ◌≡◌, ◌≢◌, refl, ap, ◌∙◌, ℕ, String, true, false, List, [], ◌∷◌, ◌++◌, inl, inr, arith, Bool-cases,
  ==_iff,
}
use course_infra.Errors.{GoError, Result-cases, ok, err, is, not_exist}
use course_infra.Effects.{◌>>=◌, either, refuse, pure, fail, catch, call}
use course_infra.Effects.World.{World, Trace, FileInfo, lstat, read_file, file_call, remove}
use course_infra.Cluster.{conflict_error}
use course_infra.Cluster.State.{read, change_file}
use course_infra.Cluster.Downloader.{remove_if_there}
use course_infra.Text.{◌<>◌, codes, codes-append}
use course_infra.Config.{Config}
use course_infra.Lab.{env_marker}
use course_infra.Lab.Files.{
  has_marker, env_content, first_line, bytes_equal, is_plain_file, stat, if_there,
  ensure_env_writable, write_env, remove_generated_file,
}

source_line : String
source_line = "\n# Source: environment.toml\n# Lab: "

has_marker-append :
    (rest : List ℕ) → has_marker (codes env_marker ++ (codes source_line ++ rest)) ≡ true
unfolding has_marker source_line
has_marker-append rest = refl

-- The content that is written to `.env` starts with the marker line.
env_content-has_marker :
    (config : Config) (version : String) → has_marker (codes (env_content config version)) ≡ true
unfolding env_content source_line
env_content-has_marker config version =
    ap has_marker
      (codes-append env_marker _ ∙ ap (λ l. codes env_marker ++ l) (codes-append source_line _))
    ∙ has_marker-append _

bytes_equal-eq : (l m : List ℕ) → bytes_equal l m ≡ true → l ≡ m
bytes_equal-eq [] [] h = refl
bytes_equal-eq [] (b ∷ m) h = absurd (ground arith)
bytes_equal-eq (a ∷ l) [] h = absurd (ground arith)
bytes_equal-eq (a ∷ l) (b ∷ m) h = ground (arith, ==_iff a b, bytes_equal-eq l m)

no_marker : (content : List ℕ) → first_line content ≢ codes env_marker → has_marker content ≡ false
unfolding has_marker
no_marker content h = elim (Bool-cases (has_marker content)) [
  | inl e ↦ absurd (h (bytes_equal-eq (first_line content) (codes env_marker) e))
  | inr e ↦ e
]

module _ (W : World) where
  -- At this path is a regular file with this content, when it is looked at after this history.
  pub record IsFile (path : String) (content : List ℕ) (t : Trace W) : Type 0 where
    pub info : FileInfo
    pub stat_lem : W.lstat t path ≡ ok info
    pub plain : is_plain_file info ≡ true
    pub read_lem : W.read_file (lstat path ∷ t) path ≡ ok content

  -- The history after a file was looked at.
  abbrev pub looked_at : String → Trace W → Trace W
  looked_at path t = read_file path ∷ lstat path ∷ t

  remove_if_there-trace :
      (path : String) (t : Trace W)
      → (remove_if_there W (λ e. e) path t).1 ≡ file_call (remove path) ∷ t
  unfolding remove_if_there change_file fail pure catch call
  remove_if_there-trace path t = elim (Result-cases (W.file_call t (remove path))) [
    | inl (u, f) ↦ rw f refl
    | inr (e, f) ↦ elim (Bool-cases (is e not_exist)) [
      | inl g ↦ rw (f, g) refl
      | inr g ↦ rw (f, g) refl
    ]
  ]

  ensure_env_writable-marked :
      (path : String) (content : List ℕ) (t : Trace W)
      → IsFile path content t
      → has_marker content ≡ true
      → ensure_env_writable W path t ≡ (ok tt, looked_at path t)
  unfolding ensure_env_writable if_there stat read ◌>>=◌ either refuse
  ensure_env_writable-marked path content t f h = rw (f.stat_lem, f.plain, f.read_lem, h) refl

  remove_generated_file-marked :
      (path : String) (content : List ℕ) (t : Trace W)
      → IsFile path content t
      → has_marker content ≡ true
      → (remove_generated_file W path t).1 ≡ file_call (remove path) ∷ looked_at path t
  unfolding remove_generated_file if_there stat read ◌>>=◌ either
  remove_generated_file-marked path content t f h =
      rw (f.stat_lem, f.plain, f.read_lem, h) (remove_if_there-trace path (looked_at path t))

  -- A later run on the `.env` that was written, for any configuration and version, takes the file for
  -- its own: the check before a write passes and changes nothing, and a reset calls for its removal,
  -- after no call but the two that look at it.
  pub written_env-IsOwn :
      (config : Config) (version path : String) (t : Trace W)
      → IsFile path (codes (env_content config version)) t
      → (ensure_env_writable W path t ≡ (ok tt, looked_at path t))
        × ((remove_generated_file W path t).1 ≡ file_call (remove path) ∷ looked_at path t)
  written_env-IsOwn config version path t f =
      let own = env_content-has_marker config version in
      (ensure_env_writable-marked path _ t f own, remove_generated_file-marked path _ t f own)

  -- A regular `.env` whose first line is not the marker is not touched: a write fails after the two
  -- calls that look at the file, and a reset makes only these calls and leaves the file, without an
  -- error.
  pub foreign_env-IsKept :
      (config : Config) (version dir : String) (content : List ℕ) (t : Trace W)
      → IsFile (dir <> "/.env") content t
      → first_line content ≢ codes env_marker
      → ((e : GoError) × (write_env W dir config version t ≡ (err e, looked_at (dir <> "/.env") t)))
        × (remove_generated_file W (dir <> "/.env") t ≡ (ok tt, looked_at (dir <> "/.env") t))
  unfolding write_env ensure_env_writable remove_generated_file if_there stat read ◌>>=◌ either
      refuse
  foreign_env-IsKept config version dir content t f h =
      let foreign = no_marker content h in
      (
        (
          conflict_error
              "%w: existing .env is not generated by tripgoctl; move it aside and run tripgoctl environment start again",
          rw (f.stat_lem, f.plain, f.read_lem, foreign) refl,
        ),
        rw (f.stat_lem, f.plain, f.read_lem, foreign) refl,
      )
