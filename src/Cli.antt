-- ===== src/Cli.antt =====
-- internal/cli: the commands of tripgoctl. `Dependencies` is the boundary that cmd/tripgoctl fills; what
-- a command does is the list of its calls, the newest first, and the dependencies answer each call from
-- the calls before it. The argument parser is cobra's.
pub mod Commands
pub mod Connect
pub mod Confirmation
use Prim.Native.String
use course_infra.Base.{
  ℕ, zero, suc, ◌-◌, String, Bool, true, false, Option, none, some, List, [], ◌∷◌, ◌++◌, length,
  ◌==◌, str_eq, if◌then◌else◌,
}
use course_infra.Text.{◌<>◌, codes}
use course_infra.Errors.{GoError, Result}
use course_infra.Config.{Config}
use course_infra.Cluster.Lifecycle.{Status}
use course_infra.Lab.{RuntimeStatus}

-- What a command asks of its dependencies, and what it prints.
pub data Call : Type 0 where
  cluster_start cluster_inspect : Call
  cluster_stop : List String → Call
  resource_warnings : ℕ → ℕ → Call
  working_directory : Call
  configured_lab : String → Call
  environment_start environment_stop : String → String → Call
  environment_status environment_reset : String → Call
  environment_list : Call
  parse_config : String → Call
  print : String → Call
  read_line : Call

-- `Dependencies`, with `ClusterLifecycle` and `EnvironmentLifecycle`.
pub record Dependencies : Type 0 where
  pub is_terminal : Bool
  pub has_environment : Bool
  pub version : String
  pub cluster_start : List Call → Result Status
  pub cluster_inspect : List Call → Result Status
  pub cluster_stop : List Call → List String → Result (Unit {0})
  pub working_directory : List Call → Result String
  pub configured_lab : List Call → String → Result ℕ
  pub environment_start : List Call → String → String → Result RuntimeStatus
  pub environment_status : List Call → String → Result RuntimeStatus
  pub environment_stop : List Call → String → String → Result RuntimeStatus
  pub environment_reset : List Call → String → Result (Unit {0})
  pub environment_list : List Call → Result (List RuntimeStatus)
  pub parse_config : List Call → String → Result Config
  pub print : List Call → String → Result (Unit {0})
  -- `bufio.NewReader(deps.Stdin).ReadString('\n')`: the text read, and the error
  pub read_line : List Call → String × Option GoError

abbrev spaces : ℕ → String
spaces zero = ""
spaces (suc n) = " " <> spaces n

-- `%-15s` and its like: spaces behind a text that is shorter.
abbrev pub pad_right : ℕ → String → String
pad_right width text = text <> spaces (width - length (codes text))

-- `strings.Join`
abbrev pub join : String → List String → String
join separator [] = ""
join separator (text ∷ []) = text
join separator (text ∷ next ∷ texts) = text <> separator <> join separator (next ∷ texts)

-- `strings.TrimSuffix` for one character, on code points.
abbrev trim_end : ℕ → List ℕ → List ℕ
trim_end c [] = []
trim_end c (x ∷ []) = if x == c then [] else x ∷ []
trim_end c (x ∷ y ∷ text) = x ∷ trim_end c (y ∷ text)

abbrev is_yes : List ℕ → Bool
is_yes (x ∷ y ∷ z ∷ []) = if x == b'y' then (if y == b'e' then z == b's' else false) else false
is_yes _ = false

-- `isExactYes`
unfoldable pub is_exact_yes : String → Bool
is_exact_yes answer = is_yes (trim_end b'\r' (trim_end b'\n' (codes answer)))
