-- ===== src/PushService/Config.antt =====
-- internal/pushservice/config.go: the settings of the process, read from its environment. An
-- environment is a function, `os.LookupEnv`; the parsers of floats and durations are the library's.
use course_infra.Base.{
  ℕ, ◌+◌, ◌-◌, ◌*◌, String, Bool, true, false, Option, none, some, List, [], ◌∷◌, ℤ, pos, leb, ltb,
  ltb_ℤ, leb_ℤ, scale, neg, wrap_int64, str_eq, ◌||◌, ◌&&◌, not, ◌==◌, if◌then◌else◌,
}
use course_infra.Errors.{new, wrap, Result, ok, err, ◌>>=◌, ◌>>◌}
use course_infra.Text.{codes, is_blank}
use course_infra.PushService.{Library, is_outside}

-- Nanoseconds in a `time.Millisecond` and a `time.Second`.
abbrev pub millisecond : ℕ
millisecond = 1000000

abbrev pub second : ℕ
second = 1000000000

-- `(1<<63 - 1) / time.Millisecond`
abbrev pub max_milliseconds : ℤ
max_milliseconds = pos 9223372036854

-- `Config`
pub record PushConfig (L : Library) : Type 0 where
  pub http_addr : String
  pub grpc_addr : String
  pub log_level : String
  pub fail_rate : L.Float
  pub latency : ℤ
  pub rate_limit_rps : ℤ
  pub rate_limit_burst : ℤ
  pub shutdown_timeout : ℤ

abbrev number_from : ℕ → List ℕ → Option ℕ
number_from value [] = some value
number_from value (c ∷ cs) =
    let rest = number_from (10 * value + (c - b'0')) cs in
    if leb b'0' c && leb c b'9' then rest else none

abbrev number : List ℕ → Option ℕ
number [] = none
number (c ∷ cs) = number_from 0 (c ∷ cs)

-- A sign and its number, where the int64 has it.
abbrev in_int64 : Bool → Option ℕ → Result ℤ
in_int64 negative none = err (new "invalid syntax")
in_int64 true (some n) =
    if ltb 9223372036854775808 n then err (new "value out of range") else ok (neg n)
in_int64 false (some n) =
    if ltb 9223372036854775807 n then err (new "value out of range") else ok (pos n)

abbrev signed : List ℕ → Result ℤ
signed [] = err (new "invalid syntax")
signed (c ∷ cs) =
    if c == b'-'
    then in_int64 true (number cs)
    else if c == b'+'
    then in_int64 false (number cs)
    else in_int64 false (number (c ∷ cs))

-- `strconv.Atoi`, for an int of 64 bits.
unfoldable pub atoi : String → Result ℤ
atoi text = signed (codes text)

abbrev pub Lookup : Type 0
Lookup = String → Option String

-- `envOr`
unfoldable pub env_or : Lookup → String → String → String
env_or env name fallback = elim (env name) [ some value ↦ value | none ↦ fallback ]

abbrev context {ℓ} : {A : Type ℓ} → String → Result A → Result A
context text (ok a) = ok a
context text (err e) = err (wrap text e)

-- `envInt`
unfoldable pub env_int : Lookup → String → ℤ → Result ℤ
unfolding atoi
env_int env name fallback = elim (env name) [
  | none ↦ ok fallback
  | some value ↦ context "%s must be an integer: %w" (atoi value)
]

abbrev is_level : String → Bool
is_level level =
    str_eq level "debug" || str_eq level "info" || str_eq level "warn" || str_eq level "error"

module _ (L : Library) where
  -- `envFloat`
  unfoldable pub env_float : Lookup → String → L.Float → Result (L.Float)
  env_float env name fallback = elim (env name) [
    | none ↦ ok fallback
    | some value ↦ context "%s must be a number: %w" (L.parse_float value)
  ]

  -- `Config.Validate`
  unfoldable pub validate_config : PushConfig L → Result (Unit {0})
  validate_config c =
      if is_blank c.http_addr || is_blank c.grpc_addr
      then err (new "HTTP_ADDR and GRPC_ADDR must be non-empty")
      else if not (is_level c.log_level)
      then err (new "LOG_LEVEL must be debug, info, warn, or error")
      else if is_outside L c.fail_rate
      then err (new "PUSH_FAIL_RATE must be between 0 and 1")
      else if ltb_ℤ c.latency (pos 0)
      then err (new "PUSH_LATENCY_MS must be non-negative")
      else if ltb_ℤ c.rate_limit_rps (pos 0)
      then err (new "PUSH_RATE_LIMIT_RPS must be non-negative")
      else if leb_ℤ c.rate_limit_burst (pos 0)
      then err (new "PUSH_RATE_LIMIT_BURST must be positive")
      else if leb_ℤ c.shutdown_timeout (pos 0)
      then err (new "shutdown timeout must be positive")
      else ok tt

  -- `PUSH_LATENCY_MS` as a duration.
  unfoldable pub env_latency : Lookup → Result ℤ
  unfolding env_int
  env_latency env = do
    ms ← env_int env "PUSH_LATENCY_MS" (pos 0)
    if ltb_ℤ ms (pos 0) || ltb_ℤ max_milliseconds ms
        then err (new "PUSH_LATENCY_MS is outside the supported duration range")
        else ok (wrap_int64 (scale ms millisecond))

  -- `SHUTDOWN_TIMEOUT`
  unfoldable pub env_shutdown_timeout : Lookup → Result ℤ
  env_shutdown_timeout env = elim (env "SHUTDOWN_TIMEOUT") [
    | none ↦ ok (pos (10 * second))
    | some value ↦ context "SHUTDOWN_TIMEOUT must be a duration: %w" (L.parse_duration value)
  ]

  -- `ConfigFromEnv`
  unfoldable pub config_from_env : Lookup → Result (PushConfig L)
  unfolding env_or env_float env_latency env_int env_shutdown_timeout validate_config
  config_from_env env = do
    rate ← env_float env "PUSH_FAIL_RATE" L.nought
    latency ← env_latency env
    rps ← env_int env "PUSH_RATE_LIMIT_RPS" (pos 20)
    burst ← env_int env "PUSH_RATE_LIMIT_BURST" (pos 40)
    timeout ← env_shutdown_timeout env
    let config : PushConfig L = record {
      http_addr = env_or env "HTTP_ADDR" ":8090";
      grpc_addr = env_or env "GRPC_ADDR" ":9095";
      log_level = L.to_lower (env_or env "LOG_LEVEL" "info");
      fail_rate = rate;
      latency = latency;
      rate_limit_rps = rps;
      rate_limit_burst = burst;
      shutdown_timeout = timeout;
    } in
        do validate_config config; ok config
