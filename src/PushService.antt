-- ===== src/PushService.antt =====
-- internal/pushservice/service.go: the requests, the settings and the failures of the Push Service.
-- What it uses of other packages is a parameter: the floats, the clock, rate.Limiter, uuid.Parse and
-- the parsers of strconv and time.
pub mod Config
pub mod Processing
pub mod Http
pub mod Grpc
pub mod Cases
pub mod Steps
pub mod Outcomes
pub mod Recording
pub mod Patching
pub mod Transports
pub mod Strict
pub mod Settings
use course_infra.Base.{
  ℕ, String, Bool, true, false, Option, List, ℤ, str_eq, ◌||◌, not, if◌then◌else◌,
}
use course_infra.Errors.{GoError, new, Result, ok, err}
use course_infra.Text.{lookup}

-- `ceil_inverse n` is `math.Ceil(1/float64(n))` and `ceil_seconds d` is `math.Ceil(d.Seconds())`, as
-- integers. `allow_n` is `AllowN(now, 1)` with the limiter after it.
pub record Library : Type 1 where
  pub Float : Type 0
  pub is_nan : Float → Bool
  pub is_inf : Float → Bool
  pub less : Float → Float → Bool
  pub nought : Float
  pub one : Float
  pub parse_float : String → Result Float
  pub parse_duration : String → Result ℤ
  pub to_lower : String → String
  pub Time : Type 0
  pub Limiter : Type 0
  pub new_limiter : ℤ → ℤ → Limiter
  pub allow_n : Time → Limiter → Bool × Limiter
  pub ceil_inverse : ℤ → ℤ
  pub ceil_seconds : ℤ → ℤ
  pub is_uuid : String → Bool

-- `PushRequest`; the map `Data` is an association list.
pub record PushRequest : Type 0 where
  pub request_id : String
  pub recipient_id : String
  pub kind : String
  pub title : String
  pub body : String
  pub data_map : List (String × String)

-- `Accepted`
pub record Accepted (L : Library) : Type 0 where
  pub message_id : String
  pub accepted_at : L.Time

-- `Behaviour`; a duration counts nanoseconds.
pub record Behaviour (L : Library) : Type 0 where
  pub fail_rate : L.Float
  pub latency : ℤ
  pub rate_limit_rps : ℤ

-- `BehaviourPatch`
pub record BehaviourPatch (L : Library) : Type 0 where
  pub fail_rate : Option (L.Float)
  pub latency_ms : Option ℤ
  pub rate_limit_rps : Option ℤ

-- `FailureKind`
pub data FailureKind : Type 0 where
  failure_invalid failure_rate_limited failure_injected failure_canceled : FailureKind

-- The text of a `FailureKind`.
abbrev pub kind_text : FailureKind → String
kind_text failure_invalid = "invalid"
kind_text failure_rate_limited = "rate_limited"
kind_text failure_injected = "injected_failure"
kind_text failure_canceled = "canceled"

-- `Failure`
pub record Failure : Type 0 where
  pub kind : FailureKind
  pub retry_after : ℤ
  pub error : GoError

-- The kinds that `validatePush` supports.
abbrev pub is_supported : String → Bool
is_supported kind =
    str_eq kind "REQUEST_POSITION" || str_eq kind "TRIP_CREATED" || str_eq kind "TRIP_COMPLETED"

module _ (L : Library) where
  -- The test of a fail rate, which `PatchBehaviour` and `Config.Validate` share.
  abbrev pub is_outside : L.Float → Bool
  is_outside rate = L.is_nan rate || L.is_inf rate || L.less rate L.nought || L.less L.one rate

  -- `validatePush`
  unfoldable pub validate_push : PushRequest → Result (Unit {0})
  validate_push request =
      if str_eq request.request_id ""
      then err (new "request_id is required")
      else if not (L.is_uuid request.recipient_id)
      then err (new "recipient_id must be a UUID")
      else if not (is_supported request.kind)
      then err (new "kind is required and must be supported")
      else if str_eq request.kind "REQUEST_POSITION"
      then if not (L.is_uuid (lookup "trip_id" request.data_map))
        then err (new "data.trip_id must be a UUID for REQUEST_POSITION")
        else ok tt
      else ok tt
