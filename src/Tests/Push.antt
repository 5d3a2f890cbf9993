-- ===== src/Tests/Push.antt =====
-- Runs of the Push Service at one set of libraries: floats are thousandths with `none` for NaN, a
-- limiter counts the tokens that are left, and the only UUID is "u".
use Prim.Native.Nat.{◌/◌}
use course_infra.Base.{
  ℕ, zero, suc, ◌≡◌, ◌↔◌, ◌⊎◌, refl, Bool, true, false, Option, none, some, [], ◌∷◌, ltb, ℤ, pos,
  pos_part, str_eq, if◌then◌else◌,
}
use course_infra.Base.Int.{wrap_int64}
use course_infra.Errors.{GoError, ok, err}
use course_infra.PushService.{Library, BehaviourPatch, validate_push}
use course_infra.PushService.Config.{PushConfig, Lookup, config_from_env, validate_config}
use course_infra.PushService.Processing.{
  Service, Surroundings, new_service, patch_behaviour, snapshot_and_allow, process,
}
use course_infra.PushService.Http.{
  Json, Request, push, end_of_input, push_request, zero_request, decode_strict_json, post_push,
  http_handler,
}
use course_infra.PushService.Grpc.{SendPushRequest, kind_trip_created, push_of, send_push}
use course_infra.PushService.Steps.{
  Reaches, here, then_step, patches, IsSound, IsTaken, new_service-IsSound,
}
use course_infra.PushService.Outcomes.{IsDelivered, delivery, process_iff}
use course_infra.PushService.Recording.{IsRecorded, process-IsRecorded}
use course_infra.PushService.Patching.{IsInRange, IsPatched, patch_behaviour-IsPatched}
use course_infra.PushService.Transports.{Agree, IsSameButLog, transports-Agree, service-IsSound}
use course_infra.PushService.Strict.{IsStrict, decode_strict_json-IsStrict}
use course_infra.PushService.Settings.{IsFromEnv, config_from_env-IsFromEnv}

abbrev below : Option ℕ → Option ℕ → Bool
below (some a) (some b) = ltb a b
below (some a) none = false
below none b = false

abbrev is_none : Option ℕ → Bool
is_none none = true
is_none (some a) = false

abbrev take_token : ℕ → ℕ → Bool × ℕ
take_token now zero = (false, zero)
take_token now (suc tokens) = (true, tokens)

abbrev float_of : ℤ → Option ℕ
float_of z = some (pos_part z)

abbrev some_library : Library
some_library = record {
  Float = Option ℕ;
  is_nan = is_none;
  is_inf = λ x. false;
  less = below;
  nought = some 0;
  one = some 1000;
  parse_float = λ text. ok (some 250);
  parse_duration = λ text. ok (pos 1);
  to_lower = λ text. text;
  Time = ℕ;
  Limiter = ℕ;
  new_limiter = λ rps burst. pos_part burst;
  allow_n = take_token;
  ceil_inverse = λ rps. pos 1;
  ceil_seconds = λ d. pos (pos_part d / 1000000000);
  is_uuid = λ text. str_eq text "u";
}

abbrev some_config : PushConfig some_library
some_config = record {
  http_addr = ":8090";
  grpc_addr = ":9095";
  log_level = "info";
  fail_rate = some 0;
  latency = pos 0;
  rate_limit_rps = pos 20;
  rate_limit_burst = pos 2;
  shutdown_timeout = pos 10000000000;
}

valid_config : validate_config some_library some_config ≡ ok tt
unfolding validate_config
valid_config = refl

abbrev started : Service some_library
started = new_service some_library some_config

abbrev slow_patch : BehaviourPatch some_library
slow_patch = record {
  fail_rate = some (some 500);
  latency_ms = some (pos 9223372036854);
  rate_limit_rps = some (pos 7);
}

abbrev patched : Service some_library
patched = (patch_behaviour some_library slow_patch started).1

abbrev calm : Surroundings some_library
calm = record {
  now = 3;
  done_within = λ d. none;
  done_already = none;
  random = some 600;
  message_id = "m";
  accepted_at = 4;
}

abbrev trip_created : SendPushRequest
trip_created = record {
  request_id = "r";
  recipient_id = "u";
  kind = kind_trip_created;
  title = "";
  body = "";
  data_map = [];
}

-- The push that the gRPC request above carries, delivered with a token and a lucky number.
process_iff_example :
    ((process some_library calm "grpc" (push_of trip_created) patched).0
      ≡ delivery some_library calm)
    ↔ IsDelivered some_library calm (push_of trip_created) patched
process_iff_example = process_iff some_library calm "grpc" (push_of trip_created) patched

delivered_run :
    (process some_library calm "grpc" (push_of trip_created) patched).0 ≡ delivery some_library calm
unfolding process push_of patch_behaviour new_service validate_push wrap_int64
delivered_run = refl

started-IsSound : IsSound started
started-IsSound = new_service-IsSound some_library some_config valid_config

process-IsRecorded_example :
    let (outcome, after) = process some_library calm "grpc" (push_of trip_created) started in
    IsRecorded some_library calm "grpc" (push_of trip_created) started outcome after
process-IsRecorded_example =
    process-IsRecorded some_library calm "grpc" (push_of trip_created) started started-IsSound

patch_behaviour-IsPatched_example :
    (((patch_behaviour some_library slow_patch started).0 ≡ ok tt)
      ↔ IsInRange some_library slow_patch)
    × (((e : GoError) × (patch_behaviour some_library slow_patch started ≡ (err e, started)))
        ⊎ (((patch_behaviour some_library slow_patch started).0 ≡ ok tt)
            × IsPatched some_library slow_patch started patched))
patch_behaviour-IsPatched_example =
    patch_behaviour-IsPatched some_library slow_patch started started-IsSound

abbrev some_json : Json some_library
some_json = record {
  media_type = λ text. ok text;
  equal_fold = str_eq;
  decode_push = λ bytes. (push_of trip_created, none);
  decode_patch = λ bytes. (slow_patch, none);
  following = λ bytes. end_of_input;
  object = λ bytes. ok (("request_id", b'"' ∷ []) ∷ []);
  trim_space = λ bytes. bytes;
  encode = λ a. ok (b'{' ∷ []);
}

abbrev some_request : Request
some_request = record { content_type = "application/json"; body = b'{' ∷ []; body_error = none }

decoded_run :
    decode_strict_json some_library some_json push_request zero_request some_json.decode_push
      some_request
    ≡ (push_of trip_created, none)
unfolding decode_strict_json push_of
decoded_run = refl

transports-Agree_example :
    Agree some_library some_json
      (post_push some_library some_json calm some_request patched).0
      (send_push some_library calm trip_created patched).0
    × IsSameButLog some_library some_json
        (post_push some_library some_json calm some_request patched).1
        (send_push some_library calm trip_created patched).1
transports-Agree_example =
    transports-Agree some_library some_json calm some_request trip_created patched decoded_run

service-IsSound_example :
    IsSound patched
    × IsTaken some_library (snapshot_and_allow some_library 3 patched).0
    × Reaches started (http_handler some_library some_json calm (push some_request) patched).1
    × Reaches started (send_push some_library calm trip_created patched).1
service-IsSound_example =
    service-IsSound some_library some_json some_config patched calm (push some_request) trip_created
      valid_config (then_step here (patches slow_patch started))

decode_strict_json-IsStrict_example :
    IsStrict some_library some_json push_request some_json.decode_push some_request
      (push_of trip_created)
decode_strict_json-IsStrict_example =
    decode_strict_json-IsStrict some_library some_json push_request zero_request
      (push_of trip_created) some_json.decode_push some_request decoded_run

abbrev some_env : Lookup
some_env name =
    if str_eq name "PUSH_LATENCY_MS"
    then some "1500"
    else if str_eq name "PUSH_RATE_LIMIT_RPS"
    then some "+3"
    else none

abbrev env_config : PushConfig some_library
env_config = record {
  http_addr = ":8090";
  grpc_addr = ":9095";
  log_level = "info";
  fail_rate = some 0;
  latency = pos 1500000000;
  rate_limit_rps = pos 3;
  rate_limit_burst = pos 40;
  shutdown_timeout = pos 10000000000;
}

env_run : config_from_env some_library some_env ≡ ok env_config
unfolding config_from_env wrap_int64
env_run = refl

config_from_env-IsFromEnv_example : IsFromEnv some_library some_env env_config
config_from_env-IsFromEnv_example =
    config_from_env-IsFromEnv some_library some_env env_config env_run
