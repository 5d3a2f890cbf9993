-- ===== src/PushService/Processing.antt =====
-- internal/pushservice/service.go: the state of a `Service` and its operations. The mutex makes
-- `PatchBehaviour` and `snapshotAndAllow` one step each; the rest of `Process` reads only its snapshot.
use course_infra.Base.{
  String, Bool, Option, none, some, List, [], ◌∷◌, ℤ, pos, eqb, ltb_ℤ, scale, wrap_int64, ◌||◌, not,
  if◌then◌else◌,
}
use course_infra.Errors.{GoError, new, Result, ok, err}
use course_infra.PushService.{
  Library, PushRequest, Accepted, Behaviour, BehaviourPatch, Failure, FailureKind, failure_invalid,
  failure_rate_limited, failure_injected, failure_canceled, kind_text, is_outside, validate_push,
}
use course_infra.PushService.Config.{PushConfig, millisecond, second, max_milliseconds}

-- What `logAttempt` writes.
pub record Attempt : Type 0 where
  pub request_id : String
  pub recipient_id : String
  pub kind : String
  pub transport : String
  pub result : String

-- `Service`; `limiter` is a pointer, which may be nil.
pub record Service (L : Library) : Type 0 where
  pub behaviour : Behaviour L
  pub burst : ℤ
  pub limiter : Option (L.Limiter)
  pub log : List Attempt

-- What `snapshotAndAllow` returns; `crashed` is the call of `AllowN` on a nil limiter.
pub data Snapshot (L : Library) : Type 0 where
  admitted : Behaviour L → Snapshot L
  limited : Behaviour L → ℤ → Snapshot L
  crashed : Snapshot L

-- What `Process` returns.
pub data Outcome (L : Library) : Type 0 where
  delivered : Accepted L → Outcome L
  failed : Failure → Outcome L
  panicked : Outcome L

-- What `Process` reads of its surroundings: the clock before and after, the context's error if it
-- is done before a timer of this length, or already, the random number and the message id.
pub record Surroundings (L : Library) : Type 0 where
  pub now : L.Time
  pub done_within : ℤ → Option GoError
  pub done_already : Option GoError
  pub random : L.Float
  pub message_id : String
  pub accepted_at : L.Time

-- `processingResultOK`
abbrev pub processing_result_ok : String
processing_result_ok = "accepted"

module _ (L : Library) where
  -- `resetLimiterLocked`
  unfoldable pub reset_limiter : Service L → Service L
  reset_limiter s = record {
    behaviour = s.behaviour;
    burst = s.burst;
    limiter =
        if eqb s.behaviour.rate_limit_rps (pos 0)
        then none
        else some (L.new_limiter s.behaviour.rate_limit_rps s.burst);
    log = s.log;
  }

  -- `NewService`
  unfoldable pub new_service : PushConfig L → Service L
  unfolding reset_limiter
  new_service config = reset_limiter (record {
    behaviour = record {
      fail_rate = config.fail_rate;
      latency = config.latency;
      rate_limit_rps = config.rate_limit_rps;
    };
    burst = config.rate_limit_burst;
    limiter = none;
    log = [];
  })

  abbrev pub given {ℓ} : {A : Type ℓ} → Option A → A → A
  given none current = current
  given (some value) current = value

  -- The latency of a patch, and its first check.
  unfoldable pub next_latency : Option ℤ → ℤ → Result ℤ
  next_latency none current = ok current
  next_latency (some ms) current =
      if ltb_ℤ ms (pos 0) || ltb_ℤ max_milliseconds ms
      then err (new "latency_ms is outside the supported duration range")
      else ok (wrap_int64 (scale ms millisecond))

  -- The second check of `PatchBehaviour`.
  abbrev pub is_refused : Behaviour L → Bool
  is_refused next =
      is_outside L next.fail_rate || ltb_ℤ next.latency (pos 0) || ltb_ℤ next.rate_limit_rps (pos 0)

  -- The end of `PatchBehaviour`.
  unfoldable pub install : Behaviour L → Service L → Service L
  unfolding reset_limiter
  install next s =
      let changed : Service L = record {
        behaviour = next;
        burst = s.burst;
        limiter = s.limiter;
        log = s.log;
      } in
      if not (eqb next.rate_limit_rps s.behaviour.rate_limit_rps)
      then reset_limiter changed
      else changed

  -- `PatchBehaviour`
  unfoldable pub patch_behaviour : BehaviourPatch L → Service L → Result (Unit {0}) × Service L
  unfolding next_latency install
  patch_behaviour patch s = elim (next_latency patch.latency_ms s.behaviour.latency) [
    | err e ↦ (err e, s)
    | ok latency ↦
        let next : Behaviour L = record {
          fail_rate = given patch.fail_rate s.behaviour.fail_rate;
          latency = latency;
          rate_limit_rps = given patch.rate_limit_rps s.behaviour.rate_limit_rps;
        } in
        if is_refused next
        then (err (new "behaviour values are outside the supported range"), s)
        else (ok tt, install next s)
  ]

  -- The delay of `snapshotAndAllow`.
  unfoldable pub retry_delay : ℤ → ℤ
  retry_delay rps =
      let retry = wrap_int64 (scale (L.ceil_inverse rps) second) in
      if ltb_ℤ retry (pos second) then pos second else retry

  abbrev pub with_limiter : Service L → L.Limiter → Service L
  with_limiter s limiter = record {
    behaviour = s.behaviour;
    burst = s.burst;
    limiter = some limiter;
    log = s.log;
  }

  -- `snapshotAndAllow`
  unfoldable pub snapshot_and_allow : L.Time → Service L → Snapshot L × Service L
  unfolding retry_delay
  snapshot_and_allow now s =
      let current = s.behaviour in
      if eqb current.rate_limit_rps (pos 0) then (admitted current, s) else elim s.limiter [
        | none ↦ (crashed, s)
        | some limiter ↦
            let (allowed, after) = L.allow_n now limiter in
            (
              if allowed
                  then admitted current
                  else limited current (retry_delay current.rate_limit_rps),
              with_limiter s after,
            )
      ]

  -- The two `select`s of `Process`.
  unfoldable pub wait : Behaviour L → Surroundings L → Option GoError
  wait behaviour w =
      if ltb_ℤ (pos 0) behaviour.latency then w.done_within behaviour.latency else w.done_already

  abbrev pub failure : FailureKind → ℤ → GoError → Outcome L
  failure kind retry e = failed (record { kind = kind; retry_after = retry; error = e })

  -- `Process` after its snapshot: what it returns, and its variable `result` at that time. A panic
  -- leaves `result` at its first value.
  unfoldable pub conclude : Surroundings L → Snapshot L → Outcome L × String
  unfolding wait
  conclude w (admitted behaviour) = elim (wait behaviour w) [
    | some e ↦ (failure failure_canceled (pos 0) e, kind_text failure_canceled)
    | none ↦
        if L.less w.random behaviour.fail_rate
        then (
          failure failure_injected (pos 0) (new "injected push failure"),
          kind_text failure_injected,
        )
        else (
          delivered (record { message_id = w.message_id; accepted_at = w.accepted_at }),
          processing_result_ok,
        )
  ]
  conclude w (limited behaviour retry) = (
    failure failure_rate_limited retry (new "global push rate limit exceeded"),
    kind_text failure_rate_limited,
  )
  conclude w crashed = (panicked, processing_result_ok)

  -- `logAttempt`
  unfoldable pub log_attempt : String → PushRequest → String → Service L → Service L
  log_attempt transport request result s = record {
    behaviour = s.behaviour;
    burst = s.burst;
    limiter = s.limiter;
    log =
        record {
          request_id = request.request_id;
          recipient_id = request.recipient_id;
          kind = request.kind;
          transport = transport;
          result = result;
        }
        ∷ s.log;
  }

  -- The body of `Process`, without the deferred call, with `result` as it leaves it.
  unfoldable pub attempt_push :
      Surroundings L → PushRequest → Service L → (Outcome L × String) × Service L
  unfolding snapshot_and_allow conclude
  attempt_push w request s = elim (validate_push L request) [
    | err e ↦ ((failure failure_invalid (pos 0) e, kind_text failure_invalid), s)
    | ok _ ↦ let (snapshot, after) = snapshot_and_allow w.now s in (conclude w snapshot, after)
  ]

  -- `Process`
  unfoldable pub process : Surroundings L → String → PushRequest → Service L → Outcome L × Service L
  unfolding attempt_push log_attempt
  process w transport request s =
      let ((outcome, result), after) = attempt_push w request s in
      (outcome, log_attempt transport request result after)
