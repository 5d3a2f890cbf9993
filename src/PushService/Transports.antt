-- ===== src/PushService/Transports.antt =====
-- internal/pushservice/http.go and internal/pushservice/grpc.go: the two front ends answer alike, and
-- act on the service only by its steps.
use course_infra.Base.{
  ℕ, zero, suc, ◌≡◌, refl, sym, subst, ap, String, true, false, Option, none, some, List, [], ◌∷◌,
  inl, inr, arith, Bool-cases, ℤ, pos, negsuc, ltb_ℤ,
}
use course_infra.Errors.{GoError, Result-cases, Result, ok, err, deadline_exceeded, is}
use course_infra.Text.{itoa}
use course_infra.Config.{sprint}
use course_infra.PushService.{
  Library, PushRequest, BehaviourPatch, Accepted, Failure, FailureKind, failure_invalid,
  failure_rate_limited, failure_injected, failure_canceled, validate_push,
}
use course_infra.PushService.Config.{PushConfig, validate_config}
use course_infra.PushService.Http.{
  Json, Request, Call, health, push, admin_behaviour, Reply, reply, dropped, push_request,
  zero_request, decode_strict_json, retry_seconds, failure_reply, outcome_reply, answer_push,
  answer_patch, patch_reply, post_push, post_behaviour, http_handler,
}
use course_infra.PushService.Grpc.{
  SendPushRequest, code_invalid_argument, code_resource_exhausted, code_unavailable,
  code_deadline_exceeded, code_canceled, Sent, sent, status, aborted, push_of, failure_code,
  outcome_status, send_push,
}
use course_infra.PushService.Processing.{
  Service, new_service, Surroundings, Outcome, delivered, failed, panicked, patch_behaviour,
  snapshot_and_allow, log_attempt, attempt_push, process,
}
use course_infra.PushService.Outcomes.{attempt_push_invalid, attempt_push_valid}
use course_infra.PushService.Steps.{
  patches, asks, logs, Reaches, here, then_step, IsSound, IsTaken, new_service-Reaches,
}

module _ (L : Library) (J : Json L) where
  -- An HTTP reply and a gRPC answer that tell a client the same.
  pub data Agree : Reply → Sent L → Type 0 where
    both_accept :
        (a : Accepted L) (payload : List ℕ)
        → J.encode a ≡ ok payload
        → Agree (reply 202 (("Content-Type", "application/json") ∷ []) payload) (sent a)
    unencodable :
        (a : Accepted L) (e : GoError) → J.encode a ≡ err e → Agree (reply 500 [] []) (sent a)
    both_invalid : (e : GoError) → Agree (reply 400 [] []) (status code_invalid_argument e)
    both_limited :
        (n : ℕ) (e : GoError)
        → Agree
            (reply 429 (("Retry-After", itoa (suc n)) ∷ []) [])
            (status code_resource_exhausted e)
    both_injected : (e : GoError) → Agree (reply 503 [] []) (status code_unavailable e)
    both_late :
        (e : GoError)
        → is e deadline_exceeded ≡ true
        → Agree (reply 503 [] []) (status code_deadline_exceeded e)
    both_canceled :
        (e : GoError)
        → is e deadline_exceeded ≡ false
        → Agree (reply 503 [] []) (status code_canceled e)
    both_panic : Agree dropped aborted

  -- The header is a number from 1.
  retry_seconds_positive : (delay : ℤ) → (n : ℕ) × (retry_seconds L J delay ≡ pos (suc n))
  unfolding retry_seconds
  retry_seconds_positive delay = positive _ (ground arith)
    where
      positive : (z : ℤ) → ltb_ℤ z (pos 1) ≡ false → (n : ℕ) × (z ≡ pos (suc n))
      positive (pos zero) h = absurd (ground arith)
      positive (pos (suc n)) h = (n, refl)
      positive (negsuc n) h = absurd (ground arith)

  failures-Agree :
      (kind : FailureKind) (retry_after : ℤ) (error : GoError)
      → let f : Failure = record { kind = kind; retry_after = retry_after; error = error } in
        Agree (failure_reply L J f) (status (failure_code f) f.error)
  unfolding failure_reply failure_code itoa
  failures-Agree failure_invalid retry e = both_invalid e
  failures-Agree failure_rate_limited retry e =
      let (n, f) = retry_seconds_positive retry in
      subst
        (λ z.
          Agree (reply 429 (("Retry-After", sprint z) ∷ []) []) (status code_resource_exhausted e))
        (sym f) (both_limited n e)
  failures-Agree failure_injected retry e = both_injected e
  failures-Agree failure_canceled retry e = elim (Bool-cases (is e deadline_exceeded)) [
    | inl f ↦ rw f (both_late e f)
    | inr f ↦ rw f (both_canceled e f)
  ]

  outcomes-Agree : (o : Outcome L) → Agree (outcome_reply L J o) (outcome_status L o)
  unfolding outcome_reply outcome_status
  outcomes-Agree (delivered a) = elim (Result-cases (J.encode a)) [
    | inl (payload, e) ↦ rw (outcome_reply, e) (both_accept a payload e)
    | inr (x, e) ↦ rw (outcome_reply, e) (unencodable a x e)
  ]
  outcomes-Agree (failed f) = failures-Agree f.kind f.retry_after f.error
  outcomes-Agree panicked = both_panic

  -- What two front ends leave of the same service: they differ in the transport of a log line.
  pub record IsSameButLog (s t : Service L) : Type 0 where
    pub behaviour : s.behaviour ≡ t.behaviour
    pub burst : s.burst ≡ t.burst
    pub limiter : s.limiter ≡ t.limiter

  -- A push that arrives by HTTP and the same push by gRPC, on the same service in the same
  -- surroundings, are answered alike (400 and InvalidArgument, 429 and ResourceExhausted, 503 and
  -- Unavailable, DeadlineExceeded or Canceled, 202 and a response; 500 only where the response has no
  -- JSON), a Retry-After is a whole number of seconds from 1, and they leave the service the same but
  -- for the log.
  pub transports-Agree :
      (w : Surroundings L) (request : Request) (g : SendPushRequest) (s : Service L)
      → decode_strict_json L J push_request zero_request J.decode_push request ≡ (push_of g, none)
      → Agree (post_push L J w request s).0 (send_push L w g s).0
        × IsSameButLog (post_push L J w request s).1 (send_push L w g s).1
  unfolding post_push answer_push send_push process log_attempt
  transports-Agree w request g s h =
      subst (λ p. Agree p.0 (send_push L w g s).0 × IsSameButLog p.1 (send_push L w g s).1)
        (sym (ap (λ d. answer_push L J w d s) h))
        (
          outcomes-Agree (attempt_push L w (push_of g) s).0.0,
          record { behaviour = refl; burst = refl; limiter = refl },
        )

  attempt_push-Reaches :
      (w : Surroundings L) (r : PushRequest) (s : Service L) → Reaches s (attempt_push L w r s).1
  attempt_push-Reaches w r s = elim (Result-cases (validate_push L r)) [
    | inr (e, f) ↦ subst (λ p. Reaches s p.1) (sym (attempt_push_invalid L w r s e f)) here
    | inl (u, f) ↦
        subst (λ p. Reaches s p.1) (sym (attempt_push_valid L w r s f))
          (then_step here (asks w.now s))
  ]

  process-Reaches :
      (w : Surroundings L) (transport : String) (r : PushRequest) (s : Service L)
      → Reaches s (process L w transport r s).1
  unfolding process
  process-Reaches w transport r s =
      then_step (attempt_push-Reaches w r s) (logs transport r _ (attempt_push L w r s).1)

  answer_push-Reaches :
      (w : Surroundings L) (d : PushRequest × Option GoError) (s : Service L)
      → Reaches s (answer_push L J w d s).1
  unfolding answer_push
  answer_push-Reaches w (value, some e) s = then_step here (logs "http" value _ s)
  answer_push-Reaches w (value, none) s = process-Reaches w "http" value s

  answer_patch-Reaches :
      (d : BehaviourPatch L × Option GoError) (s : Service L) → Reaches s (answer_patch L J d s).1
  unfolding answer_patch
  answer_patch-Reaches (patch, some e) s = here
  answer_patch-Reaches (patch, none) s =
      subst (Reaches s) (same (patch_behaviour L patch s)) (then_step here (patches patch s))
    where
      same : (r : Result (Unit {0}) × Service L) → r.1 ≡ (patch_reply L J r).1
      same (ok _, s) = refl
      same (err _, s) = refl

  -- Every call of the two front ends changes the service by its steps alone.
  front_ends-Reaches :
      (w : Surroundings L) (call : Call) (g : SendPushRequest) (s : Service L)
      → Reaches s (http_handler L J w call s).1 × Reaches s (send_push L w g s).1
  unfolding http_handler post_push post_behaviour send_push
  front_ends-Reaches w call g s = (by_call call, process-Reaches w "grpc" (push_of g) s)
    where
      by_call : (call : Call) → Reaches s (http_handler L J w call s).1
      by_call health = here
      by_call (push request) = answer_push-Reaches w _ s
      by_call (admin_behaviour request) = answer_patch-Reaches _ s

  Reaches-trans : {s t u : Service L} → Reaches s t → Reaches t u → Reaches s u
  Reaches-trans r here = r
  Reaches-trans r (then_step q step) = then_step (Reaches-trans r q) step

  -- A service that is made from valid settings keeps, under the critical sections of any requests in
  -- any order, settings in their ranges and a limiter made for the current rate and burst exactly
  -- where there is a rate limit. So the next request never calls a missing limiter, and where it is
  -- refused it is told to wait at least one second. Every HTTP or gRPC call leads to such a service.
  pub service-IsSound :
      (config : PushConfig L) (s : Service L) (w : Surroundings L) (call : Call)
      (g : SendPushRequest)
      → validate_config L config ≡ ok tt
      → Reaches (new_service L config) s
      → IsSound s
        × IsTaken L (snapshot_and_allow L w.now s).0
        × Reaches (new_service L config) (http_handler L J w call s).1
        × Reaches (new_service L config) (send_push L w g s).1
  service-IsSound config s w call g h r =
      let (sound, taken) = new_service-Reaches L config s w.now h r in
      let (by_http, by_grpc) = front_ends-Reaches w call g s in
      (sound, taken, Reaches-trans r by_http, Reaches-trans r by_grpc)
