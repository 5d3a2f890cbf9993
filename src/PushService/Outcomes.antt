-- ===== src/PushService/Outcomes.antt =====
-- internal/pushservice/service.go: which requests are delivered, and what a request and a patch change.
use course_infra.Base.{
  ◌≡◌, ◌≢◌, ◌↔◌, refl, sym, subst, ap, ◌∙◌, String, true, false, none, some, Bool-cases,
  Option-cases, ltb_ℤ, eqb, eqb_iff, ◌⊎◌, inl, inr, arith, pos, eq_iff,
}
use course_infra.Errors.{GoError, Result-cases, ok, err}
use course_infra.Text.{lookup}
use course_infra.PushService.{
  Library, PushRequest, Behaviour, failure_invalid, kind_text, is_supported, validate_push,
}
use course_infra.PushService.Cases.{snapshot_unlimited, snapshot_limited}
use course_infra.PushService.Processing.{
  Service, Surroundings, Snapshot, admitted, limited, crashed, Outcome, delivered, failed,
  snapshot_and_allow, wait, conclude, attempt_push, process,
}

-- A request of the contract.
pub record IsPush (L : Library) (r : PushRequest) : Type 0 where
  pub request_id : r.request_id ≢ ""
  pub recipient_id : L.is_uuid r.recipient_id ≡ true
  pub kind :
      (r.kind ≡ "REQUEST_POSITION") ⊎ ((r.kind ≡ "TRIP_CREATED") ⊎ (r.kind ≡ "TRIP_COMPLETED"))
  pub trip_id : r.kind ≡ "REQUEST_POSITION" → L.is_uuid (lookup "trip_id" r.data_map) ≡ true

is_supported_iff :
    (kind : String)
    → (is_supported kind ≡ true)
      ↔ ((kind ≡ "REQUEST_POSITION") ⊎ ((kind ≡ "TRIP_CREATED") ⊎ (kind ≡ "TRIP_COMPLETED")))
is_supported_iff kind = ground (
  arith,
  eq_iff kind "REQUEST_POSITION",
  eq_iff kind "TRIP_CREATED",
  eq_iff kind "TRIP_COMPLETED",
)

module _ (L : Library) where
  pub validate_push-IsPush : (r : PushRequest) → validate_push L r ≡ ok tt → IsPush L r
  unfolding validate_push
  validate_push-IsPush r h = record {
    request_id = λ e. ground (arith, eq_iff r.request_id "");
    recipient_id = ground arith;
    kind = (is_supported_iff r.kind).0 (ground arith);
    trip_id = λ e. ground (arith, eq_iff r.kind "REQUEST_POSITION");
  }

  IsPush-validate_push : (r : PushRequest) → IsPush L r → validate_push L r ≡ ok tt
  unfolding validate_push
  IsPush-validate_push r p =
      ground
        (arith, eq_iff r.request_id "", eq_iff r.kind "REQUEST_POSITION", is_supported_iff r.kind)

  abbrev pub delivery : Surroundings L → Outcome L
  delivery w = delivered (record { message_id = w.message_id; accepted_at = w.accepted_at })

  -- The global limiter lets a push through that arrives at this time: there is no limit, or there is
  -- one and its limiter answers the request for one token with yes.
  abbrev pub IsAdmitted : L.Time → Service L → Type 0
  IsAdmitted now s =
      (s.behaviour.rate_limit_rps ≡ pos 0)
      ⊎ ((s.behaviour.rate_limit_rps ≢ pos 0)
          × ((l : L.Limiter) × (s.limiter ≡ some l) × ((L.allow_n now l).0 ≡ true)))

  -- The context of a push is not done before a timer of the configured latency, where that is positive,
  -- and is not done already where it is not.
  abbrev pub IsInTime : Surroundings L → Service L → Type 0
  IsInTime w s =
      (ltb_ℤ (pos 0) s.behaviour.latency ≡ true → w.done_within s.behaviour.latency ≡ none)
      × (ltb_ℤ (pos 0) s.behaviour.latency ≡ false → w.done_already ≡ none)

  -- What makes a request succeed: it is valid, the limiter admits it, its context outlives the wait,
  -- and the random number does not fall below the fail rate.
  pub record IsDelivered (w : Surroundings L) (r : PushRequest) (s : Service L) : Type 0 where
    pub valid : IsPush L r
    pub allowed : IsAdmitted w.now s
    pub in_time : IsInTime w s
    pub spared : L.less w.random s.behaviour.fail_rate ≡ false

  admitted-IsAdmitted :
      (now : L.Time) (s : Service L)
      → (snapshot_and_allow L now s).0 ≡ admitted s.behaviour
      → IsAdmitted now s
  unfolding snapshot_and_allow
  admitted-IsAdmitted now s h = elim (Bool-cases (eqb s.behaviour.rate_limit_rps (pos 0))) [
    | inl e ↦ inl ((eqb_iff s.behaviour.rate_limit_rps (pos 0)).0 e)
    | inr e ↦ elim (Option-cases s.limiter) [
      | inl f ↦ absurd (ground (arith, rw (snapshot_and_allow, e, f) at h))
      | inr (l, f) ↦ elim (Bool-cases (L.allow_n now l).0) [
        | inr g ↦ absurd (ground (arith, rw (snapshot_and_allow, e, f, g) at h))
        | inl g ↦ inr (
          (λ same. ground (arith, e, (eqb_iff s.behaviour.rate_limit_rps (pos 0)).1 same)),
          (l, f, g),
        )
      ]
    ]
  ]

  IsAdmitted-admitted :
      (now : L.Time) (s : Service L)
      → IsAdmitted now s
      → (snapshot_and_allow L now s).0 ≡ admitted s.behaviour
  unfolding snapshot_and_allow
  IsAdmitted-admitted now s (inl e) = ap (λ p. p.0) (snapshot_unlimited L now s e)
  IsAdmitted-admitted now s (inr (e, (l, f, g))) =
      let limits : eqb s.behaviour.rate_limit_rps (pos 0) ≡ false =
        ground (arith, e, eqb_iff s.behaviour.rate_limit_rps (pos 0)) in
      ap (λ p. p.0) (snapshot_limited L now s l limits f) ∙ rw g refl

  wait-IsInTime : (w : Surroundings L) (s : Service L) → wait L s.behaviour w ≡ none → IsInTime w s
  unfolding wait
  wait-IsInTime w s h = ((λ e. rw (wait, e) at h), (λ e. rw (wait, e) at h))

  IsInTime-wait : (w : Surroundings L) (s : Service L) → IsInTime w s → wait L s.behaviour w ≡ none
  unfolding wait
  IsInTime-wait w s (timed, at_once) = elim (Bool-cases (ltb_ℤ (pos 0) s.behaviour.latency)) [
    | inl e ↦ rw (wait, e) (timed e)
    | inr e ↦ rw (wait, e) (at_once e)
  ]

  snapshot_behaviour :
      (now : L.Time) (s : Service L) (b : Behaviour L)
      → (snapshot_and_allow L now s).0 ≡ admitted b
      → b ≡ s.behaviour
  unfolding snapshot_and_allow
  snapshot_behaviour now s b h = ground arith

  conclude-delivered :
      (w : Surroundings L) (x : Snapshot L)
      → (conclude L w x).0 ≡ delivery w
      → (d : Behaviour L) × (x ≡ admitted d)
        × (wait L d w ≡ none)
        × (L.less w.random d.fail_rate ≡ false)
  unfolding conclude
  conclude-delivered w (admitted d) h = (d, refl, ground arith, ground arith)
  conclude-delivered w (limited d retry) h = ground arith
  conclude-delivered w crashed h = ground arith

  conclude-delivery :
      (w : Surroundings L) (b : Behaviour L)
      → wait L b w ≡ none
      → L.less w.random b.fail_rate ≡ false
      → (conclude L w (admitted b)).0 ≡ delivery w
  unfolding conclude
  conclude-delivery w b e f = rw (conclude, e, f) refl

  pub attempt_push_invalid :
      (w : Surroundings L) (r : PushRequest) (s : Service L) (e : GoError)
      → validate_push L r ≡ err e
      → attempt_push L w r s ≡ (
        (
          failed (record { kind = failure_invalid; retry_after = pos 0; error = e }),
          kind_text failure_invalid,
        ),
        s,
      )
  unfolding attempt_push
  attempt_push_invalid w r s e h = rw (attempt_push, h) refl

  pub attempt_push_valid :
      (w : Surroundings L) (r : PushRequest) (s : Service L)
      → validate_push L r ≡ ok tt
      → attempt_push L w r s
        ≡ (conclude L w (snapshot_and_allow L w.now s).0, (snapshot_and_allow L w.now s).1)
  unfolding attempt_push
  attempt_push_valid w r s h = rw (attempt_push, h) refl

  -- A push succeeds exactly when it is valid; no rate limit is set, or the limiter has a token for it at
  -- the time it arrives; its context is not done within the configured latency, or not done already
  -- where no latency is set; and the random number does not fall below the configured fail rate. It
  -- then carries the new message id and the time after the wait.
  pub process_iff :
      (w : Surroundings L) (transport : String) (r : PushRequest) (s : Service L)
      → ((process L w transport r s).0 ≡ delivery w) ↔ IsDelivered w r s
  unfolding process
  process_iff w transport r s = (
    λ h. elim (Result-cases (validate_push L r)) [
      | inr (e, f) ↦ absurd (refused e (sym (ap (λ p. p.0.0) (attempt_push_invalid w r s e f)) ∙ h))
      | inl (u, f) ↦
          let (b, e, g, k) =
            conclude-delivered w (snapshot_and_allow L w.now s).0
              (sym (ap (λ p. p.0.0) (attempt_push_valid w r s f)) ∙ h) in
          let eq = snapshot_behaviour w.now s b e in
          record {
            valid = validate_push-IsPush r f;
            allowed = admitted-IsAdmitted w.now s (e ∙ ap admitted eq);
            in_time = wait-IsInTime w s (subst (λ c. wait L c w ≡ none) eq g);
            spared = subst (λ c. L.less w.random c.fail_rate ≡ false) eq k;
          }
    ],
    λ d.
        ap (λ p. p.0.0) (attempt_push_valid w r s (IsPush-validate_push r d.valid))
        ∙ ap (λ x. (conclude L w x).0) (IsAdmitted-admitted w.now s d.allowed)
        ∙ conclude-delivery w s.behaviour (IsInTime-wait w s d.in_time) d.spared,
  )
    where
      refused :
          (e : GoError)
          → ◌≡◌ {A = Outcome L}
              (failed (record { kind = failure_invalid; retry_after = pos 0; error = e }))
              (delivery w)
          → ⊥
      refused e h = ground arith
