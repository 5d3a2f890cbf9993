-- ===== src/PushService/Cases.antt =====
-- internal/pushservice/service.go: the ways that the operations of a `Service` can go.
use course_infra.Base.{
  ◌≡◌, refl, false, some, ◌⊎◌, inl, inr, Bool-cases, ℤ, pos, eqb, if◌then◌else◌,
}
use course_infra.Errors.{GoError, new, Result-cases, ok, err}
use course_infra.PushService.{Library, Behaviour, BehaviourPatch}
use course_infra.PushService.Processing.{
  Service, admitted, limited, next_latency, given, is_refused, install, patch_behaviour,
  retry_delay, with_limiter, snapshot_and_allow,
}

module _ (L : Library) where
  -- The settings that a patch asks for.
  abbrev pub wanted : BehaviourPatch L → ℤ → Service L → Behaviour L
  wanted p latency s = record {
    fail_rate = given L p.fail_rate s.behaviour.fail_rate;
    latency = latency;
    rate_limit_rps = given L p.rate_limit_rps s.behaviour.rate_limit_rps;
  }

  -- A patch that is applied.
  pub record IsApplied (p : BehaviourPatch L) (s : Service L) : Type 0 where
    pub latency : ℤ
    pub latency_lem : next_latency L p.latency_ms s.behaviour.latency ≡ ok latency
    pub in_range : is_refused L (wanted p latency s) ≡ false
    pub result : patch_behaviour L p s ≡ (ok tt, install L (wanted p latency s) s)

  -- A patch is refused and changes nothing, or it is applied.
  pub patch_behaviour-cases :
      (p : BehaviourPatch L) (s : Service L)
      → ((e : GoError) × (patch_behaviour L p s ≡ (err e, s))) ⊎ IsApplied p s
  unfolding patch_behaviour
  patch_behaviour-cases p s =
      elim (Result-cases (next_latency L p.latency_ms s.behaviour.latency)) [
        | inr (e, f) ↦ inl (e, rw (patch_behaviour, f) refl)
        | inl (latency, f) ↦ elim (Bool-cases (is_refused L (wanted p latency s))) [
          | inl e ↦ inl (
            new "behaviour values are outside the supported range",
            rw (patch_behaviour, f, e) refl,
          )
          | inr e ↦ inr (record {
            latency = latency;
            latency_lem = f;
            in_range = e;
            result = rw (patch_behaviour, f, e) refl;
          })
        ]
      ]

  -- Without a rate limit everything is admitted.
  pub snapshot_unlimited :
      (now : L.Time) (s : Service L)
      → s.behaviour.rate_limit_rps ≡ pos 0
      → snapshot_and_allow L now s ≡ (admitted s.behaviour, s)
  unfolding snapshot_and_allow
  snapshot_unlimited now s e = rw (snapshot_and_allow, e) refl

  -- With one its limiter is asked once.
  pub snapshot_limited :
      (now : L.Time) (s : Service L) (l : L.Limiter)
      → eqb s.behaviour.rate_limit_rps (pos 0) ≡ false
      → s.limiter ≡ some l
      → snapshot_and_allow L now s ≡ (
        if (L.allow_n now l).0
            then admitted s.behaviour
            else limited s.behaviour (retry_delay L s.behaviour.rate_limit_rps),
        with_limiter L s (L.allow_n now l).1,
      )
  unfolding snapshot_and_allow
  snapshot_limited now s l e f = rw (snapshot_and_allow, e, f) refl
