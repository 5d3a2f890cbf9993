-- ===== src/PushService/Steps.antt =====
-- internal/pushservice/service.go: what holds of a `Service` between any two of the steps that
-- requests make on it, in any interleaving.
use course_infra.Base.{
  ℕ, zero, suc, ◌≡◌, refl, sym, subst, String, Bool, true, false, Option, none, some, arith, inl,
  inr, Bool-cases, ℤ, pos, negsuc, ltb_ℤ, leb_ℤ, eqb, eqb_iff, ◌==◌, ◌⊎◌, if◌then◌else◌,
}
use course_infra.Errors.{ok}
use course_infra.PushService.{Library, PushRequest, Behaviour, BehaviourPatch, is_outside}
use course_infra.PushService.Cases.{
  wanted, patch_behaviour-cases, snapshot_unlimited, snapshot_limited,
}
use course_infra.PushService.Config.{second, PushConfig, validate_config}
use course_infra.PushService.Processing.{
  Service, Snapshot, admitted, limited, crashed, reset_limiter, new_service, is_refused, install,
  patch_behaviour, snapshot_and_allow, log_attempt, retry_delay,
}

-- A limiter that was made for this rate and burst, and then only asked.
pub data Descends (L : Library) (rps burst : ℤ) : L.Limiter → Type 0 where
  fresh : Descends L rps burst (L.new_limiter rps burst)
  asked :
      (now : L.Time) {l : L.Limiter}
      → Descends L rps burst l
      → Descends L rps burst (L.allow_n now l).1

-- Without a rate there is no limiter; with one there is one for this rate.
pub data Fits (L : Library) (burst : ℤ) : ℤ → Option (L.Limiter) → Type 0 where
  unlimited : Fits L burst (pos 0) none
  by_limiter :
      {n : ℕ} {l : L.Limiter}
      → Descends L (pos (suc n)) burst l
      → Fits L burst (pos (suc n)) (some l)

-- The settings are in their ranges, and the limiter is the one of the settings.
pub record IsSound {L : Library} (s : Service L) : Type 0 where
  pub rate : is_outside L s.behaviour.fail_rate ≡ false
  pub latency : ltb_ℤ s.behaviour.latency (pos 0) ≡ false
  pub burst : leb_ℤ s.burst (pos 0) ≡ false
  pub limiter : Fits L s.burst s.behaviour.rate_limit_rps s.limiter

-- The steps that are one critical section each, or that only write a log line.
pub data Step {L : Library} : Service L → Service L → Type 0 where
  patches : (p : BehaviourPatch L) (s : Service L) → Step s (patch_behaviour L p s).1
  asks : (now : L.Time) (s : Service L) → Step s (snapshot_and_allow L now s).1
  logs :
      (transport : String) (request : PushRequest) (result : String) (s : Service L)
      → Step s (log_attempt L transport request result s)

-- What a service may become after any steps of any requests.
pub data Reaches {L : Library} (s : Service L) : Service L → Type 0 where
  here : Reaches s s
  then_step : {t u : Service L} → Reaches s t → Step t u → Reaches s u

module _ (L : Library) where
  Fits-reset :
      (rps burst : ℤ)
      → ltb_ℤ rps (pos 0) ≡ false
      → Fits L burst rps (if eqb rps (pos 0) then none else some (L.new_limiter rps burst))
  Fits-reset (pos zero) burst h = unlimited
  Fits-reset (pos (suc n)) burst h = rw (positive n) (by_limiter fresh)
    where
      positive : (n : ℕ) → (suc n == 0) ≡ false
      positive n = ground arith
  Fits-reset (negsuc n) burst h = absurd (ground arith)

  -- The two ways to fit.
  pub Fits-cases :
      {rps burst : ℤ} {limiter : Option (L.Limiter)}
      → Fits L burst rps limiter
      → ((rps ≡ pos 0) × (limiter ≡ none))
        ⊎ ((l : L.Limiter) × (eqb rps (pos 0) ≡ false)
            × (limiter ≡ some l)
            × ((now : L.Time) → Fits L burst rps (some (L.allow_n now l).1)))
  Fits-cases unlimited = inl (refl, refl)
  Fits-cases (by_limiter {n} {l} d) = inr (l, (ground arith), refl, λ now. by_limiter (asked now d))

  reset_limiter-IsSound :
      (s : Service L)
      → is_outside L s.behaviour.fail_rate ≡ false
      → ltb_ℤ s.behaviour.latency (pos 0) ≡ false
      → leb_ℤ s.burst (pos 0) ≡ false
      → ltb_ℤ s.behaviour.rate_limit_rps (pos 0) ≡ false
      → IsSound (reset_limiter L s)
  unfolding reset_limiter
  reset_limiter-IsSound s rate latency burst rps = record {
    rate = rate;
    latency = latency;
    burst = burst;
    limiter = Fits-reset s.behaviour.rate_limit_rps s.burst rps;
  }

  pub new_service-IsSound :
      (config : PushConfig L) → validate_config L config ≡ ok tt → IsSound (new_service L config)
  unfolding new_service validate_config
  new_service-IsSound config h = record {
    rate = ground arith;
    latency = ground arith;
    burst = ground arith;
    limiter = Fits-reset config.rate_limit_rps config.rate_limit_burst (ground arith);
  }

  install-IsSound :
      (next : Behaviour L) (s : Service L)
      → is_refused L next ≡ false
      → IsSound s
      → IsSound (install L next s)
  unfolding install
  install-IsSound next s h sound =
      let rate : is_outside L next.fail_rate ≡ false = ground arith in
      let latency : ltb_ℤ next.latency (pos 0) ≡ false = ground arith in
      let rps : ltb_ℤ next.rate_limit_rps (pos 0) ≡ false = ground arith in
      elim (Bool-cases (eqb next.rate_limit_rps s.behaviour.rate_limit_rps)) [
        | inl e ↦ rw e (record {
          rate = rate;
          latency = latency;
          burst = sound.burst;
          limiter =
              subst (λ n. Fits L s.burst n s.limiter)
                (sym ((eqb_iff next.rate_limit_rps s.behaviour.rate_limit_rps).0 e)) sound.limiter;
        })
        | inr e ↦ rw e (record {
          rate = rate;
          latency = latency;
          burst = sound.burst;
          limiter = Fits-reset next.rate_limit_rps s.burst rps;
        })
      ]

  patch_behaviour-IsSound :
      (p : BehaviourPatch L) (s : Service L) → IsSound s → IsSound (patch_behaviour L p s).1
  patch_behaviour-IsSound p s sound = elim (patch_behaviour-cases L p s) [
    | inl (e, f) ↦ subst (λ r. IsSound r.1) (sym f) sound
    | inr a ↦
        subst (λ r. IsSound r.1) (sym a.result)
          (install-IsSound (wanted L p a.latency s) s a.in_range sound)
  ]

  -- A snapshot that was taken.
  abbrev pub IsTaken : Snapshot L → Type 0
  IsTaken (admitted b) = Unit
  IsTaken (limited b retry) = ltb_ℤ retry (pos second) ≡ false
  IsTaken crashed = ⊥

  retry_delay_bound : (rps : ℤ) → ltb_ℤ (retry_delay L rps) (pos second) ≡ false
  unfolding retry_delay
  retry_delay_bound rps = ground arith

  IsTaken-if :
      (allowed : Bool) (b : Behaviour L)
      → IsTaken (if allowed then admitted b else limited b (retry_delay L b.rate_limit_rps))
  IsTaken-if true b = tt
  IsTaken-if false b = retry_delay_bound b.rate_limit_rps

  pub snapshot_and_allow-IsSound :
      (now : L.Time) (s : Service L)
      → IsSound s
      → IsSound (snapshot_and_allow L now s).1 × IsTaken (snapshot_and_allow L now s).0
  snapshot_and_allow-IsSound now s sound = elim (Fits-cases sound.limiter) [
    | inl (e, f) ↦
        subst (λ r. IsSound r.1 × IsTaken r.0) (sym (snapshot_unlimited L now s e)) (sound, tt)
    | inr (l, e, f, next) ↦
        subst (λ r. IsSound r.1 × IsTaken r.0) (sym (snapshot_limited L now s l e f))
          (
            record {
              rate = sound.rate;
              latency = sound.latency;
              burst = sound.burst;
              limiter = next now;
            },
            IsTaken-if (L.allow_n now l).0 s.behaviour,
          )
  ]

  Step-IsSound : {s t : Service L} → Step s t → IsSound s → IsSound t
  unfolding log_attempt
  Step-IsSound (patches p s) sound = patch_behaviour-IsSound p s sound
  Step-IsSound (asks now s) sound = (snapshot_and_allow-IsSound now s sound).0
  Step-IsSound (logs transport request result s) sound = record {
    rate = sound.rate;
    latency = sound.latency;
    burst = sound.burst;
    limiter = sound.limiter;
  }

  pub Reaches-IsSound : {s t : Service L} → Reaches s t → IsSound s → IsSound t
  Reaches-IsSound here sound = sound
  Reaches-IsSound (then_step r step) sound = Step-IsSound step (Reaches-IsSound r sound)

  -- From valid settings the service is sound after any steps, and the next snapshot is taken.
  pub new_service-Reaches :
      (config : PushConfig L) (s : Service L) (now : L.Time)
      → validate_config L config ≡ ok tt
      → Reaches (new_service L config) s
      → IsSound s × IsTaken (snapshot_and_allow L now s).0
  new_service-Reaches config s now h r =
      let sound = Reaches-IsSound r (new_service-IsSound config h) in
      (sound, (snapshot_and_allow-IsSound now s sound).1)
