-- ===== src/PushService/Patching.antt =====
-- internal/pushservice/service.go: which patches of the settings are applied, and what they change.
use course_infra.Base.{
  ℕ, ◌*◌, ◌≤◌, ◌≡◌, ◌≢◌, ◌↔◌, refl, sym, subst, ap, ◌∙◌, false, Option, none, some, ◌⊎◌, inl, inr,
  arith, Bool-cases, ℤ, pos, negsuc, eqb, eqb_iff, ltb_ℤ, if◌then◌else◌, wrap_int64_pos,
}
use course_infra.Errors.{GoError, Result, ok, err}
use course_infra.PushService.{Library, BehaviourPatch, is_outside}
use course_infra.PushService.Cases.{wanted, IsApplied, patch_behaviour-cases}
use course_infra.PushService.Config.{millisecond}
use course_infra.PushService.Processing.{
  Service, reset_limiter, next_latency, given, install, is_refused, patch_behaviour,
}
use course_infra.PushService.Steps.{IsSound, Fits, unlimited, by_limiter}

module _ (L : Library) where
  -- Every value that a patch supplies is in its range.
  pub record IsInRange (p : BehaviourPatch L) : Type 0 where
    pub fail_rate : (x : L.Float) → p.fail_rate ≡ some x → is_outside L x ≡ false
    pub latency_ms :
        (p.latency_ms ≡ none) ⊎ ((n : ℕ) × (p.latency_ms ≡ some (pos n)) × (n ≤ 9223372036854))
    pub rate_limit_rps : (z : ℤ) → p.rate_limit_rps ≡ some z → ltb_ℤ z (pos 0) ≡ false

  -- The service after a patch: what it supplies is set, a latency as its exact number of nanoseconds,
  -- and the limiter is a new one only where the rate has changed.
  pub record IsPatched (p : BehaviourPatch L) (s after : Service L) : Type 0 where
    pub fail_rate : after.behaviour.fail_rate ≡ given L p.fail_rate s.behaviour.fail_rate
    pub latency :
        ((p.latency_ms ≡ none) × (after.behaviour.latency ≡ s.behaviour.latency))
        ⊎ ((n : ℕ) × (p.latency_ms ≡ some (pos n))
            × (after.behaviour.latency ≡ pos (n * millisecond)))
    pub rate_limit_rps :
        after.behaviour.rate_limit_rps ≡ given L p.rate_limit_rps s.behaviour.rate_limit_rps
    pub same_limiter :
        after.behaviour.rate_limit_rps ≡ s.behaviour.rate_limit_rps → after.limiter ≡ s.limiter
    pub new_limiter :
        after.behaviour.rate_limit_rps ≢ s.behaviour.rate_limit_rps
        → after.limiter ≡ (
            if eqb after.behaviour.rate_limit_rps (pos 0)
            then none
            else some (L.new_limiter after.behaviour.rate_limit_rps s.burst))
    pub burst : after.burst ≡ s.burst
    pub log : after.log ≡ s.log

  next_latency-exact :
      (o : Option ℤ) (current next : ℤ)
      → next_latency L o current ≡ ok next
      → ((o ≡ none) × (next ≡ current))
        ⊎ ((n : ℕ) × (o ≡ some (pos n)) × (n ≤ 9223372036854) × (next ≡ pos (n * millisecond)))
  unfolding next_latency
  next_latency-exact none current next h = inl (refl, ground arith)
  next_latency-exact (some (pos n)) current next h =
      let bound : n ≤ 9223372036854 = ground arith in
      inr (n, refl, bound, ground (arith, wrap_int64_pos (n * 1000000) (omega arith)))
  next_latency-exact (some (negsuc n)) current next h = absurd (ground arith)

  install-IsPatched :
      (p : BehaviourPatch L) (s : Service L) (latency : ℤ)
      → next_latency L p.latency_ms s.behaviour.latency ≡ ok latency
      → IsPatched p s (install L (wanted L p latency s) s)
  unfolding install reset_limiter
  install-IsPatched p s latency h =
      let change = next_latency-exact p.latency_ms s.behaviour.latency latency h in
      let set : ((p.latency_ms ≡ none) × (latency ≡ s.behaviour.latency))
          ⊎ ((n : ℕ) × (p.latency_ms ≡ some (pos n)) × (latency ≡ pos (n * millisecond))) =
        elim change [ inl same ↦ inl same | inr (n, e, bound, f) ↦ inr (n, e, f) ] in
      let rps = given L p.rate_limit_rps s.behaviour.rate_limit_rps in
      elim (Bool-cases (eqb rps s.behaviour.rate_limit_rps)) [
        | inl e ↦ rw e (record {
          fail_rate = refl;
          latency = set;
          rate_limit_rps = refl;
          same_limiter = λ same. refl;
          new_limiter = λ changed. absurd (changed ((eqb_iff rps s.behaviour.rate_limit_rps).0 e));
          burst = refl;
          log = refl;
        })
        | inr e ↦ rw e (record {
          fail_rate = refl;
          latency = set;
          rate_limit_rps = refl;
          same_limiter =
              λ same. absurd (ground (arith, e, (eqb_iff rps s.behaviour.rate_limit_rps).1 same));
          new_limiter = λ changed. refl;
          burst = refl;
          log = refl;
        })
      ]

  -- A patch fails and changes nothing, or it sets what it supplies.
  patch_behaviour-change :
      (p : BehaviourPatch L) (s : Service L)
      → ((e : GoError) × (patch_behaviour L p s ≡ (err e, s)))
        ⊎ (((patch_behaviour L p s).0 ≡ ok tt) × IsPatched p s (patch_behaviour L p s).1)
  patch_behaviour-change p s = elim (patch_behaviour-cases L p s) [
    | inl failed ↦ inl failed
    | inr a ↦ inr (
      ap (λ r. r.0) a.result,
      subst (IsPatched p s) (sym (ap (λ r. r.1) a.result))
          (install-IsPatched p s a.latency a.latency_lem),
    )
  ]

  next_latency_ok :
      (o : Option ℤ) (current : ℤ)
      → (o ≡ none) ⊎ ((n : ℕ) × (o ≡ some (pos n)) × (n ≤ 9223372036854))
      → ltb_ℤ current (pos 0) ≡ false
      → (latency : ℤ) × (next_latency L o current ≡ ok latency) × (ltb_ℤ latency (pos 0) ≡ false)
  unfolding next_latency
  next_latency_ok o current (inl e) h = (current, ap (λ o. next_latency L o current) e, h)
  next_latency_ok o current (inr (n, e, bound)) h =
      (pos (n * millisecond), ap (λ o. next_latency L o current) e ∙ fits, ground arith)
    where
      fits : next_latency L (some (pos n)) current ≡ ok (pos (n * millisecond))
      fits = ground (arith, wrap_int64_pos (n * 1000000) (omega arith))

  -- A predicate on the value that is set is one on the current value and on the one supplied.
  given-lem :
      {A : Type 0} (P : A → Type 0) (o : Option A) (current : A)
      → P current
      → ((a : A) → o ≡ some a → P a)
      → P (given L o current)
  given-lem P none current h k = h
  given-lem P (some a) current h k = k a refl

  IsApplied-IsInRange : (p : BehaviourPatch L) (s : Service L) → IsApplied L p s → IsInRange p
  IsApplied-IsInRange p s a = record {
    fail_rate = λ x e. ground (arith, ap (λ o. given L o s.behaviour.fail_rate) e);
    latency_ms = elim (next_latency-exact p.latency_ms _ _ a.latency_lem) [
      | inl (e, f) ↦ inl e
      | inr (n, e, bound, f) ↦ inr (n, e, bound)
    ];
    rate_limit_rps = λ z e. ground (arith, ap (λ o. given L o s.behaviour.rate_limit_rps) e);
  }

  Fits-rps :
      {rps burst : ℤ} {limiter : Option (L.Limiter)}
      → Fits L burst rps limiter
      → ltb_ℤ rps (pos 0) ≡ false
  Fits-rps unlimited = ground arith
  Fits-rps (by_limiter d) = ground arith

  in_range :
      (p : BehaviourPatch L) (s : Service L)
      → IsSound s
      → IsInRange p
      → (latency : ℤ) → ltb_ℤ latency (pos 0) ≡ false
      → is_refused L (wanted L p latency s) ≡ false
  in_range p s sound r latency h =
      let rate = given-lem (λ x. is_outside L x ≡ false) p.fail_rate _ sound.rate r.fail_rate in
      let rps =
        given-lem (λ z. ltb_ℤ z (pos 0) ≡ false) p.rate_limit_rps s.behaviour.rate_limit_rps
          (Fits-rps sound.limiter) r.rate_limit_rps in
      ground (arith, rate, rps)

  patch_behaviour_iff :
      (p : BehaviourPatch L) (s : Service L)
      → IsSound s
      → ((patch_behaviour L p s).0 ≡ ok tt) ↔ IsInRange p
  unfolding patch_behaviour
  patch_behaviour_iff p s sound = (
    λ h. elim (patch_behaviour-cases L p s) [
      | inl (e, f) ↦ absurd (differ e (sym (ap (λ r. r.0) f) ∙ h))
      | inr a ↦ IsApplied-IsInRange p s a
    ],
    λ r.
        let (latency, e, bound) =
          next_latency_ok p.latency_ms s.behaviour.latency r.latency_ms sound.latency in
        rw (patch_behaviour, e, in_range p s sound r latency bound) refl,
  )
    where
      differ : (e : GoError) → ◌≡◌ {A = Result (Unit {0})} (err e) (ok tt) → ⊥
      differ e h = ground arith

  -- On a service with valid settings `PatchBehaviour` succeeds exactly when every value that the patch
  -- supplies is in its range: a fail rate that is a number from 0 to 1, a latency from 0 milliseconds
  -- that an int64 of nanoseconds holds, a rate that is not negative. Then it sets exactly what is
  -- supplied, a latency as its number of nanoseconds without overflow, and replaces the limiter, by
  -- one for the new rate, exactly where the rate changes; where it fails it changes nothing.
  pub patch_behaviour-IsPatched :
      (p : BehaviourPatch L) (s : Service L)
      → IsSound s
      → (((patch_behaviour L p s).0 ≡ ok tt) ↔ IsInRange p)
        × (((e : GoError) × (patch_behaviour L p s ≡ (err e, s)))
            ⊎ (((patch_behaviour L p s).0 ≡ ok tt) × IsPatched p s (patch_behaviour L p s).1))
  patch_behaviour-IsPatched p s sound = (patch_behaviour_iff p s sound, patch_behaviour-change p s)
