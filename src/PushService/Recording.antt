-- ===== src/PushService/Recording.antt =====
-- internal/pushservice/service.go: what a request leaves behind, whatever its outcome.
use course_infra.Base.{
  ◌≡◌, refl, sym, subst, String, some, List, ◌∷◌, ◌⊎◌, inl, inr, Bool-cases, Option-cases,
}
use course_infra.Errors.{Result-cases}
use course_infra.PushService.{
  Library, PushRequest, failure_invalid, failure_rate_limited, failure_injected, failure_canceled,
  validate_push,
}
use course_infra.PushService.Cases.{snapshot_unlimited, snapshot_limited}
use course_infra.PushService.Processing.{
  Service, Surroundings, Snapshot, admitted, limited, crashed, Outcome, delivered, failed, panicked,
  snapshot_and_allow, wait, conclude, log_attempt, attempt_push, process, Attempt,
}
use course_infra.PushService.Steps.{Fits-cases, IsSound, IsTaken, snapshot_and_allow-IsSound}
use course_infra.PushService.Outcomes.{
  IsPush, validate_push-IsPush, attempt_push_invalid, attempt_push_valid,
}

module _ (L : Library) where
  -- The request is answered.
  abbrev pub IsSettled : Outcome L → Type 0
  IsSettled (delivered accepted) = Unit
  IsSettled (failed f) = Unit
  IsSettled panicked = ⊥

  -- The word for an answer in the log.
  abbrev pub answer_text : Outcome L → String
  answer_text (delivered accepted) = "accepted"
  answer_text (failed f) = elim f.kind [
    | failure_invalid ↦ "invalid"
    | failure_rate_limited ↦ "rate_limited"
    | failure_injected ↦ "injected_failure"
    | failure_canceled ↦ "canceled"
  ]
  answer_text panicked = ""

  -- The log line of a request and its outcome.
  abbrev pub log_line : String → PushRequest → String → Attempt
  log_line transport r result = record {
    request_id = r.request_id;
    recipient_id = r.recipient_id;
    kind = r.kind;
    transport = transport;
    result = result;
  }

  abbrev pub line : String → PushRequest → Outcome L → Attempt
  line transport r outcome = log_line transport r (answer_text outcome)

  -- What a request leaves behind, whatever its outcome.
  pub record IsRecorded (w : Surroundings L) (transport : String) (r : PushRequest) (s : Service L)
      (outcome : Outcome L) (after : Service L) : Type 0 where
    pub behaviour : after.behaviour ≡ s.behaviour
    pub burst : after.burst ≡ s.burst
    pub limiter :
        (after.limiter ≡ s.limiter)
        ⊎ (IsPush L r
            × ((l : L.Limiter) × (s.limiter ≡ some l)
                × (after.limiter ≡ some (L.allow_n w.now l).1)))
    pub log : after.log ≡ line transport r outcome ∷ s.log
    pub settled : IsSettled outcome

  conclude-IsSettled :
      (w : Surroundings L) (x : Snapshot L) → IsTaken L x → IsSettled (conclude L w x).0
  unfolding conclude
  conclude-IsSettled w (admitted b) t = elim (Option-cases (wait L b w)) [
    | inr (e, f) ↦ rw (conclude, f) tt
    | inl f ↦ elim (Bool-cases (L.less w.random b.fail_rate)) [
      | inl g ↦ rw (conclude, f, g) tt
      | inr g ↦ rw (conclude, f, g) tt
    ]
  ]
  conclude-IsSettled w (limited b retry) t = tt
  conclude-IsSettled w crashed t = t

  -- The variable `result` has the word for the answer.
  conclude-answer_text :
      (w : Surroundings L) (x : Snapshot L)
      → IsTaken L x
      → (conclude L w x).1 ≡ answer_text (conclude L w x).0
  unfolding conclude
  conclude-answer_text w (admitted b) t = elim (Option-cases (wait L b w)) [
    | inr (e, f) ↦ rw (conclude, f) refl
    | inl f ↦ elim (Bool-cases (L.less w.random b.fail_rate)) [
      | inl g ↦ rw (conclude, f, g) refl
      | inr g ↦ rw (conclude, f, g) refl
    ]
  ]
  conclude-answer_text w (limited b retry) t = refl
  conclude-answer_text w crashed t = absurd t

  -- What a snapshot does to the service.
  record IsAsked (now : L.Time) (s after : Service L) : Type 0 where
    behaviour : after.behaviour ≡ s.behaviour
    burst : after.burst ≡ s.burst
    log : after.log ≡ s.log
    limiter :
        (after.limiter ≡ s.limiter)
        ⊎ ((l : L.Limiter) × (s.limiter ≡ some l) × (after.limiter ≡ some (L.allow_n now l).1))

  snapshot_and_allow-IsAsked :
      (now : L.Time) (s : Service L) → IsSound s → IsAsked now s (snapshot_and_allow L now s).1
  snapshot_and_allow-IsAsked now s sound = elim (Fits-cases L sound.limiter) [
    | inl (e, f) ↦
        subst (λ r. IsAsked now s r.1) (sym (snapshot_unlimited L now s e))
          (record { behaviour = refl; burst = refl; log = refl; limiter = inl refl })
    | inr (l, e, f, next) ↦
        subst (λ r. IsAsked now s r.1) (sym (snapshot_limited L now s l e f))
          (record { behaviour = refl; burst = refl; log = refl; limiter = inr (l, f, refl) })
  ]

  abbrev Recorded :
      (w : Surroundings L) (transport : String) (r : PushRequest) (s : Service L)
      → (Outcome L × String) × Service L
      → Type 0
  Recorded w transport r s p =
      IsRecorded w transport r s p.0.0 (log_attempt L transport r p.0.1 p.1)

  logged :
      (transport : String) (r : PushRequest) (outcome : Outcome L) {result : String}
      {l m : List Attempt}
      → result ≡ answer_text outcome
      → l ≡ m
      → log_line transport r result ∷ l ≡ line transport r outcome ∷ m
  logged transport r outcome e f = λ i. log_line transport r (e i) ∷ f i

  attempt_push-IsRecorded :
      (w : Surroundings L) (transport : String) (r : PushRequest) (s : Service L)
      → IsSound s
      → Recorded w transport r s (attempt_push L w r s)
  unfolding log_attempt
  attempt_push-IsRecorded w transport r s sound = elim (Result-cases (validate_push L r)) [
    | inr (e, f) ↦
        subst (Recorded w transport r s) (sym (attempt_push_invalid L w r s e f))
          (record { behaviour = refl; burst = refl; limiter = inl refl; log = refl; settled = tt })
    | inl (u, f) ↦
        let a = snapshot_and_allow-IsAsked w.now s sound in
        let taken = (snapshot_and_allow-IsSound L w.now s sound).1 in
        subst (Recorded w transport r s) (sym (attempt_push_valid L w r s f)) (record {
          behaviour = a.behaviour;
          burst = a.burst;
          limiter = elim a.limiter [
            | inl same ↦ inl same
            | inr asked ↦ inr (validate_push-IsPush L r f, asked)
          ];
          log =
              logged transport r (conclude L w (snapshot_and_allow L w.now s).0).0
                (conclude-answer_text w (snapshot_and_allow L w.now s).0 taken) a.log;
          settled = conclude-IsSettled w (snapshot_and_allow L w.now s).0 taken;
        })
  ]

  -- Between any two steps a push is answered, never with a panic; it leaves the settings and the burst
  -- as they were, writes exactly one log line, with its ids, its transport and the word for its answer
  -- (accepted, invalid, rate_limited, injected_failure or canceled), and asks the limiter at most once, and only where it is valid.
  pub process-IsRecorded :
      (w : Surroundings L) (transport : String) (r : PushRequest) (s : Service L)
      → IsSound s
      → let (outcome, after) = process L w transport r s in IsRecorded w transport r s outcome after
  unfolding process
  process-IsRecorded w transport r s sound = attempt_push-IsRecorded w transport r s sound
