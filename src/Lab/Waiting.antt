-- ===== src/Lab/Waiting.antt =====
-- internal/lab/service.go: what the success of `waitForWorkloads` means.
use course_infra.Base.{
  ◌≡◌, refl, ap, ◌∙◌, ℕ, zero, suc, String, Bool, true, false, Option-cases, Bool-cases, none, List,
  [], ◌∷◌, inl, inr, ℤ, ◌&&◌, arith,
}
use course_infra.Errors.{ok, Result-cases}
use course_infra.Effects.{Exec, pure, call, ◌>>=◌, either}
use course_infra.Effects.World.{World, Trace, Event, get, check_context}
use course_infra.Effects.Results.{IsContinued-bind}
use course_infra.Lab.{Workload}
use course_infra.Lab.Readiness.{
  poll, workload_ready, check_alive, check_report, readiness_round, all_workloads_ready,
  wait_for_workloads, readiness_rounds,
}

module _ (W : World) where
  -- A poll that succeeds ended with a round that answered yes.
  poll-ok :
      (fuel : ℕ) (condition : Exec (Event W.Object) Bool) (t : Trace W)
      → (poll W fuel condition t).0 ≡ ok tt
      → (v : Trace W) × ((condition v).0 ≡ ok true)
        × ((poll W fuel condition t).1 ≡ (condition v).1)
  unfolding poll ◌>>=◌
  poll-ok zero condition t h = cc
  poll-ok (suc fuel) condition t h = elim (Result-cases (condition t).0) [
    | inr (e, f) ↦ absurd (cc (rw f at h))
    | inl (true, f) ↦ (t, f, rw f refl)
    | inl (false, f) ↦ elim (Option-cases (W.wait (condition t).1)) [
      | inl g ↦ let (v, k, l) = poll-ok fuel condition _ (rw (f, g) at h) in (v, k, rw (f, g) l)
      | inr (e, g) ↦ absurd (cc (rw (f, g) at h))
    ]
  ]

  module _ (namespace : String) (expected : ℤ) where
    -- The history after the read of a workload, with the checks of the context around it.
    abbrev pub read_of : Workload → Trace W → Trace W
    read_of item t = check_context ∷ get item.resource namespace item.name ∷ check_context ∷ t

    -- The objects that a round reads from `t` on are all there and ready.
    abbrev pub AreReady : List Workload → Trace W → Type 0
    AreReady [] t = Unit
    AreReady (item ∷ items) t =
        ((object : W.Object) × (W.get (check_context ∷ t) item.resource namespace item.name
            ≡ ok object)
          × (workload_ready W object expected ≡ true))
        × AreReady items (read_of item t)

    -- The checks of the context in a round from `t` on find it alive.
    abbrev pub IsAlive : List Workload → Trace W → Type 0
    IsAlive [] t = W.is_reporting t ≡ true → W.context_error t ≡ none
    IsAlive (item ∷ items) t =
        (W.context_error t ≡ none)
        × (W.context_error (get item.resource namespace item.name ∷ check_context ∷ t) ≡ none)
        × IsAlive items (read_of item t)

    all_workloads_ready-ok :
        (items : List Workload) (t : Trace W)
        → (all_workloads_ready W namespace expected items t).0 ≡ ok true
        → AreReady items t
    unfolding all_workloads_ready check_alive ◌>>=◌ either
    all_workloads_ready-ok [] t h = tt
    all_workloads_ready-ok (item ∷ items) t h =
        let before = check_context ∷ t in
        let u : Trace W = read_of item t in
        elim (Option-cases (W.context_error t)) [
          | inr (x, c) ↦ absurd (cc (rw c at h))
          | inl c ↦
              elim (Option-cases
                (W.context_error (get item.resource namespace item.name ∷ before))) [
                  | inr (x, d) ↦ absurd (cc (rw (c, d) at h))
                  | inl d ↦
                      elim (Result-cases (all_workloads_ready W namespace expected items u).0) [
                        | inr (e, f) ↦ absurd (cc (rw (c, d, f) at h))
                        | inl (others, f) ↦
                            elim (Result-cases (W.get before item.resource namespace item.name)) [
                              | inr (e, g) ↦ absurd (cc (rw (c, d, f, g) at h))
                              | inl (object, g) ↦
                                  let both : (workload_ready W object expected && others) ≡ true =
                                    cc (rw (c, d, f, g) at h) in
                                  (
                                    (object, g, ground arith),
                                    all_workloads_ready-ok items u (f ∙ ap ok (ground arith)),
                                  )
                            ]
                      ]
                ]
        ]

    readiness_round-ok :
        (items : List Workload) (t : Trace W)
        → (readiness_round W namespace expected items t).0 ≡ ok true
        → AreReady items t
    unfolding readiness_round pure
    readiness_round-ok items t h =
        let counted = IsContinued-bind _ _ true t h in
        let checked = IsContinued-bind _ _ true _ counted.second in
        all_workloads_ready-ok items t (counted.first ∙ checked.second)

    -- Where the wait for workloads succeeds, its last round, with which its history ends, read each of
    -- them in turn, and each read answered with an object that is ready for the expected replicas.
    pub wait_for_workloads-AreReady :
        (items : List Workload) (t : Trace W)
        → (wait_for_workloads W namespace items expected t).0 ≡ ok tt
        → (v : Trace W) × AreReady items v
          × ((wait_for_workloads W namespace items expected t).1
              ≡ (readiness_round W namespace expected items v).1)
    unfolding wait_for_workloads ◌>>=◌
    wait_for_workloads-AreReady items t h =
        let round = readiness_round W namespace expected items in
        elim (Result-cases (poll W readiness_rounds round t).0) [
          | inr (e, f) ↦ absurd (cc (rw f at h))
          | inl (_, f) ↦
              let (v, k, l) = poll-ok readiness_rounds round t f in
              (v, readiness_round-ok items v k, l)
        ]

    check_report-alive : (t : Trace W) → IsAlive [] t → (check_report W t).0 ≡ ok tt
    unfolding check_report check_alive pure call
    check_report-alive t h = elim (Bool-cases (W.is_reporting t)) [
      | inl e ↦ rw (check_report, e, h e) refl
      | inr e ↦ rw (check_report, e) refl
    ]

    readiness_round-alive :
        (items : List Workload) (t : Trace W)
        → AreReady items t
        → IsAlive items t
        → ((all_workloads_ready W namespace expected items t).0 ≡ ok true)
          × ((check_report W (all_workloads_ready W namespace expected items t).1).0 ≡ ok tt)
    unfolding all_workloads_ready check_alive ◌>>=◌ either
    readiness_round-alive [] t h k = (refl, check_report-alive t k)
    readiness_round-alive (item ∷ items) t ((object, g, r), h) (c, d, k) =
        let (ready, report) = readiness_round-alive items (read_of item t) h k in
        (rw (c, d, ready, g, r) refl, rw (c, d, ready, g) report)

    poll-at_once :
        (fuel : ℕ) (condition : Exec (Event W.Object) Bool) (t : Trace W)
        → (condition t).0 ≡ ok true
        → poll W (suc fuel) condition t ≡ (ok tt, (condition t).1)
    unfolding poll ◌>>=◌
    poll-at_once fuel condition t h = rw h refl

    -- Where each workload answers the first round with an object that is ready for the expected replicas,
    -- and the context is alive at every check of this round (around each read and, where the round
    -- reports, before the report), the wait succeeds with that round alone.
    pub wait_for_workloads-at_once :
        (items : List Workload) (t : Trace W)
        → AreReady items t
        → IsAlive items t
        → wait_for_workloads W namespace items expected t
          ≡ (ok tt, (readiness_round W namespace expected items t).1)
    unfolding wait_for_workloads readiness_round ◌>>=◌
    wait_for_workloads-at_once items t h k =
        let (ready, report) = readiness_round-alive items t h k in
        rw
          (poll-at_once 600 (readiness_round W namespace expected items) t
            (rw (ready, report) refl))
          refl
