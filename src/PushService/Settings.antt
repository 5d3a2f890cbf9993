-- ===== src/PushService/Settings.antt =====
-- internal/pushservice/config.go: what the settings are that `ConfigFromEnv` returns.
use course_infra.Base.{
  ℕ, ◌*◌, ◌≤◌, ◌≡◌, refl, sym, subst, ap, ◌∙◌, String, Option, none, some, ◌⊎◌, inl, inr, arith,
  Option-cases, ℤ, pos, negsuc, ltb_ℤ, scale, wrap_int64, wrap_int64_pos, ◌||◌, if◌then◌else◌,
}
use course_infra.Errors.{Result, new, Result-cases, ok, err, >>=-ok, ok-injective}
use course_infra.PushService.{Library}
use course_infra.PushService.Config.{
  PushConfig, Lookup, atoi, env_or, env_int, env_float, env_latency, env_shutdown_timeout,
  validate_config, config_from_env, millisecond, max_milliseconds,
}

-- A variable that is not set leaves the default; one that is set has an integer.
abbrev pub IsInt : Lookup → String → ℤ → ℤ → Type 0
IsInt env name fallback z =
    ((env name ≡ none) × (z ≡ fallback))
    ⊎ ((text : String) × (env name ≡ some text) × (atoi text ≡ ok z))

env_int-IsInt :
    (env : Lookup) (name : String) (fallback z : ℤ)
    → env_int env name fallback ≡ ok z
    → IsInt env name fallback z
unfolding env_int
env_int-IsInt env name fallback z h = elim (Option-cases (env name)) [
  | inl e ↦ inl (e, ground (arith, rw (env_int, e) at h))
  | inr (text, e) ↦ elim (Result-cases (atoi text)) [
    | inl (n, f) ↦ inr (text, e, f ∙ rw (env_int, e, f) at h)
    | inr (x, f) ↦ absurd (ground (arith, rw (env_int, e, f) at h))
  ]
]

-- The same for another kind of value, by its parser.
abbrev pub IsRead {ℓ} : {A : Type ℓ} → (String → Result A) → Option String → A → A → Type ℓ
IsRead parse set fallback value =
    ((set ≡ none) × (value ≡ fallback))
    ⊎ ((text : String) × (set ≡ some text) × (parse text ≡ ok value))

-- The same for a text.
abbrev pub IsText : Option String → String → String → Type 0
IsText set fallback value = ((set ≡ none) × (value ≡ fallback)) ⊎ (set ≡ some value)

env_or-IsText :
    (env : Lookup) (name fallback : String) → IsText (env name) fallback (env_or env name fallback)
unfolding env_or
env_or-IsText env name fallback = elim (Option-cases (env name)) [
  | inl e ↦ inl (e, rw (env_or, e) refl)
  | inr (text, e) ↦ inr (e ∙ ap some (rw (env_or, e) refl))
]

module _ (L : Library) where
  -- Settings that the environment determines.
  pub record IsFromEnv (env : Lookup) (c : PushConfig L) : Type 0 where
    pub valid : validate_config L c ≡ ok tt
    pub latency :
        (n : ℕ) × IsInt env "PUSH_LATENCY_MS" (pos 0) (pos n)
        × (n ≤ 9223372036854)
        × (c.latency ≡ pos (n * millisecond))
    pub rate_limit_rps : IsInt env "PUSH_RATE_LIMIT_RPS" (pos 20) c.rate_limit_rps
    pub rate_limit_burst : IsInt env "PUSH_RATE_LIMIT_BURST" (pos 40) c.rate_limit_burst
    pub fail_rate : IsRead L.parse_float (env "PUSH_FAIL_RATE") L.nought c.fail_rate
    pub shutdown_timeout :
        IsRead L.parse_duration (env "SHUTDOWN_TIMEOUT") (pos 10000000000) c.shutdown_timeout
    pub http_addr : IsText (env "HTTP_ADDR") ":8090" c.http_addr
    pub grpc_addr : IsText (env "GRPC_ADDR") ":9095" c.grpc_addr
    pub log_level :
        (text : String) × IsText (env "LOG_LEVEL") "info" text × (c.log_level ≡ L.to_lower text)

  abbrev settings : Lookup → L.Float → ℤ → ℤ → ℤ → ℤ → PushConfig L
  settings env rate latency rps burst timeout = record {
    http_addr = env_or env "HTTP_ADDR" ":8090";
    grpc_addr = env_or env "GRPC_ADDR" ":9095";
    log_level = L.to_lower (env_or env "LOG_LEVEL" "info");
    fail_rate = rate;
    latency = latency;
    rate_limit_rps = rps;
    rate_limit_burst = burst;
    shutdown_timeout = timeout;
  }

  env_float-IsRead :
      (env : Lookup) (name : String) (fallback x : L.Float)
      → env_float L env name fallback ≡ ok x
      → IsRead L.parse_float (env name) fallback x
  unfolding env_float
  env_float-IsRead env name fallback x h = elim (Option-cases (env name)) [
    | inl e ↦ inl (e, sym (ok-injective (rw (env_float, e) at h)))
    | inr (text, e) ↦ elim (Result-cases (L.parse_float text)) [
      | inl (y, f) ↦ inr (text, e, f ∙ rw (env_float, e, f) at h)
      | inr (z, f) ↦ absurd (ground (arith, rw (env_float, e, f) at h))
    ]
  ]

  env_shutdown_timeout-IsRead :
      (env : Lookup) (timeout : ℤ)
      → env_shutdown_timeout L env ≡ ok timeout
      → IsRead L.parse_duration (env "SHUTDOWN_TIMEOUT") (pos 10000000000) timeout
  unfolding env_shutdown_timeout
  env_shutdown_timeout-IsRead env timeout h = elim (Option-cases (env "SHUTDOWN_TIMEOUT")) [
    | inl e ↦ inl (e, sym (ok-injective (rw (env_shutdown_timeout, e) at h)))
    | inr (text, e) ↦ elim (Result-cases (L.parse_duration text)) [
      | inl (y, f) ↦ inr (text, e, f ∙ rw (env_shutdown_timeout, e, f) at h)
      | inr (z, f) ↦ absurd (ground (arith, rw (env_shutdown_timeout, e, f) at h))
    ]
  ]

  env_latency-exact :
      (env : Lookup) (latency : ℤ)
      → env_latency L env ≡ ok latency
      → (n : ℕ) × IsInt env "PUSH_LATENCY_MS" (pos 0) (pos n)
        × (n ≤ 9223372036854)
        × (latency ≡ pos (n * millisecond))
  unfolding env_latency
  env_latency-exact env latency h = elim (Result-cases (env_int env "PUSH_LATENCY_MS" (pos 0))) [
    | inr (x, e) ↦ absurd (ground (arith, rw (env_latency, e) at h))
    | inl (z, e) ↦ in_range z (env_int-IsInt env _ _ z e) (rw (env_latency, e) at h)
  ]
    where
      in_range :
          (z : ℤ)
          → IsInt env "PUSH_LATENCY_MS" (pos 0) z
          → (if ltb_ℤ z (pos 0) || ltb_ℤ max_milliseconds z
              then err (new "PUSH_LATENCY_MS is outside the supported duration range")
              else ok (wrap_int64 (scale z millisecond)))
            ≡ ok latency
          → (n : ℕ) × IsInt env "PUSH_LATENCY_MS" (pos 0) (pos n)
            × (n ≤ 9223372036854)
            × (latency ≡ pos (n * millisecond))
      in_range (pos n) i k =
          let bound : n ≤ 9223372036854 = ground arith in
          (n, i, bound, ground (arith, wrap_int64_pos (n * 1000000) (omega arith)))
      in_range (negsuc n) i k = absurd (ground arith)

  -- What `ConfigFromEnv` returns without an error passes `Validate`, and each of its settings is what
  -- its variable spells or, where that is not set, its default: fail rate 0, limit 20 and burst 40, no
  -- latency, a timeout of 10 seconds, the addresses :8090 and :9095 and, in lower case, the level info.
  -- The latency is the exact number of nanoseconds, from 0 and without overflow.
  pub config_from_env-IsFromEnv :
      (env : Lookup) (c : PushConfig L) → config_from_env L env ≡ ok c → IsFromEnv env c
  unfolding config_from_env
  config_from_env-IsFromEnv env c h =
      let (rate, e1, h1) = >>=-ok (env_float L env "PUSH_FAIL_RATE" L.nought) _ c h in
      let (latency, e2, h2) = >>=-ok (env_latency L env) _ c h1 in
      let (rps, e3, h3) = >>=-ok (env_int env "PUSH_RATE_LIMIT_RPS" (pos 20)) _ c h2 in
      let (burst, e4, h4) = >>=-ok (env_int env "PUSH_RATE_LIMIT_BURST" (pos 40)) _ c h3 in
      let (timeout, e5, h5) = >>=-ok (env_shutdown_timeout L env) _ c h4 in
      let (u, valid, same) =
        >>=-ok (validate_config L (settings env rate latency rps burst timeout)) _ c h5 in
      subst (IsFromEnv env) (ok-injective same) (record {
        valid = valid;
        latency = env_latency-exact env latency e2;
        rate_limit_rps = env_int-IsInt env _ _ rps e3;
        rate_limit_burst = env_int-IsInt env _ _ burst e4;
        fail_rate = env_float-IsRead env _ _ rate e1;
        shutdown_timeout = env_shutdown_timeout-IsRead env timeout e5;
        http_addr = env_or-IsText env "HTTP_ADDR" ":8090";
        grpc_addr = env_or-IsText env "GRPC_ADDR" ":9095";
        log_level = (env_or env "LOG_LEVEL" "info", env_or-IsText env "LOG_LEVEL" "info", refl);
      })
