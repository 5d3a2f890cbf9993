-- ===== src/PushService/Strict.antt =====
-- internal/pushservice/http.go: what a body has passed when the strict decoder returns no error.
use course_infra.Base.{
  ℕ, ◌≤◌, ◌≡◌, ◌≢◌, ◌⊎◌, refl, sym, subst, ap, ◌∙◌, String, true, false, Option, none, some, List,
  [], ◌∷◌, inl, inr, arith, length, All, Bool-cases, Option-cases,
}
use course_infra.Errors.{GoError, Result-cases, ok}
use course_infra.Text.{codes}
use course_infra.PushService.{Library}
use course_infra.PushService.Http.{
  Json, Request, Following, end_of_input, another_value, broken, Target, push_request,
  behaviour_patch, fields_of, find, is_null, read_body, reject_null_fields, reject_null_values,
  reject_null_data, after_decode, reject_explicit_nulls, accept_body, check_rest, error_of,
  decode_strict_json,
}

some-ne-none : {x : GoError} → ◌≡◌ {A = Option GoError} (some x) none → ⊥
some-ne-none h = ground arith

-- The cases of a second `Decode` that matter.
Following-cases : (f : Following) → (f ≡ end_of_input) ⊎ (f ≢ end_of_input)
Following-cases end_of_input = inl refl
Following-cases another_value = inr (λ h. ground arith)
Following-cases (broken e) = inr (λ h. ground arith)

-- The keys that the contract of the API gives to a push and to a patch.
abbrev pub contract_keys : Target → List String
contract_keys push_request = "request_id" ∷ "recipient_id" ∷ "kind" ∷ "title" ∷ "body" ∷ "data" ∷ []
contract_keys behaviour_patch = "fail_rate" ∷ "latency_ms" ∷ "rate_limit_rps" ∷ []

module _ (L : Library) (J : Json L) where
  -- A JSON value that is not null.
  abbrev pub NotNull : List ℕ → Type 0
  NotNull raw = J.trim_space raw ≢ codes "null"

  -- What an object has at a key is not null.
  abbrev pub NotNullAt : List (String × List ℕ) → String → Type 0
  NotNullAt object key = (raw : List ℕ) → find key object ≡ some raw → NotNull raw

  -- The top-level object of a body: at none of the target's keys, in their exact spelling, is null, and
  -- in a push no value in the object at `data` is.
  pub record IsNullFree (target : Target) (body : List ℕ) : Type 0 where
    pub object : List (String × List ℕ)
    pub object_lem : J.object body ≡ ok object
    pub fields : All (NotNullAt object) (contract_keys target)
    pub data_map :
        target ≡ push_request
        → (raw : List ℕ) → find "data" object ≡ some raw
        → (values : List (String × List ℕ)) × (J.object raw ≡ ok values)
          × All (λ v. NotNull v.1) values

  -- A body that the strict decoder accepts.
  pub record IsStrict {A : Type 0} (target : Target) (decode : List ℕ → A × Option GoError)
      (request : Request) (value : A) : Type 0 where
    pub media : String
    pub media_lem : J.media_type request.content_type ≡ ok media
    pub json : J.equal_fold media "application/json" ≡ true
    pub size : length request.body ≤ 1048576
    pub whole : request.body_error ≡ none
    pub decoded : decode request.body ≡ (value, none)
    pub single : J.following request.body ≡ end_of_input
    pub null_free : IsNullFree target request.body

  not_null : (raw : List ℕ) → is_null L J raw ≡ false → NotNull raw
  not_null raw h e =
      let null_text : is_null L J raw ≡ true = rw e refl in absurd (ground (arith, h, null_text))

  reject_null_fields-ok :
      (fields : List String) (object : List (String × List ℕ))
      → reject_null_fields L J fields object ≡ ok tt
      → All (NotNullAt object) fields
  unfolding reject_null_fields
  reject_null_fields-ok [] object h = tt
  reject_null_fields-ok (field ∷ fields) object h = elim (Option-cases (find field object)) [
    | inl e ↦ (
      λ raw f. absurd (ground (arith, e, f)),
      reject_null_fields-ok fields object (ground (arith, e)),
    )
    | inr (raw, e) ↦ (
      λ other f.
          let same : raw ≡ other = ground (arith, e, f) in
          not_null other (subst (λ r. is_null L J r ≡ false) same (ground (arith, e))),
      reject_null_fields-ok fields object (ground (arith, e)),
    )
  ]

  reject_null_values-ok :
      (values : List (String × List ℕ))
      → reject_null_values L J values ≡ ok tt
      → All (λ v. NotNull v.1) values
  unfolding reject_null_values
  reject_null_values-ok [] h = tt
  reject_null_values-ok ((name, value) ∷ values) h =
      (not_null value (ground arith), reject_null_values-ok values (ground arith))

  reject_null_data-ok :
      (target : Target) (object : List (String × List ℕ))
      → reject_null_data L J target object ≡ ok tt
      → target ≡ push_request
      → (raw : List ℕ) → find "data" object ≡ some raw
      → (values : List (String × List ℕ)) × (J.object raw ≡ ok values)
        × All (λ v. NotNull v.1) values
  unfolding reject_null_data
  reject_null_data-ok behaviour_patch object h e raw f = absurd (ground (arith, e))
  reject_null_data-ok push_request object h e raw f = elim (Result-cases (J.object raw)) [
    | inl (values, g) ↦ (values, g, reject_null_values-ok values (rw (reject_null_data, f, g) at h))
    | inr (x, g) ↦ absurd (ground (arith, rw (reject_null_data, f, g) at h))
  ]

  -- The code checks the keys of the contract.
  fields_of-contract :
      (target : Target) (object : List (String × List ℕ))
      → All (NotNullAt object) (fields_of target)
      → All (NotNullAt object) (contract_keys target)
  fields_of-contract push_request object h = h
  fields_of-contract behaviour_patch object h = h

  reject_explicit_nulls-IsNullFree :
      (body : List ℕ) (target : Target)
      → reject_explicit_nulls L J body target ≡ ok tt
      → IsNullFree target body
  unfolding reject_explicit_nulls
  reject_explicit_nulls-IsNullFree body target h = elim (Result-cases (J.object body)) [
    | inr (x, e) ↦ absurd (ground (arith, e))
    | inl (object, e) ↦ elim (Result-cases (reject_null_fields L J (fields_of target) object)) [
      | inr (x, f) ↦ absurd (ground (arith, e, f))
      | inl (u, f) ↦ record {
        object = object;
        object_lem = e;
        fields =
            fields_of-contract target object (reject_null_fields-ok (fields_of target) object f);
        data_map = reject_null_data-ok target object (ground (arith, e, f));
      }
    ]
  ]

  -- A request whose body may be decoded.
  record IsJson (request : Request) (body : List ℕ) : Type 0 where
    media : String
    media_lem : J.media_type request.content_type ≡ ok media
    json : J.equal_fold media "application/json" ≡ true
    size : length request.body ≤ 1048576
    whole : request.body_error ≡ none
    body_lem : request.body ≡ body

  read_body-ok :
      (request : Request) (body : List ℕ)
      → read_body request ≡ ok body
      → (length request.body ≤ 1048576) × (request.body_error ≡ none) × (request.body ≡ body)
  unfolding read_body
  read_body-ok request body h = ground arith

  accept_body-ok :
      (request : Request) (body : List ℕ) → accept_body L J request ≡ ok body → IsJson request body
  unfolding accept_body
  accept_body-ok request body h = elim (Result-cases (J.media_type request.content_type)) [
    | inr (x, e) ↦ absurd (ground (arith, e))
    | inl (media, e) ↦ elim (Bool-cases (J.equal_fold media "application/json")) [
      | inr f ↦ absurd (ground (arith, e, f))
      | inl f ↦
          let (size, whole, same) = read_body-ok request body (ground (arith, e, f)) in
          record {
            media = media;
            media_lem = e;
            json = f;
            size = size;
            whole = whole;
            body_lem = same;
          }
    ]
  ]

  check_rest-ok :
      (body : List ℕ) (target : Target)
      → error_of L J (check_rest L J body target) ≡ none
      → (J.following body ≡ end_of_input) × (reject_explicit_nulls L J body target ≡ ok tt)
  unfolding check_rest
  check_rest-ok body target h = elim (Following-cases (J.following body)) [
    | inl e ↦ elim (Result-cases (reject_explicit_nulls L J body target)) [
      | inl (u, f) ↦ (e, f)
      | inr (x, f) ↦ absurd (ground (arith, rw (check_rest, e, f) at h))
    ]
    | inr e ↦ absurd (ground (arith, e))
  ]

  after_decode-ok :
      {A : Type 0} (target : Target) (body : List ℕ) (d : A × Option GoError) (value : A)
      → after_decode L J target body d ≡ (value, none)
      → (d ≡ (value, none)) × (error_of L J (check_rest L J body target) ≡ none)
  unfolding after_decode
  after_decode-ok target body (a, some x) value h = absurd (some-ne-none (ap (λ d. d.1) h))
  after_decode-ok target body (a, none) value h = (ap (λ d. (d.0, none)) h, ap (λ d. d.1) h)

  -- Where the strict decoder returns no error, the media type is application/json, the whole body was
  -- read and has at most 1 MiB, it is one JSON value that decodes to the result, and its object has
  -- null at none of the keys of the contract (request_id, recipient_id, kind, title, body and data of a
  -- push, fail_rate, latency_ms and rate_limit_rps of a patch, in this spelling), nor, in a push, in the
  -- object at `data`.
  pub decode_strict_json-IsStrict :
      {A : Type 0} (target : Target) (zero_value value : A) (decode : List ℕ → A × Option GoError)
      (request : Request)
      → decode_strict_json L J target zero_value decode request ≡ (value, none)
      → IsStrict target decode request value
  unfolding decode_strict_json
  decode_strict_json-IsStrict target zero_value value decode request h =
      elim (Result-cases (accept_body L J request)) [
        | inr (x, e) ↦ absurd (some-ne-none (ap (λ d. d.1) (rw (decode_strict_json, e) at h)))
        | inl (body, e) ↦
            let (decoded, rest) =
              after_decode-ok target body (decode body) value (rw (decode_strict_json, e) at h) in
            let (single, nulls) = check_rest-ok body target rest in
            let r = accept_body-ok request body e in
            record {
              media = r.media;
              media_lem = r.media_lem;
              json = r.json;
              size = r.size;
              whole = r.whole;
              decoded = ap decode r.body_lem ∙ decoded;
              single = ap J.following r.body_lem ∙ single;
              null_free =
                  subst (IsNullFree target) (sym r.body_lem)
                    (reject_explicit_nulls-IsNullFree body target nulls);
            }
      ]
