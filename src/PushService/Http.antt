-- ===== src/PushService/Http.antt =====
-- internal/pushservice/http.go: the strict HTTP API. The JSON codec and the parser of media types are
-- a parameter. What `logResponseError` writes, and a failed write of a reply, are not kept.
use course_infra.Base.{
  ℕ, String, Bool, true, false, Option, none, some, List, [], ◌∷◌, ℤ, pos, length, ltb, ltb_ℤ, ◌==◌,
  str_eq, ◌&&◌, not, if◌then◌else◌,
}
use course_infra.Errors.{GoError, new, Result, ok, err, ◌>>=◌, ◌>>◌}
use course_infra.Text.{◌<>◌, codes}
use course_infra.Config.{sprint}
use course_infra.PushService.{
  Library, PushRequest, Accepted, BehaviourPatch, Failure, failure_invalid, failure_rate_limited,
  failure_injected, failure_canceled, kind_text,
}
use course_infra.PushService.Processing.{
  Service, Surroundings, Outcome, delivered, failed, panicked, patch_behaviour, process,
  log_attempt,
}

-- The second `Decode` of a body.
pub data Following : Type 0 where
  end_of_input another_value : Following
  broken : GoError → Following

-- `object` is `json.Unmarshal` into a map of raw messages. A decoder returns the value it has filled
-- in, in part where it fails.
pub record Json (L : Library) : Type 0 where
  pub media_type : String → Result String
  pub equal_fold : String → String → Bool
  pub decode_push : List ℕ → PushRequest × Option GoError
  pub decode_patch : List ℕ → BehaviourPatch L × Option GoError
  pub following : List ℕ → Following
  pub object : List ℕ → Result (List (String × List ℕ))
  pub trim_space : List ℕ → List ℕ
  pub encode : Accepted L → Result (List ℕ)

-- A request: its Content-Type, and the body with the error that ends it, if any.
pub record Request : Type 0 where
  pub content_type : String
  pub body : List ℕ
  pub body_error : Option GoError

-- The calls that `HTTPHandler` serves.
pub data Call : Type 0 where
  health : Call
  push : Request → Call
  admin_behaviour : Request → Call

-- A response; `dropped` is a panic of the handler, after which the server sends none.
pub data Reply : Type 0 where
  reply : ℕ → List (String × String) → List ℕ → Reply
  dropped : Reply

-- `maxRequestBody`
abbrev pub max_request_body : ℕ
max_request_body = 1048576

-- `io.ReadAll` of `http.MaxBytesReader`
unfoldable pub read_body : Request → Result (List ℕ)
read_body request =
    if ltb max_request_body (length request.body)
    then err (new "http: request body too large")
    else elim request.body_error [ some e ↦ err e | none ↦ ok request.body ]

abbrev bytes_equal : List ℕ → List ℕ → Bool
bytes_equal [] [] = true
bytes_equal (x ∷ xs) (y ∷ ys) = (x == y) && bytes_equal xs ys
bytes_equal [] (y ∷ ys) = false
bytes_equal (x ∷ xs) [] = false

abbrev pub find {ℓ} : {A : Type ℓ} → String → List (String × A) → Option A
find key [] = none
find key ((k, v) ∷ rest) = if str_eq k key then some v else find key rest

-- The two targets of `decodeStrictJSON`.
pub data Target : Type 0 where
  push_request behaviour_patch : Target

abbrev pub fields_of : Target → List String
fields_of push_request = "request_id" ∷ "recipient_id" ∷ "kind" ∷ "title" ∷ "body" ∷ "data" ∷ []
fields_of behaviour_patch = "fail_rate" ∷ "latency_ms" ∷ "rate_limit_rps" ∷ []

abbrev pub zero_request : PushRequest
zero_request = record {
  request_id = "";
  recipient_id = "";
  kind = "";
  title = "";
  body = "";
  data_map = [];
}

abbrev pub zero_patch : (L : Library) → BehaviourPatch L
zero_patch L = record { fail_rate = none; latency_ms = none; rate_limit_rps = none }

module _ (L : Library) (J : Json L) where
  abbrev pub is_null : List ℕ → Bool
  is_null raw = bytes_equal (J.trim_space raw) (codes "null")

  -- The loop over the fields.
  unfoldable pub reject_null_fields : List String → List (String × List ℕ) → Result (Unit {0})
  reject_null_fields [] object = ok tt
  reject_null_fields (field ∷ fields) object =
      let rest = reject_null_fields fields object in
      elim (find field object) [
        | none ↦ rest
        | some raw ↦ if is_null raw then err (new (field <> " must not be null")) else rest
      ]

  -- The loop over the values of `data`.
  unfoldable pub reject_null_values : List (String × List ℕ) → Result (Unit {0})
  reject_null_values [] = ok tt
  reject_null_values ((name, value) ∷ values) =
      let rest = reject_null_values values in
      if is_null value then err (new ("data." <> name <> " must not be null")) else rest

  unfoldable pub reject_null_data : Target → List (String × List ℕ) → Result (Unit {0})
  unfolding reject_null_values
  reject_null_data behaviour_patch object = ok tt
  reject_null_data push_request object = elim (find "data" object) [
    | none ↦ ok tt
    | some raw ↦ (J.object raw >>= reject_null_values)
  ]

  -- `rejectExplicitNulls`
  unfoldable pub reject_explicit_nulls : List ℕ → Target → Result (Unit {0})
  unfolding reject_null_fields reject_null_data
  reject_explicit_nulls body target = do
    object ← J.object body
    reject_null_fields (fields_of target) object
    reject_null_data target object

  -- `decodeStrictJSON` up to the first `Decode`.
  unfoldable pub accept_body : Request → Result (List ℕ)
  unfolding read_body
  accept_body request = elim (J.media_type request.content_type) [
    | err _ ↦ err (new "Content-Type must be application/json")
    | ok media ↦
        if not (J.equal_fold media "application/json")
        then err (new "Content-Type must be application/json")
        else read_body request
  ]

  -- `decodeStrictJSON` after the first `Decode` has succeeded.
  unfoldable pub check_rest : List ℕ → Target → Result (Unit {0})
  unfolding reject_explicit_nulls
  check_rest body target = elim (J.following body) [
    | end_of_input ↦ reject_explicit_nulls body target
    | another_value ↦ err (new "multiple JSON values are not allowed")
    | broken e ↦ err e
  ]

  abbrev pub error_of : Result (Unit {0}) → Option GoError
  error_of (ok _) = none
  error_of (err e) = some e

  -- `decodeStrictJSON` from the first `Decode`, by what that returns.
  unfoldable pub after_decode {ℓ} :
      {A : Type ℓ} → Target → List ℕ → A × Option GoError → A × Option GoError
  unfolding check_rest
  after_decode target body (value, some e) = (value, some e)
  after_decode target body (value, none) = (value, error_of (check_rest body target))

  -- `decodeStrictJSON`: the target afterwards, and the error.
  unfoldable pub decode_strict_json {ℓ} :
      {A : Type ℓ} → Target → A → (List ℕ → A × Option GoError) → Request → A × Option GoError
  unfolding accept_body after_decode
  decode_strict_json target zero decode request = elim (accept_body request) [
    | err e ↦ (zero, some e)
    | ok body ↦ after_decode target body (decode body)
  ]

  -- The seconds of the Retry-After header.
  unfoldable pub retry_seconds : ℤ → ℤ
  retry_seconds delay =
      let seconds = L.ceil_seconds delay in if ltb_ℤ seconds (pos 1) then pos 1 else seconds

  -- The answer to a failure; `FailureKind` has no other values.
  unfoldable pub failure_reply : Failure → Reply
  unfolding retry_seconds
  failure_reply f = elim f.kind [
    | failure_invalid ↦ reply 400 [] []
    | failure_rate_limited ↦
        reply 429 (("Retry-After", sprint (retry_seconds f.retry_after)) ∷ []) []
    | failure_injected ↦ reply 503 [] []
    | failure_canceled ↦ reply 503 [] []
  ]

  -- The answer to what `Process` returns.
  unfoldable pub outcome_reply : Outcome L → Reply
  unfolding failure_reply
  outcome_reply (delivered accepted) = elim (J.encode accepted) [
    | err _ ↦ reply 500 [] []
    | ok payload ↦ reply 202 (("Content-Type", "application/json") ∷ []) payload
  ]
  outcome_reply (failed f) = failure_reply f
  outcome_reply panicked = dropped

  -- `POST /api/v1/push` after the decoder.
  unfoldable pub answer_push :
      Surroundings L → PushRequest × Option GoError → Service L → Reply × Service L
  unfolding outcome_reply
  answer_push w (value, some _) s =
      (reply 400 [] [], log_attempt L "http" value (kind_text failure_invalid) s)
  answer_push w (value, none) s =
      let (outcome, after) = process L w "http" value s in (outcome_reply outcome, after)

  -- `POST /api/v1/push`
  unfoldable pub post_push : Surroundings L → Request → Service L → Reply × Service L
  unfolding decode_strict_json answer_push
  post_push w request s =
      answer_push w (decode_strict_json push_request zero_request J.decode_push request) s

  abbrev pub patch_reply : Result (Unit {0}) × Service L → Reply × Service L
  patch_reply (ok _, s) = (reply 200 [] [], s)
  patch_reply (err _, s) = (reply 400 [] [], s)

  -- `POST /admin/behaviour` after the decoder.
  unfoldable pub answer_patch : BehaviourPatch L × Option GoError → Service L → Reply × Service L
  answer_patch (patch, some _) s = (reply 400 [] [], s)
  answer_patch (patch, none) s = patch_reply (patch_behaviour L patch s)

  -- `POST /admin/behaviour`
  unfoldable pub post_behaviour : Request → Service L → Reply × Service L
  unfolding decode_strict_json answer_patch
  post_behaviour request s =
      answer_patch (decode_strict_json behaviour_patch (zero_patch L) J.decode_patch request) s

  -- `HTTPHandler`
  unfoldable pub http_handler : Surroundings L → Call → Service L → Reply × Service L
  unfolding post_push post_behaviour
  http_handler w health s = (reply 200 [] [], s)
  http_handler w (push request) s = post_push w request s
  http_handler w (admin_behaviour request) s = post_behaviour request s
