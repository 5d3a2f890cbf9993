-- ===== src/PushService/Grpc.antt =====
-- internal/pushservice/grpc.go: the gRPC front end. The generated message is the record of its
-- fields; health and reflection are services of the gRPC library.
use course_infra.Base.{String, List, ℤ, if◌then◌else◌}
use course_infra.Errors.{GoError, deadline_exceeded, is}
use course_infra.PushService.{
  Library, PushRequest, Accepted, Failure, failure_invalid, failure_rate_limited, failure_injected,
  failure_canceled,
}
use course_infra.PushService.Processing.{
  Service, Surroundings, Outcome, delivered, failed, panicked, process,
}

-- `PushKind`; a client may send any number.
pub data PushKind : Type 0 where
  kind_unspecified kind_request_position kind_trip_created kind_trip_completed : PushKind
  kind_unknown : ℤ → PushKind

-- `SendPushRequest`
pub record SendPushRequest : Type 0 where
  pub request_id : String
  pub recipient_id : String
  pub kind : PushKind
  pub title : String
  pub body : String
  pub data_map : List (String × String)

-- The codes of `status.Error`.
pub data Code : Type 0 where
  code_invalid_argument code_resource_exhausted code_unavailable : Code
  code_deadline_exceeded code_canceled : Code

-- What `SendPush` returns.
pub data Sent (L : Library) : Type 0 where
  sent : Accepted L → Sent L
  status : Code → GoError → Sent L
  aborted : Sent L

-- `grpcKind`
unfoldable pub grpc_kind : PushKind → String
grpc_kind kind_unspecified = ""
grpc_kind kind_request_position = "REQUEST_POSITION"
grpc_kind kind_trip_created = "TRIP_CREATED"
grpc_kind kind_trip_completed = "TRIP_COMPLETED"
grpc_kind (kind_unknown n) = ""

-- The request that `SendPush` processes.
unfoldable pub push_of : SendPushRequest → PushRequest
unfolding grpc_kind
push_of request = record {
  request_id = request.request_id;
  recipient_id = request.recipient_id;
  kind = grpc_kind request.kind;
  title = request.title;
  body = request.body;
  data_map = request.data_map;
}

-- The code of a failure; `FailureKind` has no other values.
unfoldable pub failure_code : Failure → Code
failure_code f = elim f.kind [
  | failure_invalid ↦ code_invalid_argument
  | failure_rate_limited ↦ code_resource_exhausted
  | failure_injected ↦ code_unavailable
  | failure_canceled ↦
      if is f.error deadline_exceeded then code_deadline_exceeded else code_canceled
]

module _ (L : Library) where
  unfoldable pub outcome_status : Outcome L → Sent L
  unfolding failure_code
  outcome_status (delivered accepted) = sent accepted
  outcome_status (failed f) = status (failure_code f) f.error
  outcome_status panicked = aborted

  -- `SendPush`
  unfoldable pub send_push : Surroundings L → SendPushRequest → Service L → Sent L × Service L
  unfolding push_of outcome_status
  send_push w request s =
      let (outcome, after) = process L w "grpc" (push_of request) s in
      (outcome_status outcome, after)
