-- ===== src/Chat/Errors.antt =====
-- How an error becomes an answer: mapEngineFailure (apps/gateway/src/engine/index.ts, llamaServer.ts),
-- mapRemoteError (remoteOpenAi.ts), mapGrpcError (grpc/client.ts), mapEngineError
-- (packages/engine/src/errors.ts), and what the chat handler of apps/gateway/src/routes/v1.ts answers.
-- The numbers of grpc.status, and whether a text has "OOM" in it, are parameters.
use Prim.Native.String.{String}
use modelforge_ai.Base.{ℕ, Bool, ◌||◌, Option, none, some, if◌then◌else◌}
use modelforge_ai.Base.Text.{◌==◌, text_eq, nat_eq}

-- The `code` of an Error: it has none, a text, or a number, as those of gRPC.
pub data CodeField : Type 0 where
  no_code : CodeField
  text_code : String → CodeField
  number_code : ℕ → CodeField

pub record OtherError : Type 0 where
  pub name : String
  pub message : String
  pub code : CodeField
  pub details : String

-- What is thrown, by its class; an EngineError and a RemoteEngineError have a code and a message.
pub data Thrown : Type 0 where
  retrieval_error : String → Thrown
  quota_exceeded_error : Thrown
  engine_error : String → String → Thrown
  remote_engine_error : String → String → Thrown
  other_error : OtherError → Thrown
  not_an_error : Thrown

pub record Failure : Type 0 where
  pub code : String
  pub message : String

pub data ApiErrorType : Type 0 where
  invalid_request authentication_error permission_error : ApiErrorType
  rate_limit_exceeded quota_exceeded model_not_found : ApiErrorType
  model_unavailable server_error timeout : ApiErrorType

pub record ApiError : Type 0 where
  pub type : ApiErrorType
  pub message : String
  pub status : ℕ
  pub retry_after : Option ℕ

-- `a || b`
abbrev pub or_text : String → String → String
or_text a b = if a == "" then b else a

abbrev pub quota_message : String
quota_message = "Monthly token quota exceeded"

-- mapEngineFailure of llamaServer.ts
unfoldable pub llama_failure : Thrown → Failure
llama_failure (engine_error code message) = record { code = code; message = message }
llama_failure (retrieval_error message) = record { code = "INTERNAL"; message = message }
llama_failure quota_exceeded_error = record { code = "INTERNAL"; message = quota_message }
llama_failure (remote_engine_error code message) = record { code = "INTERNAL"; message = message }
llama_failure (other_error e) =
    if e.name == "TimeoutError" || e.name == "AbortError"
    then record { code = "DEADLINE_EXCEEDED"; message = "Inference timed out" }
    else record { code = "INTERNAL"; message = e.message }
llama_failure not_an_error = record { code = "INTERNAL"; message = "unknown engine error" }

pub record GrpcStatus : Type 0 where
  pub not_found : ℕ
  pub unavailable : ℕ
  pub deadline_exceeded : ℕ
  pub invalid_argument : ℕ

abbrev pub details_of : OtherError → String
details_of e = or_text e.details (or_text e.message "engine error")

module _ (grpc : GrpcStatus) (has_oom : String → Bool) where
  -- The last branches: no number fits.
  abbrev pub uncoded_failure : String → String → Failure
  uncoded_failure details message =
      if has_oom details
      then record { code = "OOM"; message = details }
      else record { code = "INTERNAL"; message = message }

  abbrev pub numbered_failure : ℕ → String → String → Failure
  numbered_failure code details message =
      if code == grpc.not_found
      then record { code = "MODEL_NOT_FOUND"; message = details }
      else (if code == grpc.unavailable
          then record { code = "MODEL_UNAVAILABLE"; message = details }
          else (if code == grpc.deadline_exceeded
              then record { code = "DEADLINE_EXCEEDED"; message = details }
              else (if code == grpc.invalid_argument
                  then record { code = "INVALID_ARGUMENT"; message = details }
                  else uncoded_failure details message)))

  abbrev pub other_grpc_failure : CodeField → OtherError → Failure
  other_grpc_failure no_code e = record { code = "INTERNAL"; message = e.message }
  other_grpc_failure (text_code code) e = uncoded_failure (details_of e) e.message
  other_grpc_failure (number_code code) e = numbered_failure code (details_of e) e.message

  unfoldable pub map_grpc_error : Thrown → Failure
  map_grpc_error (engine_error code message) =
      uncoded_failure (or_text message "engine error") message
  map_grpc_error (remote_engine_error code message) =
      uncoded_failure (or_text message "engine error") message
  map_grpc_error (retrieval_error message) = record { code = "INTERNAL"; message = message }
  map_grpc_error quota_exceeded_error = record { code = "INTERNAL"; message = quota_message }
  map_grpc_error (other_error e) = other_grpc_failure e.code e
  map_grpc_error not_an_error = record { code = "INTERNAL"; message = "unknown" }

  -- mapEngineFailure of engine/index.ts; the first argument tells the gRPC backend.
  unfoldable pub map_engine_failure : Bool → Thrown → Failure
  map_engine_failure is_grpc (remote_engine_error code message) = record {
    code = code;
    message = message;
  }
  map_engine_failure is_grpc t = if is_grpc then map_grpc_error t else llama_failure t

unfoldable pub map_engine_error : String → String → ApiError
map_engine_error code message =
    if code == "MODEL_NOT_FOUND"
    then record {
      type = ApiErrorType.model_not_found;
      message = or_text message "Model not found";
      status = 404;
      retry_after = none;
    }
    else (if code == "MODEL_UNAVAILABLE" || code == "OOM" || code == "LOAD_FAILED"
        then record {
          type = ApiErrorType.model_unavailable;
          message = or_text message "Model temporarily unavailable";
          status = 503;
          retry_after = some 30;
        }
        else (if code == "DEADLINE_EXCEEDED"
            then record {
              type = ApiErrorType.timeout;
              message = or_text message "Inference timed out";
              status = 504;
              retry_after = none;
            }
            else (if code == "INVALID_ARGUMENT"
                then record {
                  type = ApiErrorType.invalid_request;
                  message = or_text message "Invalid request";
                  status = 400;
                  retry_after = none;
                }
                else record {
                  type = ApiErrorType.server_error;
                  message = or_text message "Internal server error";
                  status = 500;
                  retry_after = none;
                })))

-- What is sent: an answer with its status, an event in a stream that has begun, or nothing more.
pub data Reply : Type 0 where
  answer : ApiError → Reply
  event : ApiErrorType → String → Reply
  nothing : Reply

abbrev pub engine_reply : Bool → Bool → ApiError → Reply
engine_reply headers_started ended e =
    if headers_started then (if ended then nothing else event e.type e.message) else answer e

module _ (grpc : GrpcStatus) (has_oom : String → Bool) (is_grpc : Bool) where
  -- The end of the handler's `catch`. Every mapped error is an ApiError, so what stands behind that test
  -- is never run.
  unfoldable pub reply_to : Bool → Bool → Thrown → Reply
  reply_to headers_started ended (retrieval_error message) = answer (record {
    type = ApiErrorType.invalid_request;
    message = message;
    status = 400;
    retry_after = none;
  })
  reply_to headers_started ended quota_exceeded_error = answer (record {
    type = ApiErrorType.quota_exceeded;
    message = quota_message;
    status = 429;
    retry_after = none;
  })
  reply_to headers_started ended t =
      let f = map_engine_failure grpc has_oom is_grpc t in
      engine_reply headers_started ended (map_engine_error f.code f.message)
