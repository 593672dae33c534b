-- ===== src/Chat/Replies.antt =====
-- What the chat handler of apps/gateway/src/routes/v1.ts answers to an error.
use Prim.Native.String.{String}
use modelforge_ai.Base.{
  ℕ, ◌≡◌, refl, arith, inl, inr, Bool, true, false, ◌||◌, Option, none, some, Bool-cases,
}
use modelforge_ai.Base.Text.{◌==◌, text_eq, nat_eq}
use modelforge_ai.Chat.Errors.{
  text_code, OtherError, Thrown, retrieval_error, quota_exceeded_error, engine_error,
  remote_engine_error, other_error, not_an_error, ApiErrorType, ApiError, GrpcStatus, llama_failure,
  map_grpc_error, map_engine_failure, map_engine_error, Reply, answer, event, nothing, engine_reply,
  reply_to, details_of, or_text,
}

-- The status of a type of error, and whether its caller is told to try again.
abbrev pub status_of : ApiErrorType → ℕ
status_of ApiErrorType.invalid_request = 400
status_of ApiErrorType.authentication_error = 401
status_of ApiErrorType.permission_error = 403
status_of ApiErrorType.model_not_found = 404
status_of ApiErrorType.rate_limit_exceeded = 429
status_of ApiErrorType.quota_exceeded = 429
status_of ApiErrorType.server_error = 500
status_of ApiErrorType.model_unavailable = 503
status_of ApiErrorType.timeout = 504

abbrev pub retry_of : ApiErrorType → Option ℕ
retry_of ApiErrorType.model_unavailable = some 30
retry_of _ = none

abbrev pub IsConsistentError : ApiError → Type 0
IsConsistentError e = (e.status ≡ status_of e.type) × (e.retry_after ≡ retry_of e.type)

abbrev pub IsConsistentReply : Bool → Reply → Type 0
IsConsistentReply headers_started (answer e) = IsConsistentError e
IsConsistentReply headers_started (event t m) = headers_started ≡ true
IsConsistentReply headers_started nothing = headers_started ≡ true

map_engine_error-IsConsistentError :
    (code message : String) → IsConsistentError (map_engine_error code message)
unfolding map_engine_error
map_engine_error-IsConsistentError code message = ground arith

engine_reply-IsConsistentReply :
    (headers_started ended : Bool) (e : ApiError)
    → IsConsistentError e
    → IsConsistentReply headers_started (engine_reply headers_started ended e)
engine_reply-IsConsistentReply true true e h = refl
engine_reply-IsConsistentReply true false e h = refl
engine_reply-IsConsistentReply false ended e h = h

module _ (grpc : GrpcStatus) (has_oom : String → Bool) (is_grpc : Bool) where
  -- Whatever is thrown, the status of the answer and its Retry-After are those of its type of error; and
  -- where an event or nothing is sent, the stream has begun.
  pub reply_to-IsConsistentReply :
      (headers_started ended : Bool) (t : Thrown)
      → IsConsistentReply headers_started (reply_to grpc has_oom is_grpc headers_started ended t)
  unfolding reply_to
  reply_to-IsConsistentReply hs ended (retrieval_error m) = (refl, refl)
  reply_to-IsConsistentReply hs ended quota_exceeded_error = (refl, refl)
  reply_to-IsConsistentReply hs ended (engine_error code m) =
      engine_reply-IsConsistentReply hs ended _ (map_engine_error-IsConsistentError _ _)
  reply_to-IsConsistentReply hs ended (remote_engine_error code m) =
      engine_reply-IsConsistentReply hs ended _ (map_engine_error-IsConsistentError _ _)
  reply_to-IsConsistentReply hs ended (other_error e) =
      engine_reply-IsConsistentReply hs ended _ (map_engine_error-IsConsistentError _ _)
  reply_to-IsConsistentReply hs ended not_an_error =
      engine_reply-IsConsistentReply hs ended _ (map_engine_error-IsConsistentError _ _)

  -- Before a stream has begun, an Error whose code is a text, as those of the routing are, is answered
  -- with 500, its code MODEL_NOT_FOUND included: unless it is named as a timeout or an abort, or its
  -- details have "OOM" in them.
  pub reply_to-coded :
      (ended : Bool) (e : OtherError) (code : String)
      → e.code ≡ text_code code
      → (e.name == "TimeoutError" || e.name == "AbortError") ≡ false
      → has_oom (details_of e) ≡ false
      → reply_to grpc has_oom is_grpc false ended (other_error e)
        ≡ answer (record {
          type = ApiErrorType.server_error;
          message = or_text e.message "Internal server error";
          status = 500;
          retry_after = none;
        })
  unfolding reply_to map_engine_failure map_grpc_error llama_failure map_engine_error
  reply_to-coded ended e code coded named plain = elim (Bool-cases is_grpc) [
    | inl remote ↦ rw (remote, coded, plain) refl
    | inr local ↦ rw (local, named) refl
  ]
