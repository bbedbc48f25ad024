-- ===== src/RunCall.antt =====
-- packages/connect/src/protocol/run-call.ts, for calls whose signal does not abort and whose deadline
-- does not pass, and the requests and responses of packages/connect/src/interceptor.ts.
pub mod Laws
use connect_es.Prelude.{List}
use connect_es.Prelude.Text.{Text}
use connect_es.Code.{unknown}
use connect_es.Headers.{Headers}
use connect_es.ConnectError.{connect_error, from, Result, ok, err, map_result}
use connect_es.Stream.{Stream, done, fails, next}
use mathlib.Core.List.{reverse, foldl}

-- A request and a response, with the type of what stands for the message: a message or a stream.
pub record Request (M : Type 0) : Type 0 where
  pub url : Text
  pub header : Headers
  pub message : M

pub record Response (M : Type 0) : Type 0 where
  pub header : Headers
  pub message : M
  pub trailer : Headers

-- `applyInterceptors`
unfoldable pub apply_interceptors {ℓ} : {F : Type ℓ} → F → List (F → F) → F
apply_interceptors call interceptors = foldl (λ n i. i n) call (reverse interceptors)

-- What `abort` rejects with.
abbrev pub aborted {ℓ} : {A : Type ℓ} → Result A → Result A
aborted (ok a) = ok a
aborted (err r) = err (connect_error (from r unknown))

abbrev pub aborted_stream : {A : Type 0} → Stream A → Stream A
aborted_stream done = done
aborted_stream (fails r) = fails (connect_error (from r unknown))
aborted_stream (next a s) = next a (aborted_stream s)

module _ {I O : Type 0} where
  -- `runUnaryCall`, of a message that is normalized.
  unfoldable pub run_unary_call :
      (Request I → Result (Response O))
      → List ((Request I → Result (Response O)) → Request I → Result (Response O))
      → Request I
      → Result (Response O)
  unfolding apply_interceptors from
  run_unary_call call interceptors req = aborted (apply_interceptors call interceptors req)

  -- `runStreamingCall`, of messages that are normalized.
  unfoldable pub run_streaming_call :
      (Request (Stream I) → Result (Response (Stream O)))
      → List (
          (Request (Stream I) → Result (Response (Stream O)))
          → Request (Stream I)
          → Result (Response (Stream O)))
      → Request (Stream I)
      → Result (Response (Stream O))
  unfolding apply_interceptors from
  run_streaming_call call interceptors req =
      map_result
        (λ (res : Response (Stream O)). record res { message = aborted_stream res.message })
        (aborted (apply_interceptors call interceptors req))
