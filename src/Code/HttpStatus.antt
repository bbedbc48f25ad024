-- ===== src/Code/HttpStatus.antt =====
-- The tables between codes and HTTP statuses: packages/connect/src/protocol-connect/http-status.ts
-- and packages/connect/src/protocol-grpc/http-status.ts.
use connect_es.Prelude.{ℕ, ◌≤◌, ◌<◌, ◌≡◌, ◌↔◌, Bool, false, ◌||◌, arith, ◌==◌, if◌then◌else◌}
use connect_es.Code.{
  Code, canceled, unknown, invalid_argument, deadline_exceeded, not_found, already_exists,
  permission_denied, resource_exhausted, failed_precondition, aborted, out_of_range, unimplemented,
  internal, unavailable, data_loss, unauthenticated, foreign,
}

-- protocol-connect: `codeFromHttpStatus`
unfoldable pub code_from_http_status : ℕ → Code
code_from_http_status status =
    if status == 400
    then invalid_argument
    else if status == 401
    then unauthenticated
    else if status == 403
    then permission_denied
    else if status == 404
    then unimplemented
    else if status == 408
    then deadline_exceeded
    else if status == 409
    then aborted
    else if status == 412
    then failed_precondition
    else if status == 413
    then resource_exhausted
    else if status == 415
    then internal
    else if status == 429
    then unavailable
    else if status == 431
    then resource_exhausted
    else if status == 502
    then unavailable
    else if status == 503
    then unavailable
    else if status == 504
    then unavailable
    else unknown

-- protocol-connect: `codeToHttpStatus`
unfoldable pub code_to_http_status : Code → ℕ
code_to_http_status canceled = 408
code_to_http_status unknown = 500
code_to_http_status invalid_argument = 400
code_to_http_status deadline_exceeded = 408
code_to_http_status not_found = 404
code_to_http_status already_exists = 409
code_to_http_status permission_denied = 403
code_to_http_status resource_exhausted = 429
code_to_http_status failed_precondition = 412
code_to_http_status aborted = 409
code_to_http_status out_of_range = 400
code_to_http_status unimplemented = 404
code_to_http_status internal = 500
code_to_http_status unavailable = 503
code_to_http_status data_loss = 500
code_to_http_status unauthenticated = 401
code_to_http_status (foreign t) = 500

-- protocol-grpc: `codeFromHttpStatus`
unfoldable pub grpc_code_from_http_status : ℕ → Code
grpc_code_from_http_status status =
    if status == 400
    then internal
    else if status == 401
    then unauthenticated
    else if status == 403
    then permission_denied
    else if status == 404
    then unimplemented
    else if status == 429
    then unavailable
    else if status == 502
    then unavailable
    else if status == 503
    then unavailable
    else if status == 504
    then unavailable
    else unknown

-- The statuses that only the Connect protocol tells apart.
abbrev pub is_connect_only : ℕ → Bool
is_connect_only s =
    s == 400 || (s == 408 || (s == 409 || (s == 412 || (s == 413 || (s == 415 || s == 431)))))

-- The gRPC and the Connect protocol read an HTTP status as the same code, except exactly the
-- statuses 400, 408, 409, 412, 413, 415 and 431.
pub code_from_http_status_agree :
    (status : ℕ)
    → (grpc_code_from_http_status status ≡ code_from_http_status status)
      ↔ (is_connect_only status ≡ false)
unfolding code_from_http_status grpc_code_from_http_status
code_from_http_status_agree status = ground arith

-- The codes that a Connect client recovers from the status alone when a server answers with the
-- status of a code and without a JSON body.
abbrev pub recovered : Code → Code
recovered canceled = deadline_exceeded
recovered not_found = unimplemented
recovered already_exists = aborted
recovered out_of_range = invalid_argument
recovered resource_exhausted = unavailable
recovered internal = unknown
recovered data_loss = unknown
recovered (foreign t) = unknown
recovered c = c

-- Every code is sent with an error status, never 200, and a client without the JSON body reads that
-- status as the code itself, but for the seven codes (and the values outside the enum) that share
-- another code's status.
pub code_from_http_status-code_to_http_status :
    (c : Code)
    → (400 ≤ code_to_http_status c)
      × (code_to_http_status c < 600)
      × (code_from_http_status (code_to_http_status c) ≡ recovered c)
unfolding code_from_http_status code_to_http_status
code_from_http_status-code_to_http_status canceled = ground arith
code_from_http_status-code_to_http_status _ = ground arith
