-- ===== src/Server/RequestLog.antt =====
-- reqlog.go of the package `server`: the writer that keeps the status, and the middleware that logs
-- it.
pub mod Lines
use blockchain_ai_tools.Base.{ℕ, Bytes, Bool, true, false, Option, none, some, Result}
use blockchain_ai_tools.Signing.Errors.{Error}
use blockchain_ai_tools.Signing.Signer.{with_request_id}
use blockchain_ai_tools.Server.Handlers.{generate_request_id}
use blockchain_ai_tools.Server.Handling.{
  Request, RequestLine, Doing, returns, breaks_down, sets_field, writes_header, writes, flushes,
  logs_line, Handler,
}

-- The fields beside the writer that is wrapped.
pub record StatusCaptureWriter : Type 0 where
  pub status : ℕ
  pub written : Bool

abbrev pub fresh_writer : StatusCaptureWriter
fresh_writer = record { status = 0; written = false }

-- WriteHeader: `none` where the call is dropped.
unfoldable pub write_header : ℕ → StatusCaptureWriter → Option StatusCaptureWriter
write_header status w = elim w.written [
  | true ↦ none
  | false ↦ some (record { status = status; written = true })
]

-- Write, before it forwards the body
unfoldable pub write : StatusCaptureWriter → StatusCaptureWriter
write w = elim w.written [ true ↦ w | false ↦ record { status = 200; written = true } ]

unfoldable pub captured_status : StatusCaptureWriter → ℕ
captured_status w = elim w.written [ true ↦ w.status | false ↦ 200 ]

-- What a handler does with the wrapped writer, as the calls behind it. Header() is the embedded
-- writer's, and Flush reaches that writer by Unwrap. The deferred line is the last thing done,
-- behind a panic too.
unfoldable pub capture : (ℕ → RequestLine) → Doing → StatusCaptureWriter → Doing
unfolding captured_status write write_header
capture line returns w = logs_line (line (captured_status w)) returns
capture line breaks_down w = logs_line (line (captured_status w)) breaks_down
capture line (sets_field k v d) w = sets_field k v (capture line d w)
capture line (writes_header c d) w = elim (write_header c w) [
  | none ↦ capture line d w
  | some w' ↦ writes_header c (capture line d w')
]
capture line (writes b k) w = writes b (λ a. capture line (k a) (write w))
capture line (flushes d) w = flushes (capture line d w)
capture line (logs_line l d) w = logs_line l (capture line d w)

-- The middleware, with what the random source gives for this request.
unfoldable pub new_request_log_middleware : Result Error Bytes → Handler → Handler
unfolding generate_request_id capture
new_request_log_middleware random next r = elim (generate_request_id random) [
  | none ↦ breaks_down
  | some id ↦
      capture (λ s. record { request_id = id; remote_addr = r.remote_addr; status = s })
        (next (record r { context = with_request_id r.context id })) fresh_writer
]
