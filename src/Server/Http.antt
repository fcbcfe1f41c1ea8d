-- ===== src/Server/Http.antt =====
-- http.go of the package `server`: the pipeline of handlers, and RunHTTP, which serves it.
pub mod Pipeline
pub mod Startup
pub mod Serving
use blockchain_ai_tools.Base.{
  ℕ, Bytes, text, is_empty, Bool, true, false, not, ◌&&◌, if◌then◌else◌, ◌∷◌, ◌++◌, [], List,
  Option, none, some, Result, ok, err,
}
use blockchain_ai_tools.Signing.Errors.{Error, plain, wrapped, in_chain}
use blockchain_ai_tools.Server.Auth.{
  Sum256, BearerVerifier, new_bearer_verifier_from_file, Verdict, middleware, unauthorized, passed,
}
use blockchain_ai_tools.Server.Handling.{Request, returns, sets_field, writes_header, Handler}
use blockchain_ai_tools.Server.RequestLog.{new_request_log_middleware}

-- The HandlerFunc of (*BearerVerifier).Middleware, where its tests come to a verdict
unfoldable pub obey : Verdict → Handler → Handler
obey unauthorized next r =
    sets_field (text "WWW-Authenticate") (text "Bearer") (writes_header 401 returns)
obey passed next r = next r

abbrev pub require_bearer : Sum256 → BearerVerifier → Handler → Handler
require_bearer sum256 v next r = obey (middleware sum256 v r.auth_header) next r

-- 1<<20
abbrev pub body_limit : ℕ
body_limit = 1048576

-- http.MaxBytesHandler
abbrev pub MaxBytes : Type 0
MaxBytes = Handler → ℕ → Handler

unfoldable pub assemble_pipeline :
    Sum256 → BearerVerifier → MaxBytes → Result Error Bytes → Handler → Handler
unfolding new_request_log_middleware
assemble_pipeline sum256 verifier max_bytes random sdk_handler =
    max_bytes (new_request_log_middleware random (require_bearer sum256 verifier sdk_handler))
      body_limit

-- http.Server, with the handler of a request, whose id is made of what the random source gives, and
-- the time for its header in seconds. The other timeouts are not set.
pub record HttpServer : Type 0 where
  pub handler : Result Error Bytes → Handler
  pub read_header_timeout : ℕ

-- ln.Addr(), with what the code asks of it
pub record BoundAddr : Type 0 where
  pub addr_text : Bytes
  pub is_tcp : Bool
  pub is_loopback : Bool

-- How the select on ReadyCh ends.
pub data Readiness : Type 0 where
  received : Readiness
  cancelled_before : Error → Readiness

-- How the select on the end of Serve and of the context goes, and what Serve and Shutdown return.
pub data Ending : Type 0 where
  serve_exited : Option Error → Ending
  shut_down : (shutdown_error : Option Error) → Ending

-- HTTPOptions, with how a send on ReadyCh goes if there is one.
pub record HttpOptions : Type 0 where
  pub addr : Bytes
  pub token_file_path : Bytes
  pub ready_ch : Option Readiness
  pub capture_http_srv_ch : Bool

-- What RunHTTP does to the listener, the terminal, the log and the seams of tests, in order.
pub data Event : Type 0 where
  listened : Bytes → Event
  closed : Event
  announced : Bytes → Event
  logged_address : Bytes → Event
  sent_ready : Bytes → Event
  captured_server : HttpServer → Event
  served : HttpServer → Event
  called_shutdown : Event

abbrev pub announce_line : Bytes → Bytes
announce_line a = text "eth-signer-mcp listening on " ++ a ++ b'\n' ∷ []

-- if errors.Is(serveErr, http.ErrServerClosed) { nil }
unfoldable pub serve_result : (Error → Bool) → Option Error → Option Error
serve_result is_server_closed none = none
serve_result is_server_closed (some e) = if in_chain is_server_closed e then none else some e

-- What RunHTTP returns, and what it has done.
abbrev pub Ran : Type 0
Ran = Option Error × List Event

-- Step 6, on the server of steps 4 and 5
unfoldable pub serve_until : (Error → Bool) → HttpServer → Bool → Ending → Ran
serve_until is_server_closed server captures ending =
    let seam = if captures then captured_server server ∷ [] else [] in
    elim ending [
      | serve_exited e ↦ (serve_result is_server_closed e, seam ++ served server ∷ [])
      | shut_down e ↦ (e, seam ++ served server ∷ called_shutdown ∷ [])
    ]

-- The select on ReadyCh, where there is one, before the rest.
unfoldable pub await_ready : Option Readiness → Bytes → Ran → Ran
await_ready none a rest = rest
await_ready (some received) a rest = (rest.0, sent_ready a ∷ rest.1)
await_ready (some (cancelled_before e)) a rest = (some e, closed ∷ [])

-- Behind Listen: whether the address is a loopback address, and the rest.
unfoldable pub check_bound : Bool → Bytes → Ran → Ran
check_bound true addr rest = (rest.0, listened addr ∷ rest.1)
check_bound false addr rest = (
  some (plain (text "RunHTTP: bound address is not loopback (ADR-006); check --http-addr")),
  listened addr ∷ closed ∷ [],
)

abbrev pub listen_addr : HttpOptions → Bytes
listen_addr opts = if is_empty opts.addr then text "127.0.0.1:0" else opts.addr

-- What RunHTTP takes from elsewhere: SHA-256, %q, os.ReadFile, net.Listen, the test for
-- http.ErrServerClosed, http.MaxBytesHandler, and the handler of mcp.NewStreamableHTTPHandler.
pub record HttpEnv : Type 0 where
  pub sum256 : Sum256
  pub quote : Bytes → Bytes
  pub read_file : Bytes → Result Error Bytes
  pub listen : Bytes → Result Error BoundAddr
  pub is_server_closed : Error → Bool
  pub max_bytes : MaxBytes
  pub sdk_handler : Handler

module _ (env : HttpEnv) where
  -- Step 5
  unfoldable pub new_http_server : BearerVerifier → HttpServer
  unfolding assemble_pipeline
  new_http_server verifier = record {
    handler = λ random. assemble_pipeline env.sum256 verifier env.max_bytes random env.sdk_handler;
    read_header_timeout = 5;
  }

  -- Step 3 and on
  unfoldable pub announce_and_serve : BearerVerifier → Bytes → HttpOptions → Ending → Ran
  unfolding serve_until await_ready new_http_server
  announce_and_serve verifier a opts ending =
      let rest = await_ready opts.ready_ch a (
        serve_until env.is_server_closed (new_http_server verifier) (opts.capture_http_srv_ch)
          ending) in
      (rest.0, announced (announce_line a) ∷ logged_address a ∷ rest.1)

  -- Behind the call of Listen
  unfoldable pub serve_bound : Result Error BoundAddr → BearerVerifier → HttpOptions → Ending → Ran
  unfolding announce_and_serve check_bound
  serve_bound (err e) verifier opts ending =
      (some (wrapped (text "RunHTTP listen " ++ env.quote (listen_addr opts)) e), [])
  serve_bound (ok bound) verifier opts ending =
      check_bound (bound.is_tcp && bound.is_loopback) (listen_addr opts)
        (announce_and_serve verifier (bound.addr_text) opts ending)

  -- Behind the call of NewBearerVerifierFromFile
  unfoldable pub serve_verified : Result Error BearerVerifier → HttpOptions → Ending → Ran
  unfolding serve_bound
  serve_verified (err e) opts ending = (some e, [])
  serve_verified (ok verifier) opts ending =
      serve_bound (env.listen (listen_addr opts)) verifier opts ending

  -- The verifier that a token file gives.
  abbrev pub verifier_of : Bytes → Result Error BearerVerifier
  verifier_of path = (new_bearer_verifier_from_file env.sum256 env.quote env.read_file path).0

  unfoldable pub run_http : HttpOptions → Ending → Ran
  unfolding serve_verified
  run_http opts ending = serve_verified (verifier_of opts.token_file_path) opts ending
