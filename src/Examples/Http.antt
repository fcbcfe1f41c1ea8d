-- ===== src/Examples/Http.antt =====
-- The theorems on the HTTP server, at a concrete token, handler and request.
use blockchain_ai_tools.Base.{
  Any, inl, inr, ℕ, Bytes, text, replicate, take, true, false, ◌∷◌, [], none, some, Result, ok, ◌≡◌,
  refl,
}
use blockchain_ai_tools.Signing.Errors.{Error, deadline_exceeded, is_deadline_exceeded}
use blockchain_ai_tools.Signing.Hex.{hex_encode}
use blockchain_ai_tools.Server.Auth.{new_bearer_verifier_from_file, strip_one, strip_line_ending}
use blockchain_ai_tools.Server.Handlers.{generate_request_id}
use blockchain_ai_tools.Server.Handling.{
  Request, Written, breaks_down, flushes, returns, writes_header, writes, Handler, header, part,
  Exchange, conclude,
}
use blockchain_ai_tools.Server.RequestLog.{
  new_request_log_middleware, capture, write_header, write, captured_status,
}
use blockchain_ai_tools.Server.RequestLog.Lines.{with_id, Logged, new_request_log_middleware-Logged}
use blockchain_ai_tools.Server.Http.{
  MaxBytes, assemble_pipeline, BoundAddr, Ending, shut_down, HttpOptions, Ran, run_http, HttpEnv,
  HttpServer, new_http_server, served, serve_verified, serve_bound, check_bound, announce_and_serve,
  await_ready, serve_until,
}
use blockchain_ai_tools.Server.Http.Pipeline.{Limited, Answered, assemble_pipeline-Answered}
use blockchain_ai_tools.Server.Http.Serving.{served-Answered}
use blockchain_ai_tools.Server.Http.Startup.{Phase, unbound, follow_all, Settled, run_http-Settled}
use blockchain_ai_tools.Examples.Vault.{running}
use blockchain_ai_tools.Examples.Server.{
  identity_hash, quote_plainly, token_path, token_file_text, read_token, verifier, verifier_is_made,
}

abbrev post : Request
post = record {
  context = record { context = running; request_id = none };
  remote_addr = text "127.0.0.1:5000";
  auth_header = text "Bearer s3cret";
  body = text "{}";
  body_error = none;
}

abbrev takes_all : ℕ → Bytes → Written
takes_all _ b = record { count = 1; error = none }

-- A handler that fails, sends a second header, and panics.
abbrev failing_handler : Handler
failing_handler _ = writes_header 500 (writes_header 200 (writes (text "no") (λ _. breaks_down)))

abbrev random_bytes : Result Error Bytes
random_bytes = ok (replicate 16 171)

abbrev uuid : Bytes
uuid = text "abababab-abab-4bab-abab-abababababab"

id_drawn : generate_request_id random_bytes ≡ some uuid
unfolding generate_request_id hex_encode text
id_drawn = refl

only_first_header :
    (conclude takes_all 0 (new_request_log_middleware random_bytes failing_handler post)).puts
    ≡ header 500 ∷ part (text "no") ∷ []
unfolding conclude new_request_log_middleware capture write_header write captured_status
    generate_request_id hex_encode
only_first_header = refl

-- A handler that flushes first, and then sends the header 500: the line says 500.
abbrev flushing_handler : Handler
flushing_handler _ = flushes (writes_header 500 returns)

abbrev flushed : Exchange
flushed = conclude takes_all 0 (new_request_log_middleware random_bytes flushing_handler post)

logged_after_flush :
    flushed.lines ≡ record { request_id = uuid; remote_addr = post.remote_addr; status = 500 } ∷ []
unfolding conclude new_request_log_middleware capture write_header write captured_status
    generate_request_id hex_encode text
logged_after_flush = refl

new_request_log_middleware-Logged_example :
    Logged uuid post
      (conclude takes_all 0 (failing_handler (with_id uuid post)))
      (conclude takes_all 0 (new_request_log_middleware random_bytes failing_handler post))
new_request_log_middleware-Logged_example =
    new_request_log_middleware-Logged takes_all failing_handler post random_bytes uuid id_drawn

abbrev cut_body : MaxBytes
cut_body h n r = h (record r { body = take n r.body })

abbrev cut_body_limits : (h : Handler) (n : ℕ) (r : Request) → Limited cut_body h n r
cut_body_limits h n r = record {
  request = record r { body = take n r.body };
  handled = refl;
  is_cut = record { same_context = refl; same_addr = refl; same_header = refl; less_body = refl };
}

assemble_pipeline-Answered_example :
    Answered takes_all (strip_line_ending token_file_text) failing_handler uuid post (
      conclude takes_all 0
        (assemble_pipeline identity_hash verifier cut_body random_bytes failing_handler post))
assemble_pipeline-Answered_example =
    assemble_pipeline-Answered identity_hash quote_plainly read_token token_path token_file_text
      refl verifier verifier_is_made (λ t e. e) cut_body cut_body_limits random_bytes uuid id_drawn
      takes_all failing_handler post

abbrev on_loopback : Bytes → Result Error BoundAddr
on_loopback _ = ok (record { addr_text = text "127.0.0.1:8080"; is_tcp = true; is_loopback = true })

abbrev some_options : HttpOptions
some_options = record {
  addr = [];
  token_file_path = token_path;
  ready_ch = none;
  capture_http_srv_ch = false;
}

abbrev late_drain : Ending
late_drain = shut_down (some deadline_exceeded)

abbrev some_env : HttpEnv
some_env = record {
  sum256 = identity_hash;
  quote = quote_plainly;
  read_file = read_token;
  listen = on_loopback;
  is_server_closed = is_deadline_exceeded;
  max_bytes = cut_body;
  sdk_handler = failing_handler;
}

abbrev late_run : Ran
late_run = run_http some_env some_options late_drain

run_http-Settled_example :
    (q : Phase) × (follow_all (text "127.0.0.1:0") (text "127.0.0.1:8080") unbound late_run.1
      ≡ some q)
    × Settled some_env some_options late_drain q late_run.0
run_http-Settled_example = run_http-Settled some_env some_options late_drain

abbrev some_server : HttpServer
some_server = new_http_server some_env verifier

is_served : Any (λ e. e ≡ served some_server) late_run.1
unfolding run_http serve_verified serve_bound check_bound announce_and_serve await_ready serve_until
    new_bearer_verifier_from_file strip_line_ending strip_one text
is_served = inr (inr (inr (inl refl)))

served-Answered_example :
    Answered takes_all
      (strip_line_ending token_file_text)
      failing_handler
      uuid
      post
      (conclude takes_all 0 (some_server.handler random_bytes post))
served-Answered_example =
    served-Answered some_env some_options late_drain token_file_text refl (λ t e. e) cut_body_limits
      some_server is_served random_bytes uuid id_drawn takes_all post
