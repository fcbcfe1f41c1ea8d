-- ===== src/Server/RequestLog/Lines.antt =====
-- What a client gets and what is logged, against what the next handler did.
use blockchain_ai_tools.Base.{
  ℕ, suc, Bytes, true, List, [], ◌∷◌, ◌++◌, some, Result, ◌≡◌, refl, ap, ◌∙◌, arith,
}
use blockchain_ai_tools.Signing.Errors.{Error}
use blockchain_ai_tools.Signing.Signer.{with_request_id}
use blockchain_ai_tools.Server.Handlers.{generate_request_id}
use blockchain_ai_tools.Server.Handling.{
  Request, Written, RequestLine, Doing, returns, breaks_down, sets_field, writes_header, writes,
  flushes, logs_line, Handler, Put, field, header, part, flush, Exchange, put_first, line_first,
  conclude,
}
use blockchain_ai_tools.Server.RequestLog.{
  fresh_writer, write_header, write, captured_status, capture, new_request_log_middleware,
}

-- The status of the first header or body, and 200 without either.
unfoldable pub first_status : List Put → ℕ
first_status [] = 200
first_status (header c ∷ ps) = c
first_status (part b ∷ ps) = 200
first_status (field k v ∷ ps) = first_status ps
first_status (flush ∷ ps) = first_status ps

unfoldable pub without_headers : List Put → List Put
without_headers [] = []
without_headers (header c ∷ ps) = without_headers ps
without_headers (part b ∷ ps) = part b ∷ without_headers ps
without_headers (field k v ∷ ps) = field k v ∷ without_headers ps
without_headers (flush ∷ ps) = flush ∷ without_headers ps

-- The same calls, without the headers behind the first header or body.
unfoldable pub with_one_header : List Put → List Put
unfolding without_headers
with_one_header [] = []
with_one_header (header c ∷ ps) = header c ∷ without_headers ps
with_one_header (part b ∷ ps) = part b ∷ without_headers ps
with_one_header (field k v ∷ ps) = field k v ∷ with_one_header ps
with_one_header (flush ∷ ps) = flush ∷ with_one_header ps

-- What the wrapped writer makes of what would have come of the calls.
abbrev pub behind_capture : (List Put → List Put) → RequestLine → Exchange → Exchange
behind_capture f l x = record {
  puts = f x.puts;
  lines = x.lines ++ l ∷ [];
  broke_down = x.broke_down;
}

module _ (answers : ℕ → Bytes → Written) (line : ℕ → RequestLine) where
  capture-written :
      (d : Doing) (n s : ℕ)
      → conclude answers n (capture line d (record { status = s; written = true }))
        ≡ behind_capture without_headers (line s) (conclude answers n d)
  unfolding conclude capture write_header write captured_status without_headers
  capture-written returns n s = refl
  capture-written breaks_down n s = refl
  capture-written (sets_field k v d) n s = ap (put_first (field k v)) (capture-written d n s)
  capture-written (writes_header c d) n s = capture-written d n s
  capture-written (writes b k) n s =
      ap (put_first (part b)) (capture-written (k (answers n b)) (suc n) s)
  capture-written (flushes d) n s = ap (put_first flush) (capture-written d n s)
  capture-written (logs_line l d) n s = ap (line_first l) (capture-written d n s)

  capture-fresh :
      (d : Doing) (n : ℕ)
      → conclude answers n (capture line d fresh_writer)
        ≡ behind_capture with_one_header
            (line (first_status (conclude answers n d).puts))
            (conclude answers n d)
  unfolding conclude capture write_header write captured_status with_one_header first_status
  capture-fresh returns n = refl
  capture-fresh breaks_down n = refl
  capture-fresh (sets_field k v d) n = ap (put_first (field k v)) (capture-fresh d n)
  capture-fresh (writes_header c d) n = ap (put_first (header c)) (capture-written d n c)
  capture-fresh (writes b k) n =
      ap (put_first (part b)) (capture-written (k (answers n b)) (suc n) 200)
  capture-fresh (flushes d) n = ap (put_first flush) (capture-fresh d n)
  capture-fresh (logs_line l d) n = ap (line_first l) (capture-fresh d n)

-- The next handler's request, and what it would come to without the log.
abbrev pub with_id : Bytes → Request → Request
with_id id r = record r { context = with_request_id r.context id }

-- The log against the next handler: `inner` is what that handler came to.
pub record Logged (id : Bytes) (r : Request) (inner outer : Exchange) : Type 0 where
  pub one_line :
      outer.lines
      ≡ inner.lines
        ++ record { request_id = id; remote_addr = r.remote_addr; status = first_status inner.puts }
          ∷ []
  pub forwarded : outer.puts ≡ with_one_header inner.puts
  pub same_end : outer.broke_down ≡ inner.broke_down

module _ (answers : ℕ → Bytes → Written) (next : Handler) (r : Request) where
  -- Where an id is drawn: whatever the next handler does, and if it panics too, its request
  -- carries the id, all its calls but further headers reach the client, and one line behind its own
  -- has the id, the remote address and the status of its first header or body, else 200.
  pub new_request_log_middleware-Logged :
      (random : Result Error Bytes) (id : Bytes)
      → generate_request_id random ≡ some id
      → Logged id r
          (conclude answers 0 (next (with_id id r)))
          (conclude answers 0 (new_request_log_middleware random next r))
  unfolding new_request_log_middleware
  new_request_log_middleware-Logged random id made =
      let e : conclude answers 0 (new_request_log_middleware random next r) ≡ _ =
        ap (λ x. conclude answers 0 x) (ground arith)
        ∙ capture-fresh answers
            (λ s. record { request_id = id; remote_addr = r.remote_addr; status = s })
            (next (with_id id r)) 0 in
      record {
        one_line = ap (λ x. x.lines) e;
        forwarded = ap (λ x. x.puts) e;
        same_end = ap (λ x. x.broke_down) e;
      }
