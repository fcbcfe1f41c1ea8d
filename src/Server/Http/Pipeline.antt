-- ===== src/Server/Http/Pipeline.antt =====
-- What the assembled pipeline does with a request, from the token file to the SDK's handler.
use blockchain_ai_tools.Base.{
  ℕ, ◌≤◌, Bytes, text, length, take, zero, suc, List, Bool, false, [], ◌∷◌, ◌++◌, some, ok, Result,
  ◌≡◌, ◌≢◌, ◌⊎◌, inl, inr, refl, sym, ap, ◌∙◌, subst, arith,
}
use blockchain_ai_tools.Signing.Errors.{Error}
use blockchain_ai_tools.Server.Auth.{
  Sum256, BearerVerifier, Verdict, unauthorized, passed, middleware, strip_line_ending,
  new_bearer_verifier_from_file,
}
use blockchain_ai_tools.Server.Auth.Gate.{gate_of_file}
use blockchain_ai_tools.Server.Handlers.{generate_request_id}
use blockchain_ai_tools.Server.Handling.{
  Request, Written, RequestLine, Handler, Put, field, header, Exchange, conclude,
}
use blockchain_ai_tools.Server.RequestLog.{new_request_log_middleware}
use blockchain_ai_tools.Server.RequestLog.Lines.{
  with_id, Logged, with_one_header, without_headers, first_status,
  new_request_log_middleware-Logged,
}
use blockchain_ai_tools.Server.Http.{obey, require_bearer, body_limit, MaxBytes, assemble_pipeline}

length-take_le {ℓ} : {A : Type ℓ} (n : ℕ) (xs : List A) → length (take n xs) ≤ n
length-take_le zero xs = omega arith
length-take_le (suc n) [] = omega arith
length-take_le (suc n) (x ∷ xs) = let h = length-take_le n xs in omega (arith, h)

-- A request with at most n bytes of the body of another.
pub record Cut (n : ℕ) (r cut : Request) : Type 0 where
  pub same_context : cut.context ≡ r.context
  pub same_addr : cut.remote_addr ≡ r.remote_addr
  pub same_header : cut.auth_header ≡ r.auth_header
  pub less_body : cut.body ≡ take n r.body

-- What http.MaxBytesHandler documents: the handler gets the request, but no more of its body.
pub record Limited (max_bytes : MaxBytes) (h : Handler) (n : ℕ) (r : Request) : Type 0 where
  pub request : Request
  pub handled : max_bytes h n r ≡ h request
  pub is_cut : Cut n r request

abbrev pub request_line : Bytes → Request → ℕ → RequestLine
request_line id r s = record { request_id = id; remote_addr = r.remote_addr; status = s }

-- A client without the token gets 401, no body and no other call; that is logged too.
abbrev pub refusal : Bytes → Request → Exchange
refusal id r = record {
  puts = field (text "WWW-Authenticate") (text "Bearer") ∷ header 401 ∷ [];
  lines = request_line id r 401 ∷ [];
  broke_down = false;
}

-- How a request is answered, with the token and the SDK's handler.
pub data Answered (answers : ℕ → Bytes → Written) (token : Bytes) (sdk_handler : Handler)
    (id : Bytes) (r : Request) (outer : Exchange) : Type 0 where
  let_through :
      (seen : Request)
      → r.auth_header ≡ text "Bearer " ++ token
      → Cut body_limit r seen
      → length seen.body ≤ body_limit
      → Logged id r (conclude answers 0 (sdk_handler (with_id id seen))) outer
      → Answered answers token sdk_handler id r outer
  turned_away :
      r.auth_header ≢ text "Bearer " ++ token
      → outer ≡ refusal id r
      → Answered answers token sdk_handler id r outer

verdict_cases : (v : Verdict) → (v ≡ unauthorized) ⊎ (v ≡ passed)
verdict_cases unauthorized = inl refl
verdict_cases passed = inr refl

Logged-Cut :
    (id : Bytes) (r cut : Request) (inner outer : Exchange)
    → cut.remote_addr ≡ r.remote_addr
    → Logged id cut inner outer
    → Logged id r inner outer
Logged-Cut id r cut inner outer e l = record {
  one_line =
      l.one_line
      ∙ ap
          (λ a.
            inner.lines
            ++ record { request_id = id; remote_addr = a; status = first_status inner.puts } ∷ [])
          e;
  forwarded = l.forwarded;
  same_end = l.same_end;
}

module _ (sum256 : Sum256) (v : BearerVerifier) (answers : ℕ → Bytes → Written) (next : Handler)
    (r : Request) where
  refuses :
      middleware sum256 v r.auth_header ≡ unauthorized
      → conclude answers 0 (require_bearer sum256 v next r) ≡ record {
        puts = field (text "WWW-Authenticate") (text "Bearer") ∷ header 401 ∷ [];
        lines = [];
        broke_down = false;
      }
  unfolding obey conclude
  refuses e = ap (λ x. conclude answers 0 (obey x next r)) e

  passes_on : middleware sum256 v r.auth_header ≡ passed → require_bearer sum256 v next r ≡ next r
  unfolding obey
  passes_on e = ap (λ x. obey x next r) e

made_of :
    {x : Exchange} {puts : List Put} {lines : List RequestLine} {broke_down : Bool}
    → x.puts ≡ puts
    → x.lines ≡ lines
    → x.broke_down ≡ broke_down
    → x ≡ record { puts = puts; lines = lines; broke_down = broke_down }
made_of e f g = cc

exchange_of :
    {id : Bytes} {r : Request} {inner outer : Exchange}
    → Logged id r inner outer
    → inner ≡ record {
      puts = field (text "WWW-Authenticate") (text "Bearer") ∷ header 401 ∷ [];
      lines = [];
      broke_down = false;
    }
    → outer ≡ refusal id r
unfolding with_one_header without_headers first_status
exchange_of {id} {r} {inner} {outer} l e =
    let puts = l.forwarded ∙ ap (λ x. with_one_header x.puts) e in
    let lines = l.one_line ∙ ap (λ x. x.lines ++ request_line id r (first_status x.puts) ∷ []) e in
    let broke_down = l.same_end ∙ ap (λ x. x.broke_down) e in made_of puts lines broke_down

-- The pipeline that is made from a token file, with the request ids that are drawn.
module _ (sum256 : Sum256) (quote : Bytes → Bytes) (read_file : Bytes → Result Error Bytes)
    (path raw : Bytes) (was_read : read_file path ≡ ok raw) (v : BearerVerifier)
    (made : (new_bearer_verifier_from_file sum256 quote read_file path).0 ≡ ok v)
    (unique : (t : Bytes) → sum256 t ≡ sum256 (strip_line_ending raw) → t ≡ strip_line_ending raw)
    (max_bytes : MaxBytes) (limits : (h : Handler) (n : ℕ) (r : Request) → Limited max_bytes h n r)
    (random : Result Error Bytes) (id : Bytes) (drawn : generate_request_id random ≡ some id) where
  -- The token file was read, no other text has the hash of its token, MaxBytesHandler does what it
  -- documents, and an id is drawn for the request. Then a request with the token reaches the SDK's
  -- handler, with its id and with at most 1 MiB of its body, and is logged once, behind what that
  -- handler logs. Any other request gets 401 with no body, and one line says so; the SDK's handler
  -- does nothing.
  pub assemble_pipeline-Answered :
      (answers : ℕ → Bytes → Written) (sdk_handler : Handler) (r : Request)
      → Answered answers
          (strip_line_ending raw)
          sdk_handler
          id
          r
          (conclude answers 0 (assemble_pipeline sum256 v max_bytes random sdk_handler r))
  unfolding assemble_pipeline
  assemble_pipeline-Answered answers sdk_handler r =
      let gate =
        gate_of_file sum256 quote read_file path raw was_read v made unique r.auth_header in
      elim (verdict_cases (middleware sum256 v r.auth_header)) [
        | inl refused ↦
            turned_away (λ bears. absurd (cc (refused, gate.1 bears)))
              (exchange_of logged (
                refuses sum256 v answers sdk_handler seen
                  (ap (middleware sum256 v) l.is_cut.same_header ∙ refused)))
        | inr accepted ↦
            let_through l.request (gate.0 accepted) l.is_cut
              (subst (λ b. length b ≤ body_limit) (sym l.is_cut.less_body)
                (length-take_le body_limit r.body))
              (subst (λ d. Logged id r (conclude answers 0 d) outer)
                (passes_on sum256 v answers sdk_handler seen
                  (ap (middleware sum256 v) l.is_cut.same_header ∙ accepted))
                logged)
      ]
    where
      guarded : Handler
      guarded = require_bearer sum256 v sdk_handler

      l : Limited max_bytes (new_request_log_middleware random guarded) body_limit r
      l = limits (new_request_log_middleware random guarded) body_limit r

      seen : Request
      seen = with_id id l.request

      outer : Exchange
      outer =
          conclude answers 0 (max_bytes (new_request_log_middleware random guarded) body_limit r)

      logged : Logged id r (conclude answers 0 (guarded seen)) outer
      logged = Logged-Cut id r l.request _ _ l.is_cut.same_addr (
          subst
            (λ d. Logged id l.request (conclude answers 0 (guarded seen)) (conclude answers 0 d))
            (sym l.handled)
            (new_request_log_middleware-Logged answers guarded l.request random id drawn))
