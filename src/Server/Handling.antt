-- ===== src/Server/Handling.antt =====
-- What net/http gives the handlers of the package `server`: a request, a writer, and what is made of
-- the calls on it.
use blockchain_ai_tools.Base.{ℕ, suc, Bytes, Bool, true, false, List, [], ◌∷◌, Option}
use blockchain_ai_tools.Signing.Errors.{Error}
use blockchain_ai_tools.Signing.Signer.{RequestContext}

-- http.Request. Its body gives some bytes, and then an error, or io.EOF.
pub record Request : Type 0 where
  pub context : RequestContext
  pub remote_addr : Bytes
  pub auth_header : Bytes
  pub body : Bytes
  pub body_error : Option Error

-- What (http.ResponseWriter).Write returns.
pub record Written : Type 0 where
  pub count : ℕ
  pub error : Option Error

-- logger.Info("http request", …), without the time that it took
pub record RequestLine : Type 0 where
  pub request_id : Bytes
  pub remote_addr : Bytes
  pub status : ℕ

-- What a handler does until it returns or panics. A Write answers it. A status code is one of 100
-- to 999: on others net/http panics.
pub data Doing : Type 0 where
  returns breaks_down : Doing
  sets_field : Bytes → Bytes → Doing → Doing  -- w.Header().Set
  writes_header : ℕ → Doing → Doing
  writes : Bytes → (Written → Doing) → Doing
  flushes : Doing → Doing  -- http.NewResponseController(w).Flush
  logs_line : RequestLine → Doing → Doing

abbrev pub Handler : Type 0
Handler = Request → Doing

-- The calls that reach the writer of net/http.
pub data Put : Type 0 where
  field : Bytes → Bytes → Put
  header : ℕ → Put
  part : Bytes → Put
  flush : Put

-- What came of a request.
pub record Exchange : Type 0 where
  pub puts : List Put
  pub lines : List RequestLine
  pub broke_down : Bool

abbrev pub put_first : Put → Exchange → Exchange
put_first p x = record x { puts = p ∷ x.puts }

abbrev pub line_first : RequestLine → Exchange → Exchange
line_first l x = record x { lines = l ∷ x.lines }

-- The handler on a connection, which answers its n-th Write.
unfoldable pub conclude : (ℕ → Bytes → Written) → ℕ → Doing → Exchange
conclude answers n returns = record { puts = []; lines = []; broke_down = false }
conclude answers n breaks_down = record { puts = []; lines = []; broke_down = true }
conclude answers n (sets_field k v d) = put_first (field k v) (conclude answers n d)
conclude answers n (writes_header c d) = put_first (header c) (conclude answers n d)
conclude answers n (writes b k) = put_first (part b) (conclude answers (suc n) (k (answers n b)))
conclude answers n (flushes d) = put_first flush (conclude answers n d)
conclude answers n (logs_line l d) = line_first l (conclude answers n d)
