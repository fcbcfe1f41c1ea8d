-- ===== src/Server/Http/Startup.antt =====
-- What RunHTTP does with its listener, as the runs of a small automaton.
use blockchain_ai_tools.Base.{
  Bytes, text, is_empty, same, same_refl, Bool, true, false, ◌&&◌, if◌then◌else◌, ◌∷◌, [], ◌++◌,
  List, Option, none, some, Result, ok, err, ◌≡◌, refl, ap, subst, ◌∙◌, arith,
}
use blockchain_ai_tools.Signing.Errors.{Error}
use blockchain_ai_tools.Server.Auth.{BearerVerifier}
use blockchain_ai_tools.Server.Http.{
  HttpServer, HttpEnv, new_http_server, verifier_of, BoundAddr, Readiness, received,
  cancelled_before, Ending, serve_exited, shut_down, HttpOptions, Event, listened, closed,
  announced, logged_address, sent_ready, captured_server, served, called_shutdown, serve_result,
  Ran, serve_until, await_ready, check_bound, announce_and_serve, serve_bound, serve_verified,
  run_http,
}

-- What has become of the listener.
pub data Phase : Type 0 where
  unbound : Phase
  bound : Phase
  told : Phase  -- the operator knows the address
  ready : Phase  -- the log has it too
  released : Phase
  serving : HttpServer → Phase
  stopped : HttpServer → Phase

-- The line on stderr that tells the operator an address.
abbrev pub announcement : Bytes → Bytes
announcement a = text "eth-signer-mcp listening on " ++ (a ++ b'\n' ∷ [])

-- The address that a listener got.
abbrev pub got : Result Error BoundAddr → Bytes
got (ok b) = b.addr_text
got (err e) = []

abbrev only_if : Bool → Phase → Option Phase
only_if b p = if b then some p else none

-- The events that a phase allows, where `wanted` is the address that Listen is called with, and
-- `actual` the one that the listener got: only this is announced, logged and sent to the caller.
-- Nothing is served before, and nothing follows the close of a listener.
module _ (wanted actual : Bytes) where
  abbrev pub follow : Phase → Event → Option Phase
  follow unbound (listened a) = only_if (same a wanted) bound
  follow bound closed = some released
  follow bound (announced line) = only_if (same line (announcement actual)) told
  follow told (logged_address a) = only_if (same a actual) ready
  follow ready closed = some released
  follow ready (sent_ready a) = only_if (same a actual) ready
  follow ready (captured_server s) = some ready
  follow ready (served s) = some (serving s)
  follow (serving s) called_shutdown = some (stopped s)
  follow p e = none

  abbrev pub follow_all : Phase → List Event → Option Phase
  follow_all p [] = some p
  follow_all p (e ∷ es) = elim (follow p e) [ none ↦ none | some q ↦ follow_all q es ]

  follows_on :
      (p p' q : Phase) (e : Event) (es : List Event)
      → follow p e ≡ some p'
      → follow_all p' es ≡ some q
      → follow_all p (e ∷ es) ≡ some q
  follows_on p p' q e es here rest =
      ap (λ o. elim o as (λ _. Option Phase) [ none ↦ none | some r ↦ follow_all r es ]) here ∙ rest

only_if-same : (a : Bytes) (p : Phase) → only_if (same a a) p ≡ some p
only_if-same a p = ap (λ x. only_if x p) (same_refl a)

-- The address to listen at: that of the options, or a free port of the loopback interface.
abbrev pub wanted_by : HttpOptions → Bytes
wanted_by opts = if is_empty opts.addr then text "127.0.0.1:0" else opts.addr

module _ (env : HttpEnv) where
  -- What serving rests on: a verifier from the token file, and a listener on the loopback interface.
  pub record Sound (opts : HttpOptions) (v : BearerVerifier) : Type 0 where
    pub verifier_made : verifier_of env opts.token_file_path ≡ ok v
    pub address : BoundAddr
    pub listening : env.listen (wanted_by opts) ≡ ok address
    pub over_tcp : address.is_tcp ≡ true
    pub on_loopback : address.is_loopback ≡ true

  -- The ends of RunHTTP: with an error before there is a listener, or with the listener closed; or
  -- with what Serve or Shutdown returned.
  pub data Settled (opts : HttpOptions) (ending : Ending) : Phase → Option Error → Type 0 where
    not_bound : (e : Error) → Settled opts ending unbound (some e)
    not_served : (e : Error) → Settled opts ending released (some e)
    left_by_serve :
        (v : BearerVerifier) (e : Option Error)
        → Sound opts v
        → ending ≡ serve_exited e
        → Settled opts ending
            (serving (new_http_server env v))
            (serve_result env.is_server_closed e)
    left_by_shutdown :
        (v : BearerVerifier) (e : Option Error)
        → Sound opts v
        → ending ≡ shut_down e
        → Settled opts ending (stopped (new_http_server env v)) e

  -- The address that the listener of a run got.
  abbrev pub got_by : HttpOptions → Bytes
  got_by opts = got (env.listen (wanted_by opts))

  -- The events of a run go through the phases from `p` to an end.
  abbrev pub Settles : HttpOptions → Ending → Phase → Ran → Type 0
  Settles opts ending p r =
      (q : Phase) × (follow_all (wanted_by opts) (got_by opts) p r.1 ≡ some q)
      × Settled opts ending q r.0

  module _ (opts : HttpOptions) (v : BearerVerifier) (s : Sound opts v) where
    serve_until-Settles :
        (ending : Ending) (captures : Bool)
        → Settles opts ending ready
            (serve_until env.is_server_closed (new_http_server env v) captures ending)
    unfolding serve_until
    serve_until-Settles (serve_exited e) true = (_, refl, left_by_serve v e s refl)
    serve_until-Settles (serve_exited e) false = (_, refl, left_by_serve v e s refl)
    serve_until-Settles (shut_down e) true = (_, refl, left_by_shutdown v e s refl)
    serve_until-Settles (shut_down e) false = (_, refl, left_by_shutdown v e s refl)

    await_ready-Settles :
        (ending : Ending) (r : Option Readiness) (rest : Ran)
        → Settles opts ending ready rest
        → Settles opts ending ready (await_ready r (got_by opts) rest)
    unfolding await_ready
    await_ready-Settles ending none rest h = h
    await_ready-Settles ending (some received) rest (q, follows, settled) = (
      q,
      follows_on (wanted_by opts) (got_by opts) ready ready q (sent_ready (got_by opts)) (rest.1)
          (only_if-same (got_by opts) ready) follows,
      settled,
    )
    await_ready-Settles ending (some (cancelled_before e)) rest h = (_, refl, not_served e)

    announced-Settles :
        (ending : Ending) (rest : Ran)
        → Settles opts ending ready rest
        → Settles opts ending bound
            (rest.0, announced (announcement (got_by opts)) ∷ logged_address (got_by opts) ∷ rest.1)
    announced-Settles ending rest (q, follows, settled) = (
      q,
      follows_on (wanted_by opts) (got_by opts) bound told q
          (announced (announcement (got_by opts))) (logged_address (got_by opts) ∷ rest.1)
          (only_if-same (announcement (got_by opts)) told)
          (follows_on (wanted_by opts) (got_by opts) told ready q (logged_address (got_by opts))
            (rest.1) (only_if-same (got_by opts) ready) follows),
      settled,
    )

    announce_and_serve-Settles :
        (ending : Ending)
        → Settles opts ending bound (announce_and_serve env v (got_by opts) opts ending)
    unfolding announce_and_serve text
    announce_and_serve-Settles ending =
        announced-Settles ending
          (await_ready opts.ready_ch (got_by opts) (
            serve_until env.is_server_closed (new_http_server env v) opts.capture_http_srv_ch
              ending))
          (await_ready-Settles ending opts.ready_ch _
            (serve_until-Settles ending opts.capture_http_srv_ch))

  check_bound-Settles :
      (opts : HttpOptions) (ending : Ending) (is_local : Bool) (rest : Ran)
      → (is_local ≡ true → Settles opts ending bound rest)
      → Settles opts ending unbound (check_bound is_local (wanted_by opts) rest)
  unfolding check_bound
  check_bound-Settles opts ending true rest h =
      let (q, follows, settled) = h refl in
      (
        q,
        follows_on (wanted_by opts) (got_by opts) unbound bound q (listened (wanted_by opts))
            (rest.1) (only_if-same (wanted_by opts) bound) follows,
        settled,
      )
  check_bound-Settles opts ending false rest h = (
    released,
    follows_on (wanted_by opts) (got_by opts) unbound bound released (listened (wanted_by opts))
        (closed ∷ []) (only_if-same (wanted_by opts) bound) refl,
    not_served _,
  )

  module _ (opts : HttpOptions) (ending : Ending) where
    serve_bound-Settles :
        (v : BearerVerifier) (b : Result Error BoundAddr)
        → verifier_of env opts.token_file_path ≡ ok v
        → env.listen (wanted_by opts) ≡ b
        → Settles opts ending unbound (serve_bound env b v opts ending)
    unfolding serve_bound
    serve_bound-Settles v (err e) made failing = (_, refl, not_bound _)
    serve_bound-Settles v (ok address) made listening =
        check_bound-Settles opts ending (address.is_tcp && address.is_loopback) _ (λ e.
          subst (λ a. Settles opts ending bound (announce_and_serve env v a opts ending))
            (ap got listening)
            (announce_and_serve-Settles opts v
              (record {
                verifier_made = made;
                address = address;
                listening = listening;
                over_tcp = ground arith;
                on_loopback = ground arith;
              })
              ending))

    serve_verified-Settles :
        (r : Result Error BearerVerifier)
        → verifier_of env opts.token_file_path ≡ r
        → Settles opts ending unbound (serve_verified env r opts ending)
    unfolding serve_verified
    serve_verified-Settles (err e) failing = (_, refl, not_bound _)
    serve_verified-Settles (ok v) made =
        serve_bound-Settles v (env.listen (wanted_by opts)) made refl

    -- RunHTTP goes through the phases in order, and always to an end. It listens at the address of
    -- its options, or at a free port of the loopback interface where they have none. It serves only
    -- with a verifier from the token file, on a loopback address, and behind the announcement on
    -- stderr and the log line, which tell the address that the listener got, as does the message on
    -- the channel of the caller; where it does not serve, it fails with an error, and a listener
    -- that it had is closed.
    pub run_http-Settled : Settles opts ending unbound (run_http env opts ending)
    unfolding run_http
    run_http-Settled = serve_verified-Settles (verifier_of env opts.token_file_path) refl
