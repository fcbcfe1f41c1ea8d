-- ===== src/Server/Http/Serving.antt =====
-- From RunHTTP to the answer of a request: what the server that it serves does.
use blockchain_ai_tools.Base.{
  ℕ, Bytes, [], ◌∷◌, List, Any, Option, none, some, some_eq, Option-cases, Result, ok, ◌≡◌, inl,
  inr, sym, ap, ◌∙◌, subst,
}
use blockchain_ai_tools.Signing.Errors.{Error}
use blockchain_ai_tools.Server.Auth.{BearerVerifier, strip_line_ending}
use blockchain_ai_tools.Server.Handlers.{generate_request_id}
use blockchain_ai_tools.Server.Handling.{Request, Written, Handler, conclude}
use blockchain_ai_tools.Server.Http.{
  HttpServer, HttpEnv, new_http_server, Ending, HttpOptions, Event, served, called_shutdown,
  run_http,
}
use blockchain_ai_tools.Server.Http.Pipeline.{Limited, Answered, assemble_pipeline-Answered}
use blockchain_ai_tools.Server.Http.Startup.{
  Phase, unbound, ready, serving, stopped, follow, follow_all, Sound, Settled, not_bound,
  not_served, left_by_serve, left_by_shutdown, run_http-Settled,
}

-- The server of a phase.
abbrev server_in : Phase → Option HttpServer
server_in (serving s) = some s
server_in (stopped s) = some s
server_in _ = none

module _ (wanted actual : Bytes) where
  followed :
      (p q : Phase) (e : Event) (es : List Event)
      → follow_all wanted actual p (e ∷ es) ≡ some q
      → (p' : Phase) × (follow wanted actual p e ≡ some p')
        × (follow_all wanted actual p' es ≡ some q)
  followed p q e es f = elim (Option-cases (follow wanted actual p e)) [
    | inl h ↦ absurd (
        cc (
          sym f
          ∙ ap
              (λ o. elim o as (λ _. Option Phase) [
                | none ↦ none
                | some p' ↦ follow_all wanted actual p' es
              ])
              h))
    | inr (p', h) ↦ (
      p',
      h,
      sym (
            ap
              (λ o. elim o as (λ _. Option Phase) [
                | none ↦ none
                | some p' ↦ follow_all wanted actual p' es
              ])
              h)
          ∙ f,
    )
  ]

  keeps_server :
      (p p' : Phase) (e : Event) (s : HttpServer)
      → server_in p ≡ some s
      → follow wanted actual p e ≡ some p'
      → server_in p' ≡ some s
  keeps_server (serving t) p' called_shutdown s h f =
      subst (λ x. server_in x ≡ some s) (some_eq f) h
  keeps_server p p' e s h f = absurd (cc)

  puts_server :
      (p p' : Phase) (s : HttpServer)
      → follow wanted actual p (served s) ≡ some p'
      → server_in p' ≡ some s
  puts_server ready p' s f = ap server_in (sym (some_eq f))
  puts_server p p' s f = absurd (cc)

  -- Once there is a server, it stays.
  server_kept :
      (es : List Event) (p q : Phase) (s : HttpServer)
      → server_in p ≡ some s
      → follow_all wanted actual p es ≡ some q
      → server_in q ≡ some s
  server_kept [] p q s h f = subst (λ x. server_in x ≡ some s) (some_eq f) h
  server_kept (e ∷ es) p q s h f =
      let (p', first, rest) = followed p q e es f in
      server_kept es p' q s (keeps_server p p' e s h first) rest

  served_stays :
      (es : List Event) (p q : Phase) (s : HttpServer)
      → Any (λ e. e ≡ served s) es
      → follow_all wanted actual p es ≡ some q
      → server_in q ≡ some s
  served_stays [] p q s a f = absurd a
  served_stays (e ∷ es) p q s (inl here) f =
      let (p', first, rest) = followed p q e es f in
      server_kept es p' q s (puts_server p p' s (sym (ap (follow wanted actual p) here) ∙ first))
        rest
  served_stays (e ∷ es) p q s (inr later) f =
      let (p', first, rest) = followed p q e es f in served_stays es p' q s later rest

module _ (env : HttpEnv) (opts : HttpOptions) (ending : Ending) where
  -- A server at the end is the one that is made with the verifier of the token file.
  Settled-server :
      (q : Phase) (result : Option Error) (s : HttpServer)
      → Settled env opts ending q result
      → server_in q ≡ some s
      → (v : BearerVerifier) × Sound env opts v × (s ≡ new_http_server env v)
  Settled-server q result s (not_bound e) h = absurd (cc)
  Settled-server q result s (not_served e) h = absurd (cc)
  Settled-server q result s (left_by_serve v e sound _) h = (v, sound, sym (some_eq h))
  Settled-server q result s (left_by_shutdown v e sound _) h = (v, sound, sym (some_eq h))

  -- The token file can be read, no other text has the hash of its token, MaxBytesHandler does what it
  -- documents, and an id is drawn for the request. Then whatever server RunHTTP serves answers every
  -- request as the pipeline does: with the SDK's handler where the request has the token of the file,
  -- and else with 401.
  pub served-Answered :
      (raw : Bytes)
      → env.read_file opts.token_file_path ≡ ok raw
      → ((t : Bytes)
          → env.sum256 t ≡ env.sum256 (strip_line_ending raw)
          → t ≡ strip_line_ending raw)
      → ((h : Handler) (n : ℕ) (r : Request) → Limited env.max_bytes h n r)
      → (s : HttpServer) → Any (λ e. e ≡ served s) (run_http env opts ending).1
      → (random : Result Error Bytes) (id : Bytes) → generate_request_id random ≡ some id
      → (answers : ℕ → Bytes → Written) (r : Request)
      → Answered answers
          (strip_line_ending raw)
          env.sdk_handler
          id
          r
          (conclude answers 0 (s.handler random r))
  unfolding new_http_server
  served-Answered raw was_read unique limits s has_served random id drawn answers r =
      let (q, follows, settled) = run_http-Settled env opts ending in
      let (v, sound, same_server) =
        Settled-server q _ s settled (served_stays _ _ _ unbound q s has_served follows) in
      subst
        (λ x.
          Answered answers (strip_line_ending raw) env.sdk_handler id r
            (conclude answers 0 (x.handler random r)))
        (sym same_server)
        (assemble_pipeline-Answered env.sum256 env.quote env.read_file opts.token_file_path raw
          was_read v sound.verifier_made unique env.max_bytes limits random id drawn answers
          env.sdk_handler r)
