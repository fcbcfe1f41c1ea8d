-- ===== src/Server/Auth/Gate.antt =====
-- Which requests the bearer middleware lets through.
use blockchain_ai_tools.Base.{
  Bytes, text, same_iff, is_empty_iff, not_empty, cut_prefix, cut_prefix-append,
  append_of_cut_prefix, ◌++◌, [], Option-cases, Result, ok, ok-injective, ◌≡◌, ◌≢◌, ◌↔◌, inl, inr,
  sym, ap, ◌∙◌, arith,
}
use blockchain_ai_tools.Signing.Secret.{expose}
use blockchain_ai_tools.Signing.Errors.{Error}
use blockchain_ai_tools.Server.Auth.{
  Sum256, BearerVerifier, passed, middleware, strip_line_ending, new_bearer_verifier_from_file,
}
use blockchain_ai_tools.Server.Auth.Token.{new_bearer_verifier_from_file-Made}

module _ (sum256 : Sum256) (v : BearerVerifier) where
  -- The header carries a token, and its hash is the stored one.
  pub record Bears (auth_header : Bytes) : Type 0 where
    pub token : Bytes
    pub header : auth_header ≡ text "Bearer " ++ token
    pub not_nothing : token ≢ []
    pub hash : sum256 token ≡ expose v.token_hash

  passed-Bears : (h : Bytes) → middleware sum256 v h ≡ passed → Bears h
  unfolding middleware
  passed-Bears h p = elim (Option-cases (cut_prefix h (text "Bearer "))) [
    | inl nothing ↦ absurd (ground arith)
    | inr (token, cut) ↦ record {
      token = token;
      header = append_of_cut_prefix h (text "Bearer ") token cut;
      not_nothing = λ e. let nothing = (is_empty_iff token).1 e in absurd (ground arith);
      hash = (same_iff _ _).0 (ground arith);
    }
  ]

  Bears-passed : (h : Bytes) → Bears h → middleware sum256 v h ≡ passed
  unfolding middleware
  Bears-passed h b =
      let cut =
        ap (λ x. cut_prefix x (text "Bearer ")) b.header
        ∙ cut_prefix-append (text "Bearer ") b.token in
      let full = not_empty b.token b.not_nothing in
      let matches = (same_iff _ _).1 b.hash in ground arith

  -- The middleware passes a request on exactly if its header is `Bearer ` and a token that is not
  -- empty and has the stored hash. Every other request gets 401.
  pub middleware_iff : (h : Bytes) → (middleware sum256 v h ≡ passed) ↔ Bears h
  middleware_iff h = (passed-Bears h, Bears-passed h)

-- The token of a readable file opens the gate that is made from the file; and where no other token
-- has its hash, it is the only one that does.
module _ (sum256 : Sum256) (quote : Bytes → Bytes) (read_file : Bytes → Result Error Bytes)
    (path raw : Bytes) (was_read : read_file path ≡ ok raw) (v : BearerVerifier)
    (made : (new_bearer_verifier_from_file sum256 quote read_file path).0 ≡ ok v) where
  token_full : strip_line_ending raw ≢ []
  token_full e =
      let m = new_bearer_verifier_from_file-Made sum256 quote read_file path raw was_read in
      elim m.outcome [ inl (full, _) ↦ full e | inr (_, refused) ↦ absurd (cc) ]

  stored : expose v.token_hash ≡ sum256 (strip_line_ending raw)
  stored =
      let m = new_bearer_verifier_from_file-Made sum256 quote read_file path raw was_read in
      elim m.outcome [
        | inl (_, hashed) ↦ ap (λ x. expose x.token_hash) (ok-injective (sym made ∙ hashed))
        | inr (nothing, _) ↦ absurd (token_full nothing)
      ]

  -- Where no other text has the hash of the file's token, exactly the header with that token
  -- passes.
  pub gate_of_file :
      (unique : (t : Bytes) → sum256 t ≡ sum256 (strip_line_ending raw) → t ≡ strip_line_ending raw)
      (h : Bytes)
      → (middleware sum256 v h ≡ passed) ↔ (h ≡ text "Bearer " ++ strip_line_ending raw)
  gate_of_file unique h = (
    λ p.
        let b = passed-Bears sum256 v h p in
        b.header ∙ ap (λ t. text "Bearer " ++ t) (unique b.token (b.hash ∙ stored)),
    λ e. Bears-passed sum256 v h (record {
      token = strip_line_ending raw;
      header = e;
      not_nothing = token_full;
      hash = sym stored;
    }),
  )
