-- ===== src/Server/Handlers/RequestId.antt =====
-- The request ids that the handlers make and keep.
use blockchain_ai_tools.Base.{
  ℕ, ◌+◌, ◌-◌, ◌*◌, ◌≤◌, ◌<◌, ◌↔◌, zero, suc, Bytes, length, length-append, take, drop, true, false,
  bit_and, bit_or, ◌∷◌, ◌++◌, [], List, some, Option-cases, Bool-cases, ok, ◌≡◌, ◌⊎◌, inl, inr,
  refl, arith, ap, ◌∙◌, sym,
}
use blockchain_ai_tools.Signing.Hex.{hex_encode}
use blockchain_ai_tools.Signing.Vault.{byte_at}
use blockchain_ai_tools.Signing.Signer.{RequestContext, with_request_id, request_id_from_context}
use blockchain_ai_tools.Server.Handlers.{
  set_byte, between, uuid_text, set_version, set_variant, generate_request_id, usable_request_id,
  ensure_request_id,
}

module _ {ℓ} {A : Type ℓ} where
  pub length-take : (n : ℕ) (xs : List A) → n ≤ length xs → length (take n xs) ≡ n
  length-take zero xs h = refl
  length-take (suc n) [] h = omega (arith, h)
  length-take (suc n) (x ∷ xs) h = ap suc (length-take n xs (omega (arith, h)))

  pub length-drop : (n : ℕ) (xs : List A) → length (drop n xs) ≡ length xs - n
  length-drop zero xs = omega arith
  length-drop (suc n) [] = omega arith
  length-drop (suc n) (x ∷ xs) = length-drop n xs ∙ omega arith

length-hex_encode : (s : Bytes) → length (hex_encode s) ≡ 2 * length s
unfolding hex_encode
length-hex_encode [] = refl
length-hex_encode (b ∷ s) = let e = length-hex_encode s in omega (arith, e)

length-set_byte :
    (i : ℕ) (f : ℕ → ℕ) (b : Bytes) → suc i ≤ length b → length (set_byte i f b) ≡ length b
length-set_byte i f b h =
    let a = length-append (take i b) (f (byte_at b i) ∷ drop (i + 1) b) in
    let t = length-take i b (omega (arith, h)) in
    let d = length-drop (i + 1) b in omega (arith, a, t, d, h)

length-between :
    (i n : ℕ) (b : Bytes) → i + n ≤ length b → length (hex_encode (between i n b)) ≡ 2 * n
length-between i n b h =
    let e = length-hex_encode (between i n b) in
    let d = length-drop i b in
    let t = length-take n (drop i b) (omega (arith, d, h)) in omega (arith, e, t)

length-joined :
    (a b : Bytes) (c : ℕ) {n m : ℕ} → length a ≡ n → length b ≡ m → length (a ++ c ∷ b) ≡ n + m + 1
length-joined a b c h k = let e = length-append a (c ∷ b) in omega (arith, e, h, k)

length-uuid_text : (b : Bytes) → length b ≡ 16 → length (uuid_text b) ≡ 36
length-uuid_text b h = length-joined _ _ b'-' (length-between 0 4 b (omega (arith, h))) (
    length-joined _ _ b'-' (length-between 4 2 b (omega (arith, h))) (
      length-joined _ _ b'-' (length-between 6 2 b (omega (arith, h))) (
        length-joined _ _ b'-' (length-between 8 2 b (omega (arith, h))) (
          length-hex_encode (drop 10 b)
          ∙ ap (λ n. 2 * n) (length-drop 10 b ∙ ap (λ n. n - 10) h)))))

-- A generated id has the 36 characters of a UUID.
pub length-generate_request_id :
    (random : Bytes)
    → length random ≡ 16
    → (id : Bytes) × (generate_request_id (ok random) ≡ some id) × (length id ≡ 36)
unfolding generate_request_id
length-generate_request_id random h =
    let versioned =
      length-set_byte 6 (λ x. bit_or (bit_and x 0x0f) 0x40) random (omega (arith, h)) ∙ h in
    let b =
      length-set_byte 8 (λ x. bit_or (bit_and x 0x3f) 0x80) (set_version random)
        (omega (arith, versioned))
      ∙ versioned in
    (_, refl, length-uuid_text (set_variant (set_version random)) b)

-- An id of 1 to 64 characters.
abbrev pub IsRequestId : Bytes → Type 0
IsRequestId id = (0 < length id) × (length id ≤ 64)

-- The context carries such an id.
abbrev pub HasRequestId : RequestContext → Type 0
HasRequestId ctx = (id : Bytes) × (request_id_from_context ctx ≡ some id) × IsRequestId id

usable_iff : (id : Bytes) → (usable_request_id (some id) ≡ true) ↔ IsRequestId id
unfolding usable_request_id
usable_iff [] = (λ h. absurd (ground arith), λ h. absurd (omega (arith, h)))
usable_iff (c ∷ id) = (λ h. (omega arith, ground arith), λ h. ground arith)

unusable-lacks :
    (ctx : RequestContext)
    → usable_request_id (request_id_from_context ctx) ≡ false
    → ¬ (HasRequestId ctx)
unusable-lacks ctx unusable (id, found, fits) =
    let usable = (usable_iff id).1 fits in
    absurd (cc (ap usable_request_id found, usable, unusable))

-- What the handler goes on with: an id of 1 to 64 characters that its context carries, and where the
-- context had such an id, that context.
pub record Carries (before : RequestContext) (id : Bytes) (ctx : RequestContext) : Type 0 where
  pub is_usable : IsRequestId id
  pub is_carried : request_id_from_context ctx ≡ some id
  pub kept : (ctx ≡ before) ⊎ ¬ (HasRequestId before)

module _ (random : Bytes) (ctx : RequestContext) (sixteen : length random ≡ 16) where
  generated :
      (usable_request_id (request_id_from_context ctx) ≡ false)
      → (id : Bytes) × (ctx' : RequestContext) × (ensure_request_id (ok random) ctx
          ≡ some (id, ctx'))
        × Carries ctx id ctx'
  unfolding ensure_request_id
  generated unusable =
      let (id, made, e) = length-generate_request_id random sixteen in
      (
        id,
        with_request_id ctx id,
        ground arith,
        record {
          is_usable = (omega (arith, e), omega (arith, e));
          is_carried = refl;
          kept = inr (unusable-lacks ctx unusable);
        },
      )

  -- On 16 random bytes the handler never panics: it goes on with an id of 1 to 64 characters, which
  -- the context of the signer's call carries, and keeps a context that had such an id.
  pub ensure_request_id-Carries :
      (id : Bytes) × (ctx' : RequestContext) × (ensure_request_id (ok random) ctx ≡ some (id, ctx'))
      × Carries ctx id ctx'
  unfolding ensure_request_id
  ensure_request_id-Carries = elim (Bool-cases (usable_request_id (request_id_from_context ctx))) [
    | inr unusable ↦ generated unusable
    | inl is_usable ↦ elim (Option-cases (request_id_from_context ctx)) [
      | inl nothing ↦ absurd (ground arith)
      | inr (id, found) ↦ (
        id,
        ctx,
        ground arith,
        record {
          is_usable = (usable_iff id).0 (ap usable_request_id (sym found) ∙ is_usable);
          is_carried = found;
          kept = inl refl;
        },
      )
    ]
  ]
