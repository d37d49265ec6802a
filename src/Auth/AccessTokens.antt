-- ===== src/Auth/AccessTokens.antt =====
-- Access tokens: minting them (`JWTService.create_access_token`) and resolving them
-- (`AuthService.resolve_user_from_access_token`).
use recentthink_ai_be.Common.{
  sym, ap, ◌/◌, ◌*◌, ℕ, ◌+◌, ◌<◌, ◌≤◌, String, true, false, some, find, arith, ◌≡◌, ◌≢◌,
  Option-cases, inl, inr, refl,
}
use native.Mathlib.Decide.{dec_lt}
use recentthink_ai_be.Auth.Model.{User, user_has_id}
use recentthink_ai_be.Auth.Action.{Env, World, Payload, Claim, Result-cases, ok, err, expired_token}
use recentthink_ai_be.Auth.Service.Jwt.{
  get, is_text, access, claim_text, access_claims, create_access_token,
}
use recentthink_ai_be.Auth.Service.Session.{resolve_user_from_access_token, is_stale}

-- PyJWT writes the instants of a token, `exp` and `iat`, in whole seconds.
abbrev pub whole_seconds : ℕ → ℕ
whole_seconds t = t / 1000000 * 1000000

whole_seconds_le : (t : ℕ) → whole_seconds t ≤ t
whole_seconds_le t = omega arith

-- What PyJWT and `uuid` document, of a payload and of an identifier: a token of this issuer and
-- audience decodes, until the second of its `exp`, to the claims that were encoded, but for the two
-- instants, and raises from then on; a UUID is read back from its text, which is not empty.
pub record IsCodec (env : Env) (p : Payload) (i : ℕ) : Type 0 where
  pub decode-encode :
      (now exp : ℕ)
      → get "exp" p ≡ some (Claim.number exp)
      → get "iss" p ≡ some (Claim.text env.settings.jwt_issuer)
      → get "aud" p ≡ some (Claim.text env.settings.jwt_audience)
      → now < whole_seconds exp
      → (q : Payload) × (env.jwt_decode now (env.jwt_encode p) ≡ ok q)
        × ((key : String) → key ≢ "exp" → key ≢ "iat" → get key q ≡ get key p)
  pub decode_expired :
      (now exp : ℕ)
      → get "exp" p ≡ some (Claim.number exp)
      → whole_seconds exp ≤ now
      → env.jwt_decode now (env.jwt_encode p) ≡ err expired_token
  pub parse-uuid_text : env.parse_uuid (env.uuid_text i) ≡ some i
  pub uuid_text-ne-empty : env.uuid_text i ≢ ""

-- the claims in a token that is minted for a user
abbrev pub claims : Env → World → User → Payload
claims env w u =
    access_claims env u.id u.email u.role u.password_changed_at u.is_verified w.now w.draws

module _ (env : Env) (w : World) (token : String) where
  -- Whatever the payload: a token that resolves to a user decodes, is of the access type, names that
  -- user, and carries no numeric `pwd_ts` older than the last change of the user's password.
  pub resolve_sound :
      (u : User)
      → (resolve_user_from_access_token env token w).0 ≡ ok u
      → (p : Payload) × (i : ℕ) × (env.jwt_decode w.now token ≡ ok p)
        × (is_text access (get "token_type" p) ≡ true)
        × (env.parse_uuid (claim_text env (get "user_id" p)) ≡ some i)
        × (find (user_has_id i) w.session.users ≡ some u)
        × (is_stale (get "pwd_ts" p) u.password_changed_at ≡ false)
  resolve_sound u e = elim (Result-cases (env.jwt_decode w.now token)) [
    | inr (x, bad) ↦ absurd (unfold resolve_user_from_access_token in ground arith)
    | inl (p, d) ↦ elim (Option-cases (env.parse_uuid (claim_text env (get "user_id" p)))) [
      | inl unreadable ↦ absurd (unfold resolve_user_from_access_token in ground arith)
      | inr (i, j) ↦ (
        p,
        i,
        d,
        unfold resolve_user_from_access_token in ground arith,
        j,
        unfold resolve_user_from_access_token in ground arith,
        unfold resolve_user_from_access_token in ground arith,
      )
    ]
  ]

module _ (env : Env) (w later : World) (u : User) (codec : IsCodec env (claims env w u) u.id) where
  -- the three claims that are read
  decoded :
      (exp : ℕ)
      → exp ≡ w.now + env.settings.access_token_lifetime
      → later.now < whole_seconds exp
      → (q : Payload) × (env.jwt_decode later.now (env.jwt_encode (claims env w u)) ≡ ok q)
        × (get "token_type" q ≡ some (Claim.text access))
        × (get "user_id" q ≡ some (Claim.text (env.uuid_text u.id)))
        × (get "pwd_ts" q ≡ some (Claim.number u.password_changed_at))
  unfolding access_claims get
  decoded exp e live =
      let (q, d, same) =
        codec.decode-encode later.now exp (ap (λ t. some (Claim.number t)) (sym e)) refl refl
          live in
      (
        q,
        d,
        same "token_type" (λ e. cc) (λ e. cc),
        same "user_id" (λ e. cc) (λ e. cc),
        same "pwd_ts" (λ e. cc) (λ e. cc),
      )

  -- A token minted for a user is refused as expired from the instant of its expiry on.
  pub resolve_expired :
      (token : String)
      → (create_access_token env u.id u.email u.role u.password_changed_at u.is_verified w).0
        ≡ ok token
      → w.now + env.settings.access_token_lifetime ≤ later.now
      → (resolve_user_from_access_token env token later).0 ≡ err expired_token
  unfolding create_access_token resolve_user_from_access_token access_claims
  resolve_expired token e late =
      let exp = w.now + env.settings.access_token_lifetime in
      ground (arith, codec.decode_expired later.now exp refl (omega (arith, whole_seconds_le exp)))

  -- A token minted before the last change of its user's password resolves to nobody, whatever the
  -- database does.
  pub resolve_stale :
      (token : String) (row r : User)
      → (create_access_token env u.id u.email u.role u.password_changed_at u.is_verified w).0
        ≡ ok token
      → find (user_has_id u.id) later.session.users ≡ some row
      → u.password_changed_at < row.password_changed_at
      → (resolve_user_from_access_token env token later).0 ≢ ok r
  unfolding create_access_token resolve_user_from_access_token access_claims
  resolve_stale token row r e f old =
      let exp = w.now + env.settings.access_token_lifetime in
      elim (dec_lt later.now (whole_seconds exp)) [
        | yes live ↦ λ h.
            let (q, d, a, b, c) = decoded exp refl live in
            ground (arith, codec.parse-uuid_text, d, a, b, c)
        | no late ↦ λ h. ground (arith, codec.decode_expired later.now exp refl (omega arith))
      ]
