-- ===== src/Auth/Service/Jwt.antt =====
-- services/jwt_service.py and shared/security/jwt.py; encoding and decoding are PyJWT's.
use recentthink_ai_be.Common.{
  ℕ, ◌+◌, String, Bool, true, false, Option, none, some, [], ◌∷◌, str_eq, ◌==◌, not, if◌then◌else◌,
}
use recentthink_ai_be.Auth.Model.{Role, role_value}
use recentthink_ai_be.Auth.Action.{
  Env, Action, Payload, Claim, pure, raise_if, gets, lift, or_raise, ◌>>=◌, ◌>>◌, draw_id,
  invalid_token, value_error,
}

-- `payload.get(key)`
unfoldable pub get : String → Payload → Option Claim
get key [] = none
get key ((k, v) ∷ p) = if str_eq k key then some v else get key p

-- `claim == text`
unfoldable pub is_text : String → Option Claim → Bool
is_text s (some (Claim.text t)) = str_eq t s
is_text s _ = false

-- `not claim`
unfoldable pub is_falsy : Option Claim → Bool
is_falsy none = true
is_falsy (some (Claim.text s)) = str_eq s ""
is_falsy (some (Claim.number n)) = n == 0
is_falsy (some (Claim.boolean b)) = not b

-- `TokenType.ACCESS.value`
abbrev pub access : String
access = "access"

module _ (env : Env) where
  -- `str(claim)`
  unfoldable pub claim_text : Option Claim → String
  claim_text none = "None"
  claim_text (some (Claim.text s)) = s
  claim_text (some (Claim.number n)) = env.number_text n
  claim_text (some (Claim.boolean b)) = if b then "True" else "False"

  -- the claims of a new access token, at an instant and with a `jti`
  unfoldable pub access_claims : ℕ → String → Role → ℕ → Bool → ℕ → ℕ → Payload
  unfolding role_value
  access_claims user_id email role pwd_ts is_verified now jti =
      ("user_id", Claim.text (env.uuid_text user_id))
      ∷ ("email", Claim.text email)
      ∷ ("role", Claim.text (role_value role))
      ∷ ("pwd_ts", Claim.number pwd_ts)
      ∷ ("is_verified", Claim.boolean is_verified)
      ∷ ("token_type", Claim.text access)
      ∷ ("iss", Claim.text env.settings.jwt_issuer)
      ∷ ("aud", Claim.text env.settings.jwt_audience)
      ∷ ("iat", Claim.number now)
      ∷ ("exp", Claim.number (now + env.settings.access_token_lifetime))
      ∷ ("jti", Claim.text (env.uuid_hex jti))
      ∷ []

  unfoldable pub create_access_token : ℕ → String → Role → ℕ → Bool → Action String
  unfolding access_claims
  create_access_token user_id email role password_changed_at is_verified = do
    now ← gets (λ w. w.now)
    jti ← draw_id
    pure (env.jwt_encode (access_claims user_id email role password_changed_at is_verified now jti))

  unfoldable pub verify_token : String → Action Payload
  verify_token token = do now ← gets (λ w. w.now); lift (env.jwt_decode now token)

  unfoldable pub extract_user_id : String → Action ℕ
  unfolding verify_token get is_text is_falsy claim_text
  extract_user_id token = do
    payload ← verify_token token
    raise_if (not (is_text access (get "token_type" payload))) invalid_token
    raise_if (is_falsy (get "user_id" payload)) invalid_token
    or_raise (env.parse_uuid (claim_text (get "user_id" payload))) value_error
