-- ===== src/Gateway/Admission.antt =====
-- Which requests with a token `enforce_session` forwards.
use recentthink_ai_be.Common.{
  ℕ, String, true, false, some, ◌≡◌, ◌↔◌, arith, Option-cases, inl, inr, str_eq, refl, ◌⊎◌,
}
use recentthink_ai_be.Auth.Action.{Env, Payload, Result-cases, ok}
use recentthink_ai_be.Auth.Service.Jwt.{get, is_text, access, claim_text}
use recentthink_ai_be.Gateway.Types.{Gate, CachedUserState, Verdict, denied, passed, Response}
use recentthink_ai_be.Gateway.Header.{extract_bearer}
use recentthink_ai_be.Gateway.Paths.{is_public_path}
use recentthink_ai_be.Gateway.Guard.{
  Config, Incoming, live_state, token_role, pwd_ts_stale, check_token, enforce_session,
}

pub Verdict-cases {ℓ} :
    {A : Type ℓ} (v : Verdict A) → ((a : A) × (v ≡ passed a)) ⊎ ((r : Response) × (v ≡ denied r))
Verdict-cases (passed a) = inl (a, refl)
Verdict-cases (denied r) = inr (r, refl)

module _ (env : Env) (config : Config) (g : Gate) (token : String) where
  -- the token is an access token of a user whose live state allows the request
  pub record IsAdmitted : Type 0 where
    pub payload : Payload
    pub user_id : ℕ
    pub state : CachedUserState
    pub decodes : env.jwt_decode g.wall token ≡ ok payload
    pub is_access : is_text access (get "token_type" payload) ≡ true
    pub names : env.parse_uuid (claim_text env (get "user_id" payload)) ≡ some user_id
    pub is_live : (live_state env config user_id g).0 ≡ passed state
    pub not_blocked : state.is_blocked ≡ false
    pub active : state.is_active ≡ true
    pub same_role : str_eq (token_role env config payload) state.role ≡ true
    pub not_stale : pwd_ts_stale (get "pwd_ts" payload) state.pwd_ts ≡ false

  check_sound : (check_token env config token g).0 ≡ passed tt → IsAdmitted
  check_sound h = elim (Result-cases (env.jwt_decode g.wall token)) [
    | inr (x, bad) ↦ absurd (unfold check_token in ground arith)
    | inl (p, d) ↦ elim (Option-cases (env.parse_uuid (claim_text env (get "user_id" p)))) [
      | inl unreadable ↦ absurd (unfold check_token in ground arith)
      | inr (i, n) ↦ elim (Verdict-cases (live_state env config i g).0) [
        | inr (r, refused) ↦ absurd (unfold check_token in ground arith)
        | inl (s, l) ↦ record {
          payload = p;
          user_id = i;
          state = s;
          decodes = d;
          is_access = unfold check_token in ground arith;
          names = n;
          is_live = l;
          not_blocked = unfold check_token in ground arith;
          active = unfold check_token in ground arith;
          same_role = unfold check_token in ground arith;
          not_stale = unfold check_token in ground arith;
        }
      ]
    ]
  ]

  check_complete : IsAdmitted → (check_token env config token g).0 ≡ passed tt
  unfolding check_token
  check_complete a = ground (
    arith, a.decodes, a.is_access, a.names, a.is_live, a.not_blocked, a.active, a.same_role,
    a.not_stale,
  )

module _ (env : Env) (config : Config) (g : Gate) (request : Incoming) (token : String) where
  -- With the guard enabled, a request with a bearer token to a path that is not public is forwarded
  -- exactly when the token decodes to an access token of a user whose state, cached or fetched, is
  -- not blocked, active, of the token's role, and whose password is not newer than the token.
  pub enforce_iff :
      config.guard_enabled ≡ true
      → is_public_path request.path ≡ false
      → extract_bearer request.authorization ≡ some token
      → ((enforce_session env config request g).0 ≡ passed tt) ↔ IsAdmitted env config g token
  enforce_iff on private has_token = (
    (λ h. check_sound env config g token (unfold enforce_session in ground arith)),
    (λ a. let c = check_complete env config g token a in unfold enforce_session in ground arith),
  )
