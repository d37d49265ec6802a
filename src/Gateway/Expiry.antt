-- ===== src/Gateway/Expiry.antt =====
-- What is found in the gateway's cache (auth/user_state_cache.py) after a store, and how a request to the
-- guard changes it.
use recentthink_ai_be.Common.{
  ℕ, ◌+◌, String, none, some, ◌≡◌, ◌≢◌, arith, ltb, ◌⊎◌, inl, inr, Option-cases, Bool-cases,
  if◌then◌else◌,
}
use recentthink_ai_be.Auth.Action.{Env, Payload, Result-cases}
use recentthink_ai_be.Auth.Service.Jwt.{get, is_text, access, claim_text}
use recentthink_ai_be.Gateway.Header.{extract_bearer}
use recentthink_ai_be.Gateway.Paths.{is_public_path}
use recentthink_ai_be.Gateway.Admission.{Verdict-cases}
use recentthink_ai_be.Gateway.Types.{Gate, CachedUserState}
use recentthink_ai_be.Gateway.Cache.{get_cached, set_cached}
use recentthink_ai_be.Gateway.Guard.{
  Config, Incoming, live_state, evaluate_state, check_token, enforce_session,
}

module _ (g : Gate) (state : CachedUserState) (ttl later : ℕ) where
  abbrev at_later : Gate → Gate
  at_later h = record h { clock = later }

  -- A state that was stored with a positive time to live is found until that time has passed, and
  -- then no more; other users' entries are found as before.
  pub get-set_cached :
      (k : ℕ)
      → ttl ≢ 0
      → ((get_cached state.user_id (record (set_cached state ttl g) { clock = later })).0
          ≡ (if ltb later (g.clock + ttl) then some state else none))
        × (k ≢ state.user_id
            → (get_cached k (record (set_cached state ttl g) { clock = later })).0
              ≡ (get_cached k (record g { clock = later })).0)
  unfolding get_cached set_cached
  get-set_cached k positive = (ground arith, λ other. ground arith)

module _ (env : Env) (config : Config) (g : Gate) where
  evaluate-gate :
      (p : Payload) (s : CachedUserState) (h : Gate) → (evaluate_state env config p s h).1 ≡ h
  unfolding evaluate_state
  evaluate-gate p s h = ground arith

  -- a check changes the gate as the lookup of some user's state does, or not at all
  abbrev pub Moves : Gate → Type 0
  Moves h = (h ≡ g) ⊎ ((i : ℕ) × (h ≡ (live_state env config i g).1))

  check-Moves : (token : String) → Moves (check_token env config token g).1
  check-Moves token = elim (Result-cases (env.jwt_decode g.wall token)) [
    | inr (x, bad) ↦ inl (unfold check_token in ground arith)
    | inl (p, d) ↦ elim (Option-cases (env.parse_uuid (claim_text env (get "user_id" p)))) [
      | inl unreadable ↦ inl (unfold check_token in ground arith)
      | inr (i, n) ↦ elim (Bool-cases (is_text access (get "token_type" p))) [
        | inr other ↦ inl (unfold check_token in ground arith)
        | inl is_access ↦ inr (
          i,
          elim (Verdict-cases (live_state env config i g).0) [
            | inr (r, refused) ↦ unfold check_token in ground arith
            | inl (s, l) ↦
                unfold check_token in
                ground (arith, evaluate-gate p s (live_state env config i g).1)
          ],
        )
      ]
    ]
  ]

  pub enforce-Moves : (request : Incoming) → Moves (enforce_session env config request g).1
  enforce-Moves request = elim (Option-cases (extract_bearer request.authorization)) [
    | inl no_token ↦ inl (unfold enforce_session in ground arith)
    | inr (token, t) ↦ elim (Bool-cases config.guard_enabled) [
      | inr off ↦ inl (unfold enforce_session in ground arith)
      | inl on ↦ elim (Bool-cases (is_public_path request.path)) [
        | inl public ↦ inl (unfold enforce_session in ground arith)
        | inr private ↦
            let same : (enforce_session env config request g).1
                ≡ (check_token env config token g).1 =
              unfold enforce_session in ground arith in
            rw same (check-Moves token)
      ]
    ]
  ]
