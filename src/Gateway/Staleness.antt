-- ===== src/Gateway/Staleness.antt =====
-- How old a state is that the session guard uses: auth/session_guard.py with auth/user_state_cache.py,
-- over requests one after another.
use recentthink_ai_be.Common.{
  ℕ, ◌+◌, ◌<◌, ◌≡◌, sym, subst, String, true, false, none, some, List, [], ◌∷◌, ◌⊎◌, inl, inr,
  Option-cases, Bool-cases, arith, leb, ==_iff,
}
use recentthink_ai_be.Auth.Action.{Env}
use recentthink_ai_be.Gateway.Header.{extract_bearer}
use recentthink_ai_be.Gateway.Paths.{is_public_path}
use recentthink_ai_be.Gateway.Types.{Gate, CachedUserState, passed}
use recentthink_ai_be.Gateway.Cache.{get_cached, set_cached}
use recentthink_ai_be.Gateway.Client.{Reply, found, fetch_user_state}
use recentthink_ai_be.Gateway.Guard.{Config, Incoming, live_state, fetch_state, enforce_session}
use recentthink_ai_be.Gateway.Admission.{IsAdmitted, enforce_iff}
use recentthink_ai_be.Gateway.Expiry.{enforce-Moves}

-- a request, the readings of the two clocks, and what the Auth Service answers to a lookup then
pub record Event : Type 0 where
  pub wall : ℕ
  pub clock : ℕ
  pub reply : ℕ → Reply
  pub request : Incoming

module _ (env : Env) (config : Config) where
  abbrev pub config_at : Event → Config
  config_at e = record config { reply = e.reply }

  abbrev pub gate_at : Event → Gate → Gate
  gate_at e g = record g { wall = e.wall; clock = e.clock }

  -- the gate after the requests, of which the last comes first, from an empty cache on
  abbrev pub after : List Event → Gate
  after [] = record { wall = 0; clock = 0; store = λ k. none }
  after (e ∷ es) = (enforce_session env (config_at e) e.request (gate_at e (after es))).1

-- At one of the events the Auth Service answered with the state, and it is used before the time to live
-- has passed from then on.
pub data Answered (ttl now : ℕ) (s : CachedUserState) : List Event → Type 0 where
  here :
      {e : Event} {es : List Event} (i : ℕ)
      → fetch_user_state (e.reply i) ≡ found s
      → now < e.clock + ttl
      → Answered ttl now s (e ∷ es)
  earlier : {e : Event} {es : List Event} → Answered ttl now s es → Answered ttl now s (e ∷ es)

-- an entry is of the user under whom it stands, and its state was answered for as long as it has not expired
abbrev Known : ℕ → List Event → Gate → Type 0
Known ttl es g =
    (k : ℕ) (s : CachedUserState) (expires now : ℕ)
    → g.store k ≡ some (s, expires)
    → now < expires
    → (s.user_id ≡ k) × Answered ttl now s es

module _ (env : Env) (config : Config) where
  -- what a look-up of the live state leaves in the cache was there, or has just been answered
  live_state-store :
      (i k : ℕ) (g : Gate) (s : CachedUserState) (expires : ℕ)
      → (live_state env config i g).1.store k ≡ some (s, expires)
      → (g.store k ≡ some (s, expires))
        ⊎ ((s.user_id ≡ k)
            × (fetch_user_state (config.reply i) ≡ found s)
            × (expires ≡ g.clock + config.cache_ttl))
  unfolding live_state get_cached fetch_state set_cached
  live_state-store i k g s expires h = ground (arith, ==_iff k i)

  -- the state that it answers is cached and has not expired, or has just been answered
  live_state_sound :
      (i : ℕ) (g : Gate) (s : CachedUserState)
      → (live_state env config i g).0 ≡ passed s
      → ((expires : ℕ) × (g.store i ≡ some (s, expires)) × (g.clock < expires))
        ⊎ (fetch_user_state (config.reply i) ≡ found s)
  unfolding live_state get_cached fetch_state set_cached
  live_state_sound i g s h = elim (Option-cases (g.store i)) [
    | inl empty ↦ inr (ground arith)
    | inr ((v, expires), stored) ↦ elim (Bool-cases (leb expires g.clock)) [
      | inl old ↦ inr (ground arith)
      | inr live ↦ inl (expires, ground arith, ground arith)
    ]
  ]

module _ (env : Env) (config : Config) where
  Known-moved :
      (e : Event) (es : List Event) (g : Gate)
      → Known config.cache_ttl es g
      → (i : ℕ)
      → Known config.cache_ttl
          (e ∷ es)
          (live_state env (config_at env config e) i (gate_at env config e g)).1
  Known-moved e es g known i k s expires now h lt =
      elim (live_state-store env (config_at env config e) i k (gate_at env config e g) s expires
        h) [
          | inl old ↦ let k = known k s expires now old lt in (k.0, earlier k.1)
          | inr (same, fetched, at) ↦ (same, here i fetched (ground arith))
        ]

  Known-same :
      (e : Event) (es : List Event) (g : Gate)
      → Known config.cache_ttl es g
      → Known config.cache_ttl (e ∷ es) (gate_at env config e g)
  Known-same e es g known k s expires now h lt =
      let k = known k s expires now h lt in (k.0, earlier k.1)

  Known-after : (es : List Event) → Known config.cache_ttl es (after env config es)
  Known-after [] = λ k s expires now h lt. cc
  Known-after (e ∷ es) =
      let known = Known-after es in
      let before = gate_at env config e (after env config es) in
      elim (enforce-Moves env (config_at env config e) before e.request) [
        | inl same ↦
            subst (Known config.cache_ttl (e ∷ es)) (sym same)
              (Known-same e es (after env config es) known)
        | inr (i, moved) ↦
            subst (Known config.cache_ttl (e ∷ es)) (sym moved)
              (Known-moved e es (after env config es) known i)
      ]

  -- how old the state is on which a request is forwarded: the Auth Service has just given it for the user,
  -- or it is of the user and was given at an earlier request, less than the time to live ago
  abbrev pub IsRecent : List Event → Event → ℕ → CachedUserState → Type 0
  IsRecent es e user_id state =
      (fetch_user_state (e.reply user_id) ≡ found state)
      ⊎ ((state.user_id ≡ user_id) × Answered config.cache_ttl e.clock state es)

  -- After any requests since the gateway started with an empty cache, a request with a bearer token
  -- to a path that is not public, which the enabled guard forwards, is admitted on a state that the
  -- Auth Service answers to a look-up of the token's user at this very request, or on a state of
  -- the token's user that it answered to a look-up at an earlier request, where the monotonic clock
  -- now reads less than it did then plus the configured time to live.
  pub forwarded_on_fresh_state :
      (es : List Event) (e : Event) (token : String)
      → config.guard_enabled ≡ true
      → is_public_path e.request.path ≡ false
      → extract_bearer e.request.authorization ≡ some token
      → (enforce_session env
          (config_at env config e)
          e.request
          (gate_at env config e (after env config es))).0
        ≡ passed tt
      → (a : IsAdmitted env
          (config_at env config e)
          (gate_at env config e (after env config es))
          token)
        × IsRecent es e a.user_id a.state
  forwarded_on_fresh_state es e token on private has_token h =
      let g = gate_at env config e (after env config es) in
      let a =
        (enforce_iff env (config_at env config e) g e.request token on private has_token).0 h in
      (
        a,
        elim (live_state_sound env (config_at env config e) a.user_id g a.state a.is_live) [
          | inl (expires, stored, live) ↦
              inr (Known-after es a.user_id a.state expires e.clock stored live)
          | inr fetched ↦ inl fetched
        ],
      )
