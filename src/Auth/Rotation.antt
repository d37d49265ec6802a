-- ===== src/Auth/Rotation.antt =====
-- Refreshing a session (`AuthService.refresh`): when it is granted, what it writes, and what a
-- token that is presented again brings about.
use recentthink_ai_be.Common.{
  ℕ, ◌+◌, ◌<◌, String, true, false, Option, none, some, List, find, arith, ◌≡◌, str_eq,
  Option-cases, count, update, inl, inr, find-found, Distinct, find_by_key, find-matches,
  count-update_one, count-append, ◌∷◌, [],
}
use recentthink_ai_be.Auth.Model.{
  Role, User, RefreshToken, Tables, user_has_id, is_live, refresh_has_id,
}
use recentthink_ai_be.Auth.Action.{Env, World, is_ok, ok}
use recentthink_ai_be.Auth.Repo.Refresh.{revoke, revoke_where, insert_token, revoke}
use recentthink_ai_be.Auth.Service.Session.{refresh, Tokens, lacks_role}

-- the row that is stored under a raw token
abbrev pub stored_under : Env → Tables → String → Option RefreshToken
stored_under env t raw =
    find (λ (r : RefreshToken). str_eq r.token (env.sha256 raw)) t.refresh_tokens

module _ (env : Env) (w : World) (raw : String) (roles : Option (List Role)) where
  -- the conditions on the stored row and its user
  pub record IsGranted (stored : RefreshToken) (u : User) : Type 0 where
    pub is_stored : stored_under env w.session raw ≡ some stored
    pub not_revoked : stored.is_revoked ≡ false
    pub not_expired : w.now < stored.expires_at
    pub has_user : find (user_has_id stored.user_id) w.session.users ≡ some u
    pub not_blocked : u.is_blocked ≡ false
    pub active : u.is_active ≡ true
    pub role_fits : lacks_role roles u.role ≡ false

  -- the row that takes the place of the old one
  abbrev pub successor : User → RefreshToken
  successor u = record {
    id = w.draws + 1;
    user_id = u.id;
    token = env.sha256 (env.token_urlsafe w.draws);
    expires_at = w.now + env.settings.refresh_token_lifetime;
    is_revoked = false;
  }

  -- the tables after the rotation
  abbrev pub rotated : RefreshToken → User → Tables
  rotated stored u = insert_token (successor u) (revoke_where (refresh_has_id stored.id) w.session)

  IsGranted-from :
      (stored : RefreshToken) (u : User) (ts : Tokens)
      → stored_under env w.session raw ≡ some stored
      → find (user_has_id stored.user_id) w.session.users ≡ some u
      → (refresh env raw roles w).0 ≡ ok ts
      → IsGranted stored u
        × (ts.1 ≡ env.token_urlsafe w.draws)
        × ((refresh env raw roles w).1.db ≡ rotated stored u)
  unfolding refresh
  IsGranted-from stored u ts f g e = (
    record {
      is_stored = f;
      not_revoked = ground arith;
      not_expired = ground arith;
      has_user = g;
      not_blocked = ground arith;
      active = ground arith;
      role_fits = ground arith;
    },
    ground arith,
    ground arith,
  )

  -- Whatever the database does: a refresh that returns tokens found a stored, live, unexpired token
  -- of an accessible user with a fitting role, and committed one transaction that revokes it and
  -- inserts its successor, whose digest is that of the new raw token.
  pub refresh_sound :
      (ts : Tokens)
      → (refresh env raw roles w).0 ≡ ok ts
      → (stored : RefreshToken) × (u : User) × IsGranted stored u
        × (ts.1 ≡ env.token_urlsafe w.draws)
        × ((refresh env raw roles w).1.db ≡ rotated stored u)
  refresh_sound ts e = elim (Option-cases (stored_under env w.session raw)) [
    | inl absent ↦ absurd (unfold refresh in ground arith)
    | inr (stored, f) ↦ elim (Option-cases (find (user_has_id stored.user_id) w.session.users)) [
      | inl unknown ↦ absurd (unfold refresh in ground arith)
      | inr (u, g) ↦ let (a, b, c) = IsGranted-from stored u ts f g e in (stored, u, a, b, c)
    ]
  ]

  -- While no call of the database fails, a refresh with a stored, live, unexpired token of a user
  -- who is active, not blocked and of a fitting role returns tokens.
  pub refresh_complete :
      (up : (n : ℕ) → env.fault n ≡ none) (stored : RefreshToken) (u : User)
      → IsGranted stored u
      → is_ok (refresh env raw roles w).0 ≡ true
  unfolding refresh
  refresh_complete up stored u g = ground (
    arith,
    up w.calls,
    up (w.calls + 1),
    up (w.calls + 1 + 1),
    up (w.calls + 1 + 1 + 1),
    up (w.calls + 1 + 1 + 1 + 1),
    g.is_stored,
    g.has_user,
    find-found (refresh_has_id stored.id) (λ (r : RefreshToken). str_eq r.token (env.sha256 raw))
        w.session.refresh_tokens stored,
  )

  -- the old token stops to count, and its successor counts
  count-rotated :
      (stored : RefreshToken) (u : User)
      → Distinct (λ (r : RefreshToken). r.id) w.session.refresh_tokens
      → IsGranted stored u
      → count (is_live u.id) (rotated stored u).refresh_tokens
        ≡ count (is_live u.id) w.session.refresh_tokens
  count-rotated stored u d g =
      let rows = w.session.refresh_tokens in
      ground (
        arith,
        g.is_stored,
        g.not_revoked,
        find-matches (user_has_id stored.user_id) w.session.users u g.has_user,
        find_by_key (λ (r : RefreshToken). r.id)
            (λ (r : RefreshToken). str_eq r.token (env.sha256 raw)) rows stored d,
        count-update_one (λ (r : RefreshToken). r.id) (is_live u.id) revoke stored.id stored rows d,
        count-append (is_live u.id) (update (refresh_has_id stored.id) revoke rows)
            (successor u ∷ []),
      )

  -- A refresh that returns tokens leaves the user it was granted to with as many live tokens as
  -- before, if the identifiers of the stored tokens are distinct: the new token replaces the old one.
  pub refresh_keeps_count :
      (ts : Tokens)
      → Distinct (λ (r : RefreshToken). r.id) w.session.refresh_tokens
      → (refresh env raw roles w).0 ≡ ok ts
      → (stored : RefreshToken) × (u : User) × IsGranted stored u
        × (count (is_live u.id) (refresh env raw roles w).1.db.refresh_tokens
            ≡ count (is_live u.id) w.session.refresh_tokens)
  refresh_keeps_count ts d e =
      let (stored, u, g, _, moved) = refresh_sound ts e in
      (stored, u, g, rw moved (count-rotated stored u d g))
