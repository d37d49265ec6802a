-- ===== src/Auth/Tests/Tokens.antt =====
-- Access tokens.
use recentthink_ai_be.Common.{ℕ, true, false, some, [], ◌∷◌, arith, ◌≡◌, refl, find}
use recentthink_ai_be.Auth.Model.{User, user_has_id}
use recentthink_ai_be.Auth.Action.{World, Payload, ok}
use recentthink_ai_be.Auth.Service.Jwt.{
  get, is_text, access, claim_text, access_claims, create_access_token,
}
use recentthink_ai_be.Auth.Service.Session.{resolve_user_from_access_token, is_stale}
use recentthink_ai_be.Auth.AccessTokens.{IsCodec, claims, resolve_sound}
use recentthink_ai_be.Auth.Tests.Data.{env, world, tables, alice, root, bob}

pub codec : IsCodec env (claims env world alice) 0
unfolding access_claims get
codec = record {
  decode-encode = λ now exp e i a lt. (claims env world alice, ground arith, λ key n m. refl);
  decode_expired = λ now exp e le. ground arith;
  parse-uuid_text = refl;
  uuid_text-ne-empty = λ e. cc;
}

resolved : (resolve_user_from_access_token env "minted" world).0 ≡ ok alice
unfolding resolve_user_from_access_token access_claims
resolved = refl

resolve_sound_example :
    (p : Payload) × (i : ℕ) × (env.jwt_decode world.now "minted" ≡ ok p)
    × (is_text access (get "token_type" p) ≡ true)
    × (env.parse_uuid (claim_text env (get "user_id" p)) ≡ some i)
    × (find (user_has_id i) world.session.users ≡ some alice)
    × (is_stale (get "pwd_ts" p) alice.password_changed_at ≡ false)
resolve_sound_example = resolve_sound env world "minted" alice resolved

pub minted : (create_access_token env 0 alice.email alice.role 5 true world).0 ≡ ok "minted"
unfolding create_access_token
minted = refl

abbrev much_later : World
much_later = record world { now = 100000020 }

-- the password was changed since
abbrev changed : User
changed = record alice { password_changed_at = 30 }

abbrev after_change : World
after_change = record world {
  session = record tables { users = changed ∷ root ∷ bob ∷ [] };
  now = 40;
}
