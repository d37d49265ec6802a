-- ===== src/Auth/Tests/Data.antt =====
-- A small database: a user, an administrator and a disabled user, and tokens of the first.
use recentthink_ai_be.Common.{ℕ, true, false, none, some, [], ◌∷◌, str_eq, ltb, if◌then◌else◌, ◌==◌}
use recentthink_ai_be.Auth.Model.{Role, User, RefreshToken, OneTimeToken, Tables}
use recentthink_ai_be.Auth.Action.{Env, World, Settings, Payload, ok, err, expired_token, database}
use recentthink_ai_be.Auth.Service.Jwt.{access_claims}

abbrev pub settings : Settings
settings = record {
  access_token_lifetime = 100000000;
  refresh_token_lifetime = 1000;
  verification_token_lifetime = 50;
  reset_token_lifetime = 50;
  keep_current_session = true;
  jwt_issuer = "issuer";
  jwt_audience = "audience";
  super_admin_email = none;
  super_admin_password = none;
  super_admin_first_name = none;
  super_admin_last_name = none;
}

abbrev plain : Env
plain = record {
  settings = settings;
  fault = λ _. none;
  delivers = λ _. true;
  token_urlsafe = λ _. "new";
  sha256 = λ s. s;
  hashpw = λ _ s. s;
  checkpw = str_eq;
  uuid_text = λ i. if i == 0 then "zero" else "other";
  uuid_hex = λ _. "hex";
  number_text = λ _. "number";
  parse_uuid = λ s. if str_eq s "zero" then some 0 else none;
  jwt_encode = λ _. "";
  jwt_decode = λ _ _. err expired_token;
}

abbrev pub alice : User
alice = record {
  id = 0;
  first_name = "Alice";
  last_name = "A";
  email = "alice@x";
  password_hash = "secret";
  role = Role.user;
  is_verified = true;
  email_verified_at = some 1;
  is_active = true;
  disabled_at = none;
  is_blocked = false;
  blocked_at = none;
  blocked_reason = none;
  deleted_at = none;
  password_changed_at = 5;
  created_at = 1;
}

abbrev pub root : User
root = record alice { id = 1; email = "root@x"; role = Role.admin }

abbrev pub bob : User
bob = record alice { id = 2; email = "bob@x"; is_active = false; disabled_at = some 7 }

abbrev pub live : RefreshToken
live = record { id = 3; user_id = 0; token = "live"; expires_at = 500; is_revoked = false }

abbrev pub revoked : RefreshToken
revoked = record { id = 4; user_id = 0; token = "revoked"; expires_at = 500; is_revoked = true }

abbrev pub unused : OneTimeToken
unused = record { id = 5; user_id = 0; token = "unused"; expires_at = 60; is_used = false }

abbrev pub used : OneTimeToken
used = record { id = 6; user_id = 0; token = "used"; expires_at = 60; is_used = true }

abbrev pub tables : Tables
tables = record {
  users = alice ∷ root ∷ bob ∷ [];
  refresh_tokens = live ∷ revoked ∷ [];
  reset_tokens = unused ∷ used ∷ [];
  verification_tokens = [];
}

abbrev pub world : World
world = record {
  db = tables;
  session = tables;
  now = 20;
  calls = 0;
  draws = 10;
  sends = 0;
  outbox = [];
  deleted = [];
  cache = λ _. none;
}

-- the claims in the one access token of the tests, which is `alice`'s
abbrev alice_claims : Payload
alice_claims = access_claims plain 0 "alice@x" Role.user 5 true 20 10

abbrev pub env : Env
env = record plain {
  jwt_encode = λ _. "minted";
  jwt_decode = λ now _. if ltb now 100000000 then ok alice_claims else err expired_token;
}

-- the n-th call of the database fails
abbrev pub failing : ℕ → Env
failing n = record env { fault = λ k. if k == n then some database else none }
