-- ===== src/Auth/Repo/Sessions.antt =====
-- What the statements on the refresh tokens do to the number of a user's live tokens.
use recentthink_ai_be.Common.{
  ℕ, ◌≡◌, false, List, arith, count, update, count-update_all, count-update_other, ◌≢◌,
}
use recentthink_ai_be.Auth.Model.{RefreshToken, is_live}
use recentthink_ai_be.Auth.Repo.Refresh.{revoke}

is_live-revoke : (i j : ℕ) (r : RefreshToken) → is_live i (revoke r) ≡ false
is_live-revoke i j r = ground arith

-- after the revocation of all of a user's live tokens none is live
pub live-revoke_all :
    (i : ℕ) (rs : List RefreshToken) → count (is_live i) (update (is_live i) revoke rs) ≡ 0
live-revoke_all i rs = count-update_all (is_live i) revoke (λ r. is_live-revoke i 0 r) rs

-- and the tokens of other users are as live as before
pub live-revoke_others :
    (i j : ℕ) (rs : List RefreshToken)
    → i ≢ j
    → count (is_live j) (update (is_live i) revoke rs) ≡ count (is_live j) rs
live-revoke_others i j rs h =
    count-update_other (is_live i) (is_live j) revoke (λ r l. ground arith) rs
