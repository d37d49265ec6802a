-- ===== src/Auth/Repo/Refresh.antt =====
-- repositories/refresh_token_repository.py
use recentthink_ai_be.Common.{
  ℕ, String, Bool, true, false, Option, [], ◌∷◌, ◌++◌, str_eq, ◌&&◌, not, leb, count, select,
  update, find,
}
use recentthink_ai_be.Auth.Model.{Tables, RefreshToken, refresh_has_id, is_live}
use recentthink_ai_be.Auth.Action.{
  Env, Action, pure, raise, gets, or_raise, ◌>>=◌, ◌>>◌, execute, ping, commit, commit_if, assign,
  draw_id, rescue, failed, failed_if, repository_error, record_not_found,
}

-- what the statements do to the table
abbrev pub insert_token : RefreshToken → Tables → Tables
insert_token row t = record t { refresh_tokens = t.refresh_tokens ++ row ∷ [] }

abbrev pub revoke : RefreshToken → RefreshToken
revoke row = record row { is_revoked = true }

abbrev pub revoke_where : (RefreshToken → Bool) → Tables → Tables
revoke_where p t = record t { refresh_tokens = update p revoke t.refresh_tokens }

-- a live token of the user, other than the one to keep
abbrev pub is_other : ℕ → String → RefreshToken → Bool
is_other i keep t = is_live i t && not (str_eq t.token keep)

module _ (env : Env) where
  unfoldable pub create_refresh_token : ℕ → String → ℕ → Bool → Action RefreshToken
  unfolding commit ping execute
  create_refresh_token user_id token_hash expires_at is_revoked = do
    id ← draw_id
    let row : RefreshToken = record {
      id = id;
      user_id = user_id;
      token = token_hash;
      expires_at = expires_at;
      is_revoked = is_revoked;
    }
    rescue (do assign (insert_token row); commit env; ping env; pure row) (λ _. failed)

  unfoldable pub get_by_id : ℕ → Action (Option RefreshToken)
  unfolding execute
  get_by_id token_id =
      rescue (execute env (λ t. (find (refresh_has_id token_id) t.refresh_tokens, t)))
        (λ _. raise repository_error)

  unfoldable pub get_by_token_hash : String → Action (Option RefreshToken)
  unfolding execute
  get_by_token_hash h =
      rescue (execute env (λ t. (find (λ r. str_eq r.token h) t.refresh_tokens, t)))
        (λ _. raise repository_error)

  unfoldable pub rotate_token : ℕ → ℕ → String → ℕ → Action RefreshToken
  unfolding get_by_id commit ping execute
  rotate_token old_token_id user_id new_token_hash new_expires_at = do
    _ ← or_raise (← get_by_id old_token_id) record_not_found
    id ← draw_id
    let row : RefreshToken = record {
      id = id;
      user_id = user_id;
      token = new_token_hash;
      expires_at = new_expires_at;
      is_revoked = false;
    }
    rescue
        (do
          assign (revoke_where (refresh_has_id old_token_id))
          assign (insert_token row)
          commit env
          ping env
          pure row)
        (λ _. failed)

  unfoldable pub revoke_token : ℕ → Action RefreshToken
  unfolding get_by_id commit ping execute
  revoke_token token_id = do
    row ← or_raise (← get_by_id token_id) record_not_found
    assign (revoke_where (refresh_has_id token_id))
    rescue (do commit env; ping env; pure (revoke row)) (λ _. failed)

  unfoldable pub delete_token : ℕ → Action (Unit {0})
  unfolding get_by_id commit ping execute
  delete_token token_id = do
    _ ← or_raise (← get_by_id token_id) record_not_found
    rescue
        (do
          assign (λ t. record t {
            refresh_tokens = select (λ r. not (refresh_has_id token_id r)) t.refresh_tokens;
          })
          commit env)
        (λ _. failed)

  unfoldable pub revoke_all_tokens : ℕ → Bool → Action ℕ
  unfolding commit ping execute
  revoke_all_tokens user_id own =
      rescue
        (do
          n ←
              execute env
                (λ t. (count (is_live user_id) t.refresh_tokens, revoke_where (is_live user_id) t))
          commit_if env own
          pure n)
        (λ _. failed_if own)

  unfoldable pub revoke_all_tokens_except : ℕ → String → Bool → Action ℕ
  unfolding commit ping execute
  revoke_all_tokens_except user_id keep own =
      rescue
        (do
          n ← execute env (λ t. (
            count (is_other user_id keep) t.refresh_tokens,
            revoke_where (is_other user_id keep) t,
          ))
          commit_if env own
          pure n)
        (λ _. failed_if own)

  unfoldable pub delete_expired_tokens : Action ℕ
  unfolding commit ping execute
  delete_expired_tokens = do
    now ← gets (λ w. w.now)
    rescue
        (do
          n ← execute env (λ t. (
            count (λ r. leb r.expires_at now) t.refresh_tokens,
            record t { refresh_tokens = select (λ r. not (leb r.expires_at now)) t.refresh_tokens },
          ))
          commit env
          pure n)
        (λ _. failed)
