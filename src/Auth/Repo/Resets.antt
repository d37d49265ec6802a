-- ===== src/Auth/Repo/Resets.antt =====
-- repositories/password_reset_repository.py
use recentthink_ai_be.Common.{
  ℕ, String, Bool, Option, [], ◌∷◌, ◌++◌, str_eq, ◌==◌, count, update, find, ◌&&◌, not,
}
use recentthink_ai_be.Auth.Model.{Tables, OneTimeToken, one_time_has_id, is_unused, spend}
use recentthink_ai_be.Auth.Action.{
  Env, Action, pure, raise, or_raise, ◌>>=◌, ◌>>◌, execute, ping, commit, commit_if, assign,
  draw_id, rescue, failed, failed_if, repository_error, record_not_found,
}

abbrev pub insert_token : OneTimeToken → Tables → Tables
insert_token row t = record t { reset_tokens = t.reset_tokens ++ row ∷ [] }

abbrev pub spend_where : (OneTimeToken → Bool) → Tables → Tables
spend_where p t = record t { reset_tokens = update p spend t.reset_tokens }

-- an unused token with the identifier, the condition of the `UPDATE`
abbrev pub is_consumable : ℕ → OneTimeToken → Bool
is_consumable token_id r = one_time_has_id token_id r && not r.is_used

module _ (env : Env) where
  unfoldable pub create_token : ℕ → String → ℕ → Bool → Action OneTimeToken
  unfolding commit ping execute
  create_token user_id token expires_at is_used = do
    id ← draw_id
    let row : OneTimeToken = record {
      id = id;
      user_id = user_id;
      token = token;
      expires_at = expires_at;
      is_used = is_used;
    }
    rescue (do assign (insert_token row); commit env; ping env; pure row) (λ _. failed)

  unfoldable pub get_by_id : ℕ → Action (Option OneTimeToken)
  unfolding execute
  get_by_id token_id =
      rescue (execute env (λ t. (find (one_time_has_id token_id) t.reset_tokens, t)))
        (λ _. raise repository_error)

  unfoldable pub get_by_token : String → Action (Option OneTimeToken)
  unfolding execute
  get_by_token token =
      rescue (execute env (λ t. (find (λ r. str_eq r.token token) t.reset_tokens, t)))
        (λ _. raise repository_error)

  unfoldable pub invalidate_unused_tokens : ℕ → Action ℕ
  unfolding commit execute
  invalidate_unused_tokens user_id =
      rescue
        (do
          n ←
              execute env
                (λ t. (count (is_unused user_id) t.reset_tokens, spend_where (is_unused user_id) t))
          commit env
          pure n)
        (λ _. failed)

  unfoldable pub consume_token : ℕ → Bool → Action Bool
  unfolding commit execute
  consume_token token_id own =
      rescue
        (do
          n ← execute env (λ t. (
            count (is_consumable token_id) t.reset_tokens,
            spend_where (is_consumable token_id) t,
          ))
          commit_if env own
          pure (n == 1))
        (λ _. failed_if own)

  unfoldable pub mark_as_used : ℕ → Action OneTimeToken
  unfolding get_by_id commit ping execute
  mark_as_used token_id = do
    row ← or_raise (← get_by_id token_id) record_not_found
    assign (spend_where (one_time_has_id token_id))
    rescue (do commit env; ping env; pure (spend row)) (λ _. failed)
