-- ===== src/Auth/Store/Repos.antt =====
-- The repositories keep to the changes of `Step`.
use recentthink_ai_be.Common.{ℕ, ◌+◌, String, refl, Bool, arith}
use recentthink_ai_be.Auth.Model.{Role, RefreshToken, OneTimeToken}
use recentthink_ai_be.Auth.Action.{Env, ◌>>◌, commit, ping, pure, rescue, failed}
use recentthink_ai_be.Auth.Repo.Refresh
use recentthink_ai_be.Auth.Repo.Resets
use recentthink_ai_be.Auth.Repo.Verifications
use recentthink_ai_be.Auth.Repo.Users
use recentthink_ai_be.Auth.Store.{Store, Step, next}
use recentthink_ai_be.Auth.Store.Keeps.{Keeps}
use recentthink_ai_be.Auth.Store.Calls.{Tracks, tracks_rules, drawn}

module _ (env : Env) (s : Store) where
  pub revoke_all-Tracks :
      (i : ℕ) (own : Bool) → Keeps (Tracks s) (Refresh.revoke_all_tokens env i own)
  unfolding Refresh.revoke_all_tokens
  revoke_all-Tracks i own = search tracks_rules depth 9

  pub revoke_others-Tracks :
      (i : ℕ) (keep : String) (own : Bool)
      → Keeps (Tracks s) (Refresh.revoke_all_tokens_except env i keep own)
  unfolding Refresh.revoke_all_tokens_except
  revoke_others-Tracks i keep own = search tracks_rules depth 9

  pub get_by_token_hash-Tracks : (h : String) → Keeps (Tracks s) (Refresh.get_by_token_hash env h)
  unfolding Refresh.get_by_token_hash
  get_by_token_hash-Tracks h = search tracks_rules

  pub refresh_get-Tracks : (i : ℕ) → Keeps (Tracks s) (Refresh.get_by_id env i)
  unfolding Refresh.get_by_id
  refresh_get-Tracks i = search tracks_rules

  pub revoke_token-Tracks : (i : ℕ) → Keeps (Tracks s) (Refresh.revoke_token env i)
  unfolding Refresh.revoke_token
  revoke_token-Tracks i = search tracks_rules depth 9

  pub reset_get-Tracks : (h : String) → Keeps (Tracks s) (Resets.get_by_token env h)
  unfolding Resets.get_by_token
  reset_get-Tracks h = search tracks_rules

  pub reset_invalidate-Tracks : (i : ℕ) → Keeps (Tracks s) (Resets.invalidate_unused_tokens env i)
  unfolding Resets.invalidate_unused_tokens
  reset_invalidate-Tracks i = search tracks_rules depth 9

  pub consume-Tracks : (i : ℕ) (own : Bool) → Keeps (Tracks s) (Resets.consume_token env i own)
  unfolding Resets.consume_token
  consume-Tracks i own = search tracks_rules depth 9

  pub verification_get-Tracks : (h : String) → Keeps (Tracks s) (Verifications.get_by_token env h)
  unfolding Verifications.get_by_token
  verification_get-Tracks h = search tracks_rules

  pub verification_invalidate-Tracks :
      (i : ℕ) → Keeps (Tracks s) (Verifications.invalidate_unused_tokens env i)
  unfolding Verifications.invalidate_unused_tokens
  verification_invalidate-Tracks i = search tracks_rules depth 9

  pub verification_mark-Tracks : (i : ℕ) → Keeps (Tracks s) (Verifications.mark_as_used env i)
  unfolding Verifications.mark_as_used
  verification_mark-Tracks i = search tracks_rules depth 9

  pub user_by_id-Tracks : (i : ℕ) → Keeps (Tracks s) (Users.get_user_by_id env i)
  unfolding Users.get_user_by_id
  user_by_id-Tracks i = search tracks_rules

  pub user_by_email-Tracks : (e : String) → Keeps (Tracks s) (Users.get_user_by_email env e)
  unfolding Users.get_user_by_email
  user_by_email-Tracks e = search tracks_rules

  pub exists_role-Tracks : (r : Role) → Keeps (Tracks s) (Users.exists_user_with_role env r)
  unfolding Users.exists_user_with_role
  exists_role-Tracks r = search tracks_rules

  pub delete_user-Tracks : (i : ℕ) → Keeps (Tracks s) (Users.delete_user env i)
  unfolding Users.delete_user
  delete_user-Tracks i = search tracks_rules depth 9

  -- the commit of a method that has assigned its changes
  pub finish-Tracks {ℓ} :
      {A : Type ℓ} (a : A)
      → Keeps (Tracks s) (rescue (do commit env; ping env; pure a) (λ _. failed))
  finish-Tracks a = search tracks_rules depth 9

  pub create_refresh-Tracks :
      (i : ℕ) (h : String) (e : ℕ) (r : Bool)
      → Keeps (Tracks s) (Refresh.create_refresh_token env i h e r)
  unfolding Refresh.create_refresh_token
  create_refresh-Tracks i h e r = record {
    at = λ w t.
        let row : RefreshToken = record {
          id = w.draws;
          user_id = i;
          token = h;
          expires_at = e;
          is_revoked = r;
        } in
        (finish-Tracks row).at
          (record w { draws = w.draws + 1; session = Refresh.insert_token row w.session })
          (record {
            committed = drawn w.db w.draws t.committed;
            pending = next t.pending (Step.add_refresh row (omega arith) (omega arith) refl);
          });
  }

  pub create_reset-Tracks :
      (i : ℕ) (h : String) (e : ℕ) (r : Bool) → Keeps (Tracks s) (Resets.create_token env i h e r)
  unfolding Resets.create_token
  create_reset-Tracks i h e r = record {
    at = λ w t.
        let row : OneTimeToken = record {
          id = w.draws;
          user_id = i;
          token = h;
          expires_at = e;
          is_used = r;
        } in
        (finish-Tracks row).at
          (record w { draws = w.draws + 1; session = Resets.insert_token row w.session })
          (record {
            committed = drawn w.db w.draws t.committed;
            pending = next t.pending (Step.add_reset row (omega arith) (omega arith) refl);
          });
  }

  pub create_verification-Tracks :
      (i : ℕ) (h : String) (e : ℕ) (r : Bool)
      → Keeps (Tracks s) (Verifications.create_token env i h e r)
  unfolding Verifications.create_token
  create_verification-Tracks i h e r = record {
    at = λ w t.
        let row : OneTimeToken = record {
          id = w.draws;
          user_id = i;
          token = h;
          expires_at = e;
          is_used = r;
        } in
        (finish-Tracks row).at
          (record w { draws = w.draws + 1; session = Verifications.insert_token row w.session })
          (record {
            committed = drawn w.db w.draws t.committed;
            pending = next t.pending (Step.add_verification row (omega arith) (omega arith) refl);
          });
  }
