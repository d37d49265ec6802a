-- ===== src/Auth/Store/Writes.antt =====
-- The methods that write rows in several steps keep to the changes of `Step`: the rotation of a
-- refresh token, the creation of a user and the update of one.
use recentthink_ai_be.Common.{
  ℕ, ◌+◌, String, ◌≡◌, refl, Bool, true, false, Option, none, some, List, arith, find, is_some,
}
use recentthink_ai_be.Auth.Model.{Role, User, RefreshToken, user_has_email, refresh_has_id}
use recentthink_ai_be.Auth.Action.{
  Env, World, Action, DbFault, integrity, database, ◌>>=◌, ◌>>◌, draw_id, assign, commit, ping,
  pure, rescue, failed, raise_if, or_raise, record_not_found, duplicate_email,
}
use recentthink_ai_be.Auth.Fields.{Field, new_email}
use recentthink_ai_be.Auth.Repo.Refresh
use recentthink_ai_be.Auth.Repo.Users
use recentthink_ai_be.Auth.Store.{Store, Step, next}
use recentthink_ai_be.Auth.Store.Keeps.{Keeps, Gives, Gives-bind, Keeps-bind, Keeps-or_raise}
use recentthink_ai_be.Auth.Store.Calls.{Tracks, tracks_rules, drawn}
use recentthink_ai_be.Auth.Store.Repos.{
  finish-Tracks, refresh_get-Tracks, user_by_id-Tracks, user_by_email-Tracks,
}

module _ (env : Env) (s : Store) where
  -- the part of `rotate_token` after its check: the two writes and the commit
  rotate_rest : ℕ → RefreshToken → Action RefreshToken
  rotate_rest old row =
      rescue
        (do
          assign (Refresh.revoke_where (refresh_has_id old))
          assign (Refresh.insert_token row)
          commit env
          ping env
          pure row)
        (λ _. failed)

  rotate_row : ℕ → ℕ → String → ℕ → RefreshToken
  rotate_row id i h e = record {
    id = id;
    user_id = i;
    token = h;
    expires_at = e;
    is_revoked = false;
  }

  draw_and_rotate-Tracks :
      (old i : ℕ) (h : String) (e : ℕ)
      → Keeps (Tracks s) (draw_id >>= λ id. rotate_rest old (rotate_row id i h e))
  unfolding rotate_rest rotate_row
  draw_and_rotate-Tracks old i h e = record {
    at = λ w t.
        let row : RefreshToken = record {
          id = w.draws;
          user_id = i;
          token = h;
          expires_at = e;
          is_revoked = false;
        } in
        (finish-Tracks env s row).at
          (record w {
            draws = w.draws + 1;
            session =
                Refresh.insert_token row (Refresh.revoke_where (refresh_has_id old) w.session);
          })
          (record {
            committed = drawn w.db w.draws t.committed;
            pending =
                next (next t.pending (Step.revoke (refresh_has_id old) refl))
                  (Step.add_refresh row (omega arith) (omega arith) refl);
          });
  }

  pub rotate-Tracks :
      (old i : ℕ) (h : String) (e : ℕ) → Keeps (Tracks s) (Refresh.rotate_token env old i h e)
  unfolding Refresh.rotate_token rotate_rest rotate_row
  rotate-Tracks old i h e =
      Keeps-bind (Refresh.get_by_id env old) _ (refresh_get-Tracks env s old) λ found.
        Keeps-bind (or_raise found record_not_found) _ (Keeps-or_raise found record_not_found)
          λ _. draw_and_rotate-Tracks old i h e

  create_failed-Tracks {ℓ} :
      {A : Type ℓ} (f : DbFault) → Keeps (Tracks s) (Users.create_failed {A = A} f)
  unfolding Users.create_failed
  create_failed-Tracks integrity = search tracks_rules
  create_failed-Tracks database = search tracks_rules

  create_rest-Tracks :
      (row : User)
      → Keeps (Tracks s) (rescue (do commit env; ping env; pure row) Users.create_failed)
  create_rest-Tracks row = search (tracks_rules, create_failed-Tracks) depth 9

  -- the address is looked up in the transaction that the row is added to
  user_by_email-Gives :
      (email : String)
      → Gives
          (Tracks s)
          (Users.get_user_by_email env email)
          (λ o w. find (user_has_email email) w.session.users ≡ o)
  unfolding Users.get_user_by_email
  user_by_email-Gives email = record {
    keeps = search tracks_rules;
    gives = λ w a t e. ground arith;
  }

  after_check-Tracks :
      (first last email hash : String) (role : Role) (v a : Bool) (o : Option User) (w : World)
      → Tracks s w
      → find (user_has_email email) w.session.users ≡ o
      → Tracks s
          ((raise_if (is_some o) duplicate_email
              >> Users.insert_new env first last email hash role v a)
            w).1
  unfolding Users.insert_new
  after_check-Tracks first last email hash role v a (some u) w t q = t
  after_check-Tracks first last email hash role v a none w t q =
      let row : User = record {
        id = w.draws;
        first_name = first;
        last_name = last;
        email = email;
        password_hash = hash;
        role = role;
        is_verified = v;
        email_verified_at = none;
        is_active = a;
        disabled_at = none;
        is_blocked = false;
        blocked_at = none;
        blocked_reason = none;
        deleted_at = none;
        password_changed_at = w.now;
        created_at = w.now;
      } in
      (create_rest-Tracks row).at
        (record w { draws = w.draws + 1; session = Users.insert_user row w.session })
        (record {
          committed = drawn w.db w.draws t.committed;
          pending = next t.pending (Step.add_user row (omega arith) (omega arith) q refl);
        })

  -- a user is added only where the address was found free
  pub create_user-Tracks :
      (first last email hash : String) (role : Role) (v a : Bool)
      → Keeps (Tracks s) (Users.create_user env first last email hash role v a)
  unfolding Users.create_user
  create_user-Tracks first last email hash role v a =
      Gives-bind (Users.get_user_by_email env email)
        (λ o.
          raise_if (is_some o) duplicate_email
          >> Users.insert_new env first last email hash role v a)
        (user_by_email-Gives email) (after_check-Tracks first last email hash role v a)

  update_failed-Tracks {ℓ} :
      {A : Type ℓ} (own : Bool) (f : DbFault) → Keeps (Tracks s) (Users.update_failed {A = A} own f)
  unfolding Users.update_failed
  update_failed-Tracks true integrity = search tracks_rules
  update_failed-Tracks true database = search tracks_rules
  update_failed-Tracks false integrity = search tracks_rules
  update_failed-Tracks false database = search tracks_rules

  refresh_if-Tracks : (own : Bool) → Keeps (Tracks s) (Users.refresh_if env own)
  unfolding Users.refresh_if
  refresh_if-Tracks true = search tracks_rules
  refresh_if-Tracks false = search tracks_rules

  check_email-Tracks :
      (i : ℕ) (u : User) (o : Option String) → Keeps (Tracks s) (Users.check_email env i u o)
  unfolding Users.check_email
  check_email-Tracks i u none = search tracks_rules
  check_email-Tracks i u (some email) = search (tracks_rules, user_by_email-Tracks) depth 9

  pub update_user-Tracks :
      (i : ℕ) (own : Bool) (fs : List Field)
      → new_email fs ≡ none
      → Keeps (Tracks s) (Users.update_user env i own fs)
  unfolding Users.update_user
  update_user-Tracks i own fs h =
      search
        (
          tracks_rules, user_by_id-Tracks, check_email-Tracks, refresh_if-Tracks,
          update_failed-Tracks,
        )
        depth 12
