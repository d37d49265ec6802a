-- ===== src/Auth/Repo/Users.antt =====
-- repositories/user_repository.py
use recentthink_ai_be.Common.{
  ℕ, String, Bool, false, Option, none, some, List, [], ◌∷◌, ◌++◌, ◌==◌, str_eq, not, if◌then◌else◌,
  is_some, count, select, update, find, map,
}
use recentthink_ai_be.Auth.Model.{Role, role_value, User, Tables, user_has_id, user_has_email}
use recentthink_ai_be.Auth.Action.{
  Env, Action, DbFault, integrity, database, pure, raise, raise_if, gets, or_raise, ◌>>=◌, ◌>>◌,
  execute, ping, commit, assign, rollback, draw_id, rescue, failed, repository_error,
  record_not_found, duplicate_email, value_error,
}
use recentthink_ai_be.Auth.Fields.{Field, set_fields, all_editable, new_email}

abbrev pub insert_user : User → Tables → Tables
insert_user row t = record t { users = t.users ++ row ∷ [] }

abbrev pub update_where : ℕ → (User → User) → Tables → Tables
update_where i f t = record t { users = update (user_has_id i) f t.users }

-- `DELETE` of a user; `cascade="all, delete-orphan"` and `ondelete="CASCADE"` take its tokens along.
abbrev pub delete_cascade : ℕ → Tables → Tables
delete_cascade i t = record {
  users = select (λ u. not (user_has_id i u)) t.users;
  refresh_tokens = select (λ r. not (r.user_id == i)) t.refresh_tokens;
  reset_tokens = select (λ r. not (r.user_id == i)) t.reset_tokens;
  verification_tokens = select (λ r. not (r.user_id == i)) t.verification_tokens;
}

-- the two handlers of `create_user`
unfoldable pub create_failed {ℓ} : {A : Type ℓ} → DbFault → Action A
create_failed integrity = do rollback; raise duplicate_email
create_failed database = failed

abbrev rollback_if : Bool → Action (Unit {0})
rollback_if own = if own then rollback else pure tt

-- the two handlers of `update_user`
unfoldable pub update_failed {ℓ} : {A : Type ℓ} → Bool → DbFault → Action A
update_failed own integrity = do rollback_if own; raise duplicate_email
update_failed own database = do rollback_if own; raise repository_error

-- `existing is not None and existing.id != user_id`
abbrev pub is_taken : ℕ → Option User → Bool
is_taken user_id none = false
is_taken user_id (some existing) = not (existing.id == user_id)

module _ (env : Env) where
  unfoldable pub get_user_by_id : ℕ → Action (Option User)
  unfolding execute
  get_user_by_id user_id =
      rescue (execute env (λ t. (find (user_has_id user_id) t.users, t)))
        (λ _. raise repository_error)

  unfoldable pub get_user_by_email : String → Action (Option User)
  unfolding execute
  get_user_by_email email =
      rescue (execute env (λ t. (find (user_has_email email) t.users, t)))
        (λ _. raise repository_error)

  -- `create_user` after its check: the new row, and the commit
  unfoldable pub insert_new : String → String → String → String → Role → Bool → Bool → Action User
  unfolding create_failed commit ping execute
  insert_new first_name last_name email password_hash role is_verified is_active = do
    id ← draw_id
    now ← gets (λ w. w.now)
    let row : User = record {
      id = id;
      first_name = first_name;
      last_name = last_name;
      email = email;
      password_hash = password_hash;
      role = role;
      is_verified = is_verified;
      email_verified_at = none;
      is_active = is_active;
      disabled_at = none;
      is_blocked = false;
      blocked_at = none;
      blocked_reason = none;
      deleted_at = none;
      password_changed_at = now;
      created_at = now;
    }
    rescue (do assign (insert_user row); commit env; ping env; pure row) create_failed

  unfoldable pub create_user : String → String → String → String → Role → Bool → Bool → Action User
  unfolding get_user_by_email insert_new
  create_user first_name last_name email password_hash role is_verified is_active = do
    raise_if (is_some (← get_user_by_email email)) duplicate_email
    insert_new first_name last_name email password_hash role is_verified is_active

  -- the test for another user with the new address, made only if the address changes
  unfoldable pub check_email : ℕ → User → Option String → Action (Unit {0})
  unfolding get_user_by_email
  check_email user_id u none = pure tt
  check_email user_id u (some email) = if str_eq email u.email then pure tt else do
    existing ← get_user_by_email email
    raise_if (is_taken user_id existing) duplicate_email

  unfoldable pub refresh_if : Bool → Action (Unit {0})
  unfolding commit ping execute
  refresh_if own = if own then (do commit env; ping env) else pure tt

  unfoldable pub update_user : ℕ → Bool → List Field → Action User
  unfolding all_editable get_user_by_id check_email new_email set_fields refresh_if update_failed
      ping
  update_user user_id own fields = do
    raise_if (not (all_editable fields)) value_error
    u ← or_raise (← get_user_by_id user_id) record_not_found
    check_email user_id u (new_email fields)
    assign (update_where user_id (set_fields fields))
    rescue (do ping env; refresh_if own; pure (set_fields fields u)) (update_failed own)

  unfoldable pub delete_user : ℕ → Action (Unit {0})
  unfolding get_user_by_id commit execute
  delete_user user_id = do
    _ ← or_raise (← get_user_by_id user_id) record_not_found
    rescue (do assign (delete_cascade user_id); commit env) (λ _. failed)

  unfoldable pub exists_user_with_role : Role → Action Bool
  unfolding execute role_value
  exists_user_with_role role =
      rescue
        (execute env (λ t. (
          not (count (λ (u : User). str_eq (role_value u.role) (role_value role)) t.users == 0),
          t,
        )))
        (λ _. raise repository_error)

  unfoldable pub list_all_user_ids : Action (List ℕ)
  unfolding execute
  list_all_user_ids =
      rescue (execute env (λ t. (map (λ (u : User). u.id) t.users, t)))
        (λ _. raise repository_error)
