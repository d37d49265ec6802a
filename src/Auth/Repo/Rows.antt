-- ===== src/Auth/Repo/Rows.antt =====
-- Finding the row of a user after the statements that change it.
use recentthink_ai_be.Common.{
  ℕ, ◌≡◌, refl, ap, ◌∙◌, none, some, List, [], ◌∷◌, arith, ◌==◌, ==_iff, find, update, find-update,
  find-matches, subst, sym, if◌then◌else◌,
}
use recentthink_ai_be.Auth.Model.{User, user_has_id}
use recentthink_ai_be.Auth.Fields.{Field, set_field, set_fields}

-- what a condition on the identifier finds has that identifier
pub find-id : (i : ℕ) (us : List User) (u : User) → find (user_has_id i) us ≡ some u → u.id ≡ i
find-id i us u f = (==_iff u.id i).0 (find-matches (user_has_id i) us u f)

pub find_by_own_id :
    (i : ℕ) (us : List User) (u : User)
    → find (user_has_id i) us ≡ some u
    → find (user_has_id u.id) us ≡ some u
find_by_own_id i us u f = subst (λ k. find (user_has_id k) us ≡ some u) (sym (find-id i us u f)) f

-- no column of `update_user` is the identifier
id-set_field : (f : Field) (u : User) → (set_field f u).id ≡ u.id
unfolding set_field
id-set_field (Field.first_name v) u = refl
id-set_field _ u = refl

pub id-set_fields : (fs : List Field) (u : User) → (set_fields fs u).id ≡ u.id
unfolding set_fields
id-set_fields [] u = refl
id-set_fields (f ∷ fs) u = id-set_fields fs (set_field f u) ∙ id-set_field f u

-- the row of a user after an update of some user's row
pub find-update_where :
    (i j : ℕ) (fs : List Field) (us : List User)
    → find (user_has_id j) (update (user_has_id i) (set_fields fs) us)
      ≡ elim (find (user_has_id j) us) [
        | none ↦ none
        | some u ↦ some (if user_has_id i u then set_fields fs u else u)
      ]
find-update_where i j fs us =
    find-update (user_has_id i) (user_has_id j) (set_fields fs)
      (λ u. ap (λ k. k == j) (id-set_fields fs u)) us

pub find-update_self :
    (fs : List Field) (us : List User) (u : User)
    → find (user_has_id u.id) us ≡ some u
    → find (user_has_id u.id) (update (user_has_id u.id) (set_fields fs) us)
      ≡ some (set_fields fs u)
find-update_self fs us u f = ground (arith, find-update_where u.id u.id fs us)
