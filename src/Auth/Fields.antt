-- ===== src/Auth/Fields.antt =====
-- The keyword arguments of `UserRepository.update_user`, and what each one assigns.
use recentthink_ai_be.Common.{ℕ, String, Bool, true, false, Option, none, some, List, [], ◌∷◌, ◌&&◌}
use recentthink_ai_be.Auth.Model.{Role, User}

-- A keyword argument of `update_user`: an editable column with its value, or any other name.
pub data Field : Type 0 where
  first_name last_name email password_hash : String → Field
  password_changed_at : ℕ → Field
  role : Role → Field
  is_verified is_active is_blocked : Bool → Field
  email_verified_at disabled_at blocked_at deleted_at : Option ℕ → Field
  blocked_reason : Option String → Field
  other : String → Field

-- membership in `EDITABLE_FIELDS`
unfoldable pub is_editable : Field → Bool
is_editable (Field.other _) = false
is_editable _ = true

-- `setattr(user, key, value)`
unfoldable pub set_field : Field → User → User
set_field (Field.first_name v) u = record u { first_name = v }
set_field (Field.last_name v) u = record u { last_name = v }
set_field (Field.email v) u = record u { email = v }
set_field (Field.password_hash v) u = record u { password_hash = v }
set_field (Field.password_changed_at v) u = record u { password_changed_at = v }
set_field (Field.role v) u = record u { role = v }
set_field (Field.is_verified v) u = record u { is_verified = v }
set_field (Field.is_active v) u = record u { is_active = v }
set_field (Field.is_blocked v) u = record u { is_blocked = v }
set_field (Field.email_verified_at v) u = record u { email_verified_at = v }
set_field (Field.disabled_at v) u = record u { disabled_at = v }
set_field (Field.blocked_at v) u = record u { blocked_at = v }
set_field (Field.deleted_at v) u = record u { deleted_at = v }
set_field (Field.blocked_reason v) u = record u { blocked_reason = v }
set_field (Field.other _) u = u

unfoldable pub set_fields : List Field → User → User
unfolding set_field
set_fields [] u = u
set_fields (f ∷ fs) u = set_fields fs (set_field f u)

unfoldable pub all_editable : List Field → Bool
unfolding is_editable
all_editable [] = true
all_editable (f ∷ fs) = is_editable f && all_editable fs

-- `fields["email"]`, if the argument is given
unfoldable pub new_email : List Field → Option String
new_email [] = none
new_email (Field.email v ∷ _) = some v
new_email (_ ∷ fs) = new_email fs
