-- ===== src/Auth/Store.antt =====
-- The changes of the committed tables that the Auth Service allows, as a step relation and chains of
-- steps.
pub mod Keeps
pub mod Calls
pub mod Repos
pub mod Writes
pub mod Services
pub mod Accounts
pub mod Refinement
pub mod Invariant
pub mod Forever
use recentthink_ai_be.Common.{ℕ, ◌<◌, ◌≤◌, ◌≡◌, Bool, Option, none, List, find, ◌&&◌, ◌++◌, ◌∷◌, []}
use recentthink_ai_be.Auth.Model.{User, RefreshToken, OneTimeToken, Tables, user_has_email}
use recentthink_ai_be.Auth.Fields.{Field, all_editable, new_email, set_fields}
use recentthink_ai_be.Auth.Repo.Users.{insert_user, update_where, delete_cascade}
use recentthink_ai_be.Auth.Repo.Refresh
use recentthink_ai_be.Auth.Repo.Resets
use recentthink_ai_be.Auth.Repo.Verifications

-- the tables, and the next identifier that the random source gives
pub record Store : Type 0 where
  pub tables : Tables
  pub next : ℕ

-- One change. A new row has a fresh identifier and, where it is valid only then, a free address.
pub data Step (s t : Store) : Type 0 where
  draw : s.next ≤ t.next → t.tables ≡ s.tables → Step s t
  add_user :
      (row : User)
      → s.next ≤ row.id
      → row.id < t.next
      → find (user_has_email row.email) s.tables.users ≡ none
      → t.tables ≡ insert_user row s.tables
      → Step s t
  add_refresh :
      (row : RefreshToken)
      → s.next ≤ row.id
      → row.id < t.next
      → t.tables ≡ Refresh.insert_token row s.tables
      → Step s t
  add_reset :
      (row : OneTimeToken)
      → s.next ≤ row.id
      → row.id < t.next
      → t.tables ≡ Resets.insert_token row s.tables
      → Step s t
  add_verification :
      (row : OneTimeToken)
      → s.next ≤ row.id
      → row.id < t.next
      → t.tables ≡ Verifications.insert_token row s.tables
      → Step s t
  revoke :
      (p : RefreshToken → Bool)
      → t ≡ record s { tables = Refresh.revoke_where p s.tables }
      → Step s t
  spend_reset :
      (p : OneTimeToken → Bool) → t ≡ record s { tables = Resets.spend_where p s.tables } → Step s t
  spend_verification :
      (p : OneTimeToken → Bool)
      → t ≡ record s { tables = Verifications.spend_where p s.tables }
      → Step s t
  write_user :
      (i : ℕ) (fs : List Field)
      → new_email fs ≡ none
      → t ≡ record s { tables = update_where i (set_fields fs) s.tables }
      → Step s t
  remove_user : (i : ℕ) → t ≡ record s { tables = delete_cascade i s.tables } → Step s t

pub data Steps (s : Store) : Store → Type 0 where
  here : Steps s s
  next : {t u : Store} → Steps s t → Step t u → Steps s u

pub Steps-trans : {s t u : Store} → Steps s t → Steps t u → Steps s u
Steps-trans a here = a
Steps-trans a (next b c) = next (Steps-trans a b) c

abbrev pub one : {s t : Store} → Step s t → Steps s t
one st = next here st
