-- ===== src/Auth/Store/Invariant.antt =====
-- Uniqueness of identifiers and addresses in the committed tables.
use recentthink_ai_be.Common.{
  ℕ, ◌<◌, ◌≤◌, ◌≡◌, refl, ap, Bool, false, none, List, [], ◌∷◌, ◌++◌, ◌==◌, str_eq, arith, select,
  update, All, All-append, All-update, All-select, All-map, All-find-none, Apart, Distinct,
  Apart-append, Apart-select, Apart-update, subst, sym,
}
use recentthink_ai_be.Auth.Model.{User, RefreshToken, OneTimeToken, Tables, user_has_id}
use recentthink_ai_be.Auth.Fields.{Field, set_field, set_fields, new_email}
use recentthink_ai_be.Auth.Action.{Env, World}
use recentthink_ai_be.Auth.Repo.Rows.{id-set_fields}
use recentthink_ai_be.Auth.Request.{Request, run}
use recentthink_ai_be.Auth.Store.{Store, Step, Steps}
use recentthink_ai_be.Auth.Store.Calls.{at}
use recentthink_ai_be.Auth.Store.Refinement.{run_refines}

-- the rows of a table have different identifiers, all below the next one
abbrev pub IsKeyed {ℓ} : {A : Type ℓ} → (A → ℕ) → ℕ → List A → Type ℓ
IsKeyed key next xs = Distinct key xs × All (λ x. key x < next) xs

abbrev pub same_email : User → User → Bool
same_email x y = str_eq x.email y.email

pub record IsConsistent (s : Store) : Type 0 where
  pub users : IsKeyed (λ (u : User). u.id) s.next s.tables.users
  pub refresh_tokens : IsKeyed (λ (t : RefreshToken). t.id) s.next s.tables.refresh_tokens
  pub reset_tokens : IsKeyed (λ (t : OneTimeToken). t.id) s.next s.tables.reset_tokens
  pub verification_tokens : IsKeyed (λ (t : OneTimeToken). t.id) s.next s.tables.verification_tokens
  pub emails : Apart same_email s.tables.users

module _ {ℓ} {A : Type ℓ} (key : A → ℕ) where
  IsKeyed-later : (n m : ℕ) (xs : List A) → n ≤ m → IsKeyed key n xs → IsKeyed key m xs
  IsKeyed-later n m xs le k =
      (k.0, All-map (λ x. key x < n) (λ x. key x < m) (λ x h. omega arith) xs k.1)

  IsKeyed-append :
      (n m : ℕ) (row : A) (xs : List A)
      → n ≤ key row
      → key row < m
      → IsKeyed key n xs
      → IsKeyed key m (xs ++ row ∷ [])
  IsKeyed-append n m row xs lo hi k = (
    Apart-append (λ x y. key y == key x) xs row k.0
        (All-map (λ x. key x < n) (λ x. (key row == key x) ≡ false) (λ x h. ground arith) xs k.1),
    All-append (λ x. key x < m) xs (row ∷ [])
        (All-map (λ x. key x < n) (λ x. key x < m) (λ x h. omega arith) xs k.1) (hi, tt),
  )

  IsKeyed-select :
      (n : ℕ) (p : A → Bool) (xs : List A) → IsKeyed key n xs → IsKeyed key n (select p xs)
  IsKeyed-select n p xs k =
      (Apart-select (λ x y. key y == key x) p xs k.0, All-select (λ x. key x < n) p xs k.1)

  IsKeyed-update :
      (n : ℕ) (p : A → Bool) (f : A → A) (same : (x : A) → key (f x) ≡ key x) (xs : List A)
      → IsKeyed key n xs
      → IsKeyed key n (update p f xs)
  IsKeyed-update n p f same xs k = (
    Apart-update (λ x y. key y == key x) f (λ x y. ap (λ i. key y == i) (same x))
        (λ x y. ap (λ i. i == key x) (same y)) p xs k.0,
    All-update (λ x. key x < n) p f (λ x h. subst (λ i. i < n) (sym (same x)) h) xs k.1,
  )

-- the address is a column that `update_user` writes only where it is given
email-set_fields :
    (fs : List Field) (u : User) → new_email fs ≡ none → (set_fields fs u).email ≡ u.email
unfolding set_fields set_field new_email
email-set_fields [] u h = refl
email-set_fields (Field.email v ∷ fs) u h = cc
email-set_fields (Field.first_name v ∷ fs) u h = email-set_fields fs _ h
email-set_fields (_ ∷ fs) u h = email-set_fields fs _ h

module _ (s : Store) (c : IsConsistent s) where
  later : (n : ℕ) → s.next ≤ n → IsConsistent (record s { next = n })
  later n le = record {
    users = IsKeyed-later (λ u. u.id) s.next n s.tables.users le c.users;
    refresh_tokens = IsKeyed-later (λ t. t.id) s.next n s.tables.refresh_tokens le c.refresh_tokens;
    reset_tokens = IsKeyed-later (λ t. t.id) s.next n s.tables.reset_tokens le c.reset_tokens;
    verification_tokens =
        IsKeyed-later (λ t. t.id) s.next n s.tables.verification_tokens le c.verification_tokens;
    emails = c.emails;
  }

module _ (s t : Store) (c : IsConsistent s) where
  -- what holds of the tables that the step describes holds of the tables after it
  moved :
      (x : Tables)
      → t.tables ≡ x
      → IsConsistent (record { tables = x; next = t.next })
      → IsConsistent t
  moved x e k = subst (λ y. IsConsistent (record { tables = y; next = t.next })) (sym e) k

  Step-IsConsistent : Step s t → IsConsistent t
  Step-IsConsistent (Step.draw le e) = moved s.tables e (later s c t.next le)
  Step-IsConsistent (Step.add_user row lo hi free e) = moved _ e (
      let l = later s c t.next (omega arith) in
      record {
        users = IsKeyed-append (λ u. u.id) s.next t.next row s.tables.users lo hi c.users;
        emails =
            Apart-append same_email s.tables.users row c.emails
              (All-find-none _ s.tables.users free);
        refresh_tokens = l.refresh_tokens;
        reset_tokens = l.reset_tokens;
        verification_tokens = l.verification_tokens;
      })
  Step-IsConsistent (Step.add_refresh row lo hi e) = moved _ e (
      let l = later s c t.next (omega arith) in
      record {
        refresh_tokens =
            IsKeyed-append (λ x. x.id) s.next t.next row s.tables.refresh_tokens lo hi
              c.refresh_tokens;
        users = l.users;
        reset_tokens = l.reset_tokens;
        verification_tokens = l.verification_tokens;
        emails = l.emails;
      })
  Step-IsConsistent (Step.add_reset row lo hi e) = moved _ e (
      let l = later s c t.next (omega arith) in
      record {
        reset_tokens =
            IsKeyed-append (λ x. x.id) s.next t.next row s.tables.reset_tokens lo hi c.reset_tokens;
        users = l.users;
        refresh_tokens = l.refresh_tokens;
        verification_tokens = l.verification_tokens;
        emails = l.emails;
      })
  Step-IsConsistent (Step.add_verification row lo hi e) = moved _ e (
      let l = later s c t.next (omega arith) in
      record {
        verification_tokens =
            IsKeyed-append (λ x. x.id) s.next t.next row s.tables.verification_tokens lo hi
              c.verification_tokens;
        users = l.users;
        refresh_tokens = l.refresh_tokens;
        reset_tokens = l.reset_tokens;
        emails = l.emails;
      })
  Step-IsConsistent (Step.revoke p e) = subst IsConsistent (sym e) (record {
    refresh_tokens =
        IsKeyed-update (λ x. x.id) s.next p _ (λ x. refl) s.tables.refresh_tokens c.refresh_tokens;
    users = c.users;
    reset_tokens = c.reset_tokens;
    verification_tokens = c.verification_tokens;
    emails = c.emails;
  })
  Step-IsConsistent (Step.spend_reset p e) = subst IsConsistent (sym e) (record {
    reset_tokens =
        IsKeyed-update (λ x. x.id) s.next p _ (λ x. refl) s.tables.reset_tokens c.reset_tokens;
    users = c.users;
    refresh_tokens = c.refresh_tokens;
    verification_tokens = c.verification_tokens;
    emails = c.emails;
  })
  Step-IsConsistent (Step.spend_verification p e) = subst IsConsistent (sym e) (record {
    verification_tokens =
        IsKeyed-update (λ x. x.id) s.next p _ (λ x. refl) s.tables.verification_tokens
          c.verification_tokens;
    users = c.users;
    refresh_tokens = c.refresh_tokens;
    reset_tokens = c.reset_tokens;
    emails = c.emails;
  })
  Step-IsConsistent (Step.write_user i fs none_given e) = subst IsConsistent (sym e) (record {
    users =
        IsKeyed-update (λ u. u.id) s.next (user_has_id i) (set_fields fs) (id-set_fields fs)
          s.tables.users c.users;
    emails =
        Apart-update same_email (set_fields fs)
          (λ x y. ap (λ a. str_eq a y.email) (email-set_fields fs x none_given))
          (λ x y. ap (λ a. str_eq x.email a) (email-set_fields fs y none_given)) (user_has_id i)
          s.tables.users c.emails;
    refresh_tokens = c.refresh_tokens;
    reset_tokens = c.reset_tokens;
    verification_tokens = c.verification_tokens;
  })
  Step-IsConsistent (Step.remove_user i e) = subst IsConsistent (sym e) (record {
    users = IsKeyed-select (λ u. u.id) s.next _ s.tables.users c.users;
    refresh_tokens = IsKeyed-select (λ x. x.id) s.next _ s.tables.refresh_tokens c.refresh_tokens;
    reset_tokens = IsKeyed-select (λ x. x.id) s.next _ s.tables.reset_tokens c.reset_tokens;
    verification_tokens =
        IsKeyed-select (λ x. x.id) s.next _ s.tables.verification_tokens c.verification_tokens;
    emails = Apart-select same_email _ s.tables.users c.emails;
  })

pub Steps-IsConsistent : {s t : Store} → Steps s t → IsConsistent s → IsConsistent t
Steps-IsConsistent Steps.here c = c
Steps-IsConsistent (Steps.next {t} {u} a st) c = Step-IsConsistent t u (Steps-IsConsistent a c) st

module _ (env : Env) where
  -- Requests keep the tables consistent: identifiers are unique in each table and below the next one
  -- that is drawn, and no two users have the same address, whatever the requests answer and
  -- wherever the database fails.
  pub run-IsConsistent :
      (rs : List (ℕ × Request)) (w : World)
      → IsConsistent (at w.db w.draws)
      → IsConsistent (at (run env rs w).db (run env rs w).draws)
  run-IsConsistent rs w c = Steps-IsConsistent (run_refines env rs w) c
