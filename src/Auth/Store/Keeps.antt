-- ===== src/Auth/Store/Keeps.antt =====
-- Properties of the world that an action keeps, whether it returns or raises: a rule for each way to
-- build an action.
use recentthink_ai_be.Common.{◌≡◌, refl, Bool, true, false, Option, none, some, if◌then◌else◌}
use recentthink_ai_be.Auth.Action.{
  World, Error, DbFault, Result, ok, err, sql, Action, pure, raise, gets, or_raise, lift, raise_if,
  modify, ◌>>=◌, rescue, rescue_with, undo, or_rollback,
}

-- `m` keeps `P`
pub record Keeps {ℓ} {A : Type ℓ} (P : World → Type 0) (m : Action A) : Type ℓ where
  pub at : (w : World) → P w → P (m w).1

module _ {ℓ} {A : Type ℓ} {P : World → Type 0} where
  pub Keeps-pure : (a : A) → Keeps P (pure a)
  Keeps-pure a = record { at = λ w h. h }

  pub Keeps-raise : (e : Error) → Keeps P (raise {A = A} e)
  Keeps-raise e = record { at = λ w h. h }

  pub Keeps-gets : (f : World → A) → Keeps P (gets f)
  Keeps-gets f = record { at = λ w h. h }

  pub Keeps-lift : (r : Result A) → Keeps P (lift r)
  Keeps-lift r = record { at = λ w h. h }

  pub Keeps-or_raise : (o : Option A) (e : Error) → Keeps P (or_raise o e)
  Keeps-or_raise none e = Keeps-raise e
  Keeps-or_raise (some a) e = Keeps-pure a

  pub Keeps-if : (b : Bool) (m n : Action A) → Keeps P m → Keeps P n → Keeps P (if b then m else n)
  Keeps-if true m n km kn = km
  Keeps-if false m n km kn = kn

  pub Keeps-or_rollback :
      ((w : World) → P w → P (record w { session = w.db }))
      → (m : Action A) → Keeps P m
      → Keeps P (or_rollback m)
  Keeps-or_rollback back m km = record { at = λ w h. undone (m w).0 (m w).1 (km.at w h) }
    where
      undone : (r : Result A) (w : World) → P w → P (undo r w).1
      undone (ok a) w h = h
      undone (err e) w h = back w h

  rescued :
      (h : DbFault → Action A)
      → ((e : DbFault) → Keeps P (h e))
      → (r : Result A) (w : World) → P w
      → P (rescue_with r h w).1
  rescued h kh (ok a) w p = p
  rescued h kh (err (sql e)) w p = (kh e).at w p
  rescued h kh (err e) w p = p

  pub Keeps-rescue :
      (m : Action A) (h : DbFault → Action A)
      → Keeps P m
      → ((e : DbFault) → Keeps P (h e))
      → Keeps P (rescue m h)
  Keeps-rescue m h km kh = record { at = λ w p. rescued h kh (m w).0 (m w).1 (km.at w p) }

module _ {ℓ κ} {A : Type ℓ} {B : Type κ} {P : World → Type 0} where
  pub Keeps-bind :
      (m : Action A) (f : A → Action B) → Keeps P m → ((a : A) → Keeps P (f a)) → Keeps P (m >>= f)
  Keeps-bind m f km kf = record {
    at = λ w p.
        elim (m w).0
          as (λ r.
            P
              (elim r as (λ _. Result B × World) [
                | ok a ↦ f a (m w).1
                | err e ↦ (err e, (m w).1)
              ]).1) [ ok a ↦ (kf a).at (m w).1 (km.at w p) | err e ↦ km.at w p ];
  }

-- `m` keeps `P`, and what it returns is related to the world that it leaves
pub record Gives {A : Type 0} (P : World → Type 0) (m : Action A) (Q : A → World → Type 0)
    : Type 0 where
  pub keeps : Keeps P m
  pub gives : (w : World) (a : A) → P w → (m w).0 ≡ ok a → Q a (m w).1

module _ {A B : Type 0} {P : World → Type 0} {Q : A → World → Type 0} where
  -- the rest of the block may use the relation
  pub Gives-bind :
      (m : Action A) (f : A → Action B)
      → Gives P m Q
      → ((a : A) (w : World) → P w → Q a w → P (f a w).1)
      → Keeps P (m >>= f)
  Gives-bind m f km kf = record { at = λ w p. go w (m w).0 refl p }
    where
      go : (w : World) (r : Result A) → (m w).0 ≡ r → P w → P ((m >>= f) w).1
      go w (ok a) e p = rw (e, ◌>>=◌) (kf a (m w).1 (km.keeps.at w p) (km.gives w a p e))
      go w (err x) e p = rw (e, ◌>>=◌) (km.keeps.at w p)

module _ {P : World → Type 0} where
  pub Keeps-raise_if : (b : Bool) (e : Error) → Keeps P (raise_if b e)
  Keeps-raise_if b e = record { at = λ w h. h }

  pub Keeps-modify : (f : World → World) → ((w : World) → P w → P (f w)) → Keeps P (modify f)
  Keeps-modify f k = record { at = k }

pub ruleset keeps_rules = (
  Keeps-pure, Keeps-raise, Keeps-gets, Keeps-lift, Keeps-or_raise, Keeps-if, Keeps-or_rollback,
  Keeps-rescue, Keeps-bind, Keeps-raise_if,
)
