-- ===== src/Auth/Action.antt =====
-- How a request runs: the database and the session on it, the exceptions, and what the service
-- takes from outside (PostgreSQL's failures, hashing, random texts, JWT, the mail transport).
use recentthink_ai_be.Common.{
  ◌≡◌, refl, ◌⊎◌, inl, inr, ℕ, ◌+◌, String, Bool, true, false, Option, none, some, List, [], ◌∷◌,
  ◌++◌, if◌then◌else◌, ◌==◌,
}
use recentthink_ai_be.Auth.Model.{Tables}

-- How a call of the database fails: `IntegrityError` or any other `SQLAlchemyError`.
pub data DbFault : Type 0 where
  integrity database : DbFault

-- the exceptions of shared/exceptions, and the two that SQLAlchemy raises
pub data Error : Type 0 where
  sql : DbFault → Error
  duplicate_email record_not_found repository_error value_error : Error
  invalid_credentials forbidden blocked_user inactive_user user_not_found : Error
  invalid_token expired_token used_token revoked_token : Error
  email_not_verified email_already_verified email_delivery password_reuse : Error
  business : String → Error

pub data Result {ℓ} (A : Type ℓ) : Type ℓ where
  ok : A → Result A
  err : Error → Result A

abbrev pub is_ok {ℓ} : {A : Type ℓ} → Result A → Bool
is_ok (ok _) = true
is_ok (err _) = false

pub Result-cases {ℓ} :
    {A : Type ℓ} (r : Result A) → ((a : A) × (r ≡ ok a)) ⊎ ((e : Error) × (r ≡ err e))
Result-cases (ok a) = inl (a, refl)
Result-cases (err e) = inr (e, refl)

-- `UserStateResponse` of schemas/user_state.py, the snapshot that the gateway asks for
pub record UserState : Type 0 where
  pub user_id : ℕ
  pub is_active : Bool
  pub is_blocked : Bool
  pub role : String
  pub pwd_ts : ℕ

-- a claim of a JWT, as `payload.get` returns it
pub data Claim : Type 0 where
  text : String → Claim
  number : ℕ → Claim
  boolean : Bool → Claim

abbrev pub Payload : Type 0
Payload = List (String × Claim)

-- The fields of `Settings` (shared/config.py) that the service reads; each lifetime is a duration.
pub record Settings : Type 0 where
  pub access_token_lifetime : ℕ
  pub refresh_token_lifetime : ℕ
  pub verification_token_lifetime : ℕ
  pub reset_token_lifetime : ℕ
  pub keep_current_session : Bool
  pub jwt_issuer : String
  pub jwt_audience : String
  pub super_admin_email : Option String
  pub super_admin_password : Option String
  pub super_admin_first_name : Option String
  pub super_admin_last_name : Option String

-- What the service is given. The n-th call of the database fails as `fault n` says.
pub record Env : Type 0 where
  pub settings : Settings
  pub fault : ℕ → Option DbFault
  pub delivers : ℕ → Bool
  pub token_urlsafe : ℕ → String
  pub sha256 : String → String
  pub hashpw : ℕ → String → String
  pub checkpw : String → String → Bool
  pub uuid_text : ℕ → String
  pub uuid_hex : ℕ → String
  pub number_text : ℕ → String
  pub parse_uuid : String → Option ℕ
  pub jwt_encode : Payload → String
  pub jwt_decode : ℕ → String → Result Payload

-- a message that was handed to the mail transport: its kind, the address and the raw token
pub data Mail : Type 0 where
  verification_mail reset_mail : String → String → Mail

-- `db` is what is committed and `session` what the request's transaction sees. `calls` counts the
-- calls of the database, `draws` what was drawn from the random source, `sends` the mails tried.
pub record World : Type 0 where
  pub db : Tables
  pub session : Tables
  pub now : ℕ
  pub calls : ℕ
  pub draws : ℕ
  pub sends : ℕ
  pub outbox : List Mail
  pub deleted : List ℕ
  pub cache : ℕ → Option UserState

-- A method: what was done before a raise stays done.
abbrev pub Action {ℓ} : Type ℓ → Type ℓ
Action A = World → Result A × World

module _ {ℓ} {A : Type ℓ} where
  abbrev pub pure : A → Action A
  pure a w = (ok a, w)

  abbrev pub raise : Error → Action A
  raise e w = (err e, w)

  abbrev pub gets : (World → A) → Action A
  gets f w = (ok (f w), w)

  -- the value of an option, or a raise
  abbrev pub or_raise : Option A → Error → Action A
  or_raise none e = raise e
  or_raise (some a) e = pure a

  abbrev pub lift : Result A → Action A
  lift r w = (r, w)

infixl 5 ◌>>=◌ ◌>>◌
abbrev pub ◌>>=◌ {ℓ κ} : {A : Type ℓ} {B : Type κ} → Action A → (A → Action B) → Action B
◌>>=◌ m f w = let (r, w') = m w in elim r [ ok a ↦ f a w' | err e ↦ (err e, w') ]

abbrev pub ◌>>◌ {ℓ κ} : {A : Type ℓ} {B : Type κ} → Action A → Action B → Action B
m >> k = m >>= λ _. k

abbrev pub raise_if : Bool → Error → Action (Unit {0})
raise_if b e w = (if b then err e else ok tt, w)

abbrev pub modify : (World → World) → Action (Unit {0})
modify f w = (ok tt, f w)

-- One call of the database, which may fail.
abbrev pub touch : World → World
touch w = record w { calls = w.calls + 1 }

-- the mail transport delivers, or raises `EmailDeliveryError`
abbrev pub send_with : Bool → Mail → Action (Unit {0})
send_with true m w = (ok tt, record w { sends = w.sends + 1; outbox = w.outbox ++ m ∷ [] })
send_with false m w = (err email_delivery, record w { sends = w.sends + 1 })

module _ (env : Env) where
  -- a statement, run in the transaction
  unfoldable pub execute {ℓ} : {A : Type ℓ} → (Tables → A × Tables) → Action A
  execute f w = elim (env.fault w.calls) [
    | some e ↦ (err (sql e), touch w)
    | none ↦ let (a, t) = f w.session in (ok a, record (touch w) { session = t })
  ]

  -- `flush` and `refresh`: a call that changes nothing the model sees
  unfoldable pub ping : Action (Unit {0})
  unfolding execute
  ping = execute (λ t. (tt, t))

  unfoldable pub commit : Action (Unit {0})
  commit w = elim (env.fault w.calls) [
    | some e ↦ (err (sql e), touch w)
    | none ↦ (ok tt, record (touch w) { db = w.session })
  ]

  -- `secrets.token_urlsafe(32)`
  unfoldable pub draw_token : Action String
  draw_token w = (ok (env.token_urlsafe w.draws), record w { draws = w.draws + 1 })

  -- `PasswordService.hash`: bcrypt, with a salt from the random source
  unfoldable pub hash_password : String → Action String
  hash_password plain w = (ok (env.hashpw w.draws plain), record w { draws = w.draws + 1 })

  unfoldable pub send_email : Mail → Action (Unit {0})
  send_email m w = send_with (env.delivers w.sends) m w

-- a column of a loaded object is assigned: pending until the commit
abbrev pub assign : (Tables → Tables) → Action (Unit {0})
assign f = modify (λ w. record w { session = f w.session })

abbrev pub rollback : Action (Unit {0})
rollback = modify (λ w. record w { session = w.db })

-- `uuid4()`, the default of a primary key
abbrev pub draw_id : Action ℕ
draw_id w = (ok w.draws, record w { draws = w.draws + 1 })

abbrev pub rescue_with {ℓ} : {A : Type ℓ} → Result A → (DbFault → Action A) → Action A
rescue_with (err (sql e)) h w = h e w
rescue_with r h w = (r, w)

-- `try: m  except SQLAlchemyError: h`
abbrev pub rescue {ℓ} : {A : Type ℓ} → Action A → (DbFault → Action A) → Action A
rescue m h w = let (r, w') = m w in rescue_with r h w'

abbrev pub undo {ℓ} : {A : Type ℓ} → Result A → Action A
undo (ok a) w = (ok a, w)
undo (err e) w = (err e, record w { session = w.db })

-- `try: m  except Exception: rollback(); raise`
abbrev pub or_rollback {ℓ} : {A : Type ℓ} → Action A → Action A
or_rollback m w = let (r, w') = m w in undo r w'

-- `except SQLAlchemyError: rollback(); raise RepositoryError`
abbrev pub failed {ℓ} : {A : Type ℓ} → Action A
failed = do rollback; raise repository_error

-- the same, where the rollback is left to the caller that owns the transaction
abbrev pub failed_if {ℓ} : {A : Type ℓ} → Bool → Action A
failed_if own = if own then failed else raise repository_error

module _ (env : Env) where
  -- the commit that a method makes only if it owns the transaction
  abbrev pub commit_if : Bool → Action (Unit {0})
  commit_if own = if own then commit env else pure tt

-- `UserStateService.invalidate`
abbrev pub invalidate : ℕ → Action (Unit {0})
invalidate user_id =
    modify (λ w. record w { cache = λ k. if k == user_id then none else w.cache k })
