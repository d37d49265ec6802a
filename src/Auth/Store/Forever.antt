-- ===== src/Auth/Store/Forever.antt =====
-- Revoked refresh tokens and used password-reset tokens, over sequences of requests.
use recentthink_ai_be.Common.{
  ℕ, ◌<◌, ◌≡◌, subst, sym, false, ◌&&◌, not, List, [], ◌∷◌, arith, All, All-append, All-update,
  All-select,
}
use recentthink_ai_be.Auth.Model.{
  RefreshToken, OneTimeToken, refresh_has_id, one_time_has_id, spend,
}
use recentthink_ai_be.Auth.Action.{Env, World}
use recentthink_ai_be.Auth.Repo.Refresh
use recentthink_ai_be.Auth.Request.{Request, run}
use recentthink_ai_be.Auth.Store.{Store, Step, Steps}
use recentthink_ai_be.Auth.Store.Calls.{at}
use recentthink_ai_be.Auth.Store.Refinement.{run_refines}

-- an identifier that was drawn, with no row in the table that could be used
abbrev pub IsRevoked : ℕ → Store → Type 0
IsRevoked i s =
    (i < s.next)
    × All (λ t. (refresh_has_id i t && not t.is_revoked) ≡ false) s.tables.refresh_tokens

abbrev pub IsUsed : ℕ → Store → Type 0
IsUsed i s =
    (i < s.next) × All (λ t. (one_time_has_id i t && not t.is_used) ≡ false) s.tables.reset_tokens

module _ (i : ℕ) (s t : Store) where
  abbrev NotLive : RefreshToken → Type 0
  NotLive r = (refresh_has_id i r && not r.is_revoked) ≡ false

  abbrev NotUnused : OneTimeToken → Type 0
  NotUnused r = (one_time_has_id i r && not r.is_used) ≡ false

  Step-IsRevoked : Step s t → IsRevoked i s → IsRevoked i t
  Step-IsRevoked (Step.draw le e) h =
      (omega arith, subst (λ y. All NotLive y.refresh_tokens) (sym e) h.1)
  Step-IsRevoked (Step.add_user row lo hi free e) h =
      (omega arith, subst (λ y. All NotLive y.refresh_tokens) (sym e) h.1)
  Step-IsRevoked (Step.add_refresh row lo hi e) h = (
    omega arith,
    subst (λ y. All NotLive y.refresh_tokens) (sym e)
        (All-append NotLive s.tables.refresh_tokens (row ∷ []) h.1 (ground arith, tt)),
  )
  Step-IsRevoked (Step.add_reset row lo hi e) h =
      (omega arith, subst (λ y. All NotLive y.refresh_tokens) (sym e) h.1)
  Step-IsRevoked (Step.add_verification row lo hi e) h =
      (omega arith, subst (λ y. All NotLive y.refresh_tokens) (sym e) h.1)
  Step-IsRevoked (Step.revoke p e) h =
      subst (IsRevoked i) (sym e)
        (h.0, All-update NotLive p Refresh.revoke (λ r k. ground arith) s.tables.refresh_tokens h.1)
  Step-IsRevoked (Step.spend_reset p e) h = subst (IsRevoked i) (sym e) h
  Step-IsRevoked (Step.spend_verification p e) h = subst (IsRevoked i) (sym e) h
  Step-IsRevoked (Step.write_user j fs n e) h = subst (IsRevoked i) (sym e) h
  Step-IsRevoked (Step.remove_user j e) h =
      subst (IsRevoked i) (sym e) (h.0, All-select NotLive _ s.tables.refresh_tokens h.1)

  Step-IsUsed : Step s t → IsUsed i s → IsUsed i t
  Step-IsUsed (Step.draw le e) h =
      (omega arith, subst (λ y. All NotUnused y.reset_tokens) (sym e) h.1)
  Step-IsUsed (Step.add_user row lo hi free e) h =
      (omega arith, subst (λ y. All NotUnused y.reset_tokens) (sym e) h.1)
  Step-IsUsed (Step.add_refresh row lo hi e) h =
      (omega arith, subst (λ y. All NotUnused y.reset_tokens) (sym e) h.1)
  Step-IsUsed (Step.add_reset row lo hi e) h = (
    omega arith,
    subst (λ y. All NotUnused y.reset_tokens) (sym e)
        (All-append NotUnused s.tables.reset_tokens (row ∷ []) h.1 (ground arith, tt)),
  )
  Step-IsUsed (Step.add_verification row lo hi e) h =
      (omega arith, subst (λ y. All NotUnused y.reset_tokens) (sym e) h.1)
  Step-IsUsed (Step.revoke p e) h = subst (IsUsed i) (sym e) h
  Step-IsUsed (Step.spend_reset p e) h =
      subst (IsUsed i) (sym e)
        (h.0, All-update NotUnused p spend (λ r k. ground arith) s.tables.reset_tokens h.1)
  Step-IsUsed (Step.spend_verification p e) h = subst (IsUsed i) (sym e) h
  Step-IsUsed (Step.write_user j fs n e) h = subst (IsUsed i) (sym e) h
  Step-IsUsed (Step.remove_user j e) h =
      subst (IsUsed i) (sym e) (h.0, All-select NotUnused _ s.tables.reset_tokens h.1)

Steps-IsRevoked : (i : ℕ) {s t : Store} → Steps s t → IsRevoked i s → IsRevoked i t
Steps-IsRevoked i Steps.here h = h
Steps-IsRevoked i (Steps.next {t} {u} a st) h = Step-IsRevoked i t u st (Steps-IsRevoked i a h)

Steps-IsUsed : (i : ℕ) {s t : Store} → Steps s t → IsUsed i s → IsUsed i t
Steps-IsUsed i Steps.here h = h
Steps-IsUsed i (Steps.next {t} {u} a st) h = Step-IsUsed i t u st (Steps-IsUsed i a h)

module _ (env : Env) (rs : List (ℕ × Request)) (w : World) (i : ℕ) where
  -- A revoked refresh token stays revoked: if no committed row with an identifier that was drawn is
  -- live, then none is after any requests.
  pub run_never_revives :
      IsRevoked i (at w.db w.draws) → IsRevoked i (at (run env rs w).db (run env rs w).draws)
  run_never_revives h = Steps-IsRevoked i (run_refines env rs w) h

  -- A used password-reset token stays used: if no committed row with an identifier that was drawn
  -- is unused, then none is after any requests.
  pub run_never_reissues :
      IsUsed i (at w.db w.draws) → IsUsed i (at (run env rs w).db (run env rs w).draws)
  run_never_reissues h = Steps-IsUsed i (run_refines env rs w) h
