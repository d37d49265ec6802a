-- ===== src/Auth/Store/Refinement.antt =====
-- Requests as chains of changes: `handle`, `serve` and `run` of Auth.Request.
use recentthink_ai_be.Common.{ℕ, List, [], ◌∷◌}
use recentthink_ai_be.Auth.Action.{Env, World}
use recentthink_ai_be.Auth.Request.{Request, handle, serve, run}
use recentthink_ai_be.Auth.Service.Session
use recentthink_ai_be.Auth.Store.{Store, Steps, here, Steps-trans}
use recentthink_ai_be.Auth.Store.Keeps.{Keeps}
use recentthink_ai_be.Auth.Store.Calls.{Tracks, at, tracks_rules}
use recentthink_ai_be.Auth.Store.Services.{
  register-Tracks, login-Tracks, refresh-Tracks, logout-Tracks, verify_email-Tracks, resend-Tracks,
  forgot-Tracks, reset-Tracks,
}
use recentthink_ai_be.Auth.Store.Accounts.{
  active-Tracks, change-Tracks, disable-Tracks, enable-Tracks, delete-Tracks, block-Tracks,
  unblock-Tracks, deactivate-Tracks, activate-Tracks, delete_as_admin-Tracks, state-Tracks,
}

ruleset case_rules = (
  tracks_rules, register-Tracks, login-Tracks, refresh-Tracks, logout-Tracks, verify_email-Tracks,
  resend-Tracks, forgot-Tracks, reset-Tracks, active-Tracks, change-Tracks, disable-Tracks,
  enable-Tracks, delete-Tracks, block-Tracks, unblock-Tracks, deactivate-Tracks, activate-Tracks,
  delete_as_admin-Tracks, state-Tracks,
)

module _ (env : Env) (s : Store) where
  handle-Tracks : (r : Request) → Keeps (Tracks s) (handle env r)
  unfolding handle Session.admin_login Session.admin_refresh Session.admin_logout
  handle-Tracks (Request.register f l e p) = search case_rules
  handle-Tracks _ = search case_rules

module _ (env : Env) where
  -- From what is committed before a request to what is committed after it leads a chain of the changes
  -- that `Step` allows, whether the request is answered or refused and at whatever calls the
  -- database fails.
  pub serve_refines :
      (r : Request) (w : World)
      → Steps (at w.db w.draws) (at (serve env r w).1.db (serve env r w).1.draws)
  unfolding serve
  serve_refines r w =
      ((handle-Tracks env (at w.db w.draws) r).at (record w { session = w.db })
        (record { committed = here; pending = here })).committed

  -- From the tables that are committed before any requests to those that are committed after them,
  -- one request after another, leads a chain of the changes that `Step` allows, whether the
  -- requests are answered or refused and at whatever calls the database fails.
  pub run_refines :
      (rs : List (ℕ × Request)) (w : World)
      → Steps (at w.db w.draws) (at (run env rs w).db (run env rs w).draws)
  unfolding run
  run_refines [] w = here
  run_refines ((now, r) ∷ rs) w =
      let w' = record w { now = now } in
      Steps-trans (serve_refines r w') (run_refines rs (serve env r w').1)
