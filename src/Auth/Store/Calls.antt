-- ===== src/Auth/Store/Calls.antt =====
-- The calls of the database, and the other steps of a method, keep to the changes of `Step`.
use recentthink_ai_be.Common.{ℕ, String, ◌≡◌, refl, Bool, true, false, none, some, List, arith, ◌+◌}
use recentthink_ai_be.Auth.Model.{Tables, RefreshToken, OneTimeToken}
use recentthink_ai_be.Auth.Action.{
  Env, World, Result, ok, err, execute, commit, sql, ping, assign, rollback, draw_id, failed,
  failed_if, commit_if, touch, draw_token, hash_password, Mail, send_email, send_with, invalidate,
}
use recentthink_ai_be.Auth.Repo.Refresh
use recentthink_ai_be.Auth.Repo.Resets
use recentthink_ai_be.Auth.Repo.Verifications
use recentthink_ai_be.Auth.Repo.Users
use recentthink_ai_be.Auth.Fields.{Field, new_email, set_fields}
use recentthink_ai_be.Auth.Store.{Store, Step, Steps, here, next, one, Steps-trans}
use recentthink_ai_be.Auth.Store.Keeps.{Keeps, keeps_rules}

abbrev pub at : Tables → ℕ → Store
at t n = record { tables = t; next = n }

-- The committed tables and the transaction's are both reached from the store `s`.
pub record Tracks (s : Store) (w : World) : Type 0 where
  pub committed : Steps s (at w.db w.draws)
  pub pending : Steps s (at w.session w.draws)

-- the identifiers move on, the tables stay
pub drawn : {s : Store} (t : Tables) (n : ℕ) → Steps s (at t n) → Steps s (at t (n + 1))
drawn t n h = next h (Step.draw (omega arith) refl)

module _ (env : Env) (s : Store) where
  pub execute-Tracks {ℓ} :
      {A : Type ℓ} (f : Tables → A × Tables)
      → ((t : Tables) (n : ℕ) → Steps (at t n) (at (f t).1 n))
      → Keeps (Tracks s) (execute env f)
  unfolding execute
  execute-Tracks {A} f moves = record {
    at = λ w h.
        elim (env.fault w.calls)
          as (λ o.
            Tracks s
              (elim o as (λ _. Result A × World) [
                | some e ↦ (err (sql e), touch w)
                | none ↦ (ok (f w.session).0, record (touch w) { session = (f w.session).1 })
              ]).1) [
                | some e ↦ record { committed = h.committed; pending = h.pending }
                | none ↦ record {
                  committed = h.committed;
                  pending = Steps-trans h.pending (moves w.session w.draws);
                }
              ];
  }

  pub commit-Tracks : Keeps (Tracks s) (commit env)
  unfolding commit
  commit-Tracks = record {
    at = λ w h.
        elim (env.fault w.calls)
          as (λ o.
            Tracks s
              (elim o as (λ _. Result (Unit {0}) × World) [
                | some e ↦ (err (sql e), touch w)
                | none ↦ (ok tt, record (touch w) { db = w.session })
              ]).1) [
                | some e ↦ record { committed = h.committed; pending = h.pending }
                | none ↦ record { committed = h.pending; pending = h.pending }
              ];
  }

  pub ping-Tracks : Keeps (Tracks s) (ping env)
  unfolding ping
  ping-Tracks = execute-Tracks (λ t. (tt, t)) (λ t n. here)

  pub draw_token-Tracks : Keeps (Tracks s) (draw_token env)
  unfolding draw_token
  draw_token-Tracks = record {
    at = λ w h. record {
      committed = drawn w.db w.draws h.committed;
      pending = drawn w.session w.draws h.pending;
    };
  }

  pub hash_password-Tracks : (plain : String) → Keeps (Tracks s) (hash_password env plain)
  unfolding hash_password
  hash_password-Tracks plain = record {
    at = λ w h. record {
      committed = drawn w.db w.draws h.committed;
      pending = drawn w.session w.draws h.pending;
    };
  }

  pub draw_id-Tracks : Keeps (Tracks s) draw_id
  draw_id-Tracks = record {
    at = λ w h. record {
      committed = drawn w.db w.draws h.committed;
      pending = drawn w.session w.draws h.pending;
    };
  }

  sent : (b : Bool) (m : Mail) (w : World) → Tracks s w → Tracks s (send_with b m w).1
  sent true m w h = record { committed = h.committed; pending = h.pending }
  sent false m w h = record { committed = h.committed; pending = h.pending }

  pub send_email-Tracks : (m : Mail) → Keeps (Tracks s) (send_email env m)
  unfolding send_email
  send_email-Tracks m = record { at = λ w h. sent (env.delivers w.sends) m w h }

  pub invalidate-Tracks : (i : ℕ) → Keeps (Tracks s) (invalidate i)
  invalidate-Tracks i = record {
    at = λ w h. record { committed = h.committed; pending = h.pending };
  }

  pub rollback-Tracks : Keeps (Tracks s) rollback
  rollback-Tracks = record { at = λ w h. record { committed = h.committed; pending = h.committed } }

  pub assign-Tracks :
      (f : Tables → Tables)
      → ((t : Tables) (n : ℕ) → Steps (at t n) (at (f t) n))
      → Keeps (Tracks s) (assign f)
  assign-Tracks f moves = record {
    at = λ w h. record {
      committed = h.committed;
      pending = Steps-trans h.pending (moves w.session w.draws);
    };
  }

  pub back-Tracks : (w : World) → Tracks s w → Tracks s (record w { session = w.db })
  back-Tracks w h = record { committed = h.committed; pending = h.committed }

  pub failed-Tracks {ℓ} : {A : Type ℓ} → Keeps (Tracks s) (failed {A = A})
  failed-Tracks = record { at = λ w h. record { committed = h.committed; pending = h.committed } }

  pub failed_if-Tracks {ℓ} : {A : Type ℓ} (own : Bool) → Keeps (Tracks s) (failed_if {A = A} own)
  failed_if-Tracks true = failed-Tracks
  failed_if-Tracks false = record { at = λ w h. h }

  pub commit_if-Tracks : (own : Bool) → Keeps (Tracks s) (commit_if env own)
  commit_if-Tracks true = commit-Tracks
  commit_if-Tracks false = record { at = λ w h. h }

module _ (t : Tables) (n : ℕ) where
  pub Steps-revoke : (p : RefreshToken → Bool) → Steps (at t n) (at (Refresh.revoke_where p t) n)
  Steps-revoke p = one (Step.revoke p refl)

  pub Steps-spend_reset : (p : OneTimeToken → Bool) → Steps (at t n) (at (Resets.spend_where p t) n)
  Steps-spend_reset p = one (Step.spend_reset p refl)

  pub Steps-spend_verification :
      (p : OneTimeToken → Bool) → Steps (at t n) (at (Verifications.spend_where p t) n)
  Steps-spend_verification p = one (Step.spend_verification p refl)

  pub Steps-remove_user : (i : ℕ) → Steps (at t n) (at (Users.delete_cascade i t) n)
  Steps-remove_user i = one (Step.remove_user i refl)

  pub Steps-write_user :
      (i : ℕ) (fs : List Field)
      → new_email fs ≡ none
      → Steps (at t n) (at (Users.update_where i (set_fields fs) t) n)
  Steps-write_user i fs h = one (Step.write_user i fs h refl)

pub ruleset tracks_rules = (
  keeps_rules, execute-Tracks, commit-Tracks, ping-Tracks, draw_token-Tracks, hash_password-Tracks,
  draw_id-Tracks, send_email-Tracks, invalidate-Tracks, rollback-Tracks, assign-Tracks, back-Tracks,
  failed-Tracks, failed_if-Tracks, commit_if-Tracks, here, Steps-revoke, Steps-spend_reset,
  Steps-spend_verification, Steps-remove_user, Steps-write_user,
)
