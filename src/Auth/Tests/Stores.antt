-- ===== src/Auth/Tests/Stores.antt =====
-- Several requests in a row.
use recentthink_ai_be.Common.{ℕ, refl, List, [], ◌∷◌, arith}
use recentthink_ai_be.Auth.Request.{Request, run}
use recentthink_ai_be.Auth.Store.{Steps}
use recentthink_ai_be.Auth.Store.Calls.{at}
use recentthink_ai_be.Auth.Store.Refinement.{run_refines}
use recentthink_ai_be.Auth.Store.Invariant.{IsConsistent, run-IsConsistent}
use recentthink_ai_be.Auth.Store.Forever.{IsRevoked, IsUsed, run_never_revives}
use recentthink_ai_be.Auth.Tests.Data.{env, failing, world}

abbrev requests : List (ℕ × Request)
requests =
    (21, Request.register "C" "D" "carol@x" "pw")
    ∷ (22, Request.refresh "live")
    ∷ (23, Request.reset_password "unused" "fresh")
    ∷ (24, Request.refresh "revoked")
    ∷ []

run_refines_example :
    Steps
      (at world.db world.draws)
      (at (run (failing 9) requests world).db (run (failing 9) requests world).draws)
run_refines_example = run_refines (failing 9) requests world

consistent : IsConsistent (at world.db world.draws)
consistent = record {
  users = ((refl, (refl, (refl, tt))), (omega arith, (omega arith, (omega arith, tt))));
  refresh_tokens = ((refl, (refl, tt)), (omega arith, (omega arith, tt)));
  reset_tokens = ((refl, (refl, tt)), (omega arith, (omega arith, tt)));
  verification_tokens = (tt, tt);
  emails = (refl, (refl, (refl, tt)));
}

run-IsConsistent_example :
    IsConsistent (at (run (failing 9) requests world).db (run (failing 9) requests world).draws)
run-IsConsistent_example = run-IsConsistent (failing 9) requests world consistent

is_revoked : IsRevoked 4 (at world.db world.draws)
is_revoked = (omega arith, (refl, (refl, tt)))

run_never_revives_example :
    IsRevoked 4 (at (run env requests world).db (run env requests world).draws)
run_never_revives_example = run_never_revives env requests world 4 is_revoked

is_used : IsUsed 6 (at world.db world.draws)
is_used = (omega arith, (refl, (refl, tt)))
