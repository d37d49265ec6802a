-- ===== src/Gateway/Paths.antt =====
-- auth/allowlist.py
use text.Mathlib.Text.{starts_with}
use recentthink_ai_be.Common.{String, Bool, false, List, [], ◌∷◌, str_eq, ◌||◌}

abbrev pub public_exact : List String
public_exact =
    "/" ∷ "/auth/login" ∷ "/auth/register" ∷ "/auth/refresh" ∷ "/auth/forgot-password"
    ∷ "/auth/reset-password" ∷ "/auth/verify-email" ∷ "/auth/resend-verification"
    ∷ "/account/enable" ∷ "/admin/login" ∷ "/admin/refresh" ∷ []

abbrev pub public_prefix_paths : List String
public_prefix_paths = "/media/" ∷ []

unfoldable pub is_member : String → List String → Bool
is_member path [] = false
is_member path (p ∷ ps) = str_eq path p || is_member path ps

unfoldable pub has_prefix : String → List String → Bool
has_prefix path [] = false
has_prefix path (p ∷ ps) = starts_with path p || has_prefix path ps

unfoldable pub is_public_path : String → Bool
unfolding is_member has_prefix
is_public_path path = is_member path public_exact || has_prefix path public_prefix_paths
