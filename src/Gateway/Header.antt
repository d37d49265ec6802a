-- ===== src/Gateway/Header.antt =====
-- `_extract_bearer` of auth/session_guard.py
use Prim.Native.String.{String, [], ◌∷◌}
use recentthink_ai_be.Common.Texts.{is_lower_of, is_space, drop_space, drop_space_end}
use recentthink_ai_be.Common.{Option, none, some, if◌then◌else◌}

-- a word, and what follows it
unfoldable pub split_word : String → String × String
unfolding is_space
split_word [] = ([], [])
split_word (c ∷ cs) =
    let (w, rest) = split_word cs in if is_space c then ([], c ∷ cs) else (c ∷ w, rest)

unfoldable pub nonempty : String → Option String
nonempty [] = none
nonempty (c ∷ cs) = some (c ∷ cs)

-- the second part of the header, stripped, if the first part is the scheme
unfoldable pub bearer_token : String × String → Option String
unfolding is_lower_of drop_space drop_space_end nonempty
bearer_token (scheme, rest) =
    if is_lower_of scheme "bearer" then nonempty (drop_space_end (drop_space rest)) else none

unfoldable pub extract_bearer : Option String → Option String
unfolding split_word drop_space bearer_token
extract_bearer none = none
extract_bearer (some header) = bearer_token (split_word (drop_space header))
