-- ===== src/Gateway/Scheme.antt =====
-- Reading the header `Bearer <token>` (`_extract_bearer` of auth/session_guard.py).
use Prim.Native.Char.{Char}
use Prim.Native.String.{String, [], ◌∷◌}
use recentthink_ai_be.Common.{◌≡◌, ◌≢◌, ◌∙◌, ap, refl, false, some, arith}
use recentthink_ai_be.Common.Texts.{is_space, drop_space, drop_space_end, before_stripped}
use recentthink_ai_be.Gateway.Header.{nonempty, split_word, bearer_token, extract_bearer}

-- no character of a text is white space
abbrev pub IsSolid : String → Type 0
IsSolid [] = Unit
IsSolid (c ∷ cs) = (is_space c ≡ false) × IsSolid cs

drop_space_solid : (t : String) → IsSolid t → drop_space t ≡ t
unfolding drop_space
drop_space_solid [] h = refl
drop_space_solid (c ∷ cs) h = ground (arith, h.0)

before_solid : (c : Char) (t : String) → is_space c ≡ false → before_stripped c t ≡ c ∷ t
unfolding before_stripped
before_solid c [] h = ground (arith, h)
before_solid c (d ∷ ds) h = refl

drop_space_end_solid : (t : String) → IsSolid t → drop_space_end t ≡ t
unfolding drop_space_end
drop_space_end_solid [] h = refl
drop_space_end_solid (c ∷ cs) h = rw (drop_space_end_solid cs h.1) (before_solid c cs h.0)

nonempty-some : (t : String) → t ≢ "" → nonempty t ≡ some t
unfolding nonempty
nonempty-some [] h = absurd (h refl)
nonempty-some (c ∷ cs) h = refl

-- the text `Bearer `, followed by the token
abbrev pub header : String → String
header t = "B" ∷ "e" ∷ "a" ∷ "r" ∷ "e" ∷ "r" ∷ " " ∷ t

header-parts : (t : String) → split_word (drop_space (header t)) ≡ ("Bearer", " " ∷ t)
unfolding split_word drop_space
header-parts t = refl

token_after_space : (t : String) → IsSolid t → drop_space (" " ∷ t) ≡ t
unfolding drop_space
token_after_space t h = drop_space_solid t h

-- The token of the header `Bearer <token>` is that token, if it is not empty and has no white space.
pub extract_bearer-header :
    (t : String) → IsSolid t → t ≢ "" → extract_bearer (some (header t)) ≡ some t
unfolding extract_bearer bearer_token
extract_bearer-header t solid full =
    ap bearer_token (header-parts t)
    ∙ ap (λ x. nonempty (drop_space_end x)) (token_after_space t solid)
    ∙ ap nonempty (drop_space_end_solid t solid)
    ∙ nonempty-some t full
