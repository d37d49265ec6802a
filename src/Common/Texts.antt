-- ===== src/Common/Texts.antt =====
-- What Python's `str` methods do: white space and letters.
use Prim.Native.Char.{Char, code}
use Prim.Native.String.{String, [], ◌∷◌}
use Prim.Native.Nat.{ℕ, ◌+◌}
use mathlib.Core.Path.{◌≡◌, refl}
use native.Mathlib.Omega.{arith}
use mathlib.Core.Bool.{Bool, true, false, ◌&&◌, ◌||◌}
use mathlib.Core.List.{List}
use recentthink_ai_be.Common.Items.{Dict}
use recentthink_ai_be.Common.Tests.{◌==◌, leb, if◌then◌else◌}

-- `str.isspace` on the characters of Latin-1
unfoldable pub is_space : Char → Bool
is_space c =
    (leb 9 (code c) && leb (code c) 13)
    || (leb 28 (code c) && leb (code c) 32)
    || code c == 133
    || code c == 160

unfoldable pub drop_space : String → String
unfolding is_space
drop_space [] = []
drop_space (c ∷ cs) = let rest = drop_space cs in if is_space c then rest else c ∷ cs

-- a character before the stripped rest
unfoldable pub before_stripped : Char → String → String
unfolding is_space
before_stripped c [] = if is_space c then [] else c ∷ []
before_stripped c (d ∷ ds) = c ∷ d ∷ ds

-- `str.rstrip`
unfoldable pub drop_space_end : String → String
unfolding before_stripped
drop_space_end [] = []
drop_space_end (c ∷ cs) = before_stripped c (drop_space_end cs)

-- `str.strip`
unfoldable pub strip : String → String
unfolding drop_space drop_space_end
strip s = drop_space_end (drop_space s)

-- the number of a letter from A to Z in small, and of any other character as it is
unfoldable pub lower_code : Char → ℕ
lower_code c = if leb 65 (code c) && leb (code c) 90 then code c + 32 else code c

-- the small letter in the place of a capital one
abbrev in_place : String → String → Char → Char
in_place (u ∷ us) (l ∷ ls) c = if code u == code c then l else in_place us ls c
in_place [] ls c = c
in_place (u ∷ us) [] c = c

-- `s.lower()`
unfoldable pub lower : String → String
lower [] = []
lower (c ∷ cs) = in_place "ABCDEFGHIJKLMNOPQRSTUVWXYZ" "abcdefghijklmnopqrstuvwxyz" c ∷ lower cs

-- `s.lower() == t.lower()`
unfoldable pub same_letters : String → String → Bool
unfolding lower_code
same_letters [] [] = true
same_letters (c ∷ cs) (d ∷ ds) = lower_code c == lower_code d && same_letters cs ds
same_letters [] (d ∷ ds) = false
same_letters (c ∷ cs) [] = false

-- `s.lower() == t`
unfoldable pub is_lower_of : String → String → Bool
unfolding lower_code
is_lower_of [] [] = true
is_lower_of (c ∷ cs) (d ∷ ds) = lower_code c == code d && is_lower_of cs ds
is_lower_of [] (d ∷ ds) = false
is_lower_of (c ∷ cs) [] = false

-- `table.get(text.strip().lower(), default)`, for a table whose keys are in small letters
unfoldable pub at_lowered : String → Dict ℕ → ℕ → ℕ
unfolding strip is_lower_of
at_lowered text List.[] default = default
at_lowered text (List.◌∷◌ (k, n) d) default =
    let rest = at_lowered text d default in if is_lower_of (strip text) k then n else rest

-- a text that is the small form of another has the same letters
pub same_letters-is_lower_of : (s t : String) → is_lower_of s t ≡ true → same_letters s t ≡ true
unfolding is_lower_of same_letters lower_code
same_letters-is_lower_of [] [] h = refl
same_letters-is_lower_of [] (d ∷ ds) h = h
same_letters-is_lower_of (c ∷ cs) [] h = h
same_letters-is_lower_of (c ∷ cs) (d ∷ ds) h = ground (arith, same_letters-is_lower_of cs ds)

-- a character before the first of the parts
abbrev onto_first : Char → List String → List String
onto_first c List.[] = List.◌∷◌ (c ∷ []) List.[]
onto_first c (List.◌∷◌ part parts) = List.◌∷◌ (c ∷ part) parts

-- `s.split(",")`
unfoldable pub split_commas : String → List String
split_commas [] = List.◌∷◌ [] List.[]
split_commas (c ∷ cs) =
    let parts = split_commas cs in if code c == 44 then List.◌∷◌ [] parts else onto_first c parts
