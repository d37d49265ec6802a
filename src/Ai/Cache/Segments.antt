-- ===== src/Ai/Cache/Segments.antt =====
-- cache/cache_keys.py: the segments of a key. The digest is a parameter, and the letters are
-- those of ASCII.
use Prim.Native.Char.{Char, code}
use Prim.Native.String.{String, [], ◌∷◌}
use recentthink_ai_be.Common.{ℕ, suc, Bool, false, ◌&&◌, ◌||◌, not, ◌==◌, leb, ltb, if◌then◌else◌}
use recentthink_ai_be.Common.Texts.{strip, lower}

-- the characters that a segment may keep
unfoldable pub is_safe : Char → Bool
is_safe c =
    (leb 97 (code c) && leb (code c) 122)
    || (leb 65 (code c) && leb (code c) 90)
    || (leb 48 (code c) && leb (code c) 57)
    || code c == 46
    || code c == 95
    || code c == 58
    || code c == 45

-- `_SAFE_SEGMENT.sub("-", s)`, after a run of other characters or not
unfoldable pub sub_unsafe : Bool → String → String
unfolding is_safe
sub_unsafe in_run [] = []
sub_unsafe in_run (c ∷ cs) =
    let rest = sub_unsafe (not (is_safe c)) cs in
    if is_safe c then c ∷ rest else if in_run then rest else "-" ∷ rest

-- `s.strip("-")`
unfoldable pub drop_dashes : String → String
drop_dashes [] = []
drop_dashes (c ∷ cs) = let rest = drop_dashes cs in if code c == 45 then rest else c ∷ cs

unfoldable pub before_dashes : Char → String → String
before_dashes c [] = if code c == 45 then [] else c ∷ []
before_dashes c (d ∷ ds) = c ∷ d ∷ ds

unfoldable pub drop_dashes_end : String → String
unfolding before_dashes
drop_dashes_end [] = []
drop_dashes_end (c ∷ cs) = before_dashes c (drop_dashes_end cs)

unfoldable pub length : String → ℕ
length [] = 0
length (c ∷ cs) = suc (length cs)

-- one text after another
unfoldable pub joined : String → String → String
joined [] t = t
joined (c ∷ cs) t = c ∷ joined cs t

unfoldable pub cleaned : String → String
unfolding strip sub_unsafe drop_dashes drop_dashes_end lower
cleaned value = drop_dashes_end (drop_dashes (sub_unsafe false (lower (strip value))))

module _ (sha256_hex : String → String) where
  unfoldable pub normalize_segment : String → String
  unfolding cleaned length
  normalize_segment value = elim (cleaned value) [
    | [] ↦ "empty"
    | c ∷ cs ↦ if ltb 64 (length (c ∷ cs)) then sha256_hex value else c ∷ cs
  ]

  -- `f"{a}|{b}|{c}"`
  abbrev pub with_bars : String → String → String → String
  with_bars a b c = joined a ("|" ∷ joined b ("|" ∷ c))

  unfoldable pub digest : String → String → String → String
  unfolding normalize_segment joined
  digest a b c =
      sha256_hex (with_bars (normalize_segment a) (normalize_segment b) (normalize_segment c))

  unfoldable pub build_leetcode_key : String → String → String → String
  unfolding digest
  build_leetcode_key model prompt_version problem_slug =
      joined "leetcode:" (digest model prompt_version problem_slug)

  unfoldable pub build_hackerrank_key : String → String → String → String
  unfolding digest
  build_hackerrank_key model prompt_version challenge_slug =
      joined "hackerrank:" (digest model prompt_version challenge_slug)

  unfoldable pub build_dsa_key : String → String → String → String
  unfolding digest
  build_dsa_key pattern difficulty model = joined "dsa:" (digest pattern difficulty model)

  -- `build_course_key`, of four segments
  unfoldable pub build_course_key : String → String → String → String → String
  unfolding normalize_segment joined
  build_course_key topic level language model = joined "course:" (
      sha256_hex (
        joined (normalize_segment topic) (
          "|"
          ∷ with_bars (normalize_segment level) (normalize_segment language)
              (normalize_segment model))))
