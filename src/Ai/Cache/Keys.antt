-- ===== src/Ai/Cache/Keys.antt =====
-- cache/cache_keys.py `build_feature_key`: which answers are cached, and under which key.
use recentthink_ai_be.Common.{
  String, Bool, Option, none, some, List, [], ◌∷◌, Dict, lookup, ◌≡◌, arith, is_some, str_eq, ◌&&◌,
  ◌||◌, not, if◌then◌else◌,
}
use recentthink_ai_be.Common.Texts.{strip, is_lower_of}
use recentthink_ai_be.Ai.Json.{Json, text, is_truthy}
use recentthink_ai_be.Ai.Cache.Segments.{
  build_leetcode_key, build_hackerrank_key, build_dsa_key, build_course_key,
}

-- `is_cacheable_feature`, of the feature in small letters
unfoldable pub is_cacheable_feature : String → Bool
unfolding strip is_lower_of
is_cacheable_feature feature =
    let f = strip feature in
    is_lower_of f "leetcode"
    || is_lower_of f "hackerrank"
    || is_lower_of f "dsa"
    || is_lower_of f "dsa_pattern"
    || is_lower_of f "course_generator"

module _ (sha256_hex : String → String) (shown : Json → String) where
  -- `str(a or b or … or default)`
  unfoldable pub first_text : List (Option Json) → String → String
  unfolding is_truthy
  first_text [] default = default
  first_text (none ∷ os) default = first_text os default
  first_text (some (text s) ∷ os) default =
      let rest = first_text os default in if str_eq s "" then rest else s
  first_text (some v ∷ os) default =
      let rest = first_text os default in if is_truthy (some v) then shown v else rest

  unfoldable pub build_feature_key :
      String → String → String → Dict Json → Dict Json → String → Option String
  unfolding is_cacheable_feature first_text build_leetcode_key build_hackerrank_key build_dsa_key
      build_course_key
  build_feature_key feature model prompt_version ctx meta message =
      let f = strip feature in
      let said = some (text message) in
      if not (is_cacheable_feature feature)
      then none
      else if is_lower_of f "leetcode"
      then some (
          build_leetcode_key sha256_hex model prompt_version (
            first_text
              (lookup "slug" ctx ∷ lookup "problem_slug" meta ∷ lookup "title" ctx ∷ said ∷ [])
              "unknown"))
      else if is_lower_of f "hackerrank"
      then some (
          build_hackerrank_key sha256_hex model prompt_version (
            first_text
              (lookup "slug" ctx ∷ lookup "challenge_slug" meta ∷ lookup "title" ctx ∷ said ∷ [])
              "unknown"))
      else if is_lower_of f "dsa_pattern" || is_lower_of f "dsa"
      then some (
          build_dsa_key sha256_hex
            (first_text (lookup "pattern" ctx ∷ lookup "pattern" meta ∷ said ∷ []) "unknown")
            (first_text (lookup "difficulty" ctx ∷ lookup "difficulty" meta ∷ []) "any") model)
      else if is_lower_of f "course_generator" || is_lower_of f "course"
      then some (
          build_course_key sha256_hex
            (first_text (lookup "topic" ctx ∷ lookup "topic" meta ∷ said ∷ []) "unknown")
            (first_text (lookup "level" ctx ∷ lookup "level" meta ∷ []) "any")
            (first_text (lookup "language" ctx ∷ lookup "language" meta ∷ []) "en") model)
      else none

  -- `CacheManager.build_key`
  unfoldable pub build_key :
      Bool → String → String → String → Dict Json → Dict Json → String → Option String
  unfolding build_feature_key
  build_key enabled feature model prompt_version ctx meta message =
      if not enabled || not (is_cacheable_feature feature)
      then none
      else build_feature_key feature model prompt_version ctx meta message

  -- A request has a key exactly if the cache is enabled and its feature is one that is cached, whatever
  -- its context: the last case of the source, which has no key, is never reached.
  pub key_given :
      (enabled : Bool) (feature model prompt_version : String) (ctx meta : Dict Json)
      (message : String)
      → is_some (build_key enabled feature model prompt_version ctx meta message)
        ≡ (enabled && is_cacheable_feature feature)
  unfolding build_key build_feature_key is_cacheable_feature
  key_given enabled feature model prompt_version ctx meta message = ground arith
