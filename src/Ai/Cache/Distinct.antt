-- ===== src/Ai/Cache/Distinct.antt =====
-- cache/cache_keys.py: different answers have different keys.
use Prim.Native.Char.{Char, code}
use Prim.Native.String.{String, [], ◌∷◌}
use recentthink_ai_be.Common.{
  ◌≡◌, ◌≢◌, ◌⊎◌, inl, inr, refl, ap, subst, ◌∙◌, Bool, true, false, Bool-cases, str_eq, eq_iff,
  ◌&&◌, not, ◌==◌, ltb, arith, if◌then◌else◌,
}
use recentthink_ai_be.Common.Texts.{strip, lower}
use recentthink_ai_be.Ai.Cache.Segments.{
  is_safe, sub_unsafe, drop_dashes, before_dashes, drop_dashes_end, length, joined, cleaned,
  normalize_segment, digest, build_leetcode_key, build_hackerrank_key, build_dsa_key, with_bars,
}

-- there is no bar in the text
abbrev pub is_barless : String → Bool
is_barless [] = true
is_barless (c ∷ cs) = not (code c == 124) && is_barless cs

is_barless-sub_unsafe : (in_run : Bool) (s : String) → is_barless (sub_unsafe in_run s) ≡ true
unfolding sub_unsafe is_safe
is_barless-sub_unsafe in_run [] = refl
is_barless-sub_unsafe in_run (c ∷ cs) = ground (arith, is_barless-sub_unsafe (not (is_safe c)) cs)

is_barless-drop_dashes : (s : String) → is_barless s ≡ true → is_barless (drop_dashes s) ≡ true
unfolding drop_dashes
is_barless-drop_dashes [] h = refl
is_barless-drop_dashes (c ∷ cs) h = ground (arith, is_barless-drop_dashes cs)

is_barless-before_dashes :
    (c : Char) (s : String) → is_barless (c ∷ s) ≡ true → is_barless (before_dashes c s) ≡ true
unfolding before_dashes
is_barless-before_dashes c [] h = elim (Bool-cases (code c == 45)) [
  | inl dash ↦ rw dash refl
  | inr other ↦ rw other h
]
is_barless-before_dashes c (d ∷ ds) h = h

is_barless-drop_dashes_end :
    (s : String) → is_barless s ≡ true → is_barless (drop_dashes_end s) ≡ true
unfolding drop_dashes_end
is_barless-drop_dashes_end [] h = refl
is_barless-drop_dashes_end (c ∷ cs) h =
    is_barless-before_dashes c (drop_dashes_end cs) (ground (arith, is_barless-drop_dashes_end cs))

is_barless-cleaned : (value : String) → is_barless (cleaned value) ≡ true
unfolding cleaned
is_barless-cleaned value =
    let s = sub_unsafe false (lower (strip value)) in
    is_barless-drop_dashes_end (drop_dashes s)
      (is_barless-drop_dashes s (is_barless-sub_unsafe false (lower (strip value))))

not_bar : (c : Char) (cs : String) → is_barless (c ∷ cs) ≡ true → ¬ (c ≡ "|")
not_bar c cs h e = let wrong : false ≡ true = subst (λ d. is_barless (d ∷ cs) ≡ true) e h in cc

joined_cancel : (p s t : String) → joined p s ≡ joined p t → s ≡ t
unfolding joined
joined_cancel [] s t h = h
joined_cancel (c ∷ cs) s t h = joined_cancel cs s t (cc)

-- a text is the same up to the first bar, and after it
joined_split :
    (a b s t : String)
    → is_barless a ≡ true
    → is_barless b ≡ true
    → joined a ("|" ∷ s) ≡ joined b ("|" ∷ t)
    → (a ≡ b) × (s ≡ t)
unfolding joined
joined_split [] [] s t ha hb h = (refl, cc)
joined_split [] (d ∷ ds) s t ha hb h = absurd (not_bar d ds hb (cc))
joined_split (c ∷ cs) [] s t ha hb h = absurd (not_bar c cs ha (cc))
joined_split (c ∷ cs) (d ∷ ds) s t ha hb h =
    let first : c ≡ d = cc in
    let rest = joined_split cs ds s t (ground arith) (ground arith) (cc) in
    (ap (λ x. x ∷ cs) first ∙ ap (λ xs. d ∷ xs) rest.0, rest.1)

module _ (sha256_hex : String → String)
    (hex : (s : String) → is_barless (sha256_hex s) ≡ true) where
  is_barless-normalize_segment :
      (value : String) → is_barless (normalize_segment sha256_hex value) ≡ true
  unfolding normalize_segment
  is_barless-normalize_segment value = segment (cleaned value) (is_barless-cleaned value)
    where
      segment :
          (s : String)
          → is_barless s ≡ true
          → is_barless (elim s [
            | [] ↦ "empty"
            | c ∷ cs ↦ if ltb 64 (length (c ∷ cs)) then sha256_hex value else c ∷ cs
          ])
            ≡ true
      segment [] h = refl
      segment (c ∷ cs) h = elim (Bool-cases (ltb 64 (length (c ∷ cs)))) [
        | inl long ↦ rw long (hex value)
        | inr short ↦ rw short h
      ]

  -- three segments are the same as three others
  abbrev pub SameSegments : String → String → String → String → String → String → Type 0
  SameSegments a b c a' b' c' =
      (normalize_segment sha256_hex a ≡ normalize_segment sha256_hex a')
      × (normalize_segment sha256_hex b ≡ normalize_segment sha256_hex b')
      × (normalize_segment sha256_hex c ≡ normalize_segment sha256_hex c')

  -- the text whose digest is in a key: the three segments, with bars between them
  abbrev pub joined_segments : String → String → String → String
  joined_segments a b c =
      with_bars sha256_hex (normalize_segment sha256_hex a) (normalize_segment sha256_hex b)
        (normalize_segment sha256_hex c)

  -- the joined segments of the two answers differ, and have the same digest
  abbrev pub Collision : String → String → String → String → String → String → Type 0
  Collision a b c a' b' c' =
      (joined_segments a b c ≢ joined_segments a' b' c')
      × (sha256_hex (joined_segments a b c) ≡ sha256_hex (joined_segments a' b' c'))

  SameSegments-with_bars :
      (a b c a' b' c' : String)
      → with_bars sha256_hex
          (normalize_segment sha256_hex a)
          (normalize_segment sha256_hex b)
          (normalize_segment sha256_hex c)
        ≡ with_bars sha256_hex
            (normalize_segment sha256_hex a')
            (normalize_segment sha256_hex b')
            (normalize_segment sha256_hex c')
      → SameSegments a b c a' b' c'
  SameSegments-with_bars a b c a' b' c' e =
      let barless = is_barless-normalize_segment in
      let one =
        joined_split (normalize_segment sha256_hex a) (normalize_segment sha256_hex a') _ _
          (barless a) (barless a') e in
      let two =
        joined_split (normalize_segment sha256_hex b) (normalize_segment sha256_hex b') _ _
          (barless b) (barless b') one.1 in
      (one.0, two.0, two.1)

  digests_distinct :
      (a b c a' b' c' : String)
      → digest sha256_hex a b c ≡ digest sha256_hex a' b' c'
      → SameSegments a b c a' b' c' ⊎ Collision a b c a' b' c'
  unfolding digest
  digests_distinct a b c a' b' c' e =
      let x = joined_segments a b c in
      let y = joined_segments a' b' c' in
      elim (Bool-cases (str_eq x y)) [
        | inl same ↦ inl (SameSegments-with_bars a b c a' b' c' ((eq_iff x y).0 same))
        | inr differ ↦ inr ((λ q. let same = (eq_iff x y).1 q in cc), e)
      ]

  -- If a digest holds no bar, two answers under the same key have the same segments, or the two texts
  -- that are digested for their keys, the segments with bars between them, differ and have the same
  -- digest: the bars keep the segments apart, since no segment holds one. This is so of the keys of
  -- both kinds of problem and of the patterns.
  pub keys_distinct :
      (a b c a' b' c' : String)
      → (build_leetcode_key sha256_hex a b c ≡ build_leetcode_key sha256_hex a' b' c'
          → SameSegments a b c a' b' c' ⊎ Collision a b c a' b' c')
        × (build_hackerrank_key sha256_hex a b c ≡ build_hackerrank_key sha256_hex a' b' c'
            → SameSegments a b c a' b' c' ⊎ Collision a b c a' b' c')
        × (build_dsa_key sha256_hex a b c ≡ build_dsa_key sha256_hex a' b' c'
            → SameSegments a b c a' b' c' ⊎ Collision a b c a' b' c')
  unfolding build_leetcode_key build_hackerrank_key build_dsa_key
  keys_distinct a b c a' b' c' = (
    λ e.
        digests_distinct a b c a' b' c'
          (joined_cancel "leetcode:" (digest sha256_hex a b c) (digest sha256_hex a' b' c') e),
    λ e.
        digests_distinct a b c a' b' c'
          (joined_cancel "hackerrank:" (digest sha256_hex a b c) (digest sha256_hex a' b' c') e),
    λ e.
        digests_distinct a b c a' b' c'
          (joined_cancel "dsa:" (digest sha256_hex a b c) (digest sha256_hex a' b' c') e),
  )
