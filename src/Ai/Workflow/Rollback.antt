-- ===== src/Ai/Workflow/Rollback.antt =====
-- agents/shared/workflow/nodes.py: a stream that is cancelled leaves the messages as they were.
use mathlib.Core.List.{append-nil}
use recentthink_ai_be.Common.{
  ℕ, ◌≤◌, ◌<◌, ◌≡◌, refl, sym, ap, ◌∙◌, Bool, true, false, List, [], ◌∷◌, ◌++◌, select, map, not,
  ◌&&◌, ◌||◌, ◌==◌, ==_iff, All, arith, if◌then◌else◌,
}
use recentthink_ai_be.Ai.Workflow.Messages.{
  Write, is_committed, Messages, Message, is_assistant, is_in, delete_message,
}
use recentthink_ai_be.Ai.Workflow.Pipeline.{is_new, rollback_from}

select-append :
    (p : Message → Bool) (xs ys : List Message) → select p (xs ++ ys) ≡ select p xs ++ select p ys
select-append p [] ys = refl
select-append p (x ∷ xs) ys = ground (arith, select-append p xs ys)

select-All : (p : Message → Bool) (xs : List Message) → All (λ m. p m ≡ true) xs → select p xs ≡ xs
select-All p [] h = refl
select-All p (x ∷ xs) h = let rest = select-All p xs h.1 in rw (h.0, rest) refl

select_none :
    (p : Message → Bool) (xs : List Message) → All (λ m. p m ≡ false) xs → select p xs ≡ []
select_none p [] h = refl
select_none p (x ∷ xs) h = let rest = select_none p xs h.1 in rw (h.0, rest) refl

select_twice :
    (p q : Message → Bool) (xs : List Message)
    → select p (select q xs) ≡ select (λ m. q m && p m) xs
select_twice p q [] = refl
select_twice p q (x ∷ xs) = ground (arith, select_twice p q xs)

select_same :
    (p q : Message → Bool) (same : (m : Message) → p m ≡ q m) (xs : List Message)
    → select p xs ≡ select q xs
select_same p q same [] = refl
select_same p q same (x ∷ xs) = let rest = select_same p q same xs in rw (same x, rest) refl

-- is the message one of the new ones that are listed?
abbrev hits : List ℕ → List Message → Message → Bool
hits before [] m = false
hits before (y ∷ ys) m = (is_new before y && m.id == y.id) || hits before ys m

module _ (commits : ℕ → Write) (works : (n : ℕ) → is_committed (commits n) ≡ true)
    (before : List ℕ) where
  rows-delete_message :
      (id : ℕ) (t : Messages)
      → (delete_message commits id t).1.rows ≡ select (λ m. not (m.id == id)) t.rows
  unfolding delete_message
  rows-delete_message id t = rw (works t.commits) refl

  -- a rollback takes away the new messages that were listed, and no other
  rows-rollback_from :
      (ms : List Message) (t : Messages)
      → (rollback_from commits before ms t).rows ≡ select (λ m. not (hits before ms m)) t.rows
  unfolding rollback_from
  rows-rollback_from [] t = sym (select-All (λ m. true) t.rows (always t.rows))
    where
      always : (ms : List Message) → All (λ m. true ≡ true) ms
      always [] = tt
      always (m ∷ ms) = (refl, always ms)
  rows-rollback_from (y ∷ ys) t =
      elim (is_new before y)
        as (λ b.
          (rollback_from commits before ys
            (if b then (delete_message commits y.id t).1 else t)).rows
          ≡ select (λ m. not ((b && m.id == y.id) || hits before ys m)) t.rows) [
            | true ↦
                rows-rollback_from ys (delete_message commits y.id t).1
                ∙ ap (select (λ m. not (hits before ys m))) (rows-delete_message y.id t)
                ∙ select_twice (λ m. not (hits before ys m)) (λ m. not (m.id == y.id)) t.rows
                ∙ select_same (λ m. not (m.id == y.id) && not (hits before ys m))
                    (λ m. not (m.id == y.id || hits before ys m)) (λ m. ground arith) t.rows
            | false ↦ rows-rollback_from ys t
          ]

-- every message has a number below the one given, or from it on
abbrev pub Below : ℕ → List Message → Type 0
Below n ms = All (λ m. m.id < n) ms

-- messages of the assistant with numbers from the one given on
abbrev pub Added : ℕ → List Message → Type 0
Added n ms = All (λ m. (is_assistant m.role ≡ true) × (n ≤ m.id)) ms

abbrev pub ids_of_assistant : List Message → List ℕ
ids_of_assistant ms = map (λ (m : Message). m.id) (select (λ m. is_assistant m.role) ms)

is_in-Below :
    (n : ℕ) (m : Message) (old : List Message)
    → Below n old
    → n ≤ m.id
    → is_in m.id (ids_of_assistant old) ≡ false
is_in-Below n m [] b h = refl
is_in-Below n m (x ∷ xs) b h = let rest = is_in-Below n m xs b.1 h in let low = b.0 in ground arith

is_new-added :
    (n : ℕ) (m : Message) (old : List Message)
    → Below n old
    → is_assistant m.role ≡ true
    → n ≤ m.id
    → is_new (ids_of_assistant old) m ≡ true
is_new-added n m old b a h = let fresh = is_in-Below n m old b h in rw (a, fresh) refl

-- what is there already is not new
abbrev Known : List ℕ → Message → Type 0
Known ids m = is_new ids m ≡ false

Known-more :
    (x : Message) (xs ms : List Message)
    → All (Known (ids_of_assistant xs)) ms
    → All (Known (ids_of_assistant (x ∷ xs))) ms
Known-more x xs [] h = tt
Known-more x xs (m ∷ ms) h = let known = h.0 in (ground arith, Known-more x xs ms h.1)

Known-All : (ms : List Message) → All (Known (ids_of_assistant ms)) ms
Known-All [] = tt
Known-All (x ∷ xs) = (ground (arith, ==_iff x.id x.id), Known-more x xs xs (Known-All xs))

hits-old :
    (before : List ℕ) (n : ℕ) (m : Message) (new : List Message)
    → m.id < n
    → Added n new
    → hits before new m ≡ false
hits-old before n m [] lt a = refl
hits-old before n m (y ∷ ys) lt a =
    let later = a.0.1 in
    let rest = hits-old before n m ys lt a.1 in ground (arith, ==_iff m.id y.id)

hits-Known :
    (before : List ℕ) (m : Message) (old new : List Message)
    → All (Known before) old
    → hits before (old ++ new) m ≡ hits before new m
hits-Known before m [] new k = refl
hits-Known before m (y ∷ ys) new k =
    let known = k.0 in let rest = hits-Known before m ys new k.1 in rw known rest

hits-more :
    (before : List ℕ) (y : Message) (new ms : List Message)
    → All (λ m. hits before new m ≡ true) ms
    → All (λ m. hits before (y ∷ new) m ≡ true) ms
hits-more before y new [] h = tt
hits-more before y new (m ∷ ms) h = let hit = h.0 in (ground arith, hits-more before y new ms h.1)

hits-new :
    (before : List ℕ) (new : List Message)
    → All (λ m. is_new before m ≡ true) new
    → All (λ m. hits before new m ≡ true) new
hits-new before [] h = tt
hits-new before (y ∷ ys) h =
    let new = h.0 in
    (ground (arith, ==_iff y.id y.id), hits-more before y ys ys (hits-new before ys h.1))

-- to change a property of all
All-map {ℓ κ μ} :
    {A : Type ℓ} {P : A → Type κ} {Q : A → Type μ} (f : (a : A) → P a → Q a) (xs : List A)
    → All P xs
    → All Q xs
All-map f [] h = tt
All-map f (x ∷ xs) h = (f x h.0, All-map f xs h.1)

module _ (commits : ℕ → Write) (works : (n : ℕ) → is_committed (commits n) ≡ true) where
  -- the messages that were added are taken away again
  pub rollback_restores :
      (n : ℕ) (old new : List Message) (t : Messages)
      → Below n old
      → Added n new
      → t.rows ≡ old ++ new
      → (rollback_from commits (ids_of_assistant old) (old ++ new) t).rows ≡ old
  rollback_restores n old new t b a e =
      let before = ids_of_assistant old in
      let gone = λ (m : Message). not (hits before (old ++ new) m) in
      let stay : All (λ m. gone m ≡ true) old =
        All-map
          (λ m lt.
            ap not (hits-Known before m old new (Known-All old) ∙ hits-old before n m new lt a))
          old b in
      let all_new : All (λ m. is_new before m ≡ true) new =
        All-map (λ m h. is_new-added n m old b h.0 h.1) new a in
      let leave : All (λ m. gone m ≡ false) new =
        All-map (λ m h. ap not (hits-Known before m old new (Known-All old) ∙ h)) new
          (hits-new before new all_new) in
      rows-rollback_from commits works before (old ++ new) t
      ∙ ap (select gone) e
      ∙ select-append gone old new
      ∙ ap (λ xs. xs ++ select gone new) (select-All gone old stay)
      ∙ ap (λ xs. old ++ xs) (select_none gone new leave)
      ∙ append-nil old
