-- ===== src/Common/Tries.antt =====
-- Attempts one after another, with a wait between two: what a loop that tries again has done.
use Prim.Native.Nat.{ℕ, zero, suc, ◌+◌, ◌≤◌, ◌<◌}
use mathlib.Core.Path.{◌≡◌, refl, sym, ap, subst, ◌∙◌}
use mathlib.Core.Logic.{◌⊎◌, inl, inr}
use mathlib.Core.Bool.{Bool, true, false}
use mathlib.Core.List.{List, [], ◌∷◌, ◌++◌, append-nil, append_assoc}
use native.Mathlib.Omega.{arith}

-- the waits after the attempt and the `k` attempts from there on
unfoldable pub waits : (ℕ → ℕ) → ℕ → ℕ → List ℕ
waits wait attempt zero = []
waits wait attempt (suc k) = wait attempt ∷ waits wait (attempt + 1) k

abbrev pub sum : List ℕ → ℕ
sum [] = 0
sum (x ∷ xs) = x + sum xs

-- `k` attempts that could be made again, each with a wait after it, and one that could not or was the
-- last allowed, whose outcome is that of all; `sends` counts the attempts, and `slept` are the waits
pub record Tries {O : Type 0} (again : ℕ → Bool) (outcome : ℕ → O) (wait : ℕ → ℕ)
    (attempt allowed sends sends' : ℕ) (slept slept' : List ℕ) (o : O) : Type 0 where
  pub k : ℕ
  pub counted : sends' ≡ sends + suc k
  pub within : suc k ≤ allowed
  pub earlier : (j : ℕ) → j < k → again (sends + j) ≡ true
  pub last : o ≡ outcome (sends + k)
  pub stopped : (again (sends + k) ≡ false) ⊎ (suc k ≡ allowed)
  pub waited : slept' ≡ slept ++ waits wait attempt k

module _ {O : Type 0} (again : ℕ → Bool) (outcome : ℕ → O) (wait : ℕ → ℕ) where
  pub Tries-one :
      (attempt left sends : ℕ) (slept : List ℕ)
      → (again sends ≡ false) ⊎ (left ≡ 0)
      → Tries again outcome wait attempt (suc left) sends (sends + 1) slept slept (outcome sends)
  unfolding waits
  Tries-one attempt left sends slept h =
      let here : sends ≡ sends + 0 = omega arith in
      record {
        k = 0;
        counted = refl;
        within = omega arith;
        earlier = λ j lt. absurd (omega arith);
        last = ap outcome here;
        stopped = subst (λ n. (again n ≡ false) ⊎ (1 ≡ suc left)) here (ground arith);
        waited = sym (append-nil slept);
      }

  pub Tries-more :
      (attempt left sends sends' : ℕ) (slept slept' : List ℕ) (o : O)
      → again sends ≡ true
      → Tries again outcome wait
          (attempt + 1)
          left
          (sends + 1)
          sends'
          (slept ++ wait attempt ∷ [])
          slept'
          o
      → Tries again outcome wait attempt (suc left) sends sends' slept slept' o
  unfolding waits
  Tries-more attempt left sends sends' slept slept' o more t =
      let later : (j : ℕ) → sends + 1 + j ≡ sends + suc j = λ j. omega arith in
      record {
        k = suc t.k;
        counted = t.counted ∙ omega arith;
        within = omega (arith, t.within);
        earlier = λ j lt.
            elim j as (λ j. j < suc t.k → again (sends + j) ≡ true) [
              | zero ↦ λ _. subst (λ n. again n ≡ true) (omega arith) more
              | suc i ↦ λ lt. subst (λ n. again n ≡ true) (later i) (t.earlier i (omega arith))
            ]
              lt;
        last = t.last ∙ ap outcome (later t.k);
        stopped =
            subst (λ n. (again n ≡ false) ⊎ (suc (suc t.k) ≡ suc left)) (later t.k)
              (elim t.stopped [ inl a ↦ inl a | inr b ↦ inr (omega arith) ]);
        waited = t.waited ∙ append_assoc slept (wait attempt ∷ []) (waits wait (attempt + 1) t.k);
      }

-- waits that double add up to one less than the next
pub sum-waits :
    (wait : ℕ → ℕ) (attempt k : ℕ)
    → ((j : ℕ) → wait (suc (attempt + j)) ≡ wait (attempt + j) + wait (attempt + j))
    → sum (waits wait attempt k) + wait attempt ≡ wait (attempt + k)
unfolding waits
sum-waits wait attempt zero doubles =
    let same : wait attempt ≡ wait (attempt + 0) = ap wait (omega arith) in omega (arith, same)
sum-waits wait attempt (suc k) doubles =
    let moved : (j : ℕ) → attempt + suc j ≡ attempt + 1 + j = λ j. omega arith in
    let once : wait (attempt + 1) ≡ wait attempt + wait attempt =
      ap wait {x = attempt + 1} {y = suc (attempt + 0)} (omega arith)
      ∙ doubles 0
      ∙ ap (λ n. wait n + wait n) {x = attempt + 0} {y = attempt} (omega arith) in
    let rest =
      sum-waits wait (attempt + 1) k
        (λ j. subst (λ n. wait (suc n) ≡ wait n + wait n) (moved j) (doubles (suc j))) in
    omega (arith, once, rest, ap wait (moved k))
