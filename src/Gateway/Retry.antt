-- ===== src/Gateway/Retry.antt =====
-- `_retry` of proxy/proxy.py: what is sent to a service again, how often, and after which waits.
use recentthink_ai_be.Common.{
  ℕ, zero, suc, ◌+◌, ◌-◌, ◌*◌, ◌^◌, String, Bool, true, false, List, [], ◌∷◌, ◌++◌, ◌==◌, ◌||◌, ltb,
  Dict, if◌then◌else◌,
}

-- the parts of an `httpx.Response`; the names of its headers are in small letters
pub record Upstream : Type 0 where
  pub status : ℕ
  pub headers : Dict String
  pub content : String

-- the exceptions of `httpx`: a timeout of the read, the others of `TransientExc`, and the rest
pub data Failure : Type 0 where
  read_timeout transient_failure other_failure : Failure

-- what a call of `send` brings
pub data Attempt : Type 0 where
  replied : Upstream → Attempt
  raised : Failure → Attempt

-- `unreachable` is the `RuntimeError` at the end of `_retry`
pub data Outcome : Type 0 where
  answered : Upstream → Outcome
  failed : Failure → Outcome
  unreachable : Outcome

-- the connection: how many requests were sent on it, and the waits between them
pub record Link : Type 0 where
  pub sends : ℕ
  pub slept : List ℕ

-- `_is_transient_status`
unfoldable pub is_transient_status : ℕ → Bool
is_transient_status code = code == 502 || code == 503 || code == 504

-- is the exception one of `TransientExc`?
unfoldable pub is_transient : Failure → Bool
is_transient other_failure = false
is_transient _ = true

-- may the attempt be made again?
unfoldable pub is_retryable : Attempt → Bool
unfolding is_transient_status is_transient
is_retryable (replied r) = is_transient_status r.status
is_retryable (raised e) = is_transient e

abbrev pub outcome_of : Attempt → Outcome
outcome_of (replied r) = answered r
outcome_of (raised e) = failed e

-- `await fn()`, counted
abbrev pub sent : Link → Link
sent l = record l { sends = l.sends + 1 }

abbrev pub sleep : ℕ → Link → Link
sleep d l = record l { slept = l.slept ++ d ∷ [] }

module _ (reply : ℕ → Attempt) (max_attempts base_delay : ℕ) where
  -- the `for` loop, of which `left` rounds are left
  unfoldable pub retry_from : ℕ → ℕ → Link → Outcome × Link
  unfolding is_retryable
  retry_from zero attempt l = (unreachable, l)
  retry_from (suc left) attempt l =
      let a = reply l.sends in
      let again = retry_from left (attempt + 1) (sleep (base_delay * 2 ^ (attempt - 1)) (sent l)) in
      if is_retryable a
      then (if ltb attempt max_attempts then again else (outcome_of a, sent l))
      else (outcome_of a, sent l)

  unfoldable pub retry : Link → Outcome × Link
  unfolding retry_from
  retry l = retry_from max_attempts 1 l
