-- ===== src/Gateway/Tests/Forwards.antt =====
-- A request that is passed on to a service which is busy at first.
use recentthink_ai_be.Common.{ℕ, zero, suc, ◌+◌, ◌*◌, ◌^◌, ◌≡◌, ◌⊎◌, refl, some, [], ◌∷◌, arith}
use recentthink_ai_be.Common.Tries.{waits, sum}
use recentthink_ai_be.Auth.Service.Jwt.{access_claims}
use recentthink_ai_be.Auth.Tests.Data.{env}
use recentthink_ai_be.Gateway.Types.{Response, denied, passed}
use recentthink_ai_be.Gateway.Guard.{enforce_session}
use recentthink_ai_be.Gateway.Retry.{Attempt, replied, Outcome, Link, retry, outcome_of}
use recentthink_ai_be.Gateway.Attempts.{Ran, wait_of, retry_ends}
use recentthink_ai_be.Gateway.Proxy.{
  Inbound, Forwarded, forwarded, request_id, refused, relayed, reply_to, ProxyConfig,
  proxy_to_upstream,
}
use recentthink_ai_be.Gateway.Forwarding.{proxy_ends}
use recentthink_ai_be.Gateway.Tests.{config, gate, request}

-- busy, and then there
abbrev busy_once : Forwarded → ℕ → Attempt
busy_once f zero = replied (record { status = 503; headers = []; content = "busy" })
busy_once f (suc n) =
    replied (record { status = 200; headers = ("te", "x") ∷ ("etag", "1") ∷ []; content = "hello" })

abbrev proxy : ProxyConfig
proxy = record { max_retries = 3; retry_base_delay = 100 }

abbrev link : Link
link = record { sends = 0; slept = [] }

-- two values of one parameter, and headers that are dropped
abbrev inbound : Inbound
inbound = record {
  incoming = request;
  method = "GET";
  body = "";
  headers = ("host", "gateway") ∷ ("accept", "text/html") ∷ ("te", "x") ∷ [];
  query = ("tag", "dp") ∷ ("tag", "graph") ∷ [];
  state_id = some "r1";
}

relays :
    (proxy_to_upstream env config proxy busy_once inbound "/x" gate link).0
    ≡ relayed 200 (("etag", "1") ∷ ("x-request-id", "r1") ∷ []) "hello"
unfolding proxy_to_upstream reply_to access_claims
relays = refl

retry_ends_example :
    (r : Ran
      (busy_once (forwarded inbound "/x"))
      100
      1
      3
      link
      (retry (busy_once (forwarded inbound "/x")) 3 100 link).0
      (retry (busy_once (forwarded inbound "/x")) 3 100 link).1)
    × (sum (waits (wait_of 100) 1 r.k) + 100 ≡ 100 * 2 ^ r.k)
retry_ends_example = retry_ends (busy_once (forwarded inbound "/x")) 3 100 link (omega arith)

proxy_ends_example :
    ((x : Response) × ((enforce_session env config request gate).0 ≡ denied x)
      × ((proxy_to_upstream env config proxy busy_once inbound "/x" gate link).0 ≡ refused x)
      × ((proxy_to_upstream env config proxy busy_once inbound "/x" gate link).2 ≡ link))
    ⊎ (((enforce_session env config request gate).0 ≡ passed tt)
        × ((o : Outcome) × (n : Ran
              (busy_once (forwarded inbound "/x"))
              100
              1
              3
              link
              o
              (proxy_to_upstream env config proxy busy_once inbound "/x" gate link).2)
            × ((proxy_to_upstream env config proxy busy_once inbound "/x" gate link).0
                ≡ reply_to "r1"
                    (outcome_of (busy_once (forwarded inbound "/x") (link.sends + n.k))))))
unfolding request_id
proxy_ends_example = proxy_ends env config proxy busy_once inbound "/x" gate link (omega arith)
