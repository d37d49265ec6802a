-- ===== src/Gateway/Forwarding.antt =====
-- What `proxy_to_upstream` sends on, and how a request ends.
use recentthink_ai_be.Common.{
  ℕ, ◌+◌, ◌<◌, String, Bool, true, false, Option, none, some, [], ◌∷◌, ◌≡◌, ◌≢◌, ap, ◌⊎◌, inl, inr,
  arith, refl, ◌||◌, str_eq, eq_iff, if◌then◌else◌, Dict, lookup, insert, lookup-insert_if,
}
use recentthink_ai_be.Auth.Action.{Env}
use recentthink_ai_be.Gateway.Types.{Response, Gate, denied, passed}
use recentthink_ai_be.Gateway.Guard.{Config, enforce_session}
use recentthink_ai_be.Gateway.Admission.{Verdict-cases}
use recentthink_ai_be.Gateway.Retry.{Attempt, Outcome, Link, outcome_of}
use recentthink_ai_be.Gateway.Attempts.{Ran, retry_ends}
use recentthink_ai_be.Gateway.Proxy.{
  filtered, as_dict, Inbound, Forwarded, forwarded, request_id, request_id_header,
  filtered_request_headers, hop_by_hop_headers, is_in, Reply, refused, reply_to, ProxyConfig,
  forward, proxy_to_upstream,
}

-- the value of the last item with the name
abbrev pub last_of : String → Dict String → Option String
last_of key [] = none
last_of key ((k, v) ∷ d) = elim (last_of key d) [
  | some x ↦ some x
  | none ↦ if str_eq k key then some v else none
]

abbrev or_else : Option String → Option String → Option String
or_else (some x) o = some x
or_else none o = o

lookup-filtered :
    (skip : String → Bool) (key : String) (items d : Dict String)
    → skip key ≡ false
    → lookup key (filtered skip items d) ≡ or_else (last_of key items) (lookup key d)
unfolding filtered
lookup-filtered skip key [] d h = refl
lookup-filtered skip key ((k, v) ∷ items) d h = ground (
  arith,
  eq_iff k key,
  lookup-insert_if k key v d,
  lookup-filtered skip key items d h,
  lookup-filtered skip key items (insert k v d) h,
)

lookup-filtered_skipped :
    (skip : String → Bool) (key : String) (items d : Dict String)
    → skip key ≡ true
    → lookup key (filtered skip items d) ≡ lookup key d
unfolding filtered
lookup-filtered_skipped skip key [] d h = refl
lookup-filtered_skipped skip key ((k, v) ∷ items) d h = ground (
  arith,
  eq_iff k key,
  lookup-insert_if k key v d,
  lookup-filtered_skipped skip key items d h,
  lookup-filtered_skipped skip key items (insert k v d) h,
)

filtered_from_nothing :
    (skip : String → Bool) (key : String) (items : Dict String)
    → lookup key (filtered skip items []) ≡ (if skip key then none else last_of key items)
filtered_from_nothing skip key items =
    ground (arith, lookup-filtered skip key items [], lookup-filtered_skipped skip key items [])

-- the names that are not passed on
abbrev pub is_dropped : String → Bool
is_dropped k = is_in hop_by_hop_headers k || is_in ("host" ∷ "content-length" ∷ []) k

-- What is sent to the service has, for each name of a header that is not dropped, the last value of
-- that name in the request, for the dropped ones none, and for the request's identifier, where it is
-- not empty, that. Of each query parameter it has the last value.
pub forwarded-lookup :
    (r : Inbound) (path key : String)
    → (key ≢ request_id_header)
    → (lookup key (forwarded r path).headers
        ≡ (if is_dropped key then none else last_of key r.headers))
      × (lookup request_id_header (forwarded r path).headers ≡ (
          if str_eq (request_id r) ""
          then last_of request_id_header r.headers
          else some (request_id r)))
      × (lookup key (forwarded r path).params ≡ last_of key r.query)
unfolding forwarded as_dict filtered_request_headers
forwarded-lookup r path key other = (
  ground (
    arith,
    lookup-insert_if request_id_header key (request_id r) (filtered_request_headers r.headers),
    eq_iff request_id_header key,
    filtered_from_nothing is_dropped key r.headers,
  ),
  ground (
    arith,
    lookup-insert_if request_id_header request_id_header (request_id r)
        (filtered_request_headers r.headers),
    filtered_from_nothing is_dropped request_id_header r.headers,
  ),
  filtered_from_nothing (λ _. false) key r.query,
)

module _ (env : Env) (config : Config) (proxy : ProxyConfig) (service : Forwarded → ℕ → Attempt)
    (r : Inbound) (path : String) (g : Gate) (l : Link) where
  -- how a request that was not denied ends
  abbrev Relays : Reply → Link → Type 0
  Relays reply l' =
      (o : Outcome) × (n : Ran (service (forwarded r path)) proxy.retry_base_delay 1
        proxy.max_retries l o l')
      × (reply ≡ reply_to (request_id r) (outcome_of (service (forwarded r path) (l.sends + n.k))))

  denied_ends :
      (x : Response)
      → (enforce_session env config r.incoming g).0 ≡ denied x
      → ((proxy_to_upstream env config proxy service r path g l).0 ≡ refused x)
        × ((proxy_to_upstream env config proxy service r path g l).2 ≡ l)
  unfolding proxy_to_upstream
  denied_ends x d = (ground (arith, d), ground (arith, d))

  passed_forwards :
      (enforce_session env config r.incoming g).0 ≡ passed tt
      → ((proxy_to_upstream env config proxy service r path g l).0
          ≡ (forward env config proxy service r path l).0)
        × ((proxy_to_upstream env config proxy service r path g l).2
            ≡ (forward env config proxy service r path l).1)
  unfolding proxy_to_upstream
  passed_forwards d = (ground (arith, d), ground (arith, d))

  forward-Relays :
      0 < proxy.max_retries
      → Relays
          (forward env config proxy service r path l).0
          (forward env config proxy service r path l).1
  unfolding forward
  forward-Relays some_allowed =
      let (n, _) =
        retry_ends (service (forwarded r path)) proxy.max_retries proxy.retry_base_delay l
          some_allowed in
      (_, n, ap (reply_to (request_id r)) n.last)

  -- With at least one attempt allowed, a request ends in one of two ways. The session guard denies it,
  -- and nothing is sent to the service. Or the guard passes it, the request is sent between one time
  -- and as often as is allowed, each time but the last with a transient outcome, and the answer is
  -- made from the outcome of the last.
  pub proxy_ends :
      0 < proxy.max_retries
      → ((x : Response) × ((enforce_session env config r.incoming g).0 ≡ denied x)
          × ((proxy_to_upstream env config proxy service r path g l).0 ≡ refused x)
          × ((proxy_to_upstream env config proxy service r path g l).2 ≡ l))
        ⊎ (((enforce_session env config r.incoming g).0 ≡ passed tt)
            × Relays
                (proxy_to_upstream env config proxy service r path g l).0
                (proxy_to_upstream env config proxy service r path g l).2)
  proxy_ends some_allowed = elim (Verdict-cases (enforce_session env config r.incoming g).0) [
    | inr (x, d) ↦ let (a, b) = denied_ends x d in inl (x, d, a, b)
    | inl (_, p) ↦
        let (a, b) = passed_forwards p in inr (p, rw (a, b) (forward-Relays some_allowed))
  ]
