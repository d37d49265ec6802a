-- ===== src/Gateway/Proxy.antt =====
-- proxy/proxy.py and proxy/constants.py; the service behind is a parameter.
use recentthink_ai_be.Common.{
  ℕ, String, Bool, false, Option, none, some, List, [], ◌∷◌, ◌||◌, str_eq, if◌then◌else◌, Dict,
  lookup, insert,
}
use recentthink_ai_be.Auth.Action.{Env}
use recentthink_ai_be.Gateway.Types.{Response, Gate, Verdict, denied, passed}
use recentthink_ai_be.Gateway.Guard.{Config, Incoming, enforce_session}
use recentthink_ai_be.Gateway.Retry.{
  read_timeout, transient_failure, other_failure, Attempt, Outcome, answered, failed, unreachable,
  Link, retry,
}

-- `HOP_BY_HOP_HEADERS`
abbrev pub hop_by_hop_headers : List String
hop_by_hop_headers =
    "connection" ∷ "keep-alive" ∷ "proxy-authenticate" ∷ "proxy-authorization" ∷ "te" ∷ "trailers"
    ∷ "transfer-encoding" ∷ "upgrade" ∷ []

abbrev pub is_in : List String → String → Bool
is_in [] s = false
is_in (x ∷ xs) s = str_eq s x || is_in xs s

-- `REQUEST_ID_HEADER` in small letters
abbrev pub request_id_header : String
request_id_header = "x-request-id"

-- the headers with no name for which the test holds, later ones replacing earlier ones
unfoldable pub filtered : (String → Bool) → Dict String → Dict String → Dict String
filtered skip [] headers = headers
filtered skip ((k, v) ∷ rest) headers =
    filtered skip rest (if skip k then headers else insert k v headers)

-- `_filtered_request_headers`
unfoldable pub filtered_request_headers : Dict String → Dict String
unfolding filtered
filtered_request_headers headers =
    filtered (λ k. is_in hop_by_hop_headers k || is_in ("host" ∷ "content-length" ∷ []) k) headers
      []

-- `_filtered_response_headers`
unfoldable pub filtered_response_headers : Dict String → Dict String
unfolding filtered
filtered_response_headers headers =
    filtered (λ k. is_in hop_by_hop_headers k || is_in ("content-length" ∷ []) k) headers []

-- a request with its headers, the names in small letters, its query parameters, of which a name may
-- stand more than once, and what the middleware put on its state
pub record Inbound : Type 0 where
  pub incoming : Incoming
  pub method : String
  pub body : String
  pub headers : Dict String
  pub query : Dict String
  pub state_id : Option String

-- a text that is present and not empty
unfoldable pub present : Option String → Option String
present none = none
present (some s) = if str_eq s "" then none else some s

-- the first that is present, or the empty text
abbrev pub first_text : Option String → Option String → String
first_text (some s) o = s
first_text none (some s) = s
first_text none none = ""

-- `_request_id`
unfoldable pub request_id : Inbound → String
unfolding present
request_id r = first_text (present r.state_id) (present (lookup request_id_header r.headers))

abbrev pub with_request_id : String → Dict String → Dict String
with_request_id id headers = if str_eq id "" then headers else insert request_id_header id headers

-- what is sent on to the service
pub record Forwarded : Type 0 where
  pub method : String
  pub path : String
  pub params : Dict String
  pub body : String
  pub headers : Dict String

-- `dict(request.query_params)`
unfoldable pub as_dict : Dict String → Dict String
unfolding filtered
as_dict query = filtered (λ _. false) query []

unfoldable pub forwarded : Inbound → String → Forwarded
unfolding filtered_request_headers request_id as_dict
forwarded r upstream_path = record {
  method = r.method;
  path = upstream_path;
  params = as_dict r.query;
  body = r.body;
  headers = with_request_id (request_id r) (filtered_request_headers r.headers);
}

-- The end of a request: the guard's refusal, the service's answer, an error response, or an exception.
pub data Reply : Type 0 where
  refused : Response → Reply
  relayed : ℕ → Dict String → String → Reply
  error_reply : ℕ → String → Reply
  crashed : Reply

unfoldable pub reply_to : String → Outcome → Reply
unfolding filtered_response_headers
reply_to id (answered u) =
    relayed u.status (with_request_id id (filtered_response_headers u.headers)) u.content
reply_to id (failed read_timeout) = error_reply 504 "Gateway Timeout"
reply_to id (failed transient_failure) = error_reply 502 "Bad Gateway"
reply_to id (failed other_failure) = crashed
reply_to id unreachable = crashed

-- the retry settings of core/config.py
pub record ProxyConfig : Type 0 where
  pub max_retries : ℕ
  pub retry_base_delay : ℕ

module _ (env : Env) (config : Config) (proxy : ProxyConfig)
    (service : Forwarded → ℕ → Attempt) where
  unfoldable pub forward : Inbound → String → Link → Reply × Link
  unfolding forwarded reply_to request_id retry
  forward r upstream_path l =
      let (o, l') =
        retry (service (forwarded r upstream_path)) proxy.max_retries proxy.retry_base_delay l in
      (reply_to (request_id r) o, l')

  abbrev pub unless_denied : Verdict (Unit {0}) → Link → Reply × Link → Reply × Link
  unless_denied (denied r) l next = (refused r, l)
  unless_denied (passed _) l next = next

  -- `proxy_to_upstream`
  unfoldable pub proxy_to_upstream : Inbound → String → Gate → Link → Reply × Gate × Link
  unfolding enforce_session forward
  proxy_to_upstream r upstream_path g l =
      let (v, g') = enforce_session env config r.incoming g in
      let (reply, l') = unless_denied v l (forward r upstream_path l) in (reply, g', l')
