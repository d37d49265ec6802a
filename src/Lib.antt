-- ===== src/Lib.antt =====
-- RecentThink: the Auth Service with its accounts, sessions, tokens and passwords, the gateway before
-- the services, and of the AI service the workflow that answers a request, with its cache.
--
-- The program is a set of HTTP services over PostgreSQL. The Auth Service holds the
-- users and their tokens. Its routes (services/auth_service/app/api) call service classes
-- (services/auth_service/app/services), which call repositories (.../app/repositories) on the
-- SQLAlchemy session of the request; the classes of shared/exceptions are its failures.
--
-- The gateway (services/gateway/app) asks it for the state of a user before it forwards a request. The AI
-- service (services/ai_service/app) asks a language model for an answer in JSON, keeps answers in a
-- cache, merges single sections into what a client has, and stores a message for each part.
--
-- Which file is about which code, below services/auth_service/app:
--   Auth.Model        models/*.py: `User`, `RefreshToken`, and the two one-time tokens, as rows
--   Auth.Action       how a method runs: the world, the exceptions, the session, what is outside
--   Auth.Fields       the keyword arguments of `UserRepository.update_user`
--   Auth.Repo.*       repositories/{user,refresh_token,password_reset,email_verification}_repository.py
--   Auth.Service.Session       services/auth_service.py, services/admin_auth_service.py
--   Auth.Service.Jwt           services/jwt_service.py and shared/security/jwt.py
--   Auth.Service.Verification  services/{email_verification_service,one_time_token_validation}.py
--   Auth.Service.Reset, Password  services/password_reset_service.py, password_management_service.py
--   Auth.Service.Account, Admin   services/account_service.py, admin_user_management_service.py
--   Auth.Service.State, Seed      services/user_state_{service,cache}.py, super_admin_seed_service.py
--   Auth.Access       dependencies/auth.py
--   Auth.Request      api/*.py: the routes, and requests one after another
--   Auth.Store        the changes of the tables that the service allows, as a step relation, and the
--                     theorems on sequences of requests
--   Auth.Tests        a small database on which the theorems are used
--   the other files of Auth have the theorems on one service each; Common has the shared lemmas
--
-- and below services/gateway/app/auth:
--   Gateway.Guard, Header   session_guard.py
--   Gateway.Paths           allowlist.py
--   Gateway.Cache, Types    user_state_cache.py
--   Gateway.Client          user_state_client.py
--   Gateway.Admission, Expiry, Staleness, Scheme   theorems on the guard, its cache and the bearer header
--   Gateway.Blocked         the two services together
--   Gateway.Retry, Proxy    ../proxy/proxy.py and constants.py
--   Gateway.Attempts, Forwarding   theorems on the retries and on what is sent on
--
-- and below services/ai_service/app:
--   Ai.Json           dicts and lists of JSON, and Python's tests on them
--   Ai.Sections, Estimate   utils/section_tokens.py; the theorems are in Allocation, Occurrences, Fairness
--                     (the tokens), Merging, Children and Nests (the merge)
--   Ai.Tokens         core/feature_tokens.py, and what graph.py and nodes.py do with it
--   Ai.Cache.Backing  what is used of cachetools.TTLCache, as an interface with laws
--   Ai.Cache.Provider, Manager      cache/memory_cache.py; cache_manager.py and cache_statistics.py
--   Ai.Cache.Segments, Keys         cache/cache_keys.py; Distinct has the theorem
--   Ai.Cache.Promise, Calls         what a cache promises, and calls one after another; Refinement,
--                     Promised, Counters and Reading have the theorems
--   Ai.Generation.Types, Loop, Node  agents/shared/workflow/nodes.py up to the answer, llm_invocation.py
--                     and the `LLMResponse` of clients/openrouter.py; Ending, Reuse, Stored and Served
--                     have the theorems
--   Ai.Client.Types, Reading, Completion  clients/openrouter.py: `chat_completion`; Ending has the theorem
--   Ai.Models         services/models/model_registry.py; Listing has the theorem
--   Ai.Workflow.Types, Modules, Pipeline  nodes.py after the answer, models/enums.py
--   Ai.Workflow.Messages            repositories/ai_message_repository.py, for one session
--   Ai.Workflow.Stream              what graph.py `execute_stream` does with these messages
--   Ai.Workflow.Rollback, Cancelling, Streaming, Accounting, Completion  the theorems on a run of the
--                     modules and on a stream
--   Ai.Tests          payloads, caches and requests on which the theorems are used
--
-- A method is a function from a world to a result and a world; what it did before it raised stays done.
-- A world has the committed tables (`db`) and those that the request's transaction sees (`session`):
-- a statement changes the second, a commit copies it to the first, a rollback copies back. A table
-- is the list of its rows in the order of insertion, `scalar` gives the first row that matches, and
-- each statement of the source is one function on the tables. Each call of the database may fail:
-- `fault n` says whether and how the n-th does, so a theorem for all environments covers a failure
-- at every call. Reads under a transaction see its own writes (`autoflush` is off, and `update_user`
-- flushes). A commit copies all of `session`: two requests at once are not modelled, and neither is a
-- uniqueness violation other than as a call that fails with `integrity`.
--
-- Identifiers are numbers: `uuid4` gives the number of the draw from the random source, so they are
-- fresh. Random tokens, hashes, signatures and texts of UUIDs are parameters (`Env`), and so are the
-- settings and the mail transport. An instant is a number of microseconds, also where the source has
-- float seconds; it is constant during a request. `IsCodec` states what PyJWT and `uuid` document.
--
-- The guard is a function on a gate: the time of day, the monotonic clock and the cached states. What
-- the Auth Service answers to a lookup is a parameter; Gateway.Blocked puts the modelled answer there.
-- The proxy's `_retry`, the client's loop over its posts and the loops over the model's answers are
-- `for` loops over a range: the model recurs on the rounds that are left, so it does all of them and
-- no more. Nothing else needs fuel.
--
-- The names of headers arrive in small letters and the method in capitals, as ASGI gives them. A wait of
-- the proxy or the client is a number of its base's unit. What a service or the language model answers is a
-- function of the number of calls before, so it may change from call to call; an answer may be an
-- exception. A dict is the list of its items in the order of insertion. `lower` is that of ASCII and
-- `strip` that of Latin-1. A share of tokens is rounded down as whole numbers are divided, which is what
-- `int` makes of the source's quotient as long as the product of tokens and weight is below 2 ^ 53; the
-- loss to rounding by which the shares are sorted is a parameter, so the theorems hold for any order.
-- `base * 1.75` is exact below 2 ^ 50, and the other scale a parameter. The cache is given the second of
-- each call; its store may drop items at any time, as the laws of Ai.Cache.Backing say. The checks of a
-- payload, and how a module formats its part, are parameters: no theorem asks anything of them.
--
-- Not modelled: logging, security events, rate limits and response bodies; the text of messages; the
-- HTTP calls that purge a deleted account elsewhere (they are recorded); the expiry and eviction of
-- the Auth Service's cache of user states; the listings for administrators; streamed bodies in the
-- proxy; of the AI service the prompts, the parsing of a streamed answer, the planner's plan, the agents of
-- the features, sessions and memory, costs, times and traces; the user, admin and usage services.
pub mod Ai
pub mod Auth
pub mod Common
pub mod Gateway
