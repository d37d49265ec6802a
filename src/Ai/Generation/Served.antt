-- ===== src/Ai/Generation/Served.antt =====
-- agents/shared/workflow/nodes.py `openrouter_node`: one request that is answered by the model, and a
-- later one with the same key.
use recentthink_ai_be.Common.{
  ℕ, ◌<◌, ◌≡◌, refl, sym, ap, ◌∙◌, String, true, false, Option, none, some, List, ◌∷◌, Dict, lookup,
  ◌&&◌, ◌||◌, str_eq, if◌then◌else◌,
}
use recentthink_ai_be.Ai.Json.{Json, object, fields}
use recentthink_ai_be.Ai.Sections.{is_requested, top_keys, nest_keys, allows}
use recentthink_ai_be.Ai.Merging.{is_one_of}
use recentthink_ai_be.Ai.Estimate.{Measures}
use recentthink_ai_be.Ai.Cache.Backing.{Backing, Laws, Entry}
use recentthink_ai_be.Ai.Cache.Provider
use recentthink_ai_be.Ai.Cache.Provider.{Provider, get_entry}
use recentthink_ai_be.Ai.Cache.Manager
use recentthink_ai_be.Ai.Cache.Manager.{CacheManager, CacheSettings, counted}
use recentthink_ai_be.Ai.Generation.Types.{Response, Checks}
use recentthink_ai_be.Ai.Generation.Loop.{generated, generate}
use recentthink_ai_be.Ai.Generation.Node.{
  Invocation, NodeResult, node_failed, filled, merged_payload, to_store, from_cache,
  try_openrouter_cache, finish, or_generate, openrouter_node, cached_dict,
}
use recentthink_ai_be.Ai.Generation.Reuse.{value-stored, later_hit}
use recentthink_ai_be.Ai.Generation.Stored.{
  raw_of, calls_of, working_whole, merged_whole, to_store_whole, to_store_part, to_store_prior,
  merged_kept,
}

module _ (b : Backing) where
  -- a look-up does not change the settings
  settings-counted :
      (elapsed : ℕ) (r : Option Json × Provider b) (m : CacheManager b)
      → (cached_dict b (counted b elapsed r m)).1.settings ≡ m.settings
  settings-counted elapsed (none, p) m = refl
  settings-counted elapsed (some v, p) m = refl

  settings-get :
      (now elapsed : ℕ) (key : String) (m : CacheManager b)
      → (cached_dict b (Manager.get b now elapsed key m)).1.settings ≡ m.settings
  unfolding Manager.get
  settings-get now elapsed key m =
      elim (m.settings.cache_enabled)
        as (λ t.
          (cached_dict b (
            if t
            then counted b elapsed (Provider.get b now key m.provider) m
            else (none, m))).1.settings
          ≡ m.settings) [
            | true ↦ settings-counted elapsed (Provider.get b now key m.provider) m
            | false ↦ refl
          ]

  settings-try :
      (now elapsed : ℕ) (inv : Invocation) (m : CacheManager b)
      → (try_openrouter_cache b now elapsed inv m).1.settings ≡ m.settings
  unfolding try_openrouter_cache
  settings-try now elapsed inv m =
      elim (inv.cache_key)
        as (λ o.
          (elim o as (λ o. Option (Dict Json) × CacheManager b) [
            | none ↦ (none, m)
            | some key ↦ cached_dict b (Manager.get b now elapsed key m)
          ]).1.settings
          ≡ m.settings) [ none ↦ refl | some key ↦ settings-get now elapsed key m ]

module _ (b : Backing) (laws : Laws b) (measures : Measures) (max_retries : ℕ) where
  after_miss :
      (checks : Checks) (complete : ℕ → ℕ → Option Response) (now elapsed later : ℕ)
      (inv : Invocation) (m : CacheManager b)
      → (try_openrouter_cache b now elapsed inv m).0 ≡ none
      → openrouter_node b measures checks complete max_retries now elapsed later inv m
        ≡ finish b measures node_failed later inv
            (generate checks complete inv.requested_sections max_retries inv.max_tokens)
            (try_openrouter_cache b now elapsed inv m).1
  unfolding openrouter_node
  after_miss checks complete now elapsed later inv m e =
      by_result (try_openrouter_cache b now elapsed inv m) e
    where
      by_result :
          (r : Option (Dict Json) × CacheManager b)
          → r.0 ≡ none
          → or_generate b measures checks complete max_retries later inv r
            ≡ finish b measures node_failed later inv
                (generate checks complete inv.requested_sections max_retries inv.max_tokens)
                r.1
      by_result (none, m') q = refl
      by_result (some d, m') q = cc

  module _ (checks : Checks) (complete later_complete : ℕ → ℕ → Option Response)
      (now elapsed stored_at found_at later_elapsed later_stored_at : ℕ) where
    -- the first request, and a later one, at another time and on the cache as it is then
    abbrev pub first : Invocation → CacheManager b → NodeResult × CacheManager b
    first inv m = openrouter_node b measures checks complete max_retries now elapsed stored_at inv m

    abbrev pub second : Invocation → CacheManager b → NodeResult × CacheManager b
    second later_inv later_m =
        openrouter_node b measures checks later_complete max_retries found_at later_elapsed
          later_stored_at later_inv later_m

    module _ (key : String) (inv later_inv : Invocation) (payload : Dict Json) (response : Response)
        (calls : ℕ) (m later_m : CacheManager b) where
      -- The first request is not in the cache, which is on, and the model answers it with the payload. The
      -- later request has the same key, and its cache, which is on too, still holds the item that the
      -- first request left under the key, before the second at which that expires.
      pub record Answers : Type 0 where
        pub on : m.settings.cache_enabled ≡ true
        pub key_of_first : inv.cache_key ≡ some key
        pub key_of_later : later_inv.cache_key ≡ some key
        pub missed : (try_openrouter_cache b now elapsed inv m).0 ≡ none
        pub answer :
            generate checks complete inv.requested_sections max_retries inv.max_tokens
            ≡ (generated payload response, calls)
        pub later_on : later_m.settings.cache_enabled ≡ true
        pub item : Entry
        pub left : b.find stored_at key (first inv m).1.provider.store ≡ some item
        pub held : b.find found_at key later_m.provider.store ≡ some item
        pub fresh : found_at < item.expires_at

      first-finish :
          Answers
          → first inv m
            ≡ finish b measures node_failed stored_at inv
                (generated payload response, calls)
                (try_openrouter_cache b now elapsed inv m).1
      first-finish a =
          after_miss checks complete now elapsed stored_at inv m a.missed
          ∙ ap
              (λ o.
                finish b measures node_failed stored_at inv o
                  (try_openrouter_cache b now elapsed inv m).1)
              a.answer

      first_raw : Answers → raw_of (first inv m).0 ≡ some (merged_payload inv payload)
      unfolding finish
      first_raw a = ap (λ (r : NodeResult × CacheManager b). raw_of r.0) (first-finish a)

      item-value : (a : Answers) → a.item.value ≡ object (fields (to_store inv payload))
      unfolding finish
      item-value a =
          value-stored b laws measures stored_at key inv payload
            (try_openrouter_cache b now elapsed inv m).1 a.item a.key_of_first
            (ap (λ (x : CacheSettings). x.cache_enabled) (settings-try b now elapsed inv m) ∙ a.on)
            (ap (λ (r : NodeResult × CacheManager b). b.find stored_at key r.1.provider.store)
                (sym (first-finish a))
              ∙ a.left)

      second-from_cache :
          (stored : Dict Json)
          → Answers
          → filled (some (to_store inv payload)) ≡ some stored
          → (second later_inv later_m).0 ≡ from_cache measures later_inv stored
      second-from_cache stored a e =
          later_hit b laws measures checks later_complete max_retries found_at later_elapsed
            later_stored_at key inv later_inv payload stored later_m a.item a.key_of_later
            a.later_on a.held a.fresh (item-value a) e

      served :
          (stored : Dict Json)
          → Answers
          → filled (some (to_store inv payload)) ≡ some stored
          → is_requested later_inv.requested_sections ≡ none
          → (raw_of (second later_inv later_m).0 ≡ some stored)
            × (calls_of (second later_inv later_m).0 ≡ some 0)
      unfolding from_cache
      served stored a e whole = (
        ap raw_of (second-from_cache stored a e) ∙ ap some (working_whole later_inv stored whole),
        ap calls_of (second-from_cache stored a e),
      )

      -- An answer that is not empty, generated for a request for all sections that an enabled cache
      -- had nothing for, is given again to a later request for all sections with the same key,
      -- without a call of the model, whatever the model would say then, at any time at which the
      -- cache is on and still holds the item that was stored, and the item has not expired.
      pub answer_reused :
          Answers
          → is_requested inv.requested_sections ≡ none
          → is_requested later_inv.requested_sections ≡ none
          → filled (some payload) ≡ some payload
          → (raw_of (first inv m).0 ≡ some payload)
            × (raw_of (second later_inv later_m).0 ≡ some payload)
            × (calls_of (second later_inv later_m).0 ≡ some 0)
      answer_reused a all whole there =
          let s =
            served payload a (ap (λ d. filled (some d)) (to_store_whole inv payload all) ∙ there)
              whole in
          (first_raw a ∙ ap some (merged_whole inv payload all), s.0, s.1)

      -- An answer that is not empty, generated for some sections for a client without a prior
      -- payload, is stored as it is, where an enabled cache had nothing for the request: a later
      -- request for all sections with the same key has only this for its answer, without a call of
      -- the model, at any time at which the cache is on and still holds the item that was stored,
      -- and the item has not expired.
      pub subset_served_as_whole :
          (sections : List String)
          → Answers
          → is_requested inv.requested_sections ≡ some sections
          → filled inv.prior_payload ≡ none
          → is_requested later_inv.requested_sections ≡ none
          → filled (some payload) ≡ some payload
          → (raw_of (second later_inv later_m).0 ≡ some payload)
            × (calls_of (second later_inv later_m).0 ≡ some 0)
      subset_served_as_whole sections a part fresh whole there =
          served payload a
            (ap (λ d. filled (some d)) (to_store_part inv payload sections part fresh) ∙ there)
            whole

      -- The prior payload of a client who asks for some sections, which an enabled cache has
      -- nothing for and the model answers, reaches other clients: a later request with the same
      -- key, for all sections, is answered with the prior payload's value of every key that was not
      -- asked for, the metadata that the model gave and the nested payloads apart, without a call
      -- of the model, if neither the prior payload nor its merge with the answer is empty, at any
      -- time at which the cache is on and still holds the item that was stored, and the item has
      -- not expired.
      pub prior_served_to_others :
          (s : String) (sections : List String) (prior : Dict Json) (other : String)
          → Answers
          → inv.requested_sections ≡ some (s ∷ sections)
          → inv.prior_payload ≡ some prior
          → filled (some prior) ≡ some prior
          → filled (some (merged_payload inv payload)) ≡ some (merged_payload inv payload)
          → is_requested later_inv.requested_sections ≡ none
          → is_one_of other nest_keys ≡ false
          → (str_eq "metadata" other || (is_one_of other top_keys && allows (s ∷ sections) other))
            ≡ false
          → (raw_of (second later_inv later_m).0 ≡ some (merged_payload inv payload))
            × (lookup other (merged_payload inv payload) ≡ lookup other prior)
            × (calls_of (second later_inv later_m).0 ≡ some 0)
      prior_served_to_others s sections prior other a part had full there whole outside kept =
          let stored =
            served (merged_payload inv payload) a
              (ap (λ d. filled (some d)) (to_store_prior inv payload s sections prior part had full)
                ∙ there)
              whole in
          (stored.0, merged_kept inv payload s sections prior other part had outside kept, stored.1)
