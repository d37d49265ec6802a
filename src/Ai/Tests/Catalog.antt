-- ===== src/Ai/Tests/Catalog.antt =====
-- A registry whose default model is disabled.
use recentthink_ai_be.Common.{◌≡◌, refl, String, Bool, true, false, none, some, List, [], ◌∷◌}
use recentthink_ai_be.Ai.Models.{
  ModelCatalogEntry, ModelRegistry, chosen, rejected, disabled_model, load_catalog, asked,
  resolve_model_id,
}
use recentthink_ai_be.Ai.Models.Listing.{Says, Keyed-load_catalog, resolve_model_id_agrees}

abbrev entry : String → Bool → ModelCatalogEntry
entry m enabled = record {
  id = m;
  name = m;
  provider = "P";
  description = none;
  recommended = false;
  enabled = enabled;
  tier = none;
  context_window = none;
  supports_vision = false;
  supports_streaming = true;
}

abbrev entries : List ModelCatalogEntry
entries = entry "deepseek/chat" false ∷ entry "openai/mini" true ∷ []

abbrev registry : ModelRegistry
registry = record {
  openrouter_model = "deepseek/chat";
  available_models = "deepseek/chat, openai/mini,";
  catalog = load_catalog [] entries;
}

abbrev title : String → String
title s = s

next_is_taken : resolve_model_id title registry none (some "") ≡ chosen "openai/mini"
unfolding resolve_model_id load_catalog
next_is_taken = refl

disabled_is_rejected :
    resolve_model_id title registry (some "deepseek/chat") none ≡ rejected disabled_model
unfolding resolve_model_id load_catalog
disabled_is_rejected = refl

resolve_model_id_agrees_example :
    Says title registry
      (some "deepseek/chat")
      (resolve_model_id title registry (some "deepseek/chat") none)
unfolding asked
resolve_model_id_agrees_example =
    resolve_model_id_agrees title registry (Keyed-load_catalog entries [] (λ m e h. absurd (cc)))
      (some "deepseek/chat") none
