-- ===== src/Ai/Models.antt =====
-- services/models/model_registry.py: which models may be asked for, and which one is taken. The prices of
-- an entry are left out. `title` is Python's `str.title`.
pub mod Listing
use recentthink_ai_be.Common.{
  ℕ, String, Bool, true, false, Option, none, some, List, [], ◌∷◌, Dict, lookup, insert, map,
  str_eq, not, ◌&&◌, ◌||◌, if◌then◌else◌,
}
use recentthink_ai_be.Common.Texts.{strip, split_commas}
use recentthink_ai_be.Ai.Client.Reading.{parse_provider}

pub record ModelCatalogEntry : Type 0 where
  pub id : String
  pub name : String
  pub provider : String
  pub description : Option String
  pub recommended : Bool
  pub enabled : Bool
  pub tier : Option String
  pub context_window : Option ℕ
  pub supports_vision : Bool
  pub supports_streaming : Bool

-- what is shown of a model
pub record ModelInfo : Type 0 where
  pub id : String
  pub name : String
  pub provider : String
  pub description : Option String
  pub recommended : Bool
  pub default : Bool
  pub enabled : Bool
  pub tier : Option String
  pub context_window : Option ℕ
  pub supports_vision : Bool
  pub supports_streaming : Bool

-- the settings that the registry reads, and its catalog
pub record ModelRegistry : Type 0 where
  pub openrouter_model : String
  pub available_models : String
  pub catalog : Dict ModelCatalogEntry

-- the reasons of a `ValidationException`
pub data ModelError : Type 0 where
  unknown_model disabled_model : ModelError

pub data Resolved : Type 0 where
  chosen : String → Resolved
  rejected : ModelError → Resolved

-- the loop of `_load_catalog`, from the entries that are dicts
unfoldable pub load_catalog :
    Dict ModelCatalogEntry → List ModelCatalogEntry → Dict ModelCatalogEntry
load_catalog entries [] = entries
load_catalog entries (entry ∷ items) = load_catalog (insert entry.id entry entries) items

abbrev pub stripped_items : List String → List String
stripped_items [] = []
stripped_items (item ∷ items) =
    let rest = stripped_items items in if str_eq (strip item) "" then rest else strip item ∷ rest

unfoldable pub configured_model_ids : ModelRegistry → List String
unfolding strip split_commas
configured_model_ids r = stripped_items (split_commas r.available_models)

-- `m in ms`
abbrev pub listed : String → List String → Bool
listed m [] = false
listed m (x ∷ xs) = str_eq x m || listed m xs

-- `entry is not None and not entry.enabled`
abbrev pub is_disabled : Option ModelCatalogEntry → Bool
is_disabled none = false
is_disabled (some entry) = not entry.enabled

-- `tier is not None and (entry is None or entry.tier != tier)`
abbrev pub of_other_tier : Option String → Option ModelCatalogEntry → Bool
of_other_tier none entry = false
of_other_tier (some t) none = true
of_other_tier (some t) (some entry) = elim entry.tier [ none ↦ true | some u ↦ not (str_eq u t) ]

unfoldable pub validate_model_id : ModelRegistry → String → Option ModelError
unfolding configured_model_ids
validate_model_id r m =
    if listed m (configured_model_ids r)
    then (if is_disabled (lookup m r.catalog) then some disabled_model else none)
    else some unknown_model

-- `enabled[0].id`, or the default
abbrev pub first_id : String → List ModelInfo → String
first_id default [] = default
first_id default (info ∷ infos) = info.id

abbrev pub validated : String → Option ModelError → Resolved
validated m none = chosen m
validated m (some e) = rejected e

-- the model that is asked for, if there is one
unfoldable pub asked : Option String → Option String → Option String
asked (some m) session_model_id = some m
asked none none = none
asked none (some m) = if str_eq m "" then none else some m

module _ (title : String → String) where
  unfoldable pub to_model_info : String → Option ModelCatalogEntry → String → ModelInfo
  unfolding parse_provider
  to_model_info model_id none default_model = record {
    id = model_id;
    name = model_id;
    provider = title (parse_provider model_id);
    description = none;
    recommended = false;
    default = str_eq model_id default_model;
    enabled = true;
    tier = none;
    context_window = none;
    supports_vision = false;
    supports_streaming = true;
  }
  to_model_info model_id (some entry) default_model = record {
    id = entry.id;
    name = entry.name;
    provider = entry.provider;
    description = entry.description;
    recommended = entry.recommended;
    default = str_eq entry.id default_model;
    enabled = entry.enabled;
    tier = entry.tier;
    context_window = entry.context_window;
    supports_vision = entry.supports_vision;
    supports_streaming = entry.supports_streaming;
  }

  -- the loop of `list_models`
  unfoldable pub list_from : ModelRegistry → Option String → List String → List ModelInfo
  unfolding to_model_info
  list_from r tier [] = []
  list_from r tier (m ∷ ms) =
      let rest = list_from r tier ms in
      if is_disabled (lookup m r.catalog) || of_other_tier tier (lookup m r.catalog)
      then rest
      else to_model_info m (lookup m r.catalog) r.openrouter_model ∷ rest

  unfoldable pub list_models : ModelRegistry → Option String → List ModelInfo
  unfolding list_from configured_model_ids
  list_models r tier = list_from r tier (configured_model_ids r)

  unfoldable pub resolve_default : ModelRegistry → String
  unfolding validate_model_id list_models
  resolve_default r =
      if listed r.openrouter_model (configured_model_ids r)
        && not (is_disabled (lookup r.openrouter_model r.catalog))
      then r.openrouter_model
      else first_id r.openrouter_model (list_models r none)

  unfoldable pub resolve_model_id : ModelRegistry → Option String → Option String → Resolved
  unfolding asked resolve_default validate_model_id
  resolve_model_id r requested session_model_id = elim (asked requested session_model_id) [
    | some m ↦ validated m (validate_model_id r m)
    | none ↦ chosen (resolve_default r)
  ]
