-- ===== src/Ai/Models/Listing.antt =====
-- services/models/model_registry.py: that the list of models, their validation and the choice agree.
use recentthink_ai_be.Common.{
  ◌≡◌, refl, sym, subst, String, true, false, Option, none, some, List, [], ◌∷◌, Dict, lookup,
  insert, lookup-insert_if, str_eq, eq_iff, not, ◌&&◌, ◌⊎◌, inl, inr, Bool-cases, arith,
}
use recentthink_ai_be.Ai.Models.{
  ModelCatalogEntry, ModelInfo, ModelRegistry, ModelError, unknown_model, disabled_model, Resolved,
  chosen, rejected, load_catalog, configured_model_ids, listed, is_disabled, validate_model_id,
  to_model_info, list_from, list_models, first_id, validated, asked, resolve_default,
  resolve_model_id,
}

-- every entry stands under its own identifier
abbrev pub Keyed : Dict ModelCatalogEntry → Type 0
Keyed catalog =
    (m : String) (entry : ModelCatalogEntry) → lookup m catalog ≡ some entry → entry.id ≡ m

Keyed-insert :
    (entry : ModelCatalogEntry) (d : Dict ModelCatalogEntry)
    → Keyed d
    → Keyed (insert entry.id entry d)
Keyed-insert entry d k m e h = elim (Bool-cases (str_eq entry.id m)) [
  | inl same ↦ ground (arith, h, same, lookup-insert_if entry.id m entry d, eq_iff entry.id m)
  | inr other ↦ k m e (ground (arith, h, other, lookup-insert_if entry.id m entry d))
]

pub Keyed-load_catalog :
    (items : List ModelCatalogEntry) (d : Dict ModelCatalogEntry)
    → Keyed d
    → Keyed (load_catalog d items)
unfolding load_catalog
Keyed-load_catalog [] d k = k
Keyed-load_catalog (entry ∷ items) d k =
    Keyed-load_catalog items (insert entry.id entry d) (Keyed-insert entry d k)

-- the identifiers that are listed
abbrev pub ids : List ModelInfo → List String
ids [] = []
ids (info ∷ infos) = info.id ∷ ids infos

module _ (title : String → String) (r : ModelRegistry) where
  -- what is said of a choice, given the model that was asked for
  abbrev pub Says : Option String → Resolved → Type 0
  Says (some a) (chosen m) = (m ≡ a) × (listed m (ids (list_models title r none)) ≡ true)
  Says (some a) (rejected e) = listed a (ids (list_models title r none)) ≡ false
  Says none (chosen m) =
      (listed m (ids (list_models title r none)) ≡ true)
      ⊎ ((m ≡ r.openrouter_model) × (list_models title r none ≡ []))
  Says none (rejected e) = true ≡ false

module _ (title : String → String) (r : ModelRegistry) (keyed : Keyed r.catalog) where
  id-to_model_info :
      (m : String) → (to_model_info title m (lookup m r.catalog) r.openrouter_model).id ≡ m
  unfolding to_model_info
  id-to_model_info m = says (lookup m r.catalog) refl
    where
      says :
          (o : Option ModelCatalogEntry)
          → lookup m r.catalog ≡ o
          → (to_model_info title m o r.openrouter_model).id ≡ m
      says none e = refl
      says (some entry) e = keyed m entry e

  listed-list_from :
      (m : String) (ms : List String)
      → listed m (ids (list_from title r none ms))
        ≡ (listed m ms && not (is_disabled (lookup m r.catalog)))
  unfolding list_from
  listed-list_from m [] = refl
  listed-list_from m (x ∷ xs) = elim (Bool-cases (str_eq x m)) [
    | inl same ↦
        let e : x ≡ m = (eq_iff x m).0 same in
        ground (arith, e, same, id-to_model_info x, listed-list_from m xs)
    | inr other ↦ ground (arith, other, id-to_model_info x, listed-list_from m xs)
  ]

  -- a model is valid exactly if it is listed
  listed-list_models :
      (m : String)
      → ((validate_model_id r m ≡ none) × (listed m (ids (list_models title r none)) ≡ true))
        ⊎ (((e : ModelError) × (validate_model_id r m ≡ some e))
            × (listed m (ids (list_models title r none)) ≡ false))
  unfolding list_models validate_model_id
  listed-list_models m = elim (Bool-cases (listed m (configured_model_ids r))) [
    | inr out ↦ inr (
      (unknown_model, ground (arith, out)),
      ground (arith, out, listed-list_from m (configured_model_ids r)),
    )
    | inl there ↦ elim (Bool-cases (is_disabled (lookup m r.catalog))) [
      | inl off ↦ inr (
        (disabled_model, ground (arith, there, off)),
        ground (arith, there, off, listed-list_from m (configured_model_ids r)),
      )
      | inr on ↦ inl (
        ground (arith, there, on),
        ground (arith, there, on, listed-list_from m (configured_model_ids r)),
      )
    ]
  ]

  Says-validated : (m : String) → Says title r (some m) (validated m (validate_model_id r m))
  Says-validated m = elim (listed-list_models m) [
    | inl (v, l) ↦ subst (λ o. Says title r (some m) (validated m o)) (sym v) (refl, l)
    | inr ((e, v), l) ↦ subst (λ o. Says title r (some m) (validated m o)) (sym v) l
  ]

  Says-first_id :
      (infos : List ModelInfo)
      → (listed (first_id r.openrouter_model infos) (ids infos) ≡ true)
        ⊎ ((first_id r.openrouter_model infos ≡ r.openrouter_model) × (infos ≡ []))
  Says-first_id [] = inr (refl, refl)
  Says-first_id (info ∷ infos) = inl (ground (arith, eq_iff info.id info.id))

  Says-resolve_default : Says title r none (chosen (resolve_default title r))
  unfolding resolve_default validate_model_id
  Says-resolve_default =
      let valid =
        listed r.openrouter_model (configured_model_ids r)
        && not (is_disabled (lookup r.openrouter_model r.catalog)) in
      elim (Bool-cases valid) [
        | inl fits ↦ elim (listed-list_models r.openrouter_model) [
          | inl (v, l) ↦
              subst (λ m. Says title r none (chosen m)) (sym (ground (arith, fits))) (inl l)
          | inr ((e, v), l) ↦ absurd (ground (arith, fits, v))
        ]
        | inr unfit ↦
            subst (λ m. Says title r none (chosen m)) (sym (ground (arith, unfit)))
              (Says-first_id (list_models title r none))
      ]

  -- In a registry whose entries stand under their own identifiers, as those of a loaded catalog do, the
  -- choice of a model agrees with the list of models that is shown: a model that is asked for, by the
  -- request or else by the session, is taken if it is listed and rejected if it is not. If none is
  -- asked for, nothing is rejected, and the model taken is listed, or it is the default and no model
  -- at all is listed.
  pub resolve_model_id_agrees :
      (requested session_model_id : Option String)
      → Says title r
          (asked requested session_model_id)
          (resolve_model_id title r requested session_model_id)
  unfolding resolve_model_id
  resolve_model_id_agrees requested session_model_id =
      elim (asked requested session_model_id)
        as (λ o. Says title r o (elim o [
          | some m ↦ validated m (validate_model_id r m)
          | none ↦ chosen (resolve_default title r)
        ])) [ none ↦ Says-resolve_default | some m ↦ Says-validated m ]
