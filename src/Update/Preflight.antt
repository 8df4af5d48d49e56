-- ===== src/Update/Preflight.antt =====
-- _preflight_validate_graph_delta_entities of core.py: the check of step ten on the entities, with
-- the contexts of types that were fetched before.
pub mod Cached
use exobrain.Prelude.{
  ℕ, length, String, Bool, true, false, Option, none, some, List, [], ◌∷◌, ◌==◌, if◌then◌else◌,
}
use exobrain.Prelude.Dict
use exobrain.Prelude.Json.{Json, object, array, text, entries, items, as_list}
use exobrain.Prelude.Result.{Result, ok, raised, ◌>>=◌}
use exobrain.Update.Properties.{
  JsonDict, Issue, non_empty_text, validate_entity_payload_against_property_context,
}

-- What is wrong with an entity: its id or type, its properties, or what the context finds.
pub data EntityIssue : Type 0 where
  no_id_or_type : EntityIssue
  no_objects : String → EntityIssue
  invalid : String → List Issue → EntityIssue

abbrev pub found_issues : String → List Issue → List EntityIssue → List EntityIssue
found_issues entity_id [] rest = rest
found_issues entity_id (issue ∷ issues) rest = invalid entity_id (issue ∷ issues) ∷ rest

-- One entity: passed over, an issue at once, or its id, its type and its properties to check.
pub data Plan (F : Type 0) : Type 0 where
  skip : Plan F
  wrong : EntityIssue → Plan F
  check : String → String → List (JsonDict F) → Plan F

module _ {F : Type 0} where
  abbrev objects : List (Json F) → Option (List (JsonDict F))
  objects [] = some []
  objects (object d ∷ rest) = elim (objects rest) [ none ↦ none | some ds ↦ some (entries d ∷ ds) ]
  objects (_ ∷ rest) = none

  abbrev objects_of : Option (List (Json F)) → Option (List (JsonDict F))
  objects_of none = none
  objects_of (some xs) = objects xs

  abbrev plan_objects : String → String → Option (List (JsonDict F)) → Plan F
  plan_objects entity_id type_id none = wrong (no_objects entity_id)
  plan_objects entity_id type_id (some properties) = check entity_id type_id properties

  abbrev plan_ids : Option String → Option String → Option (List (Json F)) → Plan F
  plan_ids (some entity_id) (some type_id) properties =
      plan_objects entity_id type_id (objects_of properties)
  plan_ids _ _ properties = wrong no_id_or_type

  unfoldable pub plan : Json F → Plan F
  plan (object entity) =
      plan_ids (non_empty_text (Dict.get (entries entity) "id"))
        (non_empty_text (Dict.get (entries entity) "type_id"))
        (as_list (Dict.get (entries entity) "properties"))
  plan _ = skip

-- `get_type_context n` is the call for the context of a type, with its retries, after n such calls
-- that gave one: each of them kept one more context.
module _ {F : Type 0} (get_type_context : ℕ → String → Result (JsonDict F)) where
  -- The context of a type, and the contexts that are kept for later.
  abbrev pub context_of :
      List (String × JsonDict F)
      → String
      → Option (JsonDict F)
      → Result (JsonDict F × List (String × JsonDict F))
  context_of type_context_by_type_id type_id (some type_context) =
      ok (type_context, type_context_by_type_id)
  context_of type_context_by_type_id type_id none =
      get_type_context (length type_context_by_type_id) type_id >>= λ type_context.
      ok (type_context, Dict.put type_context_by_type_id type_id type_context)

  abbrev run_plan :
      List (String × JsonDict F)
      → Plan F
      → (List (String × JsonDict F) → Result (List EntityIssue))
      → Result (List EntityIssue)
  run_plan contexts skip next = next contexts
  run_plan contexts (wrong issue) next = next contexts >>= λ rest. ok (issue ∷ rest)
  run_plan contexts (check entity_id type_id properties) next =
      context_of contexts type_id (Dict.get contexts type_id) >>= λ (type_context, later).
      next later >>= λ rest. ok (
        found_issues entity_id
          (validate_entity_payload_against_property_context type_id properties type_context) rest)

  -- The loop over the entities, with the contexts that were fetched; the check raises if it gives
  -- an issue.
  pub preflight_validate_graph_delta_entities :
      List (String × JsonDict F) → List (Json F) → Result (List EntityIssue)
  preflight_validate_graph_delta_entities type_context_by_type_id [] = ok []
  preflight_validate_graph_delta_entities type_context_by_type_id (entity ∷ entities) =
      run_plan type_context_by_type_id (plan entity)
        (λ later. preflight_validate_graph_delta_entities later entities)

-- The same check where every entity fetches the context of its type.
module _ {F : Type 0} (get_type_context : String → Result (JsonDict F)) where
  abbrev fetch_plan : Plan F → Result (List EntityIssue) → Result (List EntityIssue)
  fetch_plan skip rest = rest
  fetch_plan (wrong issue) rest = rest >>= λ issues. ok (issue ∷ issues)
  fetch_plan (check entity_id type_id properties) rest =
      get_type_context type_id >>= λ type_context. rest >>= λ issues. ok (
        found_issues entity_id
          (validate_entity_payload_against_property_context type_id properties type_context) issues)

  abbrev pub check_each : List (Json F) → Result (List EntityIssue)
  check_each [] = ok []
  check_each (entity ∷ entities) = fetch_plan (plan entity) (check_each entities)
