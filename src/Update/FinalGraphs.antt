-- ===== src/Update/FinalGraphs.antt =====
-- Step eight of core.py: a model's final payload of an entity, cut down to what may be written.
pub mod Accepted
use exobrain.Prelude.{
  ℕ, String, Bool, true, false, not, Option, none, some, List, [], ◌∷◌, ◌++◌, ◌==◌, ◌||◌, filter_by,
  get_elem?, if◌then◌else◌,
}
use exobrain.Prelude.Dict
use exobrain.Prelude.Json.{Json, text, object, entries, dict, as_list, as_dict}
use exobrain.Prelude.Result.{Result, ok, raised, ◌>>=◌, ◌>>◌}
use exobrain.Prelude.Text.{contains, concat}
use exobrain.Update.Properties.{JsonDict, non_empty_text, is_true}
use exobrain.Update.Decision.{ExtractedEntity, ResolvedEntity, ResolutionStatus, as_new, as_matched}
use exobrain.Update.Merge.{FinalEntityContextGraph}

abbrev pub structural_keys : List String
structural_keys = "entity_id" ∷ "node_type" ∷ "universe_id" ∷ "universe_name" ∷ []

abbrev writable_key : Option String → Bool → List String → List String
writable_key (some key) true keys = key ∷ keys
writable_key _ _ keys = keys

-- ", ".join(keys)
abbrev joined : List String → String
joined [] = ""
joined (key ∷ []) = key
joined (key ∷ other ∷ keys) = concat (key ∷ ", " ∷ joined (other ∷ keys) ∷ [])

abbrev missing_keys_text : String → String → String
missing_keys_text entity_id keys = concat (
    "knowledge.update step eight validation failed: missing required entity keys for entity "
    ∷ entity_id ∷ ": " ∷ keys ∷ [])

abbrev pub is_allowed : List String → String → Bool
is_allowed writable_property_keys key =
    contains structural_keys key || contains writable_property_keys key

abbrev all_there : String → List String → Result (Unit {0})
all_there entity_id [] = ok tt
all_there entity_id (key ∷ missing_keys) =
    raised (missing_keys_text entity_id (joined (key ∷ missing_keys)))

module _ {F : Type 0} where
  pub writable_keys : List (Json F) → List String
  writable_keys [] = []
  writable_keys (object d ∷ context_properties) =
      writable_key (non_empty_text (Dict.get (entries d) "prop_name"))
        (is_true (Dict.get (entries d) "writable")) (writable_keys context_properties)
  writable_keys (_ ∷ context_properties) = writable_keys context_properties

  abbrev keys_of : Option (List (Json F)) → List String
  keys_of none = []
  keys_of (some context_properties) = writable_keys context_properties

  pub extract_writable_property_keys : JsonDict F → List String
  unfolding writable_keys
  extract_writable_property_keys type_context =
      keys_of (as_list (Dict.get type_context "properties"))

  abbrev entity_of : Option (JsonDict F) → JsonDict F
  entity_of none = []
  entity_of (some raw_entity) = raw_entity

  -- `"universe_id" not in entity and extracted.universe_id`
  abbrev pub with_universe : Option String → JsonDict F → JsonDict F
  with_universe none entity = entity
  with_universe (some universe_id) entity =
      if Dict.has entity "universe_id"
      then entity
      else if universe_id == ""
      then entity
      else Dict.put entity "universe_id" (text universe_id)

  -- The entity that is kept: the model's, or an empty one, with the extracted universe.
  abbrev pub given_entity : ResolvedEntity → JsonDict F → JsonDict F
  given_entity resolved structured =
      with_universe resolved.extracted_entity.universe_id
        (entity_of (as_dict (Dict.get structured "entity")))

  abbrev pub filtered_entity : List String → JsonDict F → JsonDict F
  filtered_entity writable_property_keys entity =
      filter_by (λ (key, value). is_allowed writable_property_keys key) entity

  unfoldable pub normalize_step_eight_structured_response :
      JsonDict F → ResolvedEntity → List String → JsonDict F
  normalize_step_eight_structured_response structured resolved writable_property_keys =
      Dict.put structured "entity"
        (dict (filtered_entity writable_property_keys (given_entity resolved structured)))

  abbrev required_in : String → Option (JsonDict F) → Result (Unit {0})
  required_in entity_id none = raised (missing_keys_text entity_id "entity")
  required_in entity_id (some raw_entity) = all_there entity_id (
      filter_by (λ key. not (Dict.has raw_entity key))
        ("entity_id" ∷ "node_type" ∷ "name" ∷ "aliases" ∷ []))

  pub assert_step_eight_required_entity_fields : JsonDict F → String → Result (Unit {0})
  assert_step_eight_required_entity_fields payload entity_id =
      required_in entity_id (as_dict (Dict.get payload "entity"))

-- What the prompt of an entity shows.
pub record FinalPrompt (F : Type 0) : Type 0 where
  pub resolved : ResolvedEntity
  pub focused_markdown : String
  pub entity_type_property_context : JsonDict F
  pub existing_entity_context : Option (JsonDict F)

abbrev or_empty : Option String → String
or_empty none = ""
or_empty (some s) = s

-- The calls: the context of a type, the context of an entity, the structured response of the model
-- (an exception where there is none), and the check of the final model.
module _ {F : Type 0} (get_type_context get_entity_context : String → Result (JsonDict F))
    (final_agent : FinalPrompt F → Result (JsonDict F))
    (model_validate : JsonDict F → Result (FinalEntityContextGraph F)) where
  abbrev existing_context : ResolutionStatus → String → Result (Option (JsonDict F))
  existing_context as_new entity_id = ok none
  existing_context as_matched entity_id =
      get_entity_context entity_id >>= λ context. ok (some context)

  abbrev final_prompt :
      List String → ResolvedEntity → JsonDict F → Option (JsonDict F) → FinalPrompt F
  final_prompt documents resolved type_context existing = record {
    resolved = resolved;
    focused_markdown = or_empty (get_elem? documents resolved.entity_index);
    entity_type_property_context = type_context;
    existing_entity_context = existing;
  }

  -- The body of the loop, for an entity with a type.
  pub final_graph : List String → ResolvedEntity → Result (FinalEntityContextGraph F)
  unfolding extract_writable_property_keys normalize_step_eight_structured_response
      assert_step_eight_required_entity_fields
  final_graph documents resolved = do
    type_context ← get_type_context resolved.extracted_entity.node_type
    existing ← existing_context resolved.resolution_status resolved.resolved_entity_id
    structured ← final_agent (final_prompt documents resolved type_context existing)
    checked ←
        assert_step_eight_required_entity_fields
          (normalize_step_eight_structured_response structured resolved
            (extract_writable_property_keys type_context))
          resolved.resolved_entity_id
    model_validate (
        normalize_step_eight_structured_response structured resolved
          (extract_writable_property_keys type_context))

  unfoldable pub run_step_eight :
      List String → List ResolvedEntity → Result (List (FinalEntityContextGraph F))
  unfolding final_graph
  run_step_eight documents [] = ok []
  run_step_eight documents (resolved ∷ resolved_entities) =
      if resolved.extracted_entity.node_type == ""
      then raised (
          concat (
            "knowledge.update step eight validation failed: missing node_type for entity "
            ∷ resolved.resolved_entity_id ∷ []))
      else (do
        graph ← final_graph documents resolved
        others ← run_step_eight documents resolved_entities
        ok (graph ∷ others))
