-- ===== src/Update/Edges.antt =====
-- The properties of edges in core.py: those that the steps write, and the check of step ten.
use exobrain.Prelude.{
  ℕ, ◌+◌, String, ◌≡◌, refl, Bool, false, Option, none, some, List, [], ◌∷◌, ◌++◌, All,
  if◌then◌else◌,
}
use exobrain.Prelude.Dict
use exobrain.Prelude.Json.{Json, float, text, object, list, dict, entries, as_list}
use exobrain.Prelude.Text.{contains}
use exobrain.Update.Properties.{JsonDict, property, non_empty_text, extract_property_value_field}

-- An issue of the edge at an index.
pub data EdgeIssue : Type 0 where
  not_objects : ℕ → EdgeIssue
  missing wrong_field : ℕ → String → EdgeIssue

abbrev is_one_of : List String → Option String → Bool
is_one_of fields none = false
is_one_of fields (some f) = contains fields f

module _ {F : Type 0} where
  unfoldable pub default_edge_properties : F → String → List (Json F)
  default_edge_properties confidence provenance_hint =
      dict (property "confidence" "float_value" (float confidence))
      ∷ dict (property "status" "string_value" (text "asserted"))
      ∷ dict (property "provenance_hint" "string_value" (text provenance_hint))
      ∷ []

  -- The edges of steps nine and ten.
  abbrev pub graph_edge : String → String → String → String → F → Json F
  graph_edge user_id from_id to_id edge_type confidence = dict (
      ("from_id", text from_id)
      ∷ ("to_id", text to_id)
      ∷ ("edge_type", text edge_type)
      ∷ ("user_id", text user_id)
      ∷ ("visibility", text "PRIVATE")
      ∷ ("properties", list (default_edge_properties confidence "placeholder"))
      ∷ [])

  -- `isinstance(item, dict)` for all the items
  abbrev as_dicts : List (Json F) → Option (List (JsonDict F))
  as_dicts [] = some []
  as_dicts (object d ∷ rest) = elim (as_dicts rest) [
    | none ↦ none
    | some ds ↦ some (entries d ∷ ds)
  ]
  as_dicts (_ ∷ rest) = none

  abbrev dicts_of : Option (List (Json F)) → Option (List (JsonDict F))
  dicts_of none = none
  dicts_of (some xs) = as_dicts xs

  -- props_by_key: the last property of a key stays.
  abbrev by_key :
      Option String → JsonDict F → List (String × JsonDict F) → List (String × JsonDict F)
  by_key none p props = props
  by_key (some key) p props = Dict.put props key p

  abbrev index_by_key : List (String × JsonDict F) → List (JsonDict F) → List (String × JsonDict F)
  index_by_key props [] = props
  index_by_key props (p ∷ rest) =
      index_by_key (by_key (non_empty_text (Dict.get p "key")) p props) rest

  -- One required property of an edge, and the fields that it may use.
  abbrev required_issue : ℕ → String → List String → Option (JsonDict F) → List EdgeIssue
  required_issue index key fields none = missing index key ∷ []
  required_issue index key fields (some p) =
      if is_one_of fields (extract_property_value_field p) then [] else wrong_field index key ∷ []

  abbrev property_checks : ℕ → Option (List (JsonDict F)) → List EdgeIssue
  property_checks index none = not_objects index ∷ []
  property_checks index (some properties) =
      let props = index_by_key [] properties in
      required_issue index "confidence" ("float_value" ∷ "int_value" ∷ [])
        (Dict.get props "confidence")
      ++ required_issue index "status" ("string_value" ∷ []) (Dict.get props "status")
      ++ required_issue index "provenance_hint" ("string_value" ∷ [])
          (Dict.get props "provenance_hint")

  abbrev edge_issues : ℕ → Json F → List EdgeIssue
  edge_issues index (object edge) =
      property_checks index (dicts_of (as_list (Dict.get (entries edge) "properties")))
  edge_issues index _ = []

  -- The issues of the edges from position `index` on; the check raises unless there are none.
  pub preflight_validate_graph_delta_edges : ℕ → List (Json F) → List EdgeIssue
  preflight_validate_graph_delta_edges index [] = []
  preflight_validate_graph_delta_edges index (edge ∷ edges) =
      edge_issues index edge ++ preflight_validate_graph_delta_edges (index + 1) edges

  -- The edge is one that steps nine and ten write.
  abbrev pub IsWritten : Json F → Type 0
  IsWritten edge =
      (user_id from_id to_id edge_type : String) × (confidence : F) × (edge
        ≡ graph_edge user_id from_id to_id edge_type confidence)

  written-accepted :
      (index : ℕ) (user_id from_id to_id edge_type : String) (confidence : F)
      → edge_issues index (graph_edge user_id from_id to_id edge_type confidence) ≡ []
  unfolding default_edge_properties Dict.get Dict.put Dict.has contains extract_property_value_field
  written-accepted index user_id from_id to_id edge_type confidence = refl

  -- The check passes every list of edges that steps nine and ten write.
  pub preflight_edges-nil :
      (index : ℕ) (edges : List (Json F))
      → All IsWritten edges
      → preflight_validate_graph_delta_edges index edges ≡ []
  unfolding preflight_validate_graph_delta_edges
  preflight_edges-nil index [] h = refl
  preflight_edges-nil index (edge ∷ edges)
        ((user_id, from_id, to_id, edge_type, confidence, e), h) =
      rw (e, written-accepted index user_id from_id to_id edge_type confidence)
        (preflight_edges-nil (index + 1) edges h)
