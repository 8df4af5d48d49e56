-- ===== src/Update/GraphSamples.antt =====
-- A small graph, on which the theorems about properties, blocks and merged changes are applied.
use exobrain.Prelude.{
  zero, suc, ℕ, zero, suc, String, ◌≡◌, refl, true, false, none, some, List, [], ◌∷◌, ◌++◌,
}
use exobrain.Prelude.Dict
use exobrain.Prelude.Json.{Json, bool, text, list, dict}
use exobrain.Prelude.Text.{strip_text, lower, one_of, contains, strip}
use exobrain.Update.Properties.{
  JsonDict, wrong_type, property, property_issue, to_property_value_dict,
}
use exobrain.Update.Properties.Values.{date_property-refused}
use exobrain.Update.Edges.{graph_edge, preflight_validate_graph_delta_edges}
use exobrain.Update.Blocks.{FinalEntityContextBlock, Parents, check_parents}
use exobrain.Update.Blocks.Acceptance.{IsChecked, check_parents-IsChecked}
use exobrain.Prelude.{All}
use exobrain.Update.Decision.{ResolvedEntity, as_new}
use exobrain.Update.FinalGraphs.{FinalPrompt, run_step_eight}
use exobrain.Update.FinalGraphs.Accepted.{HasNames, run_step_eight-HasNames}
use exobrain.Update.Preflight.{check_each, preflight_validate_graph_delta_entities}
use exobrain.Update.Preflight.Cached.{preflight-eq_check_each}
use exobrain.Update.Merge.{
  FinalEntityContextGraph, MatchedRelationship, GraphDelta, merged,
  build_step_nine_merge_graph_delta,
}
use exobrain.Prelude.Result.{Result, ok, raised}
use exobrain.Update.Keyed.{keep_new}
use exobrain.Update.Mentions.{Mention, node_ids, run_step_ten_finalize_graph_delta}
use exobrain.Update.Mentions.Kept.{steps_nine_ten-preflight}

abbrev dumps : Json ℕ → String
dumps v = "[]"

abbrev born : JsonDict ℕ
born = ("prop_name", text "born") ∷ ("writable", bool true) ∷ ("value_type", text "datetime") ∷ []

date_property-refused_example :
    (f : String) × (property_issue
        (("born", born) ∷ [])
        0
        (property "born" "string_value" (text "1815-12-10"))
      ≡ some (wrong_type "born" "datetime" f))
unfolding to_property_value_dict Dict.get lower strip one_of
date_property-refused_example =
    date_property-refused dumps (("born", born) ∷ []) 0 "born" (text "1815-12-10")
      (property "born" "string_value" (text "1815-12-10")) born "datetime" refl refl refl refl refl

abbrev name_property : JsonDict ℕ
name_property = property "name" "string_value" (text "Ada")

abbrev person_context : JsonDict ℕ
person_context =
    (
      "properties",
      list (
          dict (
            ("prop_name", text "name")
            ∷ ("writable", bool true)
            ∷ ("required", bool true)
            ∷ ("value_type", text "string")
            ∷ [])
          ∷ []),
    )
    ∷ []

abbrev looped : Parents
looped = ("a", none) ∷ ("b", some "c") ∷ ("c", some "b") ∷ []

check_parents-IsChecked_example : IsChecked looped (check_parents looped)
check_parents-IsChecked_example = check_parents-IsChecked looped

abbrev blocks : List FinalEntityContextBlock
blocks =
    record { block_id = "NEW_1"; parent_block_id = none; block_text = "Ada." }
    ∷ record { block_id = "NEW_2"; parent_block_id = some "NEW_1"; block_text = "She wrote." }
    ∷ []

abbrev graph : FinalEntityContextGraph ℕ
graph = record {
  entity = ("entity_id", text "ada") ∷ ("node_type", text "node.person") ∷ [];
  blocks = blocks;
}

abbrev knows : MatchedRelationship ℕ
knows = record {
  from_entity_id = "ada";
  to_entity_id = "charles";
  edge_type = "KNOWS";
  confidence = 90;
}

-- The ids of the two blocks.
abbrev new_id : ℕ → String
new_id zero = "u0"
new_id (suc n) = "u1"

abbrev block : String → String → Json ℕ
block block_id block_text = dict (
    ("id", text block_id)
    ∷ ("type_id", text "node.block")
    ∷ ("user_id", text "user-1")
    ∷ ("visibility", text "PRIVATE")
    ∷ ("properties", list (dict (property "text" "string_value" (text block_text)) ∷ []))
    ∷ [])

abbrev delta : GraphDelta ℕ
delta = record {
  universes = [];
  entities =
      dict (
        ("id", text "ada")
        ∷ ("type_id", text "node.person")
        ∷ ("user_id", text "user-1")
        ∷ ("visibility", text "PRIVATE")
        ∷ ("properties", list [])
        ∷ [])
      ∷ [];
  blocks = block "u0" "Ada." ∷ block "u1" "She wrote." ∷ [];
  edges =
      graph_edge "user-1" "u0" "u1" "SUMMARIZES" 100
      ∷ graph_edge "user-1" "ada" "u0" "DESCRIBED_BY" 100
      ∷ graph_edge "user-1" "ada" "charles" "KNOWS" 90
      ∷ [];
}

build-delta :
    build_step_nine_merge_graph_delta dumps
      (λ s. false)
      new_id
      100
      "user-1"
      []
      (knows ∷ [])
      (graph ∷ [])
    ≡ merged delta
unfolding build_step_nine_merge_graph_delta Dict.get Dict.put Dict.has contains strip_text lower
    one_of
build-delta = refl

-- One valid mention, found twice, and one of an entity that is not there.
abbrev finalizer : GraphDelta ℕ → Result (List (Mention ℕ))
finalizer change = ok (
    record { block_id = "u1"; entity_id = "ada"; confidence = 80 }
    ∷ record { block_id = "u1"; entity_id = "ada"; confidence = 70 }
    ∷ record { block_id = "u1"; entity_id = "nobody"; confidence = 70 }
    ∷ [])

abbrev final : GraphDelta ℕ
final = record delta { edges = delta.edges ++ graph_edge "user-1" "u1" "ada" "MENTIONS" 80 ∷ [] }

finalize-delta : run_step_ten_finalize_graph_delta finalizer "user-1" delta ≡ ok final
unfolding run_step_ten_finalize_graph_delta node_ids keep_new Dict.get contains
finalize-delta = refl

steps_nine_ten-preflight_example : preflight_validate_graph_delta_edges 0 final.edges ≡ []
steps_nine_ten-preflight_example =
    steps_nine_ten-preflight dumps (λ s. false) new_id 100 "user-1" finalizer [] (knows ∷ [])
      (graph ∷ []) delta final build-delta finalize-delta

abbrev ada : ResolvedEntity
ada = record {
  entity_index = 0;
  extracted_entity = record {
    name = "Ada";
    node_type = "node.person";
    aliases = [];
    short_description = "a mathematician";
    universe_id = none;
  };
  resolved_entity_id = "ada";
  resolution_status = as_new;
}

abbrev writable_property : String → Json ℕ
writable_property key = dict (("prop_name", text key) ∷ ("writable", bool true) ∷ [])

abbrev type_context : String → Result (JsonDict ℕ)
type_context type_id =
    ok (("properties", list (writable_property "name" ∷ writable_property "aliases" ∷ [])) ∷ [])

-- The model invents a property.
abbrev response : JsonDict ℕ
response =
    (
      "entity",
      dict (
          ("entity_id", text "ada")
          ∷ ("node_type", text "node.person")
          ∷ ("name", text "Ada")
          ∷ ("aliases", list [])
          ∷ ("mood", text "bright")
          ∷ []),
    )
    ∷ ("blocks", list [])
    ∷ []

abbrev final_agent : FinalPrompt ℕ → Result (JsonDict ℕ)
final_agent prompt = ok response

abbrev entity_context : String → Result (JsonDict ℕ)
entity_context entity_id = ok []

abbrev model_validate : JsonDict ℕ → Result (FinalEntityContextGraph ℕ)
model_validate payload = ok graph

run_step_eight-ada :
    run_step_eight type_context entity_context final_agent model_validate [] (ada ∷ [])
    ≡ ok (graph ∷ [])
unfolding run_step_eight Dict.get Dict.put Dict.has contains
run_step_eight-ada = refl

run_step_eight-HasNames_example : All (HasNames type_context) (ada ∷ [])
run_step_eight-HasNames_example =
    run_step_eight-HasNames type_context entity_context final_agent model_validate [] (ada ∷ [])
      (graph ∷ []) run_step_eight-ada

-- A context that is there for the first call only.
abbrev type_context_at : ℕ → String → Result (JsonDict ℕ)
type_context_at zero type_id = type_context type_id
type_context_at (suc n) type_id = raised "NOT_FOUND"

-- Two entities of one type.
abbrev entities : List (Json ℕ)
entities =
    dict (("id", text "ada") ∷ ("type_id", text "node.person") ∷ ("properties", list []) ∷ [])
    ∷ dict (("id", text "charles") ∷ ("type_id", text "node.person") ∷ ("properties", list []) ∷ [])
    ∷ []

preflight-eq_check_each_example :
    (answer : String → Result (JsonDict ℕ)) × ((t : String)
      → (n : ℕ) × (answer t ≡ type_context_at n t))
    × (preflight_validate_graph_delta_entities type_context_at [] entities
        ≡ check_each answer entities)
preflight-eq_check_each_example = preflight-eq_check_each type_context_at entities
