-- ===== src/Update/Merge.antt =====
-- _build_step_nine_merge_graph_delta of core.py: one change of the graph from what the steps found.
pub mod Written
use exobrain.Prelude.{
  ℕ, ◌+◌, String, ◌≡◌, refl, Bool, true, false, not, Option, none, some, List, [], ◌∷◌, ◌++◌, ◌==◌,
  All, if◌then◌else◌,
}
use exobrain.Prelude.Dict
use exobrain.Prelude.Json.{Json, float, text, list, dict, as_text}
use exobrain.Prelude.Text.{contains}
use exobrain.Update.Properties.{JsonDict, property, to_property_value_dict}
use exobrain.Update.Edges.{graph_edge}
use exobrain.Update.Blocks as Blocks
use exobrain.Update.Blocks.{
  FinalEntityContextBlock, Parents, Check, Reason, collect_parents, check_parents,
}

pub record FinalEntityContextGraph (F : Type 0) : Type 0 where
  pub entity : JsonDict F
  pub blocks : List FinalEntityContextBlock

pub record MatchedRelationship (F : Type 0) : Type 0 where
  pub from_entity_id : String
  pub to_entity_id : String
  pub edge_type : String
  pub confidence : F

pub record GraphDelta (F : Type 0) : Type 0 where
  pub universes : List (Json F)
  pub entities : List (Json F)
  pub blocks : List (Json F)
  pub edges : List (Json F)

-- Why a merge is refused.
pub data Refusal : Type 0 where
  universe_without_name entity_without_id_or_type : Refusal
  bad_blocks : String → Reason → Refusal
  unknown_block : String → Refusal

pub data Merge (A : Type 0) : Type 0 where
  merged : A → Merge A
  stopped : Refusal → Merge A

infixl 5 ◌>>=◌
abbrev pub ◌>>=◌ : {A B : Type 0} → Merge A → (A → Merge B) → Merge B
merged a >>= f = f a
stopped refusal >>= f = stopped refusal

abbrev of_check : {A : Type 0} → String → Check A → Merge A
of_check entity_id (Blocks.passed a) = merged a
of_check entity_id (Blocks.refused reason) = stopped (bad_blocks entity_id reason)

abbrev of_option : {A : Type 0} → String → Option A → Merge A
of_option raw_id none = stopped (unknown_block raw_id)
of_option raw_id (some a) = merged a

-- `is_uuid` is the test by UUID(…), `uuid4 n` what call number n of uuid4 gives, `one` the float 1.0.
module _ {F : Type 0} (json_dumps : Json F → String) (is_uuid : String → Bool) (uuid4 : ℕ → String)
    (one : F) (user_id : String) where
  -- The loop over the extracted universes, from call n on: their ids by name, and their nodes.
  pub merge_universes :
      ℕ
      → List (String × String)
      → List String
      → Merge (List (String × String) × (List (Json F) × ℕ))
  merge_universes n universe_id_by_name [] = merged (universe_id_by_name, ([], n))
  merge_universes n universe_id_by_name (universe_name ∷ extracted_universes) =
      let rest =
        merge_universes (n + 1) (Dict.put universe_id_by_name universe_name (uuid4 n))
          extracted_universes in
      if universe_name == ""
      then stopped universe_without_name
      else rest >>= λ (ids, (nodes, m)). merged (
        ids,
        (
          dict (
                ("id", text (uuid4 n))
                ∷ ("name", text universe_name)
                ∷ ("user_id", text user_id)
                ∷ ("visibility", text "PRIVATE")
                ∷ [])
              ∷ nodes,
          m,
        ),
      )

  abbrev named_universe : List (String × String) → Option String → Option String
  named_universe universe_id_by_name none = none
  named_universe universe_id_by_name (some universe_name) =
      Dict.get universe_id_by_name universe_name

  -- The entity's own universe id, or that of the universe that it names.
  abbrev universe_of : List (String × String) → JsonDict F → Option String → Option String
  universe_of universe_id_by_name entity (some universe_id) = some universe_id
  universe_of universe_id_by_name entity none =
      named_universe universe_id_by_name (as_text (Dict.get entity "universe_name"))

  abbrev with_property : Option (JsonDict F) → List (Json F) → List (Json F)
  with_property none properties = properties
  with_property (some p) properties = dict p ∷ properties

  pub entity_properties : JsonDict F → List (Json F)
  entity_properties [] = []
  entity_properties ((key, value) ∷ entity) =
      let rest = entity_properties entity in
      if contains ("entity_id" ∷ "node_type" ∷ "universe_id" ∷ "universe_name" ∷ []) key
      then rest
      else with_property (to_property_value_dict json_dumps key value) rest

  abbrev universe_entry : Option String → JsonDict F
  universe_entry none = []
  universe_entry (some universe_id) =
      if universe_id == "" then [] else ("universe_id", text universe_id) ∷ []

  entity_node : List (String × String) → String → String → JsonDict F → Json F
  unfolding entity_properties
  entity_node universe_id_by_name entity_id node_type entity = dict (
      (("id", text entity_id)
        ∷ ("type_id", text node_type)
        ∷ ("user_id", text user_id)
        ∷ ("visibility", text "PRIVATE")
        ∷ ("properties", list (entity_properties entity))
        ∷ [])
      ++ universe_entry
          (universe_of universe_id_by_name entity (as_text (Dict.get entity "universe_id"))))

  -- id_map: a block id that is a UUID stays, another one is replaced by a new one.
  pub map_ids : ℕ → Parents → List (String × String) × ℕ
  map_ids n [] = ([], n)
  map_ids n ((raw_id, parent_id) ∷ parent_by_block_id) =
      if is_uuid raw_id
      then (let (ids, m) = map_ids n parent_by_block_id in ((raw_id, raw_id) ∷ ids, m))
      else (let (ids, m) = map_ids (n + 1) parent_by_block_id in ((raw_id, uuid4 n) ∷ ids, m))

  abbrev block_node : String → String → Json F
  block_node block_id block_text = dict (
      ("id", text block_id)
      ∷ ("type_id", text "node.block")
      ∷ ("user_id", text user_id)
      ∷ ("visibility", text "PRIVATE")
      ∷ ("properties", list (dict (property "text" "string_value" (text block_text)) ∷ []))
      ∷ [])

  -- The edge from the parent of a block to it.
  abbrev parent_edges : List (String × String) → String → Option String → Merge (List (Json F))
  parent_edges id_map block_id none = merged []
  parent_edges id_map block_id (some parent_id) =
      of_option parent_id (Dict.get id_map parent_id) >>= λ from_id.
      merged (graph_edge user_id from_id block_id "SUMMARIZES" one ∷ [])

  -- The loop over the blocks: their nodes, and the edges between them.
  pub merge_blocks :
      List (String × String)
      → Parents
      → List FinalEntityContextBlock
      → Merge (List (Json F) × List (Json F))
  merge_blocks id_map parent_by_block_id [] = merged ([], [])
  merge_blocks id_map parent_by_block_id (block ∷ blocks) =
      of_option block.block_id (Dict.get id_map block.block_id) >>= λ block_id.
      of_option block.block_id (Dict.get parent_by_block_id block.block_id) >>= λ parent.
      parent_edges id_map block_id parent >>= λ edges.
      merge_blocks id_map parent_by_block_id blocks >>= λ (nodes, more).
      merged (block_node block_id block.block_text ∷ nodes, edges ++ more)

  abbrev entity_keys : Option String → Option String → Merge (String × String)
  entity_keys (some entity_id) (some node_type) = merged (entity_id, node_type)
  entity_keys _ _ = stopped entity_without_id_or_type

  -- One final graph: its node, its blocks, its edges, and the number of the next call of uuid4.
  pub merge_graph :
      ℕ
      → List (String × String)
      → FinalEntityContextGraph F
      → Merge (Json F × (List (Json F) × (List (Json F) × ℕ)))
  unfolding collect_parents check_parents map_ids merge_blocks entity_node
  merge_graph n universe_id_by_name item =
      entity_keys (as_text (Dict.get item.entity "entity_id"))
        (as_text (Dict.get item.entity "node_type"))
      >>= λ (entity_id, node_type).
          of_check entity_id (collect_parents [] item.blocks) >>= λ parents.
          of_check entity_id (check_parents parents) >>= λ root.
          merge_blocks (map_ids n parents).0 parents item.blocks >>= λ (nodes, edges).
          of_option root (Dict.get (map_ids n parents).0 root) >>= λ root_id. merged (
            entity_node universe_id_by_name entity_id node_type item.entity,
            (
              nodes,
              (
                edges ++ graph_edge user_id entity_id root_id "DESCRIBED_BY" one ∷ [],
                (map_ids n parents).1,
              ),
            ),
          )

  -- The loop over the final graphs.
  pub merge_graphs :
      ℕ → List (String × String) → List (FinalEntityContextGraph F) → Merge (GraphDelta F)
  unfolding merge_graph
  merge_graphs n universe_id_by_name [] =
      merged (record { universes = []; entities = []; blocks = []; edges = [] })
  merge_graphs n universe_id_by_name (item ∷ items) =
      merge_graph n universe_id_by_name item >>= λ (node, (nodes, (edges, m))).
      merge_graphs m universe_id_by_name items >>= λ delta. merged (record {
        universes = delta.universes;
        entities = node ∷ delta.entities;
        blocks = nodes ++ delta.blocks;
        edges = edges ++ delta.edges;
      })

  pub relationship_edges : List (MatchedRelationship F) → List (Json F)
  relationship_edges [] = []
  relationship_edges (relationship ∷ relationships) =
      graph_edge user_id relationship.from_entity_id relationship.to_entity_id
        relationship.edge_type relationship.confidence
      ∷ relationship_edges relationships

  unfoldable pub build_step_nine_merge_graph_delta :
      List String
      → List (MatchedRelationship F)
      → List (FinalEntityContextGraph F)
      → Merge (GraphDelta F)
  unfolding merge_universes merge_graphs relationship_edges
  build_step_nine_merge_graph_delta extracted_universes relationships graphs =
      merge_universes 0 [] extracted_universes >>= λ (universe_id_by_name, (nodes, n)).
      merge_graphs n universe_id_by_name graphs >>= λ delta.
      merged (record delta {
        universes = nodes;
        edges = delta.edges ++ relationship_edges relationships;
      })
