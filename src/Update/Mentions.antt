-- ===== src/Update/Mentions.antt =====
-- Step ten of core.py: the edges from blocks to the entities that a model finds mentioned in them.
pub mod Kept
use exobrain.Prelude.{
  String, Bool, true, false, not, Option, none, some, List, [], ◌∷◌, ◌++◌, ◌&&◌, map, if◌then◌else◌,
}
use exobrain.Prelude.Dict
use exobrain.Prelude.Json.{Json, object, entries, as_text}
use exobrain.Prelude.Result.{Result, ok, ◌>>=◌}
use exobrain.Prelude.Text.{contains}
use exobrain.Update.Keyed.{Key, keep_new}
use exobrain.Update.Edges.{graph_edge}
use exobrain.Update.Merge.{GraphDelta}

-- _StepTenMention
pub record Mention (F : Type 0) : Type 0 where
  pub block_id : String
  pub entity_id : String
  pub confidence : F

abbrev text_id : Option String → List String → List String
text_id none ids = ids
text_id (some s) ids = s ∷ ids

module _ {F : Type 0} where
  -- The texts under "id" of the dicts among some nodes.
  unfoldable pub node_ids : List (Json F) → List String
  node_ids [] = []
  node_ids (object node ∷ nodes) = text_id (as_text (Dict.get (entries node) "id")) (node_ids nodes)
  node_ids (_ ∷ nodes) = node_ids nodes

  abbrev pub mention_key : Mention F → Key
  mention_key mention = (mention.block_id, mention.entity_id)

  module _ (valid_block_ids valid_entity_ids : List String) where
    abbrev pub is_valid_mention : Mention F → Bool
    is_valid_mention mention =
        contains valid_block_ids mention.block_id && contains valid_entity_ids mention.entity_id

  abbrev pub mention_edge : String → Mention F → Json F
  mention_edge user_id mention =
      graph_edge user_id mention.block_id mention.entity_id "MENTIONS" mention.confidence

  -- The mentions that get an edge.
  abbrev pub kept_mentions : GraphDelta F → List (Mention F) → List (Mention F)
  kept_mentions delta mentions =
      keep_new mention_key (is_valid_mention (node_ids delta.blocks) (node_ids delta.entities)) []
        mentions

  -- `finalizer_agent` gives the mentions in the reply of the model, or raises.
  unfoldable pub run_step_ten_finalize_graph_delta :
      (GraphDelta F → Result (List (Mention F))) → String → GraphDelta F → Result (GraphDelta F)
  unfolding keep_new node_ids
  run_step_ten_finalize_graph_delta finalizer_agent requesting_user_id delta = do
    mentions ← finalizer_agent delta
    ok (record delta {
      edges = delta.edges ++ map (mention_edge requesting_user_id) (kept_mentions delta mentions);
    })
