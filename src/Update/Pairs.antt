-- ===== src/Update/Pairs.antt =====
-- _deduplicate_entity_pairs (step six) of core.py.
pub mod Deduplication
use exobrain.Prelude.{
  String, Bool, true, false, not, List, [], ◌∷◌, ◌&&◌, ◌||◌, ◌==◌, any_of, if◌then◌else◌,
}
use exobrain.Update.Keyed.{Key, keep_new}
use exobrain.Prelude.Text.{contains, text_le}

pub record RelationshipPair : Type 0 where
  pub entity_id_1 : String
  pub entity_id_2 : String

-- tuple(sorted((entity_id_1, entity_id_2)))
unfoldable pub normalized : RelationshipPair → Key
normalized pair =
    if text_le pair.entity_id_1 pair.entity_id_2
    then (pair.entity_id_1, pair.entity_id_2)
    else (pair.entity_id_2, pair.entity_id_1)

-- The first two tests of the loop's body.
abbrev pub is_usable : List String → RelationshipPair → Bool
is_usable valid_entity_ids pair =
    not (pair.entity_id_1 == pair.entity_id_2)
    && (contains valid_entity_ids pair.entity_id_1 && contains valid_entity_ids pair.entity_id_2)

module _ (valid_entity_ids : List String) where
  pub deduplicate_entity_pairs : List RelationshipPair → List RelationshipPair
  unfolding keep_new normalized
  deduplicate_entity_pairs entity_pairs =
      keep_new normalized (is_usable valid_entity_ids) [] entity_pairs
