-- ===== src/Update/Decision/Resolution.antt =====
-- What step five resolves the entities to.
use exobrain.Prelude.{ℕ, ◌+◌, String, ◌≡◌, ◌⊎◌, false, Option, none, some, List, [], ◌∷◌, ◌==◌}
use exobrain.Prelude.Json.{Json}
use exobrain.Prelude.Result.{Result, ok}
use exobrain.Update.Decision.{
  MatchStatus, new_entity, matched, needs_detailed_comparison, CandidateMatchResult, ResolvedEntity,
  as_new, as_matched, Prompt,
}
use exobrain.Update.Decision.Parsing.{IsDecided}

module _ {F : Type 0} (get_entity_context : String → Result (Json F))
    (comparison_agent : Prompt F → Result String) (uuid4 : ℕ → String) where
  -- A reply of the model says it: NEW_ENTITY where nothing is found, else one of the candidates.
  abbrev IsAnswered : List String → Option String → Type 0
  IsAnswered ids found =
      (prompt : Prompt F) × (decision : String) × (comparison_agent prompt ≡ ok decision)
      × IsDecided decision ids found

  -- What is found for a match of the status: nothing for a new entity, the match that was given if it
  -- is a text that is not empty, and what the model says where the candidates are compared.
  abbrev pub IsFound : MatchStatus → CandidateMatchResult → Option String → Type 0
  IsFound new_entity item found = found ≡ none
  IsFound matched item none = (item.matched_entity_id ≡ none) ⊎ (item.matched_entity_id ≡ some "")
  IsFound matched item (some s) = (item.matched_entity_id ≡ some s) × ((s == "") ≡ false)
  IsFound needs_detailed_comparison item found = IsAnswered item.candidate_entity_ids found

  -- The id and the status of an entity at position k by what was found.
  abbrev IsNamed : ℕ → Option String → ResolvedEntity → Type 0
  IsNamed k none entity =
      (entity.resolved_entity_id ≡ uuid4 k) × (entity.resolution_status ≡ as_new)
  IsNamed k (some s) entity =
      (entity.resolved_entity_id ≡ s) × (entity.resolution_status ≡ as_matched)

  pub record IsResolution (k : ℕ) (item : CandidateMatchResult) (entity : ResolvedEntity)
      : Type 0 where
    pub found : Option String
    pub decided : IsFound item.status item found
    pub named : IsNamed k found entity
    pub index : entity.entity_index ≡ item.entity_index
    pub extracted : entity.extracted_entity ≡ item.extracted_entity

  abbrev pub AreResolutions : ℕ → List CandidateMatchResult → List ResolvedEntity → Type 0
  AreResolutions k [] [] = Unit
  AreResolutions k (item ∷ items) (entity ∷ entities) =
      IsResolution k item entity × AreResolutions (k + 1) items entities
  AreResolutions k _ _ = ⊥
