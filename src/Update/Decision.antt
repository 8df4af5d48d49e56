-- ===== src/Update/Decision.antt =====
-- Step five of core.py: the entity of a match that a model decides on.
pub mod Parsing
pub mod Resolution
use Prim.Native.Char.{code}
use Prim.Native.String.{String}
use exobrain.Prelude.{
  ℕ, zero, suc, ◌+◌, Bool, true, false, Option, none, some, List, [], ◌∷◌, ◌++◌, ◌==◌, nat_eq,
  get_elem?, if◌then◌else◌,
}
use exobrain.Prelude.Json.{Json}
use exobrain.Prelude.Result.{Result, ok, raised, ◌>>=◌}
use exobrain.Prelude.Text.{concat, contains, after_prefix, includes}

-- [^)]+ and what stands from the first `)` on.
up_to_close : String → String × String
up_to_close String.[] = ("", "")
up_to_close (String.◌∷◌ c s) =
    let (name, rest) = up_to_close s in
    if nat_eq (code c) b')' then ("", String.◌∷◌ c s) else (String.◌∷◌ c name, rest)

-- `\)$` matches at the end of the text, or before a newline that ends it.
abbrev closes : String → Bool
closes rest = if rest == ")" then true else rest == ")\n"

abbrev named : String × String → Option String
named (name, rest) = if name == "" then none else if closes rest then some name else none

abbrev match_decision : Option String → Option String
match_decision none = none
match_decision (some s) = named (up_to_close s)

pub extract_matched_entity_id : String → Option String
unfolding up_to_close
extract_matched_entity_id decision =
    if decision == "NEW_ENTITY" then none else match_decision (after_prefix "MATCH(" decision)

abbrev failure : String
failure = "knowledge.update step five validation failed: "

abbrev known_candidate : List String → Option String → String → Result (Option String)
known_candidate candidate_entity_ids none decision = raised (
    concat (
      failure ∷ "invalid decision '" ∷ decision ∷ "'; expected NEW_ENTITY or MATCH(<entity_id>)"
      ∷ []))
known_candidate candidate_entity_ids (some matched) decision =
    if contains candidate_entity_ids matched
    then ok (some matched)
    else raised (
        concat (failure ∷ "decision references unknown candidate entity id '" ∷ matched ∷ "'" ∷ []))

pub resolve_step_five_decision : String → List String → Result (Option String)
resolve_step_five_decision decision candidate_entity_ids =
    if decision == "NEW_ENTITY"
    then ok none
    else known_candidate candidate_entity_ids (extract_matched_entity_id decision) decision

pub record ExtractedEntity : Type 0 where
  pub name : String
  pub node_type : String
  pub aliases : List String
  pub short_description : String
  pub universe_id : Option String

pub data MatchStatus : Type 0 where
  new_entity matched needs_detailed_comparison : MatchStatus

pub record CandidateMatchResult : Type 0 where
  pub entity_index : ℕ
  pub extracted_entity : ExtractedEntity
  pub status : MatchStatus
  pub candidate_entity_ids : List String
  pub matched_entity_id : Option String

pub data ResolutionStatus : Type 0 where
  as_new as_matched : ResolutionStatus

pub record ResolvedEntity : Type 0 where
  pub entity_index : ℕ
  pub extracted_entity : ExtractedEntity
  pub resolved_entity_id : String
  pub resolution_status : ResolutionStatus

-- What the comparison model is shown; `corrected` is the note that the second prompt adds.
pub record Prompt (F : Type 0) : Type 0 where
  pub extracted_entity : ExtractedEntity
  pub extracted_entity_markdown : String
  pub candidate_contexts : List (Json F)
  pub corrected : Bool

abbrev or_empty : Option String → String
or_empty none = ""
or_empty (some s) = s

-- The calls: the context of a candidate, the `decision` of the model's reply (an exception where
-- there is no valid one), and the id that uuid4 gives at the entity of that position.
module _ {F : Type 0} (get_entity_context : String → Result (Json F))
    (comparison_agent : Prompt F → Result String) (uuid4 : ℕ → String) where
  candidate_contexts : List String → Result (List (Json F))
  candidate_contexts [] = ok []
  candidate_contexts (candidate_id ∷ rest) = do
    context ← get_entity_context candidate_id
    others ← candidate_contexts rest
    ok (context ∷ others)

  abbrev retry_decision : Prompt F → List String → Result (Option String) → Result (Option String)
  retry_decision prompt candidate_ids (ok matched_entity_id) = ok matched_entity_id
  retry_decision prompt candidate_ids (raised exc) =
      if includes "invalid decision" exc
      then (do
        decision ← comparison_agent (record prompt { corrected = true })
        resolve_step_five_decision decision candidate_ids)
      else raised exc

  -- The loop over two attempts.
  pub decide : Prompt F → List String → Result (Option String)
  unfolding resolve_step_five_decision extract_matched_entity_id
  decide prompt candidate_ids = do
    decision ← comparison_agent prompt
    retry_decision prompt candidate_ids (resolve_step_five_decision decision candidate_ids)

  compare_in_detail : List String → CandidateMatchResult → Result (Option String)
  compare_in_detail documents item = do
    contexts ← candidate_contexts item.candidate_entity_ids
    decide
        (record {
          extracted_entity = item.extracted_entity;
          extracted_entity_markdown = or_empty (get_elem? documents item.entity_index);
          candidate_contexts = contexts;
          corrected = false;
        })
        item.candidate_entity_ids

  abbrev resolved : ℕ → CandidateMatchResult → Option String → ResolvedEntity
  resolved k item none = record {
    entity_index = item.entity_index;
    extracted_entity = item.extracted_entity;
    resolved_entity_id = uuid4 k;
    resolution_status = as_new;
  }
  resolved k item (some entity_id) = record {
    entity_index = item.entity_index;
    extracted_entity = item.extracted_entity;
    resolved_entity_id = entity_id;
    resolution_status = as_matched;
  }

  -- `status == "matched" and match_item.matched_entity_id`
  abbrev given_match : Option String → Option String
  given_match none = none
  given_match (some entity_id) = if entity_id == "" then none else some entity_id

  abbrev by_status : MatchStatus → List String → CandidateMatchResult → Result (Option String)
  by_status new_entity documents item = ok none
  by_status matched documents item = ok (given_match item.matched_entity_id)
  by_status needs_detailed_comparison documents item = compare_in_detail documents item

  pub resolve_entity : ℕ → List String → CandidateMatchResult → Result ResolvedEntity
  resolve_entity k documents item = do
    entity_id ← by_status item.status documents item
    ok (resolved k item entity_id)

  -- The loop over the matches, from position k on.
  pub run_step_five_from :
      ℕ → List String → List CandidateMatchResult → Result (List ResolvedEntity)
  run_step_five_from k documents [] = ok []
  run_step_five_from k documents (item ∷ candidate_matching) = do
    entity ← resolve_entity k documents item
    others ← run_step_five_from (k + 1) documents candidate_matching
    ok (entity ∷ others)

  unfoldable pub run_step_five :
      List String → List CandidateMatchResult → Result (List ResolvedEntity)
  unfolding run_step_five_from resolve_entity compare_in_detail candidate_contexts decide
  run_step_five documents candidate_matching = run_step_five_from 0 documents candidate_matching
