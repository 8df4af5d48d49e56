-- ===== src/Update/Samples.antt =====
-- Small inputs of the update pipeline, on which the theorems about it are applied.
use exobrain.Prelude.{
  ℕ, zero, suc, ◌+◌, ◌<◌, String, ◌≡◌, refl, Bool, true, false, Option, none, some, List, [], ◌∷◌,
  arith, leb, All,
}
use exobrain.Prelude.Json.{Json, null, text, float, ℤ, pos, negsuc}
use exobrain.Prelude.Result.{Result, ok}
use exobrain.Prelude.Text.{contains}
use exobrain.Update.Retry.{Exc, Outcome, value, error, call_with_retry}
use exobrain.Update.Retry.Attempts.{
  EndsAt, ArePauses, call_with_retry-EndsAt, call_with_retry-pauses,
}
use exobrain.Update.Candidates.{Floats, Candidate, classify_candidate_matches}
use exobrain.Update.Candidates.Classes.{AreNested, IsJudged, classify_candidate_matches-IsJudged}
use exobrain.Update.Decision.{
  ExtractedEntity, CandidateMatchResult, needs_detailed_comparison, Prompt, ResolvedEntity,
  as_matched, resolve_step_five_decision,
}
use exobrain.Update.Decision.Parsing.{resolve-match, resolve-IsDecided, IsDecided}
use exobrain.Update.Pairs.{RelationshipPair}

abbrev timeout : Exc
timeout = record {
  is_timeout_or_rpc_error = true;
  aio_code = none;
  has_status_code = false;
  status_code = none;
  response_status_code = none;
  class_name = "TimeoutError";
  message = "timed out";
}

-- The first call times out.
abbrev flaky : ℕ → Outcome String
flaky (suc zero) = error timeout
flaky n = value "reply"

-- random.uniform gives the upper end.
abbrev upper_end : ℕ → ℕ → ℕ → ℕ
upper_end n low high = high

call_with_retry-EndsAt_example :
    (last : ℕ) × EndsAt flaky upper_end 4 500 8000 1 last
      (call_with_retry flaky upper_end 4 500 8000)
call_with_retry-EndsAt_example = call_with_retry-EndsAt flaky upper_end 4 500 8000 (omega arith)

call_with_retry-pauses_example :
    ArePauses flaky upper_end 4 500 8000 0 (call_with_retry flaky upper_end 4 500 8000).sleeps
call_with_retry-pauses_example =
    call_with_retry-pauses flaky upper_end 4 500 8000 (λ n b. omega arith)

-- Scores in hundredths.
abbrev to_hundredths : ℤ → ℕ
to_hundredths (pos n) = n
to_hundredths (negsuc n) = 0

abbrev hundredths : Floats ℕ
hundredths = record {
  of_int = to_hundredths;
  of_bool = λ b. 0;
  above_01 = λ x. leb 11 x;
  above_015 = λ x. leb 16 x;
  above_06 = λ x. leb 61 x;
}

abbrev candidate : String → ℕ → Candidate ℕ
candidate s score = ("entity_id", text s) ∷ ("score", float score) ∷ []

abbrev candidates : List (Candidate ℕ)
candidates = candidate "a" 70 ∷ candidate "b" 20 ∷ candidate "c" 12 ∷ []

hundredths-AreNested : AreNested hundredths
hundredths-AreNested = record { below_06 = λ x h. ground arith; below_015 = λ x h. ground arith }

classify_candidate_matches-IsJudged_example :
    IsJudged hundredths candidates (classify_candidate_matches hundredths candidates)
classify_candidate_matches-IsJudged_example =
    classify_candidate_matches-IsJudged hundredths hundredths-AreNested candidates

resolve-match_example : resolve_step_five_decision "MATCH(b)" ("a" ∷ "b" ∷ []) ≡ ok (some "b")
unfolding contains
resolve-match_example = resolve-match "b" ("a" ∷ "b" ∷ []) refl (refl, tt) refl

resolve-IsDecided_example : IsDecided "MATCH(b)" ("a" ∷ "b" ∷ []) (some "b")
resolve-IsDecided_example =
    resolve-IsDecided "MATCH(b)" ("a" ∷ "b" ∷ []) (some "b") resolve-match_example

abbrev entity : ExtractedEntity
entity = record {
  name = "Ada";
  node_type = "node.person";
  aliases = [];
  short_description = "a mathematician";
  universe_id = none;
}

abbrev undecided : CandidateMatchResult
undecided = record {
  entity_index = 0;
  extracted_entity = entity;
  status = needs_detailed_comparison;
  candidate_entity_ids = "a" ∷ "b" ∷ [];
  matched_entity_id = none;
}

abbrev context : String → Result (Json ℕ)
context s = ok null

abbrev agent : Prompt ℕ → Result String
agent prompt = ok "MATCH(b)"

abbrev uuid : ℕ → String
uuid n = "new"

abbrev found : ResolvedEntity
found = record {
  entity_index = 0;
  extracted_entity = entity;
  resolved_entity_id = "b";
  resolution_status = as_matched;
}

abbrev pair : String → String → RelationshipPair
pair s t = record { entity_id_1 = s; entity_id_2 = t }

abbrev pairs : List RelationshipPair
pairs = pair "a" "b" ∷ pair "b" "a" ∷ pair "a" "a" ∷ pair "a" "z" ∷ []
