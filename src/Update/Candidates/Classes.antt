-- ===== src/Update/Candidates/Classes.antt =====
-- What each class of candidates means.
use exobrain.Prelude.{
  String, ◌≡◌, ◌≢◌, refl, ◌∙◌, sym, subst, ap, Bool, true, Option, none, some, List, [], ◌∷◌, arith,
}
use exobrain.Update.Candidates.{
  Floats, Candidate, Classification, new_entity, matched, needs_detailed_comparison, score, passes,
  entity_id, over, ids, single_id, by_details, by_single, by_over_01, classify_candidate_matches,
}

-- The thresholds are nested: 0.6 is above 0.15, and that is above 0.1.
pub record AreNested {F : Type 0} (floats : Floats F) : Type 0 where
  pub below_06 : (x : F) → floats.above_06 x ≡ true → floats.above_01 x ≡ true
  pub below_015 : (x : F) → floats.above_015 x ≡ true → floats.above_01 x ≡ true

module _ {F : Type 0} (floats : Floats F) where
  passes-nested :
      (high low : F → Bool)
      → ((x : F) → high x ≡ true → low x ≡ true)
      → (o : Option F) → passes floats high o ≡ true
      → passes floats low o ≡ true
  passes-nested high low nested none h = h
  passes-nested high low nested (some x) h = nested x h

  -- A filter by a lower threshold first changes nothing.
  over-over :
      (high low : F → Bool)
      → ((x : F) → high x ≡ true → low x ≡ true)
      → (cs : List (Candidate F)) → over floats high (over floats low cs) ≡ over floats high cs
  over-over high low nested [] = refl
  over-over high low nested (c ∷ cs) =
      ground (arith, over-over high low nested cs, passes-nested high low nested (score floats c))

  -- The candidate alone above 0.6 and the ids above 0.15 decide.
  abbrev pub IsJudged : List (Candidate F) → Classification → Type 0
  IsJudged cs (matched s) =
      (c : Candidate F) × (over floats floats.above_06 cs ≡ c ∷ []) × (entity_id floats c ≡ some s)
  IsJudged cs (needs_detailed_comparison found) =
      (found ≢ [])
      × (found ≡ ids floats (over floats floats.above_015 cs))
      × ((c : Candidate F) → over floats floats.above_06 cs ≡ c ∷ [] → entity_id floats c ≡ none)
  IsJudged cs new_entity =
      (ids floats (over floats floats.above_015 cs) ≡ [])
      × ((c : Candidate F) → over floats floats.above_06 cs ≡ c ∷ [] → entity_id floats c ≡ none)

  by_details-IsJudged :
      (cs : List (Candidate F)) (found : List String)
      → found ≡ ids floats (over floats floats.above_015 cs)
      → ((c : Candidate F) → over floats floats.above_06 cs ≡ c ∷ [] → entity_id floats c ≡ none)
      → IsJudged cs (by_details floats found)
  by_details-IsJudged cs [] e unmatched = (sym e, unmatched)
  by_details-IsJudged cs (s ∷ found) e unmatched = ((λ x. cc), e, unmatched)

  by_single-IsJudged :
      (cs found : List (Candidate F))
      → over floats floats.above_06 cs ≡ found
      → IsJudged cs (by_single floats (single_id floats found) cs)
  by_single-IsJudged cs [] e = by_details-IsJudged cs _ refl (λ c x. cc)
  by_single-IsJudged cs (c ∷ []) e = alone (entity_id floats c) refl
    where
      alone : (o : Option String) → entity_id floats c ≡ o → IsJudged cs (by_single floats o cs)
      alone (some s) id = (c, e, id)
      alone none id =
          by_details-IsJudged cs _ refl
            (λ d x. let same : c ≡ d = cc in subst (λ y. entity_id floats y ≡ none) same id)
  by_single-IsJudged cs (c ∷ d ∷ rest) e = by_details-IsJudged cs _ refl (λ x y. cc)

  module _ (nested : AreNested floats) where
    by_over_01-IsJudged :
        (cs found : List (Candidate F))
        → over floats floats.above_01 cs ≡ found
        → IsJudged cs (by_over_01 floats found cs)
    by_over_01-IsJudged cs [] e = (
      ap (ids floats) (skipped nested.below_015),
      λ c x. let clash : [] ≡ c ∷ [] = sym (skipped nested.below_06) ∙ x in cc,
    )
      where
        skipped :
            {high : F → Bool}
            → ((x : F) → high x ≡ true → floats.above_01 x ≡ true)
            → over floats high cs ≡ []
        skipped {high} above =
            sym (over-over high floats.above_01 above cs) ∙ ap (over floats high) e
    by_over_01-IsJudged cs (c ∷ rest) e =
        by_single-IsJudged cs (over floats floats.above_06 (c ∷ rest)) (
          sym (over-over floats.above_06 floats.above_01 nested.below_06 cs)
          ∙ ap (over floats floats.above_06) e)

    -- Where the thresholds are nested, a set of candidates is matched exactly if one alone scores
    -- above 0.6 and names its entity; else the entities named above 0.15 are compared in detail;
    -- it is a new entity if there are none. The test against 0.1 decides nothing.
    pub classify_candidate_matches-IsJudged :
        (cs : List (Candidate F)) → IsJudged cs (classify_candidate_matches floats cs)
    unfolding classify_candidate_matches
    classify_candidate_matches-IsJudged cs = by_over_01-IsJudged cs _ refl
