-- ===== src/Update/Candidates.antt =====
-- _classify_candidate_matches of core.py: how a found candidate is judged by its score.
pub mod Classes
use exobrain.Prelude.{
  String, Bool, true, false, Option, none, some, List, [], ◌∷◌, ◌&&◌, filter_by, if◌then◌else◌,
}
use exobrain.Prelude.Dict
use exobrain.Prelude.Json.{Json, int, float, bool, text, ℤ}

-- What the program does with floats: conversion, and comparison with its three thresholds.
pub record Floats (F : Type 0) : Type 0 where
  pub of_int : ℤ → F
  pub of_bool : Bool → F
  pub above_01 : F → Bool
  pub above_015 : F → Bool
  pub above_06 : F → Bool

-- A candidate is a decoded object.
abbrev pub Candidate : Type 0 → Type 0
Candidate F = List (String × Json F)

pub data Classification : Type 0 where
  new_entity : Classification
  matched : String → Classification
  needs_detailed_comparison : List String → Classification

module _ {F : Type 0} (floats : Floats F) where
  -- isinstance(value, (float, int)) and float(value); a bool is an int.
  abbrev number_of : Option (Json F) → Option F
  number_of (some (float x)) = some x
  number_of (some (int n)) = some (floats.of_int n)
  number_of (some (bool b)) = some (floats.of_bool b)
  number_of _ = none

  abbrev pub score : Candidate F → Option F
  score candidate = number_of (Dict.get candidate "score")

  abbrev passes : (F → Bool) → Option F → Bool
  passes test none = false
  passes test (some x) = test x

  abbrev text_of : Option (Json F) → Option String
  text_of (some (text s)) = some s
  text_of _ = none

  abbrev pub entity_id : Candidate F → Option String
  entity_id candidate = text_of (Dict.get candidate "entity_id")

  abbrev is_some : Option String → Bool
  is_some none = false
  is_some (some s) = true

  -- [candidate for candidate in scored if float(candidate["score"]) > threshold]
  abbrev pub over : (F → Bool) → List (Candidate F) → List (Candidate F)
  over test = filter_by (λ candidate. passes test (score candidate))

  abbrev ids : List (Candidate F) → List String
  ids [] = []
  ids (candidate ∷ rest) = elim (entity_id candidate) [ none ↦ ids rest | some s ↦ s ∷ ids rest ]

  -- `len(over_06) == 1 and isinstance(over_06[0].get("entity_id"), str)`
  abbrev single_id : List (Candidate F) → Option String
  single_id (candidate ∷ []) = entity_id candidate
  single_id _ = none

  abbrev by_details : List String → Classification
  by_details [] = new_entity
  by_details (s ∷ rest) = needs_detailed_comparison (s ∷ rest)

  abbrev by_single : Option String → List (Candidate F) → Classification
  by_single (some s) scored = matched s
  by_single none scored = by_details (ids (over floats.above_015 scored))

  abbrev by_over_01 : List (Candidate F) → List (Candidate F) → Classification
  by_over_01 [] candidates = new_entity
  by_over_01 (c ∷ rest) candidates =
      by_single (single_id (over floats.above_06 (c ∷ rest))) candidates

  pub classify_candidate_matches : List (Candidate F) → Classification
  classify_candidate_matches candidates = by_over_01 (over floats.above_01 candidates) candidates
