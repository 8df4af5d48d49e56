-- ===== src/Update/Decision/Parsing.antt =====
-- Which decisions of the model are accepted.
use Prim.Native.Char.{code}
use Prim.Native.String.{String, ◌++◌}
use package.text.Mathlib.TextLemmas.{cons-append}
use exobrain.Prelude.{
  ◌≡◌, refl, ap, sym, ◌∙◌, true, false, Option, none, some, List, [], ◌∷◌, ◌==◌, arith, nat_eq,
  eq_iff, Bool-cases, inl, inr,
}
use exobrain.Prelude.Result.{ok}
use exobrain.Prelude.Text.{concat, contains, after_prefix, after_prefix-append}
use exobrain.Update.Decision.{
  up_to_close, match_decision, extract_matched_entity_id, known_candidate,
  resolve_step_five_decision,
}

-- No character of the text closes the parenthesis.
abbrev pub HasNoClose : String → Type 0
HasNoClose String.[] = Unit
HasNoClose (String.◌∷◌ c s) = (nat_eq (code c) b')' ≡ false) × HasNoClose s

up_to_close-append : (s : String) → HasNoClose s → up_to_close (concat (s ∷ ")" ∷ [])) ≡ (s, ")")
unfolding up_to_close
up_to_close-append String.[] h = refl
up_to_close-append (String.◌∷◌ c s) h = rw (cons-append, h.0, up_to_close-append s h.1)

-- A text that begins with MATCH( is not NEW_ENTITY.
match-ne-new : (s : String) → ("MATCH(" ++ s == "NEW_ENTITY") ≡ false
unfolding after_prefix
match-ne-new s = elim (Bool-cases ("MATCH(" ++ s == "NEW_ENTITY")) [
  | inl same ↦
      let clash : some s ≡ none =
        sym (after_prefix-append "MATCH(" s) ∙ ap (after_prefix "MATCH(") ((eq_iff _ _).0 same) in
      cc
  | inr differs ↦ differs
]

extract-match :
    (s : String)
    → (s == "") ≡ false
    → HasNoClose s
    → extract_matched_entity_id (concat ("MATCH(" ∷ s ∷ ")" ∷ [])) ≡ some s
unfolding extract_matched_entity_id
extract-match s some_text h = rw (
  match-ne-new (concat (s ∷ ")" ∷ [])),
  after_prefix-append "MATCH(" (concat (s ∷ ")" ∷ [])),
  match_decision,
  up_to_close-append s h,
  some_text,
)

-- The decision MATCH(id) gives the entity of that id, for every candidate whose id is not empty and
-- has no closing parenthesis.
pub resolve-match :
    (s : String) (candidate_entity_ids : List String)
    → (s == "") ≡ false
    → HasNoClose s
    → contains candidate_entity_ids s ≡ true
    → resolve_step_five_decision (concat ("MATCH(" ∷ s ∷ ")" ∷ [])) candidate_entity_ids
      ≡ ok (some s)
unfolding resolve_step_five_decision
resolve-match s candidate_entity_ids some_text h known =
    rw (match-ne-new (concat (s ∷ ")" ∷ [])), extract-match s some_text h, known_candidate, known)

-- What a decision that is accepted says: NEW_ENTITY, or one of the candidates.
abbrev pub IsDecided : String → List String → Option String → Type 0
IsDecided decision candidate_entity_ids none = decision ≡ "NEW_ENTITY"
IsDecided decision candidate_entity_ids (some s) = contains candidate_entity_ids s ≡ true

-- A decision that is accepted is NEW_ENTITY, for a new entity, or gives one of the candidates.
pub resolve-IsDecided :
    (decision : String) (candidate_entity_ids : List String) (o : Option String)
    → resolve_step_five_decision decision candidate_entity_ids ≡ ok o
    → IsDecided decision candidate_entity_ids o
unfolding resolve_step_five_decision
resolve-IsDecided decision ids none h = ground (arith, eq_iff decision "NEW_ENTITY")
resolve-IsDecided decision ids (some s) h = ground arith
