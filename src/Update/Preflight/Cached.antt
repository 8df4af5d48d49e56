-- ===== src/Update/Preflight/Cached.antt =====
-- The contexts that are kept make the check consistent: one answer for each type.
use exobrain.Prelude.{
  ℕ, length, String, ◌≡◌, refl, sym, ◌∙◌, ap, Option, none, some, List, [], ◌∷◌, ◌⊎◌, arith, eq_iff,
  eq_refl, ◌==◌, Bool-cases, Option-cases, inl, inr, subst,
}
use exobrain.Prelude.Dict
use exobrain.Prelude.Json.{Json}
use exobrain.Prelude.Result.{Result, ok, raised}
use exobrain.Update.Properties.{JsonDict}
use exobrain.Update.Preflight.{
  EntityIssue, Plan, skip, wrong, check, plan, run_plan, fetch_plan, check_each,
  preflight_validate_graph_delta_entities,
}

module _ {F : Type 0} (get_type_context : ℕ → String → Result (JsonDict F)) where
  -- What is kept is what some call gave.
  abbrev AreGiven : List (String × JsonDict F) → Type 0
  AreGiven contexts =
      (t : String) (c : JsonDict F)
      → Dict.get contexts t ≡ some c
      → (n : ℕ) × (get_type_context n t ≡ ok c)

  abbrev Issues : Type 0
  Issues = Result (List EntityIssue)

  -- One answer for each type, of those that the call gives and with the contexts that are kept, with
  -- which the check where each entity asks for itself gives the same.
  record IsAnswered (contexts : List (String × JsonDict F)) (given : Issues)
      (asked : (String → Result (JsonDict F)) → Issues) : Type 0 where
    answer : String → Result (JsonDict F)
    called : (t : String) → (n : ℕ) × (answer t ≡ get_type_context n t)
    kept : (t : String) (c : JsonDict F) → Dict.get contexts t ≡ some c → answer t ≡ ok c
    same : given ≡ asked answer

  abbrev kept_or : Option (JsonDict F) → ℕ → String → Result (JsonDict F)
  kept_or none n t = get_type_context n t
  kept_or (some c) n t = ok c

  -- The answers where no further context is fetched than the one that is.
  ending :
      (contexts : List (String × JsonDict F)) (given : Issues)
      (asked : (String → Result (JsonDict F)) → Issues)
      → AreGiven contexts
      → given ≡ asked (λ t. kept_or (Dict.get contexts t) (length contexts) t)
      → IsAnswered contexts given asked
  ending contexts given asked fetched e = record {
    answer = λ t. kept_or (Dict.get contexts t) (length contexts) t;
    called = λ t. of_kept t (Dict.get contexts t) refl;
    kept = λ t c h. ap (λ o. kept_or o (length contexts) t) h;
    same = e;
  }
    where
      of_kept :
          (t : String) (o : Option (JsonDict F))
          → Dict.get contexts t ≡ o
          → (n : ℕ) × (kept_or o (length contexts) t ≡ get_type_context n t)
      of_kept t none h = (length contexts, refl)
      of_kept t (some c) h = let (n, e) = fetched t c h in (n, sym e)

  AreGiven-put :
      (contexts : List (String × JsonDict F)) (t : String) (c : JsonDict F) (n : ℕ)
      → AreGiven contexts
      → get_type_context n t ≡ ok c
      → AreGiven (Dict.put contexts t c)
  AreGiven-put contexts t c n fetched e j d h = elim (which j d h) [
    | inl (same, is) ↦ (n, subst (λ x. get_type_context n x ≡ ok d) same (e ∙ ap ok is))
    | inr before ↦ fetched j d before
  ]
    where
      which :
          (j : String) (d : JsonDict F)
          → Dict.get (Dict.put contexts t c) j ≡ some d
          → ((t ≡ j) × (c ≡ d)) ⊎ (Dict.get contexts j ≡ some d)
      which j d h = ground (arith, eq_iff t j, Dict.get-put contexts t c j)

  get-put_missing :
      (contexts : List (String × JsonDict F)) (t : String) (c : JsonDict F)
      → Dict.get contexts t ≡ none
      → (j : String) (d : JsonDict F) → Dict.get contexts j ≡ some d
      → Dict.get (Dict.put contexts t c) j ≡ some d
  get-put_missing contexts t c missing j d h =
      Dict.get-put contexts t c j ∙ elim (Bool-cases (t == j)) [
        | inl same ↦
            let is : t ≡ j = (eq_iff t j).0 same in
            let gone : Dict.get contexts j ≡ none =
              subst (λ k. Dict.get contexts k ≡ none) is missing in
            absurd (cc)
        | inr other ↦ rw other h
      ]

  own :
      (t : String) (c : JsonDict F) (contexts : List (String × JsonDict F))
      → Dict.get (Dict.put contexts t c) t ≡ some c
  own t c contexts = Dict.get-put contexts t c t ∙ rw (eq_refl t) refl

  module _ (entities : List (Json F))
      (rest : (contexts : List (String × JsonDict F))
        → AreGiven contexts
        → IsAnswered contexts
            (preflight_validate_graph_delta_entities get_type_context contexts entities)
            (λ answer. check_each answer entities)) where
    abbrev next : List (String × JsonDict F) → Issues
    next later = preflight_validate_graph_delta_entities get_type_context later entities

    planned :
        (contexts : List (String × JsonDict F)) (p : Plan F)
        → AreGiven contexts
        → IsAnswered contexts
            (run_plan get_type_context contexts p next)
            (λ answer. fetch_plan answer p (check_each answer entities))
    planned contexts skip fetched = rest contexts fetched
    planned contexts (wrong issue) fetched =
        let x = rest contexts fetched in
        record { answer = x.answer; called = x.called; kept = x.kept; same = rw (x.same) refl }
    planned contexts (check i t ps) fetched = elim (Option-cases (Dict.get contexts t)) [
      | inr (c, there) ↦
          let x = rest contexts fetched in
          record {
            answer = x.answer;
            called = x.called;
            kept = x.kept;
            same = rw (there, x.kept t c there, x.same) refl;
          }
      | inl missing ↦ of_answer missing (get_type_context (length contexts) t) refl
    ]
      where
        of_answer :
            Dict.get contexts t ≡ none
            → (r : Result (JsonDict F)) → get_type_context (length contexts) t ≡ r
            → IsAnswered contexts
                (run_plan get_type_context contexts (check i t ps) next)
                (λ answer. fetch_plan answer (check i t ps) (check_each answer entities))
        of_answer missing (raised e) is =
            ending contexts _
              (λ answer. fetch_plan answer (check i t ps) (check_each answer entities)) fetched
              (rw (missing, is) refl)
        of_answer missing (ok c) is =
            let x =
              rest (Dict.put contexts t c)
                (AreGiven-put contexts t c (length contexts) fetched is) in
            record {
              answer = x.answer;
              called = x.called;
              kept = λ j d h. x.kept j d (get-put_missing contexts t c missing j d h);
              same = rw (missing, is, x.kept t c (own t c contexts), x.same) refl;
            }

  answered :
      (entities : List (Json F)) (contexts : List (String × JsonDict F))
      → AreGiven contexts
      → IsAnswered contexts
          (preflight_validate_graph_delta_entities get_type_context contexts entities)
          (λ answer. check_each answer entities)
  unfolding preflight_validate_graph_delta_entities
  answered [] contexts fetched = ending contexts _ (λ answer. ok []) fetched refl
  answered (entity ∷ entities) contexts fetched =
      planned entities (answered entities) contexts (plan entity) fetched

  -- Whatever the calls for the contexts give, the loop with the contexts that it keeps, from none on,
  -- gives what it gives where each entity asks for the context of its type, and all that ask for a
  -- type get one answer, which one of the calls for that type gives.
  pub preflight-eq_check_each :
      (entities : List (Json F))
      → (answer : String → Result (JsonDict F)) × ((t : String)
          → (n : ℕ) × (answer t ≡ get_type_context n t))
        × (preflight_validate_graph_delta_entities get_type_context [] entities
            ≡ check_each answer entities)
  unfolding Dict.get
  preflight-eq_check_each entities =
      let x = answered entities [] (λ t c e. absurd (cc)) in (x.answer, x.called, x.same)
