-- ===== src/Update/FinalGraphs/Accepted.antt =====
-- What step eight keeps of an entity, and which entities it lets pass.
use exobrain.Prelude.{
  String, ◌≡◌, refl, sym, ◌∙◌, ap, subst, Bool, true, false, Option, none, some, List, [], ◌∷◌,
  ◌==◌, ◌||◌, ◌⊎◌, arith, eq_iff, All, if◌then◌else◌, Bool-cases, inl, inr,
}
use exobrain.Prelude.Dict
use exobrain.Prelude.Json.{
  Json, null, bool, int, float, text, array, object, entries, dict, as_dict, as_list,
  entries-fields_of,
}
use exobrain.Prelude.Result.{Result, ok, raised, ◌>>=◌, >>=-eq-ok}
use exobrain.Prelude.Text.{contains, concat}
use exobrain.Update.Properties.{JsonDict, non_empty_text, is_true}
use exobrain.Update.Properties.Writable.{IsWritable, IsShown-IsWritable}
use exobrain.Update.Decision.{ResolvedEntity}
use exobrain.Update.Merge.{FinalEntityContextGraph}
use exobrain.Update.FinalGraphs.{
  structural_keys, writable_key, writable_keys, keys_of, extract_writable_property_keys, is_allowed,
  given_entity, filtered_entity, required_in, normalize_step_eight_structured_response,
  assert_step_eight_required_entity_fields, FinalPrompt, existing_context, final_prompt,
  final_graph, run_step_eight,
}

-- The keys are compared, and equal keys are allowed alike.
allowed-same :
    (writable : List String) (k key : String)
    → (k == key) ≡ true
    → is_allowed writable key ≡ is_allowed writable k
allowed-same writable k key same = ap (is_allowed writable) (sym ((eq_iff k key).0 same))

module _ {F : Type 0} where
  kept_case :
      (b c d : Bool) (o rest : Option (Json F)) (found : Option (Json F))
      → b ≡ true
      → (c ≡ true → d ≡ b)
      → found ≡ (if d then rest else none)
      → (if c then o else found) ≡ (if d then (if c then o else rest) else none)
  kept_case b c d o rest found t same e = ground arith

  dropped_case :
      (b c d : Bool) (o rest : Option (Json F)) (found : Option (Json F))
      → b ≡ false
      → (c ≡ true → d ≡ b)
      → found ≡ (if d then rest else none)
      → found ≡ (if d then (if c then o else rest) else none)
  dropped_case b c d o rest found t same e = ground arith

  get-filtered_entity :
      (writable : List String) (entity : JsonDict F) (key : String)
      → Dict.get (filtered_entity writable entity) key
        ≡ (if is_allowed writable key then Dict.get entity key else none)
  unfolding Dict.get
  get-filtered_entity writable [] key = ground arith
  get-filtered_entity writable ((k, v) ∷ entity) key = elim (Bool-cases (is_allowed writable k)) [
    | inl kept ↦ rw kept (
        kept_case (is_allowed writable k) (k == key) (is_allowed writable key) (some v)
          (Dict.get entity key) _ kept (allowed-same writable k key)
          (get-filtered_entity writable entity key))
    | inr dropped ↦ rw dropped (
        dropped_case (is_allowed writable k) (k == key) (is_allowed writable key) (some v)
          (Dict.get entity key) _ dropped (allowed-same writable k key)
          (get-filtered_entity writable entity key))
  ]

  -- The entity of the normalised response holds, under each key that is structural or writable, what
  -- the model's entity with the extracted universe holds there, and nothing under another key.
  normalize-entity :
      (structured : JsonDict F) (resolved : ResolvedEntity) (writable : List String)
      → (entity : JsonDict F) × (as_dict (
            Dict.get
              (normalize_step_eight_structured_response structured resolved writable)
              "entity")
          ≡ some entity)
        × ((key : String)
            → Dict.get entity key ≡ (
                if is_allowed writable key
                then Dict.get (given_entity resolved structured) key
                else none))
  unfolding normalize_step_eight_structured_response
  normalize-entity structured resolved writable = (
    filtered_entity writable (given_entity resolved structured),
    rw
        (Dict.get-put structured "entity"
          (dict (filtered_entity writable (given_entity resolved structured))) "entity")
        (ap some (entries-fields_of (filtered_entity writable (given_entity resolved structured)))),
    get-filtered_entity writable (given_entity resolved structured),
  )

  required-has :
      (entity : JsonDict F) (entity_id : String)
      → required_in entity_id (some entity) ≡ ok tt
      → (Dict.has entity "name" ≡ true) × (Dict.has entity "aliases" ≡ true)
  required-has entity entity_id h = (ground arith, ground arith)

  -- What is there after the filter, and is not structural, is writable.
  has-writable :
      (writable : List String) (given entity : JsonDict F) (key : String)
      → ((k : String)
          → Dict.get entity k ≡ (if is_allowed writable k then Dict.get given k else none))
      → contains structural_keys key ≡ false
      → Dict.has entity key ≡ true
      → contains writable key ≡ true
  has-writable writable given entity key same other there =
      let (v, e) = Dict.has-get entity key there in
      found (contains writable key) other (sym (same key) ∙ e)
    where
      found :
          (b : Bool) {v : Json F}
          → contains structural_keys key ≡ false
          → (if contains structural_keys key || b then Dict.get given key else none) ≡ some v
          → b ≡ true
      found b other e = ground arith

  -- One of the properties of the context names the key and is marked as writable.
  abbrev pub IsMarked : List (Json F) → String → Type 0
  IsMarked [] key = ⊥
  IsMarked (x ∷ cps) key = ((c : JsonDict F) × IsWritable key x c) ⊎ IsMarked cps key

  writable_keys-IsMarked :
      (cps : List (Json F)) (key : String)
      → contains (writable_keys cps) key ≡ true
      → IsMarked cps key
  unfolding writable_keys contains
  writable_keys-IsMarked [] key h = absurd (cc)
  writable_keys-IsMarked (null ∷ cps) key h = inr (writable_keys-IsMarked cps key h)
  writable_keys-IsMarked (bool b ∷ cps) key h = inr (writable_keys-IsMarked cps key h)
  writable_keys-IsMarked (int n ∷ cps) key h = inr (writable_keys-IsMarked cps key h)
  writable_keys-IsMarked (float f ∷ cps) key h = inr (writable_keys-IsMarked cps key h)
  writable_keys-IsMarked (text s ∷ cps) key h = inr (writable_keys-IsMarked cps key h)
  writable_keys-IsMarked (array xs ∷ cps) key h = inr (writable_keys-IsMarked cps key h)
  writable_keys-IsMarked (object d ∷ cps) key h =
      by_name (non_empty_text (Dict.get (entries d) "prop_name"))
        (is_true (Dict.get (entries d) "writable")) refl refl (writable_keys-IsMarked cps key) h
    where
      by_name :
          (o : Option String) (b : Bool)
          → non_empty_text (Dict.get (entries d) "prop_name") ≡ o
          → is_true (Dict.get (entries d) "writable") ≡ b
          → (contains (writable_keys cps) key ≡ true → IsMarked cps key)
          → contains (writable_key o b (writable_keys cps)) key ≡ true
          → IsMarked (object d ∷ cps) key
      by_name none true e f rest h = inr (rest h)
      by_name none false e f rest h = inr (rest h)
      by_name (some k) false e f rest h = inr (rest h)
      by_name (some k) true e f rest h = elim (Bool-cases (k == key)) [
        | inl same ↦ inl (
          entries d,
          IsShown-IsWritable key d
              (record { name = e ∙ ap some ((eq_iff k key).0 same); flag = f }),
        )
        | inr other ↦ inr (rest (ground arith))
      ]

  -- The context of the entity's type lists a property that is named so and marked as writable.
  abbrev IsListed : JsonDict F → String → Type 0
  IsListed context key =
      (cps : List (Json F)) × (as_list (Dict.get context "properties") ≡ some cps)
      × IsMarked cps key

  extract-IsListed :
      (context : JsonDict F) (key : String)
      → contains (extract_writable_property_keys context) key ≡ true
      → IsListed context key
  unfolding extract_writable_property_keys contains
  extract-IsListed context key h = listed (as_list (Dict.get context "properties")) refl h
    where
      listed :
          (o : Option (List (Json F)))
          → as_list (Dict.get context "properties") ≡ o
          → contains (keys_of o) key ≡ true
          → IsListed context key
      listed none e h = absurd (cc)
      listed (some cps) e h = (cps, e, writable_keys-IsMarked cps key h)

  -- The context of the type has properties of the names `name` and `aliases` that are marked as
  -- writable.
  abbrev pub HasNames : (String → Result (JsonDict F)) → ResolvedEntity → Type 0
  HasNames get_type_context resolved =
      (context : JsonDict F) × (get_type_context resolved.extracted_entity.node_type ≡ ok context)
      × IsListed context "name"
      × IsListed context "aliases"

  checked-writable :
      (structured : JsonDict F) (resolved : ResolvedEntity) (writable : List String)
      → assert_step_eight_required_entity_fields
          (normalize_step_eight_structured_response structured resolved writable)
          resolved.resolved_entity_id
        ≡ ok tt
      → (contains writable "name" ≡ true) × (contains writable "aliases" ≡ true)
  unfolding assert_step_eight_required_entity_fields contains
  checked-writable structured resolved writable h =
      let (entity, stored, same) = normalize-entity structured resolved writable in
      let given = given_entity resolved structured in
      let (name, aliases) =
        required-has entity resolved.resolved_entity_id
          (subst (λ o. required_in resolved.resolved_entity_id o ≡ ok tt) stored h) in
      (
        has-writable writable given entity "name" same refl name,
        has-writable writable given entity "aliases" same refl aliases,
      )

module _ {F : Type 0} (get_type_context get_entity_context : String → Result (JsonDict F))
    (final_agent : FinalPrompt F → Result (JsonDict F))
    (model_validate : JsonDict F → Result (FinalEntityContextGraph F)) where
  final_graph-HasNames :
      (documents : List String) (resolved : ResolvedEntity) (graph : FinalEntityContextGraph F)
      → final_graph get_type_context get_entity_context final_agent model_validate documents
          resolved
        ≡ ok graph
      → HasNames get_type_context resolved
  unfolding final_graph
  final_graph-HasNames documents resolved graph h =
      let (context, e, rest) =
        >>=-eq-ok (get_type_context resolved.extracted_entity.node_type) _ h in
      let (existing, _, rest) =
        >>=-eq-ok
          (existing_context get_type_context get_entity_context final_agent model_validate
            resolved.resolution_status resolved.resolved_entity_id)
          _ rest in
      let (structured, _, rest) =
        >>=-eq-ok
          (final_agent (
            final_prompt get_type_context get_entity_context final_agent model_validate documents
              resolved context existing))
          _ rest in
      let (checked, c, _) =
        >>=-eq-ok
          (assert_step_eight_required_entity_fields
            (normalize_step_eight_structured_response structured resolved
              (extract_writable_property_keys context))
            resolved.resolved_entity_id)
          _ rest in
      let (name, aliases) =
        checked-writable structured resolved (extract_writable_property_keys context) c in
      (context, e, extract-IsListed context "name" name, extract-IsListed context "aliases" aliases)

  -- Step eight returns only if the context of each entity's type lists both a property `name` and a
  -- property `aliases` that is marked with `"writable": true`: a key that is not writable is removed before the required ones are looked for.
  pub run_step_eight-HasNames :
      (documents : List String) (entities : List ResolvedEntity)
      (graphs : List (FinalEntityContextGraph F))
      → run_step_eight get_type_context get_entity_context final_agent model_validate documents
          entities
        ≡ ok graphs
      → All (HasNames get_type_context) entities
  unfolding run_step_eight
  run_step_eight-HasNames documents [] graphs h = tt
  run_step_eight-HasNames documents (resolved ∷ entities) graphs h =
      typed (resolved.extracted_entity.node_type == "") (run_step_eight-HasNames documents entities)
        h
    where
      typed :
          (b : Bool)
          → ((gs : List (FinalEntityContextGraph F))
              → run_step_eight get_type_context get_entity_context final_agent model_validate
                  documents entities
                ≡ ok gs
              → All (HasNames get_type_context) entities)
          → (if b
              then raised (
                  concat (
                    "knowledge.update step eight validation failed: missing node_type for entity "
                    ∷ resolved.resolved_entity_id ∷ []))
              else (do
                graph ←
                    final_graph get_type_context get_entity_context final_agent model_validate
                      documents resolved
                others ←
                    run_step_eight get_type_context get_entity_context final_agent model_validate
                      documents entities
                ok (graph ∷ others)))
            ≡ ok graphs
          → HasNames get_type_context resolved × All (HasNames get_type_context) entities
      typed true rest e = absurd (cc)
      typed false rest e =
          let (graph, g, e') =
            >>=-eq-ok
              (final_graph get_type_context get_entity_context final_agent model_validate documents
                resolved)
              _ e in
          let (others, o, _) =
            >>=-eq-ok
              (run_step_eight get_type_context get_entity_context final_agent model_validate
                documents entities)
              _ e' in
          (final_graph-HasNames documents resolved graph g, rest others o)
