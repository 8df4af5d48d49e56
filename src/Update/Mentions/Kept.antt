-- ===== src/Update/Mentions/Kept.antt =====
-- What step ten adds to the change that step nine builds.
use exobrain.Prelude.{
  IsAmong, Option, none, some, ℕ, String, ◌≡◌, refl, subst, Bool, true, false, List, [], ◌∷◌, ◌++◌,
  map, All, All-append,
}
use exobrain.Prelude.Dict
use exobrain.Prelude.Json.{Json, text, float, object, list, dict, entries}
use exobrain.Prelude.Result.{Result, ok, >>=-eq-ok}
use exobrain.Update.Keyed.{seen_key}
use exobrain.Update.Edges.{IsWritten, preflight_validate_graph_delta_edges, preflight_edges-nil}
use exobrain.Update.Merge.{
  GraphDelta, MatchedRelationship, FinalEntityContextGraph, merged,
  build_step_nine_merge_graph_delta,
}
use exobrain.Update.Merge.Written.{build_step_nine-AreWritten}
use exobrain.Update.Mentions.{
  Mention, mention_key, is_valid_mention, mention_edge, node_ids, kept_mentions,
  run_step_ten_finalize_graph_delta,
}

module _ {F : Type 0} where
  abbrev pub IsMentioned : List (Mention F) → Mention F → Type 0
  IsMentioned kept m = seen_key (map mention_key kept) (mention_key m) ≡ true

  abbrev pub AreDistinct : List (Mention F) → Type 0
  AreDistinct [] = Unit
  AreDistinct (m ∷ kept) =
      (seen_key (map mention_key kept) (mention_key m) ≡ false) × AreDistinct kept

  -- What the edge holds under a key.
  abbrev shown : Json F → String → Option (Json F)
  shown (object d) key = Dict.get (entries d) key
  shown _ key = none

  -- The edge runs from the block to the entity, is a private MENTIONS edge of the user, and carries
  -- the confidence of the mention as its first property.
  pub record IsEdgeOf (user_id : String) (m : Mention F) (edge : Json F) : Type 0 where
    pub from : shown edge "from_id" ≡ some (text m.block_id)
    pub to : shown edge "to_id" ≡ some (text m.entity_id)
    pub typed : shown edge "edge_type" ≡ some (text "MENTIONS")
    pub owned : shown edge "user_id" ≡ some (text user_id)
    pub private : shown edge "visibility" ≡ some (text "PRIVATE")
    pub properties : List (Json F)
    pub listed : shown edge "properties" ≡ some (list properties)
    pub confident :
        IsAmong properties
          (dict (("key", text "confidence") ∷ ("float_value", float m.confidence) ∷ []))

  abbrev pub AreEdgesOf : String → List (Mention F) → List (Json F) → Type 0
  AreEdgesOf user_id [] [] = Unit
  AreEdgesOf user_id (m ∷ kept) (edge ∷ edges) =
      IsEdgeOf user_id m edge × AreEdgesOf user_id kept edges
  AreEdgesOf user_id _ _ = ⊥

  -- `final` is `delta` with edges for `kept`, which are the mentions in `mentions` of known entities
  -- in known blocks, each pair once.
  pub record IsFinalized (user_id : String) (delta : GraphDelta F) (mentions : List (Mention F))
      (final : GraphDelta F) : Type 0 where
    pub kept : List (Mention F)
    pub added : List (Json F)
    pub result : final ≡ record delta { edges = delta.edges ++ added }
    pub edges : AreEdgesOf user_id kept added
    pub found : All (IsAmong mentions) kept
    pub valid :
        All (λ m. is_valid_mention (node_ids delta.blocks) (node_ids delta.entities) m ≡ true) kept
    pub distinct : AreDistinct kept
    pub complete :
        All
          (λ m.
            is_valid_mention (node_ids delta.blocks) (node_ids delta.entities) m ≡ true
            → IsMentioned kept m)
          mentions

  mention_edges-AreWritten :
      (user_id : String) (kept : List (Mention F)) → All IsWritten (map (mention_edge user_id) kept)
  mention_edges-AreWritten user_id [] = tt
  mention_edges-AreWritten user_id (m ∷ kept) = (
    (user_id, m.block_id, m.entity_id, "MENTIONS", m.confidence, refl),
    mention_edges-AreWritten user_id kept,
  )

  finalized-edges :
      (finalizer_agent : GraphDelta F → Result (List (Mention F))) (user_id : String)
      (delta final : GraphDelta F)
      → run_step_ten_finalize_graph_delta finalizer_agent user_id delta ≡ ok final
      → (kept : List (Mention F)) × (delta.edges ++ map (mention_edge user_id) kept ≡ final.edges)
  unfolding run_step_ten_finalize_graph_delta
  finalized-edges finalizer_agent user_id delta final h =
      let (mentions, found, done) = >>=-eq-ok (finalizer_agent delta) _ h in
      (kept_mentions delta mentions, cc)

  -- Where steps nine and ten return, every edge of their change passes the check of edges that
  -- follows.
  pub steps_nine_ten-preflight :
      (json_dumps : Json F → String) (is_uuid : String → Bool) (uuid4 : ℕ → String) (one : F)
      (user_id : String) (finalizer_agent : GraphDelta F → Result (List (Mention F)))
      (universes : List String) (rs : List (MatchedRelationship F))
      (graphs : List (FinalEntityContextGraph F)) (delta final : GraphDelta F)
      → build_step_nine_merge_graph_delta json_dumps is_uuid uuid4 one user_id universes rs graphs
        ≡ merged delta
      → run_step_ten_finalize_graph_delta finalizer_agent user_id delta ≡ ok final
      → preflight_validate_graph_delta_edges 0 final.edges ≡ []
  steps_nine_ten-preflight json_dumps is_uuid uuid4 one user_id agent universes rs graphs delta
        final built done =
      let (kept, e) = finalized-edges agent user_id delta final done in
      preflight_edges-nil 0 final.edges (
        subst (All IsWritten) e (
          All-append IsWritten delta.edges (map (mention_edge user_id) kept)
            (build_step_nine-AreWritten json_dumps is_uuid uuid4 one user_id universes rs graphs
              delta built)
            (mention_edges-AreWritten user_id kept)))
