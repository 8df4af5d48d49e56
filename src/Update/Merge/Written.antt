-- ===== src/Update/Merge/Written.antt =====
-- The edges of a merged change, against the check of step ten.
use exobrain.Prelude.{
  ℕ, String, ◌≡◌, refl, subst, Bool, Option, none, some, List, [], ◌∷◌, All, All-append,
}
use exobrain.Prelude.Json.{Json}
use exobrain.Prelude.Dict
use exobrain.Update.Blocks.{FinalEntityContextBlock, Parents, collect_parents, check_parents}
use exobrain.Update.Edges.{IsWritten, graph_edge}
use exobrain.Update.Merge.{
  FinalEntityContextGraph, MatchedRelationship, GraphDelta, Merge, merged, stopped, ◌>>=◌, of_check,
  of_option, entity_keys, parent_edges, merge_universes, merge_blocks, merge_graph, merge_graphs,
  relationship_edges, map_ids, build_step_nine_merge_graph_delta,
}

-- If the merge is not refused, its result satisfies `Q`.
abbrev Gives : {A : Type 0} → (A → Type 0) → Merge A → Type 0
Gives Q (merged a) = Q a
Gives Q (stopped refusal) = Unit

Gives-bind :
    {A B : Type 0} (P : A → Type 0) (Q : B → Type 0) (m : Merge A) (f : A → Merge B)
    → Gives P m
    → ((a : A) → P a → Gives Q (f a))
    → Gives Q (m >>= f)
Gives-bind P Q (merged a) f h k = k a h
Gives-bind P Q (stopped refusal) f h k = tt

Gives-any : {A : Type 0} (m : Merge A) → Gives (λ a. Unit) m
Gives-any (merged a) = tt
Gives-any (stopped refusal) = tt

-- A step of the block whose result does not matter.
Gives-then :
    {A B : Type 0} (Q : B → Type 0) (m : Merge A) (f : A → Merge B)
    → ((a : A) → Gives Q (f a))
    → Gives Q (m >>= f)
Gives-then Q m f k = Gives-bind (λ a. Unit) Q m f (Gives-any m) (λ a _. k a)

module _ {F : Type 0} (json_dumps : Json F → String) (is_uuid : String → Bool) (uuid4 : ℕ → String)
    (one : F) (user_id : String) where
  abbrev AreWritten : List (Json F) → Type 0
  AreWritten = All IsWritten

  abbrev BlockEdges : List (Json F) × List (Json F) → Type 0
  BlockEdges r = AreWritten r.1

  abbrev GraphEdges : Json F × (List (Json F) × (List (Json F) × ℕ)) → Type 0
  GraphEdges r = AreWritten r.1.1.0

  abbrev DeltaEdges : GraphDelta F → Type 0
  DeltaEdges delta = AreWritten delta.edges

  graph_edge-IsWritten :
      (from_id to_id edge_type : String) (c : F)
      → IsWritten (graph_edge user_id from_id to_id edge_type c)
  graph_edge-IsWritten from_id to_id edge_type c = (user_id, from_id, to_id, edge_type, c, refl)

  parent_edges-AreWritten :
      (ids : List (String × String)) (block_id : String) (parent : Option String)
      → Gives AreWritten (parent_edges json_dumps is_uuid uuid4 one user_id ids block_id parent)
  parent_edges-AreWritten ids block_id none = tt
  parent_edges-AreWritten ids block_id (some p) =
      Gives-then AreWritten (of_option p (Dict.get ids p)) _
        (λ from_id. (graph_edge-IsWritten from_id block_id "SUMMARIZES" one, tt))

  merge_blocks-AreWritten :
      (ids : List (String × String)) (parents : Parents) (blocks : List FinalEntityContextBlock)
      → Gives BlockEdges (merge_blocks json_dumps is_uuid uuid4 one user_id ids parents blocks)
  unfolding merge_blocks
  merge_blocks-AreWritten ids parents [] = tt
  merge_blocks-AreWritten ids parents (block ∷ blocks) =
      Gives-then BlockEdges (of_option block.block_id (Dict.get ids block.block_id)) _ λ block_id.
        Gives-then BlockEdges (of_option block.block_id (Dict.get parents block.block_id)) _
          λ parent.
            Gives-bind AreWritten BlockEdges _ _ (parent_edges-AreWritten ids block_id parent)
              λ edges h.
                Gives-bind BlockEdges BlockEdges _ _ (merge_blocks-AreWritten ids parents blocks)
                  λ rest k. All-append IsWritten edges rest.1 h k

  merge_graph-AreWritten :
      (n : ℕ) (universes : List (String × String)) (item : FinalEntityContextGraph F)
      → Gives GraphEdges (merge_graph json_dumps is_uuid uuid4 one user_id n universes item)
  unfolding merge_graph
  merge_graph-AreWritten n universes item =
      Gives-then GraphEdges (entity_keys json_dumps is_uuid uuid4 one user_id _ _) _ λ keys.
        Gives-then GraphEdges (of_check keys.0 (collect_parents [] item.blocks)) _ λ parents.
          Gives-then GraphEdges (of_check keys.0 (check_parents parents)) _ λ root.
            Gives-bind BlockEdges GraphEdges _ _
              (merge_blocks-AreWritten (map_ids json_dumps is_uuid uuid4 one user_id n parents).0
                parents item.blocks)
              λ r h.
                Gives-then GraphEdges
                  (of_option root
                    (Dict.get (map_ids json_dumps is_uuid uuid4 one user_id n parents).0 root))
                  _
                  λ root_id.
                    All-append IsWritten r.1
                      (graph_edge user_id keys.0 root_id "DESCRIBED_BY" one ∷ []) h
                      (graph_edge-IsWritten keys.0 root_id "DESCRIBED_BY" one, tt)

  merge_graphs-AreWritten :
      (n : ℕ) (universes : List (String × String)) (items : List (FinalEntityContextGraph F))
      → Gives DeltaEdges (merge_graphs json_dumps is_uuid uuid4 one user_id n universes items)
  unfolding merge_graphs
  merge_graphs-AreWritten n universes [] = tt
  merge_graphs-AreWritten n universes (item ∷ items) =
      Gives-bind GraphEdges DeltaEdges _ _ (merge_graph-AreWritten n universes item) λ r h.
        Gives-bind DeltaEdges DeltaEdges _ _ (merge_graphs-AreWritten r.1.1.1 universes items)
          λ d k. All-append IsWritten r.1.1.0 d.edges h k

  relationship_edges-AreWritten :
      (rs : List (MatchedRelationship F))
      → AreWritten (relationship_edges json_dumps is_uuid uuid4 one user_id rs)
  unfolding relationship_edges
  relationship_edges-AreWritten [] = tt
  relationship_edges-AreWritten (r ∷ rs) = (
    graph_edge-IsWritten r.from_entity_id r.to_entity_id r.edge_type r.confidence,
    relationship_edges-AreWritten rs,
  )

  build-AreWritten :
      (universes : List String) (rs : List (MatchedRelationship F))
      (graphs : List (FinalEntityContextGraph F))
      → Gives DeltaEdges (
          build_step_nine_merge_graph_delta json_dumps is_uuid uuid4 one user_id universes rs
            graphs)
  unfolding build_step_nine_merge_graph_delta
  build-AreWritten universes rs graphs =
      Gives-then DeltaEdges (merge_universes json_dumps is_uuid uuid4 one user_id 0 [] universes) _
        λ u.
          Gives-bind DeltaEdges DeltaEdges _ _ (merge_graphs-AreWritten u.1.1 u.0 graphs)
            λ d h. All-append IsWritten d.edges _ h (relationship_edges-AreWritten rs)

  -- Every edge of a change that step nine builds is one that the steps write.
  pub build_step_nine-AreWritten :
      (universes : List String) (rs : List (MatchedRelationship F))
      (graphs : List (FinalEntityContextGraph F)) (delta : GraphDelta F)
      → build_step_nine_merge_graph_delta json_dumps is_uuid uuid4 one user_id universes rs graphs
        ≡ merged delta
      → All IsWritten delta.edges
  build_step_nine-AreWritten universes rs graphs delta built =
      subst (Gives DeltaEdges) built (build-AreWritten universes rs graphs)
