-- ===== src/Update/Pairs/Deduplication.antt =====
-- What is left of the pairs that the model proposed.
use exobrain.Prelude.{IsAmong, String, ◌≡◌, ◌⊎◌, true, List, [], ◌∷◌, All}
use exobrain.Update.Pairs.{RelationshipPair, is_usable}

-- The two pairs join the same entities, in either order.
abbrev pub Joins : RelationshipPair → RelationshipPair → Type 0
Joins p q =
    ((p.entity_id_1 ≡ q.entity_id_1) × (p.entity_id_2 ≡ q.entity_id_2))
    ⊎ ((p.entity_id_1 ≡ q.entity_id_2) × (p.entity_id_2 ≡ q.entity_id_1))

-- One of the pairs joins the same entities as `p`.
abbrev pub JoinedIn : List RelationshipPair → RelationshipPair → Type 0
JoinedIn [] p = ⊥
JoinedIn (q ∷ pairs) p = Joins q p ⊎ JoinedIn pairs p

-- No two of the pairs join the same entities.
abbrev pub AreDistinct : List RelationshipPair → Type 0
AreDistinct [] = Unit
AreDistinct (p ∷ pairs) = (JoinedIn pairs p → ⊥) × AreDistinct pairs

pub record AreDeduplicated (valid : List String) (input kept : List RelationshipPair) : Type 0 where
  pub proposed : All (IsAmong input) kept
  pub usable : All (λ p. is_usable valid p ≡ true) kept
  pub distinct : AreDistinct kept
  pub complete : All (λ p. is_usable valid p ≡ true → JoinedIn kept p) input
