-- ===== src/Update/Blocks/Tree.antt =====
-- What one visit finds: a chain of parents that ends at a root, or a cycle; it never runs out of
-- fuel or off the blocks.
use exobrain.Prelude.{
  ℕ, zero, suc, ◌≤◌, ◌<◌, String, ◌≡◌, subst, ◌⊎◌, inl, inr, Option, none, some, [], ◌∷◌, arith,
  eq_iff, eq_refl, length, Option-cases,
}
use exobrain.Prelude.Dict
use exobrain.Update.Blocks.{
  Parents, out_of_fuel, unknown, cycle, no_block_id, duplicate, not_one_root, dangling, Check,
  passed, refused, ◌>>=◌, Mark, visiting, visited, VisitState, visit,
}

-- The chain of parents of `k` reaches a root in `n` steps.
abbrev pub ReachesIn : Parents → ℕ → String → Type 0
ReachesIn parents zero k = Dict.get parents k ≡ some none
ReachesIn parents (suc n) k =
    (p : String) × (Dict.get parents k ≡ some (some p)) × ReachesIn parents n p

abbrev pub Reaches : Parents → String → Type 0
Reaches parents k = (n : ℕ) × ReachesIn parents n k

-- Every parent is a block.
abbrev pub AreClosed : Parents → Type 0
AreClosed parents =
    (k p : String)
    → Dict.get parents k ≡ some (some p)
    → (q : Option String) × (Dict.get parents p ≡ some q)

-- How many blocks have no mark.
pub unmarked : Parents → VisitState → ℕ
unmarked [] s = 0
unmarked ((k, p) ∷ parents) s = elim (Dict.get s k) [
  | none ↦ suc (unmarked parents s)
  | some m ↦ unmarked parents s
]

pub unmarked-le : (parents : Parents) (s : VisitState) → unmarked parents s ≤ length parents
unfolding unmarked
unmarked-le [] s = omega arith
unmarked-le ((k, p) ∷ parents) s = ground (arith, unmarked-le parents s)

unmarked-put :
    (parents : Parents) (s : VisitState) (k : String) (m : Mark)
    → unmarked parents (Dict.put s k m) ≤ unmarked parents s
unfolding unmarked
unmarked-put [] s k m = omega arith
unmarked-put ((j, p) ∷ parents) s k m =
    ground (arith, Dict.get-put s k m j, unmarked-put parents s k m)

-- A mark on a block that had none leaves fewer.
unmarked-put_new :
    (parents : Parents) (s : VisitState) (k : String) (m : Mark) (q : Option String)
    → Dict.get parents k ≡ some q
    → Dict.get s k ≡ none
    → unmarked parents (Dict.put s k m) < unmarked parents s
unfolding unmarked Dict.get
unmarked-put_new [] s k m q there new = cc
unmarked-put_new ((j, p) ∷ parents) s k m q there new = ground (
  arith,
  eq_iff j k,
  eq_refl k,
  Dict.get-put s k m j,
  unmarked-put parents s k m,
  unmarked-put_new parents s k m q,
)

-- The marks of visited blocks are right.
abbrev pub AreSound : Parents → VisitState → Type 0
AreSound parents s = (k : String) → Dict.get s k ≡ some visited → Reaches parents k

-- What a visit of `node` may give.
abbrev pub IsVisit : Parents → String → Check VisitState → Type 0
IsVisit parents node (passed s) = AreSound parents s × Reaches parents node
IsVisit parents node (refused cycle) = Unit
IsVisit parents node (refused _) = ⊥

module _ (parents : Parents) where
  AreSound-visiting :
      (s : VisitState) (k : String) → AreSound parents s → AreSound parents (Dict.put s k visiting)
  AreSound-visiting s k sound j h = sound j (ground (arith, Dict.get-put s k visiting j))

  AreSound-visited :
      (s : VisitState) (k : String)
      → AreSound parents s
      → Reaches parents k
      → AreSound parents (Dict.put s k visited)
  AreSound-visited s k sound r j h = elim (marked j h) [
    | inl same ↦ subst (Reaches parents) same r
    | inr old ↦ sound j old
  ]
    where
      marked :
          (j : String)
          → Dict.get (Dict.put s k visited) j ≡ some visited
          → (k ≡ j) ⊎ (Dict.get s j ≡ some visited)
      marked j h = ground (arith, eq_iff k j, Dict.get-put s k visited j)

  after-IsVisit :
      (node p : String) (r : Check VisitState)
      → Dict.get parents node ≡ some (some p)
      → IsVisit parents p r
      → IsVisit parents node (r >>= λ after. passed (Dict.put after node visited))
  after-IsVisit node p (passed s) up (sound, (n, r)) =
      (AreSound-visited s node sound (suc n, (p, up, r)), (suc n, (p, up, r)))
  after-IsVisit node p (refused out_of_fuel) up h = h
  after-IsVisit node p (refused (unknown k)) up h = h
  after-IsVisit node p (refused no_block_id) up h = h
  after-IsVisit node p (refused cycle) up h = h
  after-IsVisit node p (refused (duplicate k)) up h = h
  after-IsVisit node p (refused (not_one_root k)) up h = h
  after-IsVisit node p (refused (dangling j k)) up h = h

  visit_parent-IsVisit :
      (fuel : ℕ) (s : VisitState) (node : String)
      → AreSound parents s
      → (q : Option String) → Dict.get parents node ≡ some q
      → Dict.get s node ≡ none
      → ((p : String)
          → Dict.get parents node ≡ some (some p)
          → IsVisit parents p (visit parents fuel (Dict.put s node visiting) p))
      → IsVisit parents node (visit parents (suc fuel) s node)
  unfolding visit
  visit_parent-IsVisit fuel s node sound none there new next =
      rw (new, there)
        (AreSound-visited _ node (AreSound-visiting s node sound) (0, there), (0, there))
  visit_parent-IsVisit fuel s node sound (some p) there new next =
      rw (new, there) (after-IsVisit node p _ there (next p there))

  visit_marked-IsVisit :
      (fuel : ℕ) (s : VisitState) (node : String) (m : Mark)
      → AreSound parents s
      → Dict.get s node ≡ some m
      → IsVisit parents node (visit parents (suc fuel) s node)
  unfolding visit
  visit_marked-IsVisit fuel s node visiting sound e = rw e tt
  visit_marked-IsVisit fuel s node visited sound e = rw e (sound, sound node e)

  pub visit-IsVisit :
      AreClosed parents
      → (fuel : ℕ) (s : VisitState) (node : String) (q : Option String)
      → Dict.get parents node ≡ some q
      → unmarked parents s < fuel
      → AreSound parents s
      → IsVisit parents node (visit parents fuel s node)
  unfolding visit
  visit-IsVisit closed zero s node q there enough sound = absurd (omega arith)
  visit-IsVisit closed (suc fuel) s node q there enough sound =
      elim (Option-cases (Dict.get s node)) [
        | inr (m, e) ↦ visit_marked-IsVisit fuel s node m sound e
        | inl new ↦ visit_parent-IsVisit fuel s node sound q there new (λ p up.
            let (q', known) = closed node p up in
            visit-IsVisit closed fuel (Dict.put s node visiting) p q' known
              (omega (arith, unmarked-put_new parents s node visiting q there new))
              (AreSound-visiting s node sound))
      ]
