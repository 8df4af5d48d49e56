-- ===== src/Update/Blocks.antt =====
-- The blocks of an entity, and the checks of step nine of core.py on them: one root, no parent that
-- is not a block, no cycle.
pub mod Tree
pub mod Acceptance
use exobrain.Prelude.{
  ℕ, zero, suc, String, Bool, true, false, Option, none, some, List, [], ◌∷◌, ◌==◌, length, nat_eq,
  if◌then◌else◌,
}
use exobrain.Prelude.Dict
use exobrain.Prelude.Text.{codes, strip_text, lower, one_of}

pub record FinalEntityContextBlock : Type 0 where
  pub block_id : String
  pub parent_block_id : Option String
  pub block_text : String

-- _ROOT_PARENT_SENTINELS
abbrev root_parent_sentinels : List String
root_parent_sentinels = "none" ∷ "(none)" ∷ "null" ∷ "nil" ∷ []

pub normalize_block_parent_id : Option String → Option String
normalize_block_parent_id none = none
normalize_block_parent_id (some parent_block_id) =
    let normalized = strip_text parent_block_id in
    if normalized == ""
    then none
    else if one_of (lower (codes normalized)) root_parent_sentinels
    then none
    else some normalized

-- parent_by_block_id
abbrev pub Parents : Type 0
Parents = List (String × Option String)

-- Why blocks are refused. `unknown` is the KeyError of a look-up, and `out_of_fuel` is not Python's.
pub data Reason : Type 0 where
  no_block_id : Reason
  duplicate : String → Reason
  not_one_root : ℕ → Reason
  dangling : String → String → Reason
  cycle : Reason
  unknown : String → Reason
  out_of_fuel : Reason

pub data Check (A : Type 0) : Type 0 where
  passed : A → Check A
  refused : Reason → Check A

infixl 5 ◌>>=◌
abbrev pub ◌>>=◌ : {A B : Type 0} → Check A → (A → Check B) → Check B
passed a >>= f = f a
refused reason >>= f = refused reason

-- The loop that collects the parents.
unfoldable pub collect_parents : Parents → List FinalEntityContextBlock → Check Parents
unfolding normalize_block_parent_id
collect_parents parent_by_block_id [] = passed parent_by_block_id
collect_parents parent_by_block_id (block ∷ blocks) =
    let rest =
      collect_parents
        (Dict.put parent_by_block_id block.block_id
          (normalize_block_parent_id block.parent_block_id))
        blocks in
    if block.block_id == ""
    then refused no_block_id
    else if Dict.has parent_by_block_id block.block_id
    then refused (duplicate block.block_id)
    else rest

-- [block_id for block_id, parent_id in parent_by_block_id.items() if parent_id is None]
abbrev pub roots : Parents → List String
roots [] = []
roots ((block_id, none) ∷ parent_by_block_id) = block_id ∷ roots parent_by_block_id
roots ((block_id, some parent_id) ∷ parent_by_block_id) = roots parent_by_block_id

abbrev pub the_root : List String → Check String
the_root (root ∷ []) = passed root
the_root others = refused (not_one_root (length others))

-- The loop over the items that looks for parents that are no block of `all`.
pub check_dangling : Parents → Parents → Check Unit
check_dangling all [] = passed tt
check_dangling all ((block_id, none) ∷ items) = check_dangling all items
check_dangling all ((block_id, some parent_id) ∷ items) =
    let rest = check_dangling all items in
    if Dict.has all parent_id then rest else refused (dangling parent_id block_id)

-- visit_state: 1 and 2; a block without a mark has 0.
pub data Mark : Type 0 where
  visiting visited : Mark

abbrev pub VisitState : Type 0
VisitState = List (String × Mark)

module _ (parent_by_block_id : Parents) where
  -- The tests of `_visit`; the calls for the parent are passed in.
  abbrev on_parent :
      VisitState → String → (String → Check VisitState) → Option (Option String) → Check VisitState
  on_parent visit_state node_id visit_parent none = refused (unknown node_id)
  on_parent visit_state node_id visit_parent (some none) =
      passed (Dict.put visit_state node_id visited)
  on_parent visit_state node_id visit_parent (some (some parent_id)) =
      visit_parent parent_id >>= λ after. passed (Dict.put after node_id visited)

  abbrev on_state : VisitState → Check VisitState → Option Mark → Check VisitState
  on_state visit_state first_visit (some visiting) = refused cycle
  on_state visit_state first_visit (some visited) = passed visit_state
  on_state visit_state first_visit none = first_visit

  unfoldable pub visit : ℕ → VisitState → String → Check VisitState
  visit zero visit_state node_id = refused out_of_fuel
  visit (suc fuel) visit_state node_id =
      let marked = Dict.put visit_state node_id visiting in
      on_state visit_state
        (on_parent marked node_id (λ parent_id. visit fuel marked parent_id)
          (Dict.get parent_by_block_id node_id))
        (Dict.get visit_state node_id)

  -- The loop over the blocks; each visit has fuel for more blocks than there are.
  pub visit_all : VisitState → List String → Check VisitState
  visit_all visit_state [] = passed visit_state
  visit_all visit_state (block_id ∷ block_ids) =
      visit (suc (length parent_by_block_id)) visit_state block_id >>= λ after.
      visit_all after block_ids

  unfoldable pub check_parents : Check String
  unfolding visit visit_all check_dangling
  check_parents = do
    root ← the_root (roots parent_by_block_id)
    closed ← check_dangling parent_by_block_id parent_by_block_id
    visit_state ← visit_all [] (Dict.keys parent_by_block_id)
    passed root
