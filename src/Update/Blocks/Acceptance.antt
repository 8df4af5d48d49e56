-- ===== src/Update/Blocks/Acceptance.antt =====
-- Which blocks pass the checks of step nine.
use exobrain.Prelude.{
  suc, String, ◌≡◌, ◌≢◌, refl, subst, ◌⊎◌, inl, inr, Bool, true, Option, none, some, List, [], ◌∷◌,
  ◌==◌, arith, eq_refl, length, All, if◌then◌else◌, if_ind,
}
use exobrain.Prelude.Dict
use exobrain.Update.Blocks.{
  Parents, out_of_fuel, unknown, cycle, no_block_id, duplicate, not_one_root, dangling, Check,
  passed, refused, ◌>>=◌, VisitState, roots, the_root, check_dangling, visit_all, check_parents,
}
use exobrain.Update.Blocks.Tree.{Reaches, AreClosed, AreSound, IsVisit, unmarked-le, visit-IsVisit}

-- The check for dangling parents passes or names one.
abbrev IsClosedCheck : Parents → Parents → Check Unit → Type 0
IsClosedCheck all items (passed t) =
    (k p : String) → Dict.get items k ≡ some (some p) → Dict.has all p ≡ true
IsClosedCheck all items (refused (dangling p k)) = Unit
IsClosedCheck all items (refused _) = ⊥

-- What is not in the rest is at the front.
get-front :
    (items : Parents) (j k p : String) (q : Option String)
    → Dict.get ((j, q) ∷ items) k ≡ some (some p)
    → (q ≡ some p) ⊎ (Dict.get items k ≡ some (some p))
unfolding Dict.get
get-front items j k p q h = ground arith

closed-cons :
    (all items : Parents) (j : String) (q : Option String) (c : Check Unit)
    → ((p : String) → q ≡ some p → Dict.has all p ≡ true)
    → IsClosedCheck all items c
    → IsClosedCheck all ((j, q) ∷ items) c
closed-cons all items j q (passed t) own rest =
    λ k p h. elim (get-front items j k p q h) [ inl e ↦ own p e | inr e ↦ rest k p e ]
closed-cons all items j q (refused (dangling p k)) own rest = tt
closed-cons all items j q (refused no_block_id) own rest = rest
closed-cons all items j q (refused (duplicate k)) own rest = rest
closed-cons all items j q (refused (not_one_root n)) own rest = rest
closed-cons all items j q (refused cycle) own rest = rest
closed-cons all items j q (refused (unknown k)) own rest = rest
closed-cons all items j q (refused out_of_fuel) own rest = rest

check_dangling-IsClosedCheck :
    (all items : Parents) → IsClosedCheck all items (check_dangling all items)
unfolding check_dangling Dict.get
check_dangling-IsClosedCheck all [] = λ k p h. absurd (cc)
check_dangling-IsClosedCheck all ((j, none) ∷ items) =
    closed-cons all items j none _ (λ p e. absurd (cc)) (check_dangling-IsClosedCheck all items)
check_dangling-IsClosedCheck all ((j, some q) ∷ items) =
    if_ind (IsClosedCheck all ((j, some q) ∷ items)) (Dict.has all q)
      (λ there.
        closed-cons all items j (some q) _
          (λ p e. let same : q ≡ p = cc in subst (λ x. Dict.has all x ≡ true) same there)
          (check_dangling-IsClosedCheck all items))
      (λ absent. tt)

-- What the visits of some blocks may give.
abbrev AreVisits : Parents → List String → Check VisitState → Type 0
AreVisits parents ks (passed s) = All (Reaches parents) ks
AreVisits parents ks (refused cycle) = Unit
AreVisits parents ks (refused _) = ⊥

AreVisits-cons :
    (parents : Parents) (k : String) (ks : List String) (c : Check VisitState)
    → Reaches parents k
    → AreVisits parents ks c
    → AreVisits parents (k ∷ ks) c
AreVisits-cons parents k ks (passed s) r h = (r, h)
AreVisits-cons parents k ks (refused no_block_id) r h = h
AreVisits-cons parents k ks (refused (duplicate j)) r h = h
AreVisits-cons parents k ks (refused (not_one_root n)) r h = h
AreVisits-cons parents k ks (refused (dangling i j)) r h = h
AreVisits-cons parents k ks (refused cycle) r h = h
AreVisits-cons parents k ks (refused (unknown j)) r h = h
AreVisits-cons parents k ks (refused out_of_fuel) r h = h

-- One visit, and those of the other blocks from the marks that it leaves.
next-AreVisits :
    (parents : Parents) (k : String) (ks : List String) (c : Check VisitState)
    → ((s : VisitState) → AreSound parents s → AreVisits parents ks (visit_all parents s ks))
    → IsVisit parents k c
    → AreVisits parents (k ∷ ks) (c >>= λ after. visit_all parents after ks)
next-AreVisits parents k ks (passed s) rest (sound, r) =
    AreVisits-cons parents k ks _ r (rest s sound)
next-AreVisits parents k ks (refused no_block_id) rest h = h
next-AreVisits parents k ks (refused (duplicate j)) rest h = h
next-AreVisits parents k ks (refused (not_one_root n)) rest h = h
next-AreVisits parents k ks (refused (dangling i j)) rest h = h
next-AreVisits parents k ks (refused cycle) rest h = h
next-AreVisits parents k ks (refused (unknown j)) rest h = h
next-AreVisits parents k ks (refused out_of_fuel) rest h = h

visit_all-AreVisits :
    (parents : Parents)
    → AreClosed parents
    → (ks : List String) → All (λ k. (q : Option String) × (Dict.get parents k ≡ some q)) ks
    → (s : VisitState) → AreSound parents s
    → AreVisits parents ks (visit_all parents s ks)
unfolding visit_all
visit_all-AreVisits parents closed [] there s sound = tt
visit_all-AreVisits parents closed (k ∷ ks) ((q, known), there) s sound =
    next-AreVisits parents k ks _ (visit_all-AreVisits parents closed ks there) (
      visit-IsVisit parents closed (suc (length parents)) s k q known
        (omega (arith, unmarked-le parents s)) sound)

-- Every key of a dict is in it.
keys-known :
    (all items : Parents)
    → ((k : String) → Dict.has items k ≡ true → Dict.has all k ≡ true)
    → All (λ k. (q : Option String) × (Dict.get all k ≡ some q)) (Dict.keys items)
unfolding Dict.has
keys-known all [] h = tt
keys-known all ((j, q) ∷ items) h = (
  Dict.has-get all j (h j (rw (eq_refl j) refl)),
  keys-known all items (λ k there. h k (behind j k (Dict.has items k) there)),
)
  where
    behind : (j k : String) (b : Bool) → b ≡ true → (if j == k then true else b) ≡ true
    behind j k b t = ground arith

-- What the checks may say of the parents: they pass with the only root, and then every parent is a
-- block and every block's chain of parents ends at a root; or they name what is wrong, which is no
-- failed look-up, and not that the fuel was used up.
abbrev pub IsChecked : Parents → Check String → Type 0
IsChecked parents (passed root) =
    (roots parents ≡ root ∷ []) × AreClosed parents × All (Reaches parents) (Dict.keys parents)
IsChecked parents (refused (not_one_root n)) = (length (roots parents) ≡ n) × (n ≢ 1)
IsChecked parents (refused (dangling i j)) = Unit
IsChecked parents (refused cycle) = Unit
IsChecked parents (refused _) = ⊥

visits-IsChecked :
    (parents : Parents) (root : String) (c : Check VisitState)
    → roots parents ≡ root ∷ []
    → AreClosed parents
    → AreVisits parents (Dict.keys parents) c
    → IsChecked parents (c >>= λ visit_state. passed root)
visits-IsChecked parents root (passed s) one closed h = (one, closed, h)
visits-IsChecked parents root (refused no_block_id) one closed h = absurd h
visits-IsChecked parents root (refused (duplicate j)) one closed h = absurd h
visits-IsChecked parents root (refused (not_one_root n)) one closed h = absurd h
visits-IsChecked parents root (refused (dangling i j)) one closed h = absurd h
visits-IsChecked parents root (refused cycle) one closed h = tt
visits-IsChecked parents root (refused (unknown j)) one closed h = absurd h
visits-IsChecked parents root (refused out_of_fuel) one closed h = absurd h

closed-IsChecked :
    (parents : Parents) (root : String) (c : Check Unit)
    → roots parents ≡ root ∷ []
    → IsClosedCheck parents parents c
    → IsChecked parents
        (c >>= λ closed. visit_all parents [] (Dict.keys parents) >>= λ visit_state. passed root)
unfolding Dict.get
closed-IsChecked parents root (passed t) one h = visits-IsChecked parents root _ one closed (
    visit_all-AreVisits parents closed (Dict.keys parents)
      (keys-known parents parents (λ k there. there)) [] (λ k e. absurd (cc)))
  where
    closed : AreClosed parents
    closed k p up = Dict.has-get parents p (h k p up)
closed-IsChecked parents root (refused (dangling i j)) one h = tt
closed-IsChecked parents root (refused no_block_id) one h = absurd h
closed-IsChecked parents root (refused (duplicate k)) one h = absurd h
closed-IsChecked parents root (refused (not_one_root n)) one h = absurd h
closed-IsChecked parents root (refused cycle) one h = absurd h
closed-IsChecked parents root (refused (unknown k)) one h = absurd h
closed-IsChecked parents root (refused out_of_fuel) one h = absurd h

root-IsChecked :
    (parents : Parents) (found : List String)
    → roots parents ≡ found
    → IsChecked parents (
        the_root found >>= λ root. check_dangling parents parents >>= λ closed.
        visit_all parents [] (Dict.keys parents) >>= λ visit_state. passed root)
root-IsChecked parents [] e = (rw e refl, λ x. cc)
root-IsChecked parents (root ∷ []) e =
    closed-IsChecked parents root _ e (check_dangling-IsClosedCheck parents parents)
root-IsChecked parents (r ∷ s ∷ found) e = (rw e refl, λ x. omega (arith, x))

-- The checks on the parents of an entity's blocks pass only if there is one root, every parent is a
-- block and the chain of parents of every block ends at a root. They never run out of fuel, never
-- look up a block that is not there, and when they count the roots wrong there is not one root.
pub check_parents-IsChecked : (parents : Parents) → IsChecked parents (check_parents parents)
unfolding check_parents
check_parents-IsChecked parents = root-IsChecked parents (roots parents) refl
