-- ===== src/Jobs/Repository/Rows.antt =====
-- What the statements on orchestrator_jobs do to a row that is looked up.
use exobrain.Prelude.{
  String, ◌≡◌, refl, true, false, Option, none, some, List, [], ◌∷◌, ◌++◌, arith, ◌==◌, eq_iff,
  eq_refl, if◌then◌else◌,
}
use exobrain.Prelude.Dict
use exobrain.Jobs.Action.{Row}
use exobrain.Jobs.Repository.{update_where}

module _ {P : Type 0} where
  abbrev pub map_row : (Row P → Row P) → Option (Row P) → Option (Row P)
  map_row set none = none
  map_row set (some row) = some (set row)

  pub get-update_where :
      (k : String) (set : Row P → Row P) (t : List (String × Row P)) (j : String)
      → Dict.get (update_where k set t) j
        ≡ (if k == j then map_row set (Dict.get t j) else Dict.get t j)
  unfolding update_where Dict.get
  get-update_where k set [] j = ground arith
  get-update_where k set ((i, r) ∷ t) j =
      ground (arith, eq_iff k j, eq_iff i k, eq_iff i j, get-update_where k set t j)

  pub update_where_twice :
      (k : String) (f g : Row P → Row P) (t : List (String × Row P))
      → update_where k g (update_where k f t) ≡ update_where k (λ row. g (f row)) t
  unfolding update_where
  update_where_twice k f g [] = refl
  update_where_twice k f g ((i, r) ∷ t) = ground (arith, update_where_twice k f g t)

  pub has-update_where :
      (k : String) (f : Row P → Row P) (t : List (String × Row P)) (j : String)
      → Dict.has (update_where k f t) j ≡ Dict.has t j
  unfolding update_where Dict.has
  has-update_where k f [] j = refl
  has-update_where k f ((i, r) ∷ t) j = ground (arith, has-update_where k f t j)

  pub get-append_absent :
      (t : List (String × Row P)) (k : String) (r : Row P)
      → Dict.has t k ≡ false
      → Dict.get (t ++ (k, r) ∷ []) k ≡ some r
  unfolding Dict.get Dict.has
  get-append_absent [] k r h = ground (arith, eq_refl k)
  get-append_absent ((i, x) ∷ t) k r h = ground (arith, get-append_absent t k r)

  pub has_of_get :
      (t : List (String × Row P)) (k : String) (r : Row P)
      → Dict.get t k ≡ some r
      → Dict.has t k ≡ true
  unfolding Dict.get Dict.has
  has_of_get [] k r h = cc
  has_of_get ((i, x) ∷ t) k r h = ground (arith, has_of_get t k r)
