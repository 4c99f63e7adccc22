-- ===== src/FrameList/Tests.antt =====
-- A list of two nodes, and the theorems at it.
use bk_solution_doorbell.Base.{refl, none, some, [], ◌∷◌, arith, ◌==◌, if◌then◌else◌}
use bk_solution_doorbell.FrameList.{Links, FrameList, remove}
use bk_solution_doorbell.FrameList.Refine.{IsList, remove-IsList}

-- Nodes 10 and 20, in this order.
abbrev links : Links
links = record {
  next = λ a. if a == 10 then some 20 else none;
  prev = λ a. if a == 20 then some 10 else none;
}

abbrev pair : FrameList
pair = record { head = some 10; tail = some 20; count = 2 }

pair-IsList : IsList links pair (10 ∷ 20 ∷ [])
pair-IsList = record {
  chain = (refl, refl, (refl, refl, tt));
  head = refl;
  tail = refl;
  distinct = ((λ e. omega (arith, e), tt), (tt, tt));
  count = refl;
}

remove-IsList_example : let (l', h') = remove 10 pair links in IsList h' l' (20 ∷ [])
remove-IsList_example = remove-IsList 10 pair links [] (20 ∷ []) (omega arith) pair-IsList
