-- ===== src/Paths/Walks.antt =====
-- What a path through the links is, apart from the search that finds one.
use kubendt.Prelude.{
  ◌≤◌, String, ◌≡◌, Bool, true, false, List, [], ◌∷◌, ◌==◌, ◌||◌, ◌&&◌, string_eq, length,
}
use kubendt.Types.{LinkSpec}
use kubendt.Paths.{is_pod, Route, found, no_path, out_of_fuel}

-- `path` leads from `a` to `b`, both included, each pod joined to the next.
abbrev pub IsWalk : (String → String → Bool) → String → List String → String → Type 0
IsWalk joined a [] b = ⊥
IsWalk joined a (x ∷ []) b = (x ≡ a) × (x ≡ b)
IsWalk joined a (x ∷ y ∷ path) b = (x ≡ a) × (joined x y ≡ true) × IsWalk joined y (y ∷ path) b

-- A link joins the two pods, in one direction or the other.
abbrev pub linked : List LinkSpec → String → String → Bool
linked [] a b = false
linked (l ∷ links) a b =
    (is_pod a && is_pod b && (l.node == a && l.peer_node == b || l.peer_node == a && l.node == b))
    || linked links a b

-- A path that is found is a shortest walk, none is found only where there is no walk, and the fuel
-- does not run out.
abbrev pub IsShortestRoute : (String → String → Bool) → String → String → Route → Type 0
IsShortestRoute joined a b (found path) =
    IsWalk joined a path b
    × ((other : List String) → IsWalk joined a other b → length path ≤ length other)
IsShortestRoute joined a b no_path = (other : List String) → ¬ IsWalk joined a other b
IsShortestRoute joined a b out_of_fuel = ⊥
