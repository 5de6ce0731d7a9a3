-- ===== src/Placement.antt =====
-- Where nodes may be placed: ValidateNodePlacement of backend/helpers/placement.go. The cluster's nodes
-- are a parameter. A label selector matches what carries all of its labels, as its package says.
mod Samples
use kubendt.Prelude.{
  String, Bool, true, false, Option, none, some, List, [], ◌∷◌, ◌&&◌, ◌||◌, not, Table, lookup, put,
  is_empty, ◌==◌, string_eq, if◌then◌else◌, Result, ok, err, ◌>>=◌, ◌>>◌, refuse,
}
use kubendt.Types.{NodeSpec}

-- A node of the cluster, with the type and the status of its conditions.
pub record ClusterNode : Type 0 where
  pub name : String
  pub labels : Table String String
  pub conditions : Table String String

pub data PlacementError (E : Type 0) : Type 0 where
  list_failed : E → PlacementError E
  no_such_cluster_node labels_missing no_match : String → PlacementError E

unfoldable pub node_is_ready : Table String String → Bool
node_is_ready [] = false
node_is_ready ((type, status) ∷ conditions) =
    let rest = node_is_ready conditions in if type == "Ready" then status == "True" else rest

-- labels.SelectorFromSet(selector).Matches(labels)
unfoldable pub selector_matches : Table String String → Table String String → Bool
selector_matches [] labels = true
selector_matches ((k, v) ∷ selector) labels =
    elim (lookup k labels) [ none ↦ false | some w ↦ w == v ] && selector_matches selector labels

-- len(selector) > 0
unfoldable pub has_selector : Table String String → Bool
has_selector [] = false
has_selector (l ∷ selector) = true

-- byName: the last of two nodes of one name wins
unfoldable pub by_name : Table String ClusterNode → List ClusterNode → Table String ClusterNode
by_name table [] = table
by_name table (n ∷ nodes) = by_name (put n.name n table) nodes

unfoldable pub any_match : Table String String → List ClusterNode → Bool
any_match selector [] = false
any_match selector (n ∷ nodes) =
    (node_is_ready n.conditions && selector_matches selector n.labels) || any_match selector nodes

unfoldable pub check_spec :
    {E : Type 0} → NodeSpec → List ClusterNode → Result (PlacementError E) Unit
check_spec spec nodes =
    if not (is_empty spec.node_name)
    then elim (lookup spec.node_name (by_name [] nodes)) [
      | none ↦ err (no_such_cluster_node spec.name)
      | some target ↦
          refuse
            (has_selector spec.node_selector
              && not (selector_matches spec.node_selector target.labels))
            (labels_missing spec.name)
    ]
    else refuse (has_selector spec.node_selector && not (any_match spec.node_selector nodes))
        (no_match spec.name)

unfoldable pub check_placement :
    {E : Type 0} → List NodeSpec → List ClusterNode → Result (PlacementError E) Unit
check_placement [] nodes = ok tt
check_placement (spec ∷ specs) nodes = do check_spec spec nodes; check_placement specs nodes

unfoldable pub is_constrained : List NodeSpec → Bool
is_constrained [] = false
is_constrained (n ∷ specs) =
    (not (is_empty n.node_name) || has_selector n.node_selector) || is_constrained specs

unfoldable pub validate_node_placement :
    {E : Type 0} → Result E (List ClusterNode) → List NodeSpec → Result (PlacementError E) Unit
validate_node_placement listed specs =
    if not (is_constrained specs)
    then ok tt
    else elim listed [ err e ↦ err (list_failed e) | ok nodes ↦ check_placement specs nodes ]
