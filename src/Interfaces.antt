-- ===== src/Interfaces.antt =====
-- Conflicts between interfaces: backend/helpers/network_modify.go, from ValidateInterfaceConflicts
-- to checkInterfaceConflicts. A map of maps is a table of tables, and a set a list of its members.
-- The list of Topology objects is the cluster's, so it is an argument: the name of each object and
-- the local_intf of its links, none where it is no string.
pub mod Claims
mod Samples
use kubendt.Prelude.{
  ℕ, suc, String, Bool, true, false, Option, none, some, List, [], ◌∷◌, if◌then◌else◌, ◌==◌, ◌&&◌,
  not, ◌||◌, Table, lookup, put, contains, is_empty, Result, ok, err, ◌>>=◌, string_eq,
}
use kubendt.Types.{NodeSpec, LinkSpec}
use kubendt.Names.{external_node_name, resolve_pod_name_from_link}

-- podUsed[pod][intf]
abbrev pub PodUsed : Type 0
PodUsed = Table String (List String)

-- The index of the link, the interface and the pod that the message names.
pub data ConflictError : Type 0 where
  already_in_use : ℕ → String → String → ConflictError
  topologies_unreadable : ConflictError

unfoldable pub claimed : PodUsed → String → String → Bool
claimed pod_used pod intf = elim (lookup pod pod_used) [
  | none ↦ false
  | some used ↦ contains used intf
]

unfoldable pub claim : PodUsed → String → String → PodUsed
claim pod_used pod intf = elim (lookup pod pod_used) [
  | none ↦ put pod (intf ∷ []) pod_used
  | some used ↦ put pod (intf ∷ used) pod_used
]

-- One end of a link: refused when its interface is claimed, else claimed.
unfoldable pub check_end :
    List NodeSpec → ℕ → String → String → PodUsed → Result ConflictError PodUsed
check_end nodes i node intf pod_used =
    if node == external_node_name
    then ok pod_used
    else (let pod = resolve_pod_name_from_link node nodes in
        if claimed pod_used pod intf
        then err (already_in_use i intf pod)
        else ok (claim pod_used pod intf))

-- The walk over the links; the claims it ends with are kept for the caller's view of podUsed, which
-- the loop changes in place.
unfoldable pub check_interface_conflicts :
    List NodeSpec → List LinkSpec → ℕ → PodUsed → Result ConflictError PodUsed
check_interface_conflicts nodes [] i pod_used = ok pod_used
check_interface_conflicts nodes (link ∷ links) i pod_used = do
  pod_used' ← check_end nodes i link.node link.local_intf pod_used
  pod_used'' ← check_end nodes i link.peer_node link.peer_intf pod_used'
  check_interface_conflicts nodes links (suc i) pod_used''

-- A Topology object: its name and the local_intf of each of its links.
pub record TopologyItem : Type 0 where
  pub name : String
  pub local_intfs : List (Option String)

unfoldable pub declared : List (Option String) → List String
declared [] = []
declared (none ∷ intfs) = declared intfs
declared (some intf ∷ intfs) = if is_empty intf then declared intfs else intf ∷ declared intfs

unfoldable pub claimed_interfaces : List TopologyItem → List String → PodUsed → PodUsed
claimed_interfaces [] pod_set pod_used = pod_used
claimed_interfaces (item ∷ items) pod_set pod_used = claimed_interfaces items pod_set (
    if contains pod_set item.name
    then put item.name (declared item.local_intfs) pod_used
    else pod_used)

unfoldable pub pod_set_of : List NodeSpec → List LinkSpec → List String
pod_set_of nodes [] = []
pod_set_of nodes (link ∷ links) =
    let rest = pod_set_of nodes links in
    let rest' =
      if link.peer_node == external_node_name
      then rest
      else resolve_pod_name_from_link link.peer_node nodes ∷ rest in
    if link.node == external_node_name
    then rest'
    else resolve_pod_name_from_link link.node nodes ∷ rest'

-- The listing is what the cluster returned, or its failure.
unfoldable pub validate_interface_conflicts :
    Result ConflictError (List TopologyItem)
    → List LinkSpec
    → List NodeSpec
    → Result ConflictError PodUsed
validate_interface_conflicts listing links nodes = do
  items ← listing
  check_interface_conflicts nodes links 0 (claimed_interfaces items (pod_set_of nodes links) [])
