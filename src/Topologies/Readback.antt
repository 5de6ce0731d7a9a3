-- ===== src/Topologies/Readback.antt =====
-- The links that the Topology objects of a namespace hold: BuildLinksFromTopologyCRDs of
-- backend/helpers/network_modify.go. The objects stand in the order of the cluster's list.
use kubendt.Prelude.{String, List, [], ◌∷◌, ◌++◌, if◌then◌else◌, string_eq, contains, append, pos}
use text.Mathlib.Text.{is_lt}
use Prim.Native.String.{compare}
use kubendt.Types.{LinkSpec}
use kubendt.Types.Addresses.{one_addr}
use kubendt.Names.{from_crd_peer_pod}
use kubendt.Topologies.{Entry, Objects}

unfoldable pub end_name : String → String → String
end_name pod intf = append pod (append "/" intf)

unfoldable pub ends_key : String → String → String
ends_key left right =
    if is_lt (compare right left)
    then append right (append "<->" left)
    else append left (append "<->" right)

unfoldable pub entry_key : String → Entry → String
entry_key pod e = ends_key (end_name pod e.local_intf) (end_name e.peer_pod e.peer_intf)

unfoldable pub link_of_entry : String → Entry → LinkSpec
link_of_entry pod e = record {
  local_intf = e.local_intf;
  node = pod;
  peer_node = from_crd_peer_pod e.peer_pod;
  peer_intf = e.peer_intf;
  uid = e.uid;
  local_ip = one_addr e.local_ip;
  peer_ip = one_addr e.peer_ip;
  peer_label = "";
  name = "";
  delay = "";
  jitter = "";
  loss = "";
  bandwidth = "";
  mtu = pos 0;
}

-- The keys seen, and the links.
abbrev pub Read : Type 0
Read = List String × List LinkSpec

unfoldable pub read_entries : String → List Entry → Read → Read
read_entries pod [] r = r
read_entries pod (e ∷ es) (seen, links) =
    let key = entry_key pod e in
    read_entries pod es (
      if contains seen key
      then (seen, links)
      else (key ∷ seen, links ++ (link_of_entry pod e ∷ [])))

unfoldable pub read_objects : Objects → Read → Read
read_objects [] r = r
read_objects ((pod, es) ∷ objects) r = read_objects objects (read_entries pod es r)

unfoldable pub build_links_from_topology_crds : Objects → List LinkSpec
build_links_from_topology_crds objects = (read_objects objects ([], [])).1
