-- ===== src/Topologies/Create.antt =====
-- The Topology object of a new pod: CreateTopologyObject, CreateTopologyForPod and what they call in
-- backend/helpers/network.go. The JSON text of the request is left out, and the names of links are
-- kept as the map that it encodes. What is drawn for a link without a uid is an argument, as in
-- Upserts; `post` says whether the cluster takes an object after those posted before it.
use kubendt.Prelude.{
  ℕ, zero, suc, String, Bool, some, List, [], ◌∷◌, ◌++◌, if◌then◌else◌, not, ◌==◌, ◌||◌, ◌&&◌,
  string_eq, ℤ, pos, pos_part, Table, put, is_empty, show_int, length, Result, ok, err,
}
use kubendt.Types.{NodeSpec, LinkSpec}
use kubendt.Names.{external_node_name, resolve_pod_name_from_link, pod_name}
use kubendt.Topologies.{Entry, local_entry, peer_entry}
use kubendt.Topologies.Upserts.{uid_of}

-- The links beside the uids aligned with them.
unfoldable pub resolve_link_uids : (ℕ → ℤ) → List LinkSpec → List (LinkSpec × ℤ)
resolve_link_uids draw [] = []
resolve_link_uids draw (link ∷ links) =
    (link, uid_of draw (length links) link) ∷ resolve_link_uids draw links

-- An object; an empty label and an empty map of names are no annotations.
pub record Created : Type 0 where
  pub name : String
  pub peer_label : String
  pub link_names : Table String String
  pub links : List Entry

unfoldable pub bare_object : String → Created
bare_object pod = record { name = pod; peer_label = ""; link_names = []; links = [] }

-- The interfaces and addresses are swapped where the pod is the peer.
unfoldable pub own_entry : String → String → String → ℤ → LinkSpec → Entry
own_entry pod node peer uid link =
    if peer == pod
    then (record (peer_entry node link) { uid = some uid })
    else (record (local_entry peer link) { uid = some uid })

unfoldable pub add_own_link : String → String → String → ℤ → LinkSpec → Created → Created
add_own_link pod node peer uid link c =
    let labels =
      not (is_empty link.peer_label)
      && (link.peer_node == external_node_name || link.node == external_node_name) in
    if not (node == pod) && not (peer == pod) then c else record {
      name = c.name;
      peer_label = if labels then link.peer_label else c.peer_label;
      link_names =
          if is_empty link.name then c.link_names else put (show_int uid) link.name c.link_names;
      links = c.links ++ (own_entry pod node peer uid link ∷ []);
    }

unfoldable pub add_own_links : String → List NodeSpec → List (LinkSpec × ℤ) → Created → Created
add_own_links pod nodes [] c = c
add_own_links pod nodes ((link, uid) ∷ links) c = add_own_links pod nodes links (
    add_own_link pod (resolve_pod_name_from_link link.node nodes)
      (resolve_pod_name_from_link link.peer_node nodes) uid link c)

-- The object that is posted.
unfoldable pub create_topology_for_pod : (ℕ → ℤ) → String → List LinkSpec → List NodeSpec → Created
create_topology_for_pod draw pod links nodes =
    add_own_links pod nodes (resolve_link_uids draw links) (bare_object pod)

pub data CreateError : Type 0 where
  not_created : String → CreateError

-- The replicas from number `i` on, `left` of them: the objects that the cluster took.
unfoldable pub create_replicas :
    (List Created → Created → Bool)
    → String
    → (String → Created)
    → ℕ
    → ℕ
    → List Created
    → Result CreateError Unit × List Created
create_replicas post name object i zero posted = (ok tt, posted)
create_replicas post name object i (suc left) posted =
    let pod = pod_name name (pos i) in
    let c = object pod in
    let rest = create_replicas post name object (suc i) left (posted ++ (c ∷ [])) in
    if post posted c then rest else (err (not_created pod), posted)

-- The uids are drawn once for all the replicas.
unfoldable pub create_topology_object :
    (List Created → Created → Bool)
    → (ℕ → ℤ)
    → NodeSpec
    → List LinkSpec
    → List NodeSpec
    → List Created
    → Result CreateError Unit × List Created
create_topology_object post draw node links nodes posted =
    create_replicas post node.name (λ pod. create_topology_for_pod draw pod links nodes) 0
      (pos_part node.replicas) posted
