-- ===== src/Rows/Ops.antt =====
-- Runs of the operations on the table link_attributes of backend/helpers/link_attributes.go, and what
-- the same runs make of a partial function of the key.
use kubendt.Prelude.{
  String, Bool, true, false, not, ◌&&◌, is_empty, contains, Option, none, some, List, [], ◌∷◌, ◌||◌,
  ℤ, pos, is_some, ◌==◌, string_eq, int_eq, pair_eq, if◌then◌else◌,
}
use kubendt.Types.{NodeSpec, LinkSpec}
use kubendt.Names.{resolve_pod_name_from_link}
use kubendt.Rows.{
  RowKey, LinkRow, LinkRows, save_link_attributes, delete_link_attributes_for_links,
  delete_link_attributes_for_pods, delete_namespace_link_attributes, set_link_mtu,
}
use kubendt.Rows.View.{View, without, with_row, updated}

pub data Op : Type 0 where
  save forget_links : String → List LinkSpec → List NodeSpec → Op
  forget_pods : String → List String → Op
  forget_namespace : String → Op
  set_mtu : (namespace pod iface peer peer_intf : String) → ℤ → Op

-- A row of nothing but an MTU.
abbrev pub new_row : String → String → ℤ → LinkRow
new_row peer_node peer_intf mtu = record {
  peer_node = peer_node;
  peer_intf = peer_intf;
  delay = "";
  jitter = "";
  loss = "";
  bandwidth = "";
  mtu = mtu;
  local_addresses = "";
  peer_addresses = "";
}

module _ (marshal : List String → String) (cluster : String) where
  -- None where a statement fails.
  abbrev pub run_op : Op → LinkRows → Option LinkRows
  run_op (save namespace links nodes) rows =
      some (save_link_attributes marshal cluster namespace links nodes rows)
  run_op (forget_links namespace links nodes) rows =
      some (delete_link_attributes_for_links cluster namespace links nodes rows)
  run_op (forget_pods namespace pods) rows =
      some (delete_link_attributes_for_pods cluster namespace pods rows)
  run_op (forget_namespace namespace) rows =
      some (delete_namespace_link_attributes cluster namespace rows)
  run_op (set_mtu namespace pod iface peer peer_intf mtu) rows =
      set_link_mtu cluster namespace pod iface peer peer_intf mtu rows

  abbrev pub run_ops : List Op → LinkRows → Option LinkRows
  run_ops [] rows = some rows
  run_ops (op ∷ ops) rows = elim (run_op op rows) [ none ↦ none | some rows' ↦ run_ops ops rows' ]

  -- Whether a pod's interface is an end of one of the links.
  abbrev pub is_end : List LinkSpec → List NodeSpec → String × String → Bool
  is_end [] nodes at = false
  is_end (l ∷ links) nodes at =
      (resolve_pod_name_from_link l.node nodes, l.local_intf) == at
      || (resolve_pod_name_from_link l.peer_node nodes, l.peer_intf) == at
      || is_end links nodes at

  -- The last of the links that is named by a pod's interface.
  abbrev pub last_at : List LinkSpec → List NodeSpec → String × String → Option LinkSpec
  last_at [] nodes at = none
  last_at (l ∷ links) nodes at = elim (last_at links nodes at) [
    | some m ↦ some m
    | none ↦ if (resolve_pod_name_from_link l.node nodes, l.local_intf) == at then some l else none
  ]

  abbrev pub more_than_one : List String → Bool
  more_than_one [] = false
  more_than_one (a ∷ []) = false
  more_than_one (a ∷ b ∷ more) = true

  -- The addresses behind the first, as text.
  abbrev pub later_addresses : List String → String
  later_addresses [] = ""
  later_addresses (a ∷ []) = ""
  later_addresses (a ∷ b ∷ more) = marshal (b ∷ more)

  abbrev pub declares : LinkSpec → Bool
  declares l =
      not (is_empty l.delay && is_empty l.jitter && is_empty l.loss && is_empty l.bandwidth)
      || not (l.mtu == pos 0)
      || more_than_one l.local_ip
      || more_than_one l.peer_ip

  abbrev pub declared_row : LinkSpec → List NodeSpec → LinkRow
  declared_row l nodes = record {
    peer_node = resolve_pod_name_from_link l.peer_node nodes;
    peer_intf = l.peer_intf;
    delay = l.delay;
    jitter = l.jitter;
    loss = l.loss;
    bandwidth = l.bandwidth;
    mtu = l.mtu;
    local_addresses = later_addresses l.local_ip;
    peer_addresses = later_addresses l.peer_ip;
  }

  -- Under each end that names a link of the request, what the last such link declares.
  abbrev pub replay_save : String → List LinkSpec → List NodeSpec → View → View
  replay_save namespace links nodes v k =
      if k.0 == (cluster, namespace)
      then elim (last_at links nodes k.1) [
        | none ↦ v k
        | some l ↦ if declares l then some (declared_row l nodes) else none
      ]
      else v k

  abbrev pub on_links : String → List LinkSpec → List NodeSpec → RowKey → LinkRow → Bool
  on_links namespace links nodes k r = k.0 == (cluster, namespace) && is_end links nodes k.1

  abbrev pub on_pods : String → List String → RowKey → LinkRow → Bool
  on_pods namespace pods k r =
      k.0 == (cluster, namespace) && (contains pods k.1.0 || contains pods r.peer_node)

  abbrev pub replay_forget_links : String → List LinkSpec → List NodeSpec → View → View
  replay_forget_links namespace links nodes v = without (on_links namespace links nodes) v

  abbrev pub replay_forget_pods : String → List String → View → View
  replay_forget_pods namespace pods v = without (on_pods namespace pods) v

  -- The row of either end has the MTU; where neither has a row, the first end gets one, unless the
  -- MTU is cleared.
  abbrev pub replay_set_mtu : String → String → String → String → String → ℤ → View → View
  replay_set_mtu namespace pod iface peer peer_intf mtu v =
      let own : RowKey = ((cluster, namespace), (pod, iface)) in
      let other : RowKey = ((cluster, namespace), (peer, peer_intf)) in
      let set = updated mtu (λ k r. k == own || k == other) v in
      if (is_some (v own) || is_some (v other)) || mtu == pos 0
      then set
      else with_row own (new_row peer peer_intf mtu) set

  abbrev pub replay_op : Op → View → View
  replay_op (save namespace links nodes) v = replay_save namespace links nodes v
  replay_op (forget_links namespace links nodes) v = replay_forget_links namespace links nodes v
  replay_op (forget_pods namespace pods) v = replay_forget_pods namespace pods v
  replay_op (forget_namespace namespace) v = without (λ k r. k.0 == (cluster, namespace)) v
  replay_op (set_mtu namespace pod iface peer peer_intf mtu) v =
      replay_set_mtu namespace pod iface peer peer_intf mtu v

  abbrev pub replay : List Op → View → View
  replay [] v = v
  replay (op ∷ ops) v = replay ops (replay_op op v)
