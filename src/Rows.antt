-- ===== src/Rows.antt =====
-- The table link_attributes and its statements: the second half of
-- backend/helpers/link_attributes.go, and the table of backend/database/database.go. `cluster` is the
-- id of the current cluster; the JSON codec of address lists is a parameter.
pub mod Load
pub mod Ops
mod Stepwise
pub mod Replay
pub mod View
mod Samples
use kubendt.Prelude.{
  String, Bool, true, false, Option, none, some, List, [], ◌∷◌, ◌++◌, ◌&&◌, ◌||◌, not, ℤ, pos,
  Table, lookup, put, select, is_empty, append, ◌==◌, string_eq, int_eq, pair_eq, if◌then◌else◌,
}
use kubendt.Types.{NodeSpec, LinkSpec}
use kubendt.Names.{external_node_name, resolve_pod_name_from_link}
use kubendt.Attributes.{LinkAttrs, attrs_of, attrs_empty, swapped}

-- The primary key of a row: the cluster and the namespace, the node and its interface.
abbrev pub RowKey : Type 0
RowKey = (String × String) × (String × String)

pub record LinkRow : Type 0 where
  pub peer_node : String
  pub peer_intf : String
  pub delay : String
  pub jitter : String
  pub loss : String
  pub bandwidth : String
  pub mtu : ℤ
  pub local_addresses : String
  pub peer_addresses : String

abbrev pub LinkRows : Type 0
LinkRows = Table RowKey LinkRow

-- "" for no addresses, and else what json.Marshal makes of them.
unfoldable pub encode_addrs : (List String → String) → List String → String
encode_addrs marshal [] = ""
encode_addrs marshal (a ∷ addrs) = marshal (a ∷ addrs)

-- json.Unmarshal of a text that is not empty; no addresses from one that cannot be read.
unfoldable pub decode_addrs : (String → Option (List String)) → String → List String
decode_addrs unmarshal raw =
    if is_empty raw then [] else elim (unmarshal raw) [ none ↦ [] | some addrs ↦ addrs ]

-- The pod of the other end, or the external network.
unfoldable pub peer_of : LinkSpec → List NodeSpec → String
peer_of l nodes =
    if l.peer_node == external_node_name
    then l.peer_node
    else resolve_pod_name_from_link l.peer_node nodes

unfoldable pub row_key : String → String → LinkSpec → List NodeSpec → RowKey
row_key cluster namespace l nodes =
    ((cluster, namespace), (resolve_pod_name_from_link l.node nodes, l.local_intf))

unfoldable pub row_of : (List String → String) → LinkSpec → List NodeSpec → LinkRow
row_of marshal l nodes =
    let a = attrs_of l in
    record {
      peer_node = peer_of l nodes;
      peer_intf = l.peer_intf;
      delay = a.delay;
      jitter = a.jitter;
      loss = a.loss;
      bandwidth = a.bandwidth;
      mtu = a.mtu;
      local_addresses = encode_addrs marshal a.local_addrs;
      peer_addresses = encode_addrs marshal a.peer_addrs;
    }

-- DELETE FROM link_attributes WHERE ...
unfoldable pub delete_rows : (RowKey → LinkRow → Bool) → LinkRows → LinkRows
delete_rows where_ rows = select (λ (e : RowKey × LinkRow). not (where_ e.0 e.1)) rows

unfoldable pub save_link_attributes :
    (List String → String) → String → String → List LinkSpec → List NodeSpec → LinkRows → LinkRows
save_link_attributes marshal cluster namespace [] nodes rows = rows
save_link_attributes marshal cluster namespace (l ∷ links) nodes rows =
    let key = row_key cluster namespace l nodes in
    let rows' =
      if attrs_empty (attrs_of l)
      then delete_rows (λ k r. k == key) rows
      else put key (row_of marshal l nodes) rows in
    save_link_attributes marshal cluster namespace links nodes rows'

-- The rows of a link, whichever of its ends they are named by.
unfoldable pub on_ends :
    String → String → String → String → String → String → RowKey → LinkRow → Bool
on_ends cluster namespace node intf peer peer_intf k r =
    k.0 == (cluster, namespace) && (k.1 == (node, intf) || k.1 == (peer, peer_intf))

unfoldable pub delete_link_attributes_for_links :
    String → String → List LinkSpec → List NodeSpec → LinkRows → LinkRows
delete_link_attributes_for_links cluster namespace [] nodes rows = rows
delete_link_attributes_for_links cluster namespace (l ∷ links) nodes rows =
    delete_link_attributes_for_links cluster namespace links nodes (
      delete_rows
        (on_ends cluster namespace (resolve_pod_name_from_link l.node nodes) l.local_intf
          (peer_of l nodes) l.peer_intf)
        rows)

unfoldable pub on_pod : String → String → String → RowKey → LinkRow → Bool
on_pod cluster namespace pod k r =
    k.0 == (cluster, namespace) && (k.1.0 == pod || r.peer_node == pod)

unfoldable pub delete_link_attributes_for_pods : String → String → List String → LinkRows → LinkRows
delete_link_attributes_for_pods cluster namespace [] rows = rows
delete_link_attributes_for_pods cluster namespace (pod ∷ pods) rows =
    delete_link_attributes_for_pods cluster namespace pods
      (delete_rows (on_pod cluster namespace pod) rows)

unfoldable pub delete_namespace_link_attributes : String → String → LinkRows → LinkRows
delete_namespace_link_attributes cluster namespace rows =
    delete_rows (λ k r. k.0 == (cluster, namespace)) rows

-- UPDATE link_attributes SET mtu = ? WHERE ..., and whether it affected a row.
unfoldable pub update_mtu : ℤ → (RowKey → LinkRow → Bool) → LinkRows → LinkRows
update_mtu mtu where_ [] = []
update_mtu mtu where_ ((k, r) ∷ rows) =
    let rest = update_mtu mtu where_ rows in
    (k, (if where_ k r then record r { mtu = mtu } else r)) ∷ rest

unfoldable pub any_row : (RowKey → LinkRow → Bool) → LinkRows → Bool
any_row where_ [] = false
any_row where_ ((k, r) ∷ rows) = where_ k r || any_row where_ rows

unfoldable pub mtu_row : String → String → ℤ → LinkRow
mtu_row peer_node peer_intf mtu = record {
  peer_node = peer_node;
  peer_intf = peer_intf;
  delay = "";
  jitter = "";
  loss = "";
  bandwidth = "";
  mtu = mtu;
  local_addresses = "";
  peer_addresses = "";
}

-- None where the insert fails on a key that is taken.
unfoldable pub insert_row : RowKey → LinkRow → LinkRows → Option LinkRows
insert_row k r rows = elim (lookup k rows) [ none ↦ some (put k r rows) | some old ↦ none ]

unfoldable pub set_link_mtu :
    String → String → String → String → String → String → ℤ → LinkRows → Option LinkRows
set_link_mtu cluster namespace pod iface peer_pod peer_intf mtu rows =
    let where_ = on_ends cluster namespace pod iface peer_pod peer_intf in
    let rows' = update_mtu mtu where_ rows in
    if any_row where_ rows || mtu == pos 0
    then some rows'
    else insert_row ((cluster, namespace), (pod, iface)) (mtu_row peer_pod peer_intf mtu) rows'

-- "pod/intf"
unfoldable pub end_name : String → String → String
end_name pod intf = append pod (append "/" intf)

unfoldable pub attrs_of_row : (String → Option (List String)) → LinkRow → LinkAttrs
attrs_of_row unmarshal r = record {
  delay = r.delay;
  jitter = r.jitter;
  loss = r.loss;
  bandwidth = r.bandwidth;
  mtu = r.mtu;
  local_addrs = decode_addrs unmarshal r.local_addresses;
  peer_addrs = decode_addrs unmarshal r.peer_addresses;
}

-- The loop over the rows of the namespace, each seen from both of its ends.
unfoldable pub load_link_attributes :
    (String → Option (List String))
    → String
    → String
    → LinkRows
    → Table String LinkAttrs
    → Table String LinkAttrs
load_link_attributes unmarshal cluster namespace [] out = out
load_link_attributes unmarshal cluster namespace ((k, r) ∷ rows) out =
    let a = attrs_of_row unmarshal r in
    let mine = put (end_name k.1.0 k.1.1) a out in
    let both =
      if r.peer_node == external_node_name
      then mine
      else put (end_name r.peer_node r.peer_intf) (swapped a) mine in
    load_link_attributes unmarshal cluster namespace rows
      (if k.0 == (cluster, namespace) then both else out)

unfoldable pub filled : LinkSpec → LinkAttrs → LinkSpec
filled link a = record link {
  delay = a.delay;
  jitter = a.jitter;
  loss = a.loss;
  bandwidth = a.bandwidth;
  mtu = a.mtu;
  local_ip = link.local_ip ++ a.local_addrs;
  peer_ip = link.peer_ip ++ a.peer_addrs;
}

unfoldable pub fill_link_attributes : LinkSpec → String → String → Table String LinkAttrs → LinkSpec
fill_link_attributes link pod_name peer_pod attrs =
    elim (lookup (end_name pod_name link.local_intf) attrs) [
      | some a ↦ filled link a
      | none ↦
          if peer_pod == external_node_name
          then link
          else elim (lookup (end_name peer_pod link.peer_intf) attrs) [
            | some a ↦ filled link (swapped a)
            | none ↦ link
          ]
    ]
