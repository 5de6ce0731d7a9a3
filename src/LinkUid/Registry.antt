-- ===== src/LinkUid/Registry.antt =====
-- The rows of link_uid_registry and their synchronisation with the cluster: the rest of
-- backend/helpers/network_uids.go. `cluster` is the id of the current cluster, none when it cannot be
-- read, and `topologies` the objects of a namespace, none when they cannot be listed or read.
-- `iterate` is the order in which Go goes through a map. The table's key is a counter of its own, so
-- an insert does not fail; an empty peer is stored as NULL and read as the empty text.
pub mod Keys
mod Collected
pub mod Inserted
mod Rebuilt
pub mod Cluster
pub mod Synced
mod Samples
use kubendt.Prelude.{
  String, Bool, true, false, Option, none, some, List, [], ◌∷◌, ◌++◌, pos, ◌==◌, ◌&&◌, not,
  string_eq, int_eq, if◌then◌else◌, Table, lookup, put, contains, select, append, show_int, Result,
  ok, err,
}
use kubendt.Names.{from_crd_peer_pod}
use kubendt.Topologies.{Entry, Objects}
use kubendt.LinkUid.{LinkUidOwner, Owners, UidError, registry_unreadable}

pub record RegistryRow : Type 0 where
  pub cluster : String
  pub owner : LinkUidOwner

abbrev pub Registry : Type 0
Registry = List RegistryRow

pub data SyncError : Type 0 where
  no_cluster : SyncError
  namespaces_unlisted : SyncError
  topologies_unread : String → SyncError

unfoldable pub owner_of_entry : String → String → Entry → LinkUidOwner
owner_of_entry namespace pod e = record {
  namespace = namespace;
  node = pod;
  interface = e.local_intf;
  peer_node = from_crd_peer_pod e.peer_pod;
  peer_interface = e.peer_intf;
  uid = elim e.uid [ none ↦ pos 0 | some uid ↦ uid ];
}

unfoldable pub collect_entries : String → String → List Entry → Owners → Owners
collect_entries namespace pod [] owners = owners
collect_entries namespace pod (e ∷ es) owners = collect_entries namespace pod es (elim e.uid [
  | none ↦ owners
  | some uid ↦ elim (lookup uid owners) [
    | some _ ↦ owners
    | none ↦ put uid (owner_of_entry namespace pod e) owners
  ]
])

unfoldable pub collect_objects : String → Objects → Owners → Owners
collect_objects namespace [] owners = owners
collect_objects namespace ((pod, es) ∷ objects) owners =
    collect_objects namespace objects (collect_entries namespace pod es owners)

abbrev pub values : Owners → List LinkUidOwner
values [] = []
values ((uid, owner) ∷ m) = owner ∷ values m

unfoldable pub collect_namespace_link_uid_owners :
    (Owners → Owners) → (String → Option Objects) → String → Result SyncError (List LinkUidOwner)
collect_namespace_link_uid_owners iterate topologies namespace = elim (topologies namespace) [
  | none ↦ err (topologies_unread namespace)
  | some objects ↦ ok (values (iterate (collect_objects namespace objects [])))
]

-- fmt.Sprintf("%d|%s|%s|%s", owner.UID, owner.Namespace, owner.Node, owner.Interface)
unfoldable pub owner_key : LinkUidOwner → String
owner_key o =
    append (show_int o.uid)
      (append "|" (append o.namespace (append "|" (append o.node (append "|" o.interface)))))

-- The keys that were inserted, and the table.
abbrev pub Inserted : Type 0
Inserted = List String × Registry

unfoldable pub insert_link_uid_owners : String → List LinkUidOwner → Inserted → Inserted
insert_link_uid_owners cluster [] s = s
insert_link_uid_owners cluster (owner ∷ owners) (inserted, registry) =
    insert_link_uid_owners cluster owners (
      if contains inserted (owner_key owner) then (inserted, registry) else (
        owner_key owner ∷ inserted,
        registry ++ (record { cluster = cluster; owner = owner } ∷ []),
      ))

-- WHERE cluster_id = ? AND namespace = ?
abbrev pub of_namespace : String → String → RegistryRow → Bool
of_namespace cluster namespace row = row.cluster == cluster && row.owner.namespace == namespace

abbrev pub clear_namespace : String → String → Registry → Registry
clear_namespace cluster namespace registry =
    select (λ row. not (of_namespace cluster namespace row)) registry

-- The rows that are left after those of a cluster are deleted.
abbrev pub clear_cluster : String → Registry → Registry
clear_cluster cluster registry = select (λ row. not (row.cluster == cluster)) registry

-- WHERE cluster_id = ?
abbrev pub rows_of_cluster : String → Registry → List LinkUidOwner
rows_of_cluster cluster [] = []
rows_of_cluster cluster (row ∷ registry) =
    if row.cluster == cluster
    then row.owner ∷ rows_of_cluster cluster registry
    else rows_of_cluster cluster registry

-- What GetRegisteredLinkUIDs reads; `sort` is the query's ORDER BY.
unfoldable pub registered_rows :
    (List LinkUidOwner → List LinkUidOwner)
    → Option String
    → Registry
    → Result UidError (List LinkUidOwner)
registered_rows sort none registry = err registry_unreadable
registered_rows sort (some cluster) registry = ok (sort (rows_of_cluster cluster registry))

unfoldable pub delete_namespace_link_uid_registry :
    Option String → String → Registry → Result SyncError Unit × Registry
delete_namespace_link_uid_registry none namespace registry = (err no_cluster, registry)
delete_namespace_link_uid_registry (some cluster) namespace registry =
    (ok tt, clear_namespace cluster namespace registry)

module _ (iterate : Owners → Owners) (topologies : String → Option Objects) where
  unfoldable pub sync_namespace_link_uid_registry :
      Option String → String → Registry → Result SyncError Unit × Registry
  sync_namespace_link_uid_registry none namespace registry = (err no_cluster, registry)
  sync_namespace_link_uid_registry (some cluster) namespace registry =
      elim (collect_namespace_link_uid_owners iterate topologies namespace) [
        | err e ↦ (err e, registry)
        | ok owners ↦
            let cleared = clear_namespace cluster namespace registry in
            (ok tt, (insert_link_uid_owners cluster owners ([], cleared)).1)
      ]

  -- The loop over the cluster's namespaces, within the transaction.
  unfoldable pub insert_namespaces : String → List String → Inserted → Result SyncError Inserted
  insert_namespaces cluster [] s = ok s
  insert_namespaces cluster (namespace ∷ namespaces) s =
      elim (collect_namespace_link_uid_owners iterate topologies namespace) [
        | err e ↦ err e
        | ok owners ↦ insert_namespaces cluster namespaces (insert_link_uid_owners cluster owners s)
      ]

  -- A failure rolls the transaction back.
  unfoldable pub sync_link_uid_registry_from_cluster :
      Option String → Option (List String) → Registry → Result SyncError Unit × Registry
  sync_link_uid_registry_from_cluster none namespaces registry = (err no_cluster, registry)
  sync_link_uid_registry_from_cluster (some cluster) none registry =
      (err namespaces_unlisted, registry)
  sync_link_uid_registry_from_cluster (some cluster) (some namespaces) registry =
      elim (insert_namespaces cluster namespaces ([], clear_cluster cluster registry)) [
        | err e ↦ (err e, registry)
        | ok s ↦ (ok tt, s.1)
      ]
