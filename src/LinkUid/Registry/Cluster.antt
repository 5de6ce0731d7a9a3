-- ===== src/LinkUid/Registry/Cluster.antt =====
-- SyncLinkUIDRegistryFromCluster as a whole, and the identifiers that are given out after it.
use kubendt.Prelude.{
  no_bar, String, ◌≡◌, refl, sym, ◌∙◌, true, false, Option, some, List, [], ◌∷◌, ◌==◌, string_eq,
  arith, Bool-cases, inl, inr, contains, Distinct, All, ok, none, ℤ, ℕ, ◌<◌, int_eq, Result,
}
use mathlib.Core.Path.{subst}
use kubendt.Topologies.{Objects}
use kubendt.Types.{LinkSpec}
use kubendt.LinkUid.{LinkUidOwner, Owners, uid_count, prepare_unique_link_uids}
use kubendt.LinkUid.Explicit.{uids}
use kubendt.LinkUid.Prepare.{owner_uids, IsAvailable, prepare_unique_link_uids_lem}
use kubendt.LinkUid.Registry.{
  Registry, SyncError, rows_of_cluster, registered_rows, sync_link_uid_registry_from_cluster,
  clear_cluster,
}
use kubendt.LinkUid.Registry.Collected.{IsOrder, first_owner, find_owner}
use kubendt.LinkUid.Registry.Inserted.{rows_at}
use kubendt.LinkUid.Registry.Rebuilt.{IsRebuilt, insert_namespaces-IsRebuilt}
use kubendt.LinkUid.Registry.Synced.{IsSynced, collected-IsSynced}

clear_cluster-own :
    (cluster namespace : String) (registry : Registry)
    → rows_at cluster namespace (clear_cluster cluster registry) ≡ []
clear_cluster-own cluster namespace [] = refl
clear_cluster-own cluster namespace (row ∷ registry) = elim (Bool-cases (row.cluster == cluster)) [
  | inl e ↦ rw e (clear_cluster-own cluster namespace registry)
  | inr e ↦ rw (e, e) (clear_cluster-own cluster namespace registry)
]

clear_cluster-others :
    (cluster other namespace : String) (registry : Registry)
    → (cluster == other) ≡ false
    → rows_at other namespace (clear_cluster cluster registry) ≡ rows_at other namespace registry
clear_cluster-others cluster other namespace [] ne = refl
clear_cluster-others cluster other namespace (row ∷ registry) ne =
    elim (Bool-cases (row.cluster == cluster)) [
      | inl e ↦
          let not_other : (row.cluster == other) ≡ false =
            ground (arith, ne, e, string_eq.beq_iff row.cluster cluster) in
          rw (e, not_other) (clear_cluster-others cluster other namespace registry ne)
      | inr e ↦ rw (e, clear_cluster-others cluster other namespace registry ne) refl
    ]

All-IsAvailable-contains :
    (rows : List LinkUidOwner) (us : List ℤ) (u : ℤ)
    → All (IsAvailable rows) us
    → contains us u ≡ true
    → IsAvailable rows u
All-IsAvailable-contains rows [] u h c = cc
All-IsAvailable-contains rows (v ∷ us) u (h, hs) c = elim (Bool-cases (v == u)) [
  | inl e ↦ subst (IsAvailable rows) ((int_eq.beq_iff v u).0 e) h
  | inr e ↦ All-IsAvailable-contains rows us u hs (rw e at c)
]

find_owner-none :
    (owners : List LinkUidOwner) (u : ℤ)
    → contains (owner_uids owners) u ≡ false
    → find_owner owners u ≡ none
find_owner-none [] u h = refl
find_owner-none (o ∷ owners) u h = ground (arith, h, find_owner-none owners u)

rows_at-unused :
    (cluster namespace : String) (u : ℤ) (registry : Registry)
    → contains (owner_uids (rows_of_cluster cluster registry)) u ≡ false
    → contains (owner_uids (rows_at cluster namespace registry)) u ≡ false
rows_at-unused cluster namespace u [] h = refl
rows_at-unused cluster namespace u (row ∷ registry) h =
    ground (arith, h, rows_at-unused cluster namespace u registry)

module _ (iterate : Owners → Owners) (topologies : String → Option Objects)
    (objects : String → Objects) (cluster : String) (namespaces : List String)
    (order : IsOrder iterate) (d : Distinct namespaces)
    (plain : All (λ n. no_bar n ≡ true) namespaces)
    (readable : (n : String) → contains namespaces n ≡ true → topologies n ≡ some (objects n)) where
  abbrev synced : Registry → Result SyncError Unit × Registry
  synced registry =
      sync_link_uid_registry_from_cluster iterate topologies (some cluster) (some namespaces)
        registry

  synced-IsRebuilt :
      (registry : Registry)
      → ((synced registry).0 ≡ ok tt)
        × IsRebuilt iterate order topologies objects cluster namespaces
            ([], clear_cluster cluster registry)
            ([], (synced registry).1)
  unfolding sync_link_uid_registry_from_cluster
  synced-IsRebuilt registry =
      let (done, eq, rebuilt) =
        insert_namespaces-IsRebuilt iterate order topologies objects cluster namespaces
          ([], clear_cluster cluster registry) d plain readable
          record { gone = λ n c. clear_cluster-own cluster n registry; unseen = λ o c. refl } in
      rw (sync_link_uid_registry_from_cluster, eq)
        (refl, record { listed = rebuilt.listed; others = rebuilt.others })

  -- After a rebuild of the registry from the cluster, the rows of every namespace that the cluster
  -- lists hold, for each identifier that an entry of its Topology objects has, the owner that the
  -- first such entry makes, for no other identifier any, and one row for an identifier; the
  -- namespaces are listed once each, under names without bars, and their objects can be read, and
  -- Go goes through a map entry by entry.
  pub sync_link_uid_registry_from_cluster-IsSynced :
      (registry : Registry) (n : String)
      → contains namespaces n ≡ true
      → ((synced registry).0 ≡ ok tt) × IsSynced cluster n (objects n) (synced registry).1
  sync_link_uid_registry_from_cluster-IsSynced registry n c =
      let (done, rebuilt) = synced-IsRebuilt registry in
      (done, collected-IsSynced iterate order cluster n (objects n) _ (rebuilt.listed n c))

  -- The rows of namespaces that are gone from the cluster are deleted.
  pub sync_link_uid_registry_from_cluster_unlisted :
      (registry : Registry) (n : String)
      → contains namespaces n ≡ false
      → rows_at cluster n (synced registry).1 ≡ []
  sync_link_uid_registry_from_cluster_unlisted registry n c =
      (synced-IsRebuilt registry).1.others cluster n (rw c (ground arith))
      ∙ clear_cluster-own cluster n registry

  -- Other clusters keep their rows.
  pub sync_link_uid_registry_from_cluster_others :
      (registry : Registry) (other n : String)
      → (cluster == other) ≡ false
      → rows_at other n (synced registry).1 ≡ rows_at other n registry
  sync_link_uid_registry_from_cluster_others registry other n ne =
      (synced-IsRebuilt registry).1.others other n (rw ne refl)
      ∙ clear_cluster-others cluster other n registry ne

  -- Once the registry was rebuilt from the cluster, no identifier of a request that passes is one
  -- that an entry of a Topology object of the cluster has, whatever the request names and whatever
  -- is drawn; the namespaces are listed once each, under names without bars, their objects can be
  -- read, every draw is below the number of identifiers, the query gives the cluster's rows in some
  -- order, and Go goes through a map entry by entry.
  pub prepare_unique_link_uids-fresh :
      (sort : List LinkUidOwner → List LinkUidOwner) (draws : ℕ → ℕ) (registry : Registry)
      (namespace : String) (links out : List LinkSpec) (n : String) (uid : ℤ)
      → ((os : List LinkUidOwner) (u : ℤ)
          → contains (owner_uids (sort os)) u ≡ contains (owner_uids os) u)
      → ((k : ℕ) → draws k < uid_count)
      → prepare_unique_link_uids namespace
          (registered_rows sort (some cluster) (synced registry).1)
          draws
          links
        ≡ ok out
      → contains (uids out) uid ≡ true
      → contains namespaces n ≡ true
      → first_owner n (objects n) uid ≡ none
  unfolding registered_rows
  prepare_unique_link_uids-fresh sort draws registry namespace links out n uid sorted bounded h c
        l =
      let (_, synced_rows) = sync_link_uid_registry_from_cluster-IsSynced registry n l in
      let (_, _, available) =
        prepare_unique_link_uids_lem namespace draws bounded
          (sort (rows_of_cluster cluster (synced registry).1)) links out h in
      let (_, _, unused) = All-IsAvailable-contains _ (uids out) uid available c in
      sym (synced_rows.owners uid)
      ∙ find_owner-none _ uid (
          rows_at-unused cluster n uid (synced registry).1
            (sym (sorted (rows_of_cluster cluster (synced registry).1) uid) ∙ unused))
