-- ===== src/LinkUid/Registry/Samples.antt =====
-- The theorems about the registry at a small table.
use kubendt.Prelude.{
  String, ℕ, ◌≡◌, refl, none, some, Option, List, [], ◌∷◌, ◌==◌, ℤ, pos, ok, arith, string_eq,
  int_eq, if◌then◌else◌, show_int,
}
use kubendt.Types.{LinkSpec}
use kubendt.Types.Samples.{sample_link, with_uid}
use kubendt.Names.{from_crd_peer_pod}
use kubendt.Topologies.{Entry, Objects}
use kubendt.LinkUid.{
  LinkUidOwner, Owners, prepare_unique_link_uids, registered_link_uids, reserve_explicit,
  assign_missing, generate_available_link_uid, try_random, scan_free, taken,
  link_uid_owner_from_spec,
}
use kubendt.LinkUid.Registry.{
  Registry, owner_key, owner_of_entry, collect_entries, collect_objects,
  collect_namespace_link_uid_owners, insert_link_uid_owners, insert_namespaces, registered_rows,
  sync_link_uid_registry_from_cluster,
}
use kubendt.LinkUid.Registry.Collected.{IsOrder, first_owner}
use kubendt.LinkUid.Registry.Synced.{IsSynced}
use kubendt.LinkUid.Registry.Cluster.{
  sync_link_uid_registry_from_cluster-IsSynced, prepare_unique_link_uids-fresh,
}

abbrev in_order : Owners → Owners
in_order m = m

abbrev in_order-IsOrder : IsOrder in_order
in_order-IsOrder = record { same = λ m u d. refl; distinct = λ m d. d }

abbrev lab_entry : String → String → Option ℤ → Entry
lab_entry intf peer uid = record {
  local_intf = intf;
  local_ip = "";
  peer_pod = peer;
  peer_intf = "eth1";
  peer_ip = "";
  uid = uid;
}

-- Two pods on one link, each of which has its identifier, and an entry without one.
abbrev lab_objects : Objects
lab_objects =
    ("r-0", lab_entry "eth1" "h-0" (some (pos 1_000_005)) ∷ lab_entry "eth2" "h-0" none ∷ [])
    ∷ ("h-0", lab_entry "eth1" "r-0" (some (pos 1_000_005)) ∷ [])
    ∷ []

-- The objects of another namespace, which has an identifier of its own.
abbrev dev_objects : Objects
dev_objects = ("sw-0", lab_entry "eth7" "h-0" (some (pos 1_000_000)) ∷ []) ∷ []

abbrev sample_objects : String → Objects
sample_objects n = if n == "lab" then lab_objects else dev_objects

abbrev sample_answers : String → Option Objects
sample_answers n = some (sample_objects n)

-- A row that is out of date, and one of another cluster.
abbrev stale : Registry
stale =
    record {
      cluster = "here";
      owner = owner_of_entry "old" "x-0" (lab_entry "eth9" "y-0" (some (pos 1_000_001)));
    }
    ∷ record {
      cluster = "there";
      owner = owner_of_entry "lab" "x-0" (lab_entry "eth9" "y-0" (some (pos 1_000_002)));
    }
    ∷ []

abbrev names : List String
names = "lab" ∷ "dev" ∷ []

sync_link_uid_registry_from_cluster-IsSynced_example :
    ((sync_link_uid_registry_from_cluster in_order sample_answers
        (some "here")
        (some names)
        stale).0
      ≡ ok tt)
    × IsSynced "here" "dev"
        (sample_objects "dev")
        (sync_link_uid_registry_from_cluster in_order sample_answers
          (some "here")
          (some names)
          stale).1
sync_link_uid_registry_from_cluster-IsSynced_example =
    sync_link_uid_registry_from_cluster-IsSynced in_order sample_answers sample_objects "here" names
      in_order-IsOrder (refl, (refl, tt)) (refl, (refl, tt)) (λ n c. refl) stale "dev" refl

-- Both namespaces' identifiers are avoided, and the deleted row's is free again.
abbrev new_link : List LinkSpec
new_link = sample_link "r" "eth3" "h" "eth3" ∷ []

abbrev new_link_done : List LinkSpec
new_link_done = with_uid (pos 1_000_001) (sample_link "r" "eth3" "h" "eth3") ∷ []

abbrev five : ℕ → ℕ
five k = 5

abbrev same_rows : List LinkUidOwner → List LinkUidOwner
same_rows os = os

new_link_prepared :
    prepare_unique_link_uids "lab"
      (registered_rows same_rows
        (some "here")
        (sync_link_uid_registry_from_cluster in_order sample_answers
          (some "here")
          (some names)
          stale).1)
      five
      new_link
    ≡ ok new_link_done
unfolding prepare_unique_link_uids registered_link_uids reserve_explicit assign_missing
    generate_available_link_uid try_random scan_free taken link_uid_owner_from_spec registered_rows
    sync_link_uid_registry_from_cluster insert_namespaces insert_link_uid_owners owner_key
    collect_namespace_link_uid_owners collect_objects collect_entries owner_of_entry
    from_crd_peer_pod show_int
new_link_prepared = refl

prepare_unique_link_uids-fresh_example : first_owner "lab" lab_objects (pos 1_000_001) ≡ none
prepare_unique_link_uids-fresh_example =
    prepare_unique_link_uids-fresh in_order sample_answers sample_objects "here" names
      in_order-IsOrder (refl, (refl, tt)) (refl, (refl, tt)) (λ n c. refl) same_rows five stale
      "lab" new_link new_link_done "lab" (pos 1_000_001) (λ os u. refl) (λ k. omega arith)
      new_link_prepared refl refl
