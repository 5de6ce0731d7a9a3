-- ===== src/Topologies/Samples.antt =====
-- Removals at small inputs.
use kubendt.Prelude.{
  ◌≡◌, refl, All, String, some, none, [], ◌∷◌, List, ok, true, contains, lookup, string_eq,
  cut_last_dash, atoi, all_digit_chars,
}
use kubendt.Types.Samples.{lab, lab_links}
use kubendt.Names.{resolve_pod_name_from_link, to_crd_peer_pod}
use kubendt.Topologies.{
  Objects, build_per_pod_link_entries, add_link_entries, validate_delete_links_exist, check_pods,
  has_all, topology_link_key_for_modify, remove_specific_links_from_topologies,
  remove_links_referencing_deleted_pods,
}
use kubendt.Topologies.Readback.{build_links_from_topology_crds}
use kubendt.Topologies.Deleted.{IsLive, staying, lookup-remove_links_referencing_deleted_pods}
use kubendt.Topologies.Removal.{spared_of, remove_specific_links_from_topologies_lem}

-- What the links of the lab wire, and one entry more.
abbrev wired : Objects
unfolding build_per_pod_link_entries add_link_entries resolve_pod_name_from_link cut_last_dash atoi
    all_digit_chars to_crd_peer_pod
wired = build_per_pod_link_entries lab_links lab []

wired_exists : validate_delete_links_exist wired lab_links lab ≡ ok tt
unfolding validate_delete_links_exist check_pods has_all topology_link_key_for_modify
    build_per_pod_link_entries add_link_entries resolve_pod_name_from_link cut_last_dash atoi
    all_digit_chars to_crd_peer_pod
wired_exists = refl

remove_specific_links_from_topologies_lem_example :
    (r : List String × Objects) × (remove_specific_links_from_topologies wired lab_links lab ≡ ok r)
    × ((pod : String)
        → lookup pod r.1
          ≡ spared_of (lookup pod (build_per_pod_link_entries lab_links lab [])) (lookup pod wired))
remove_specific_links_from_topologies_lem_example =
    remove_specific_links_from_topologies_lem wired lab_links lab wired_exists

abbrev two : Objects
two =
    (
      "a-0",
      record {
        local_intf = "eth1";
        local_ip = "";
        peer_pod = "b-0";
        peer_intf = "eth1";
        peer_ip = "";
        uid = none;
      }
          ∷ [],
    )
    ∷ (
      "b-0",
      record {
        local_intf = "eth1";
        local_ip = "";
        peer_pod = "a-0";
        peer_intf = "eth1";
        peer_ip = "";
        uid = none;
      }
          ∷ [],
    )
    ∷ []

lookup-remove_links_referencing_deleted_pods_example :
    (lookup "a-0" (remove_links_referencing_deleted_pods two ("b-0" ∷ [])).1 ≡ some [])
    × (contains (remove_links_referencing_deleted_pods two ("b-0" ∷ [])).0 "a-0" ≡ true)
    × All (IsLive ("b-0" ∷ [])) (
        build_links_from_topology_crds
          (staying ("b-0" ∷ []) (remove_links_referencing_deleted_pods two ("b-0" ∷ [])).1))
lookup-remove_links_referencing_deleted_pods_example =
    lookup-remove_links_referencing_deleted_pods two ("b-0" ∷ []) "a-0" (refl, (refl, tt)) refl
