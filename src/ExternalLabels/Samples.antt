-- ===== src/ExternalLabels/Samples.antt =====
-- Labelled uplinks at small inputs.
use kubendt.Prelude.{
  ◌≡◌, ◌↔◌, refl, String, none, true, List, [], ◌∷◌, ok, err, string_eq, trim_space,
}
use kubendt.Types.{LinkSpec}
use kubendt.Types.Samples.{sample_link}
use kubendt.Names.{crd_external_peer_pod}
use kubendt.Topologies.{Entry}
use kubendt.ExternalLabels.{
  validate_external_label_consistency, build_namespace_external_label_maps, no_labels,
  already_labelled, check_links, check_label, extract_external_side, bind, bind_entries, other,
}
use kubendt.ExternalLabels.Consistency.{
  consistent, bindings, validate_external_label_consistency_iff,
}

abbrev uplink : String → String → String → LinkSpec
uplink pod intf label =
    let l : LinkSpec = sample_link pod "eth1" "external" intf in record l { peer_label = label }

-- A pod with one uplink of ens3, labelled "wan".
abbrev labelled : List (String × List Entry)
labelled =
    (
      "wan",
      (record {
        local_intf = "eth1";
        local_ip = "";
        peer_pod = crd_external_peer_pod;
        peer_intf = "ens3";
        peer_ip = "";
        uid = none;
      })
          ∷ [],
    )
    ∷ []

relabelled :
    validate_external_label_consistency labelled
      (uplink "a" "ens3" "wan" ∷ uplink "b" "ens3" "lan" ∷ [])
    ≡ err (already_labelled 1 "wan")
unfolding validate_external_label_consistency build_namespace_external_label_maps no_labels
    check_links check_label extract_external_side bind bind_entries other trim_space
relabelled = refl

validate_external_label_consistency_iff_example :
    let links = uplink "a" "ens3" "wan" ∷ uplink "b" "ens4" "lan" ∷ [] in
    (validate_external_label_consistency labelled links ≡ ok tt)
    ↔ (consistent (build_namespace_external_label_maps labelled no_labels) (bindings links) ≡ true)
validate_external_label_consistency_iff_example =
    validate_external_label_consistency_iff labelled
      (uplink "a" "ens3" "wan" ∷ uplink "b" "ens4" "lan" ∷ [])
