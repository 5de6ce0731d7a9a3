-- ===== src/Links/Samples.antt =====
-- The theorems about link checks at small inputs.
use kubendt.Prelude.{
  ◌≡◌, refl, ok, err, [], ◌∷◌, pos, arith, All, List, show_int, cut_last_dash, atoi, trim_space,
  all_digit_chars,
}
use kubendt.Types.Samples.{lab, lab_links, sample_node}
use kubendt.Types.{NodeSpec}
use kubendt.Names.{pod_name, has_node, split_indexed_pod_name, resolve_pod_name_from_link}
use kubendt.Links.{
  node_field, no_such_node, replicas_by_node, validate_link_endpoint, validate_link, validate_links,
  validate_link_name, validate_links_for_modify,
}
use kubendt.Links.Endpoints.{indexed_node_name_refused}
use kubendt.Links.Resolved.{WellNamed, IsPlain, EndResolves, validate_links_for_modify-EndResolves}

abbrev indexed_names : List NodeSpec
indexed_names = sample_node "router-1" (pos 1) ∷ []

indexed_node_name_refused_example :
    (validate_link_endpoint
        (pod_name "router" (pos 1))
        (replicas_by_node [] indexed_names)
        0
        node_field
      ≡ err (no_such_node 0 node_field (pod_name "router" (pos 1))))
    × (resolve_pod_name_from_link (pod_name "router" (pos 1)) indexed_names
        ≡ pod_name (pod_name "router" (pos 1)) (pos 0))
unfolding replicas_by_node has_node pod_name show_int
indexed_node_name_refused_example =
    indexed_node_name_refused "router" 1 indexed_names 0 node_field refl (omega arith) refl refl

lab-WellNamed : WellNamed lab
unfolding split_indexed_pod_name cut_last_dash atoi
lab-WellNamed = ((refl, omega arith), ((refl, omega arith), ((refl, omega arith), tt)))

lab_links_pass : validate_links_for_modify lab_links lab ≡ ok tt
unfolding validate_links_for_modify validate_links validate_link validate_link_endpoint
    validate_link_name replicas_by_node split_indexed_pod_name cut_last_dash atoi trim_space
lab_links_pass = refl

lab_links-IsPlain : IsPlain lab_links
unfolding split_indexed_pod_name cut_last_dash atoi pod_name show_int
lab_links-IsPlain = ((refl, refl), ((refl, refl), ((refl, refl), tt)))

-- A reference with a leading zero passes, and no pod has that name.
leading_zero_passes :
    (validate_link_endpoint "router-00" (replicas_by_node [] lab) 0 node_field ≡ ok tt)
    × (resolve_pod_name_from_link "router-00" lab ≡ "router-00")
unfolding validate_link_endpoint replicas_by_node split_indexed_pod_name cut_last_dash atoi
    resolve_pod_name_from_link all_digit_chars
leading_zero_passes = (refl, refl)

validate_links_for_modify-EndResolves_example :
    All
      (λ l. EndResolves lab lab-WellNamed l.node × EndResolves lab lab-WellNamed l.peer_node)
      lab_links
validate_links_for_modify-EndResolves_example =
    validate_links_for_modify-EndResolves lab lab-WellNamed lab_links lab_links-IsPlain
      lab_links_pass
