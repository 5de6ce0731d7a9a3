-- ===== src/Placement/Samples.antt =====
-- Placements at small inputs.
use kubendt.Prelude.{String, [], ◌∷◌, ◌≡◌, refl, pos, ok, err}
use kubendt.Types.{NodeSpec}
use kubendt.Types.Samples.{sample_node}
use kubendt.Placement.{
  ClusterNode, no_such_cluster_node, no_match, validate_node_placement, check_placement, check_spec,
  by_name, any_match, node_is_ready, selector_matches, has_selector, is_constrained,
}

abbrev worker : String → String → ClusterNode
worker name ready = record {
  name = name;
  labels = ("disk", "ssd") ∷ [];
  conditions = ("MemoryPressure", "False") ∷ ("Ready", ready) ∷ [];
}

abbrev pinned : String → NodeSpec
pinned node_name = let n : NodeSpec = sample_node "r" (pos 1) in record n { node_name = node_name }

abbrev on_ssd : NodeSpec
on_ssd =
    let n : NodeSpec = sample_node "s" (pos 1) in record n { node_selector = ("disk", "ssd") ∷ [] }

-- A selector takes a ready node; a pinned node is placed on one that is not.
placements :
    (validate_node_placement {E = Unit} (ok (worker "w1" "False" ∷ [])) (pinned "w1" ∷ on_ssd ∷ [])
      ≡ err (no_match "s"))
    × (validate_node_placement {E = Unit} (ok (worker "w1" "True" ∷ [])) (pinned "w1" ∷ on_ssd ∷ [])
        ≡ ok tt)
    × (validate_node_placement {E = Unit} (ok (worker "w1" "True" ∷ [])) (pinned "w2" ∷ [])
        ≡ err (no_such_cluster_node "r"))
    × (validate_node_placement {E = Unit} (err tt) (sample_node "h" (pos 1) ∷ []) ≡ ok tt)
unfolding validate_node_placement check_placement check_spec by_name any_match node_is_ready
    selector_matches has_selector is_constrained
placements = (refl, refl, refl, refl)
