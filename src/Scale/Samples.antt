-- ===== src/Scale/Samples.antt =====
-- Scaling at small inputs.
use kubendt.Prelude.{
  ◌≡◌, refl, pos, [], ◌∷◌, List, ok, Distinct, All, string_eq, cut_last_dash, atoi, trim_space,
}
use kubendt.Types.{ScaleSpec}
use kubendt.Types.Samples.{lab, sample_node}
use kubendt.Names.{split_indexed_pod_name}
use kubendt.Scale.{
  ScalePlan, by_name, check_entry, plan_entries, build_scale_plans,
  apply_effective_replicas_to_nodes,
}
use kubendt.Scale.Plans.{entry_names, IsProper}
use kubendt.Scale.Replicas.{Rescaled, build_scale_plans-Rescaled, build_scale_plans-IsProper}

abbrev section : List ScaleSpec
section =
    record { name = " router "; replicas = pos 4 } ∷ record { name = "host"; replicas = pos 1 } ∷ []

abbrev router_up : ScalePlan
router_up = record {
  node = sample_node "router" (pos 2);
  current_replicas = pos 2;
  new_replicas = pos 4;
}

section_plans : build_scale_plans section lab [] ("gone" ∷ []) ≡ ok (router_up ∷ [])
unfolding build_scale_plans plan_entries check_entry by_name split_indexed_pod_name cut_last_dash
    atoi trim_space
section_plans = refl

build_scale_plans-Rescaled_example :
    Rescaled section lab (apply_effective_replicas_to_nodes lab (router_up ∷ []))
unfolding trim_space
build_scale_plans-Rescaled_example =
    build_scale_plans-Rescaled section lab [] ("gone" ∷ []) (router_up ∷ [])
      (refl, (refl, (refl, tt))) section_plans

build_scale_plans-IsProper_example :
    All (IsProper (by_name lab []) [] ("gone" ∷ [])) (router_up ∷ [])
    × Distinct (entry_names section)
build_scale_plans-IsProper_example =
    build_scale_plans-IsProper section lab [] ("gone" ∷ []) (router_up ∷ []) section_plans
