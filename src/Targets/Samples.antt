-- ===== src/Targets/Samples.antt =====
-- The merge of targets and the pod references at small inputs.
use kubendt.Prelude.{
  String, List, [], ◌∷◌, ◌≡◌, refl, ok, err, Distinct, string_eq, cut_last_dash, atoi,
}
use kubendt.Types.Actions.{bare_action}
use kubendt.Types.Configure.{PodConfig}
use kubendt.Names.{split_indexed_pod_name}
use kubendt.Targets.{
  Pod, pod_resolver, names_at, by_node, only, merge_targets, merge_from, append_at,
  merge_targets_by_pod,
}
use kubendt.Targets.Merge.{asked_of, resolved, merge_targets-asked_of}
use kubendt.Targets.Reference.{in_listing, pod_resolver-resolve_pod_reference}

abbrev target : String → String → PodConfig
target pod type = record { pod = pod; actions = bare_action type ∷ [] }

abbrev listing : List Pod
listing =
    let r : Pod = record { name = "r-0"; app = "r" } in
    let h : Pod = record { name = "h-0"; app = "h" } in
    let k : Pod = record { name = "h-1"; app = "h" } in r ∷ h ∷ k ∷ []

abbrev three : List PodConfig
three = target "r" "ip" ∷ target "h-1" "up" ∷ target "r-0" "route" ∷ []

merged :
    merge_targets_by_pod {E = Unit} (ok listing) three
    ≡ record { pod = "r"; actions = bare_action "ip" ∷ bare_action "route" ∷ [] }
      ∷ target "h-1" "up"
      ∷ []
unfolding merge_targets_by_pod merge_targets merge_from append_at pod_resolver names_at by_node only
    split_indexed_pod_name cut_last_dash atoi
merged = refl

merge_targets-asked_of_example :
    Distinct (resolved (pod_resolver listing) (merge_targets (pod_resolver listing) three))
    × ((k : String)
        → asked_of (pod_resolver listing) k (merge_targets (pod_resolver listing) three)
          ≡ asked_of (pod_resolver listing) k three)
merge_targets-asked_of_example = merge_targets-asked_of (pod_resolver listing) three

pod_resolver-resolve_pod_reference_example :
    pod_resolver listing "h"
    ≡ elim (in_listing {E = Unit} listing "h") [ ok pod ↦ pod | err e ↦ "h" ]
pod_resolver-resolve_pod_reference_example = pod_resolver-resolve_pod_reference Unit listing "h"
