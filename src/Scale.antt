-- ===== src/Scale.antt =====
-- Scaling of nodes: backend/helpers/network_scale.go. The sets of names that come from the
-- request's add and delete sections are lists of their members. The writes to the cluster are not
-- modelled, but the pods and links that each plan selects for them are.
pub mod Plans
pub mod Replicas
pub mod Split
pub mod Pods
mod Samples
use kubendt.Prelude.{
  ℕ, zero, suc, ◌+◌, ◌-◌, String, Bool, true, false, Option, none, some, is_some, List, [], ◌∷◌,
  ◌++◌, ◌||◌, if◌then◌else◌, ◌==◌, string_eq, int_eq, ℤ, pos, negsuc, ltb_ℤ, Table, lookup, put,
  contains, is_empty, trim_space, Result, ok, err, ◌>>=◌,
}
use kubendt.Types.{NodeSpec, LinkSpec, ScaleSpec, max_replicas}
use kubendt.Names.{pod_name, split_indexed_pod_name, resolve_pod_name_from_link}

pub record ScalePlan : Type 0 where
  pub node : NodeSpec
  pub current_replicas : ℤ
  pub new_replicas : ℤ

unfoldable pub direction : ScalePlan → ℤ
direction p =
    if ltb_ℤ p.new_replicas p.current_replicas
    then negsuc 0
    else if ltb_ℤ p.current_replicas p.new_replicas
    then pos 1
    else pos 0

pub data ScaleError : Type 0 where
  missing_name : ℕ → ScaleError
  indexed_pod : ℕ → String → ScaleError
  duplicate_entry : String → ScaleError
  unknown_node : String → ScaleError
  also_deleted : String → ScaleError
  also_added : String → ScaleError
  too_few : String → ScaleError
  too_many : String → ℤ → ScaleError

-- byName: the last of the nodes with a name.
unfoldable pub by_name : List NodeSpec → Table String NodeSpec → Table String NodeSpec
by_name [] m = m
by_name (n ∷ nodes) m = by_name nodes (put n.name n m)

abbrev pub counted : ℤ → ℤ
counted replicas = if replicas == pos 0 then pos 1 else replicas

-- The tests on one entry, up to the plan or the dropping of an entry that changes nothing.
unfoldable pub check_entry :
    Table String NodeSpec
    → List String
    → List String
    → List String
    → ℕ
    → ScaleSpec
    → Result ScaleError (Option ScalePlan)
check_entry nodes added deleted seen i entry =
    let name = trim_space entry.name in
    if is_empty name
    then err (missing_name i)
    else if is_some (split_indexed_pod_name name)
    then err (indexed_pod i name)
    else if contains seen name
    then err (duplicate_entry name)
    else elim (lookup name nodes) [
      | none ↦ err (unknown_node name)
      | some existing ↦
          if contains deleted name
          then err (also_deleted name)
          else if contains added name
          then err (also_added name)
          else if ltb_ℤ entry.replicas (pos 1)
          then err (too_few name)
          else if ltb_ℤ max_replicas entry.replicas
          then err (too_many name entry.replicas)
          else if entry.replicas == counted existing.replicas
          then ok none
          else ok (
              some (record {
                node = existing;
                current_replicas = counted existing.replicas;
                new_replicas = entry.replicas;
              }))
    ]

unfoldable pub plan_entries :
    Table String NodeSpec
    → List String
    → List String
    → List String
    → ℕ
    → List ScaleSpec
    → Result ScaleError (List ScalePlan)
plan_entries nodes added deleted seen i [] = ok []
plan_entries nodes added deleted seen i (entry ∷ scale) = do
  plan ← check_entry nodes added deleted seen i entry
  plans ← plan_entries nodes added deleted (trim_space entry.name ∷ seen) (suc i) scale
  ok (elim plan [ none ↦ plans | some p ↦ p ∷ plans ])

unfoldable pub build_scale_plans :
    List ScaleSpec → List NodeSpec → List String → List String → Result ScaleError (List ScalePlan)
build_scale_plans scale nodes added deleted =
    plan_entries (by_name nodes []) added deleted [] 0 scale

unfoldable pub split_scale_plans : List ScalePlan → List ScalePlan × List ScalePlan
split_scale_plans [] = ([], [])
split_scale_plans (p ∷ plans) =
    let (downs, ups) = split_scale_plans plans in
    if direction p == negsuc 0
    then (p ∷ downs, ups)
    else if direction p == pos 1
    then (downs, p ∷ ups)
    else (downs, ups)

unfoldable pub overrides : List ScalePlan → Table String ℤ → Table String ℤ
overrides [] m = m
overrides (p ∷ plans) m = overrides plans (put p.node.name p.new_replicas m)

abbrev pub override : Option ℤ → NodeSpec → NodeSpec
override none n = n
override (some r) n = record n { replicas = r }

unfoldable pub override_all : Table String ℤ → List NodeSpec → List NodeSpec
override_all m [] = []
override_all m (n ∷ nodes) = override (lookup n.name m) n ∷ override_all m nodes

unfoldable pub apply_effective_replicas_to_nodes : List NodeSpec → List ScalePlan → List NodeSpec
apply_effective_replicas_to_nodes nodes [] = nodes
apply_effective_replicas_to_nodes nodes (p ∷ plans) = override_all (overrides (p ∷ plans) []) nodes

abbrev next : ℤ → ℤ
next (pos n) = pos (suc n)
next (negsuc zero) = pos 0
next (negsuc (suc n)) = negsuc n

-- How often `for i := from; i < to; i++` runs.
abbrev runs : ℤ → ℤ → ℕ
runs (pos a) (pos b) = b - a
runs (pos a) (negsuc b) = 0
runs (negsuc a) (pos b) = suc a + b
runs (negsuc a) (negsuc b) = a - b

abbrev pods_from : String → ℤ → ℕ → List String
pods_from name i zero = []
pods_from name i (suc left) = pod_name name i ∷ pods_from name (next i) left

-- The names that the loops over a plan's ordinals print.
unfoldable pub pods_between : String → ℤ → ℤ → List String
pods_between name from to = pods_from name from (runs from to)

-- Indices in [new, current).
unfoldable pub to_remove : ScalePlan → List String
to_remove plan = pods_between plan.node.name plan.new_replicas plan.current_replicas

-- Ordinals in [current, new).
unfoldable pub new_pod_names : ScalePlan → List String
new_pod_names plan = pods_between plan.node.name plan.current_replicas plan.new_replicas

-- The links that have an end on one of the new pods.
unfoldable pub relevant_links : List String → List NodeSpec → List LinkSpec → List LinkSpec
relevant_links new_pods nodes [] = []
relevant_links new_pods nodes (link ∷ links) =
    let rest = relevant_links new_pods nodes links in
    if contains new_pods (resolve_pod_name_from_link link.node nodes)
      || contains new_pods (resolve_pod_name_from_link link.peer_node nodes)
    then link ∷ rest
    else rest
