-- ===== src/Links/Endpoints.antt =====
-- Which endpoints pass, and what they resolve to: ValidateLinkEndpoint and ValidateLinksForModify
-- against ResolvePodNameFromLink.
use kubendt.Prelude.{
  ℕ, ◌<◌, ◌^◌, String, ◌≡◌, ◌≢◌, refl, ap, ◌∙◌, false, true, none, some, List, [], inl, inr, ℤ, pos,
  arith, Table, lookup, is_empty, ltb_ℤ, string_eq, beq_ne, Bool-cases, Option-cases, ok, err,
  if◌then◌else◌, is_empty→eq, cut_last_dash,
}
use kubendt.Types.{NodeSpec}
use kubendt.Names.{
  external_node_name, has_node, pod_name, split_indexed_pod_name, resolve_pod_name_from_link,
}
use kubendt.Names.Pods.{split_indexed_pod_name-pod_name}
use kubendt.Names.Resolution.{resolve-node}
use kubendt.Links.{Field, no_such_node, pod_out_of_range, replicas_by_node, validate_link_endpoint}

split_external : split_indexed_pod_name "external" ≡ none
unfolding split_indexed_pod_name cut_last_dash
split_external = refl

pod_name-ne_external :
    (base : String) (i : ℕ)
    → is_empty base ≡ false
    → i < 2 ^ 63
    → pod_name base (pos i) ≢ external_node_name
pod_name-ne_external base i h k e =
    cc (split_indexed_pod_name-pod_name base i h k, ap split_indexed_pod_name e, split_external)

split_empty : split_indexed_pod_name "" ≡ none
unfolding split_indexed_pod_name cut_last_dash
split_empty = refl

is_empty-pod_name :
    (base : String) (i : ℕ)
    → is_empty base ≡ false
    → i < 2 ^ 63
    → is_empty (pod_name base (pos i)) ≡ false
is_empty-pod_name base i h k = elim (Bool-cases (is_empty (pod_name base (pos i)))) [
  | inl e ↦ cc (
    split_indexed_pod_name-pod_name base i h k,
    ap split_indexed_pod_name (is_empty→eq _ e),
    split_empty,
  )
  | inr e ↦ e
]

-- The printed name of replica i passes exactly when its node is listed with more than i replicas,
-- and otherwise the error says whether the node or the replica is missing.
pub validate_link_endpoint-pod_name :
    (base : String) (i : ℕ) (counts : Table String ℤ) (at : ℕ) (field : Field)
    → is_empty base ≡ false
    → i < 2 ^ 63
    → validate_link_endpoint (pod_name base (pos i)) counts at field ≡ elim (lookup base counts) [
      | none ↦ err (no_such_node at field (pod_name base (pos i)))
      | some count ↦
          if ltb_ℤ (pos i) count
          then ok tt
          else err (pod_out_of_range at field (pod_name base (pos i)))
    ]
unfolding validate_link_endpoint
validate_link_endpoint-pod_name base i counts at field h k =
    rw (beq_ne _ external_node_name (pod_name-ne_external base i h k)) (
      rw (split_indexed_pod_name-pod_name base i h k, validate_link_endpoint)
        (elim (Option-cases (lookup base counts)) [
          | inl e ↦ rw e
          | inr (count, e) ↦ rw e (ground arith)
        ]))

-- A node whose own name ends in a dash and a number cannot be linked by that name: unless another
-- node carries the part in front of the dash, the check reports that the node does not exist, though
-- the resolution of references takes the name for that node's.
pub indexed_node_name_refused :
    (base : String) (i : ℕ) (nodes : List NodeSpec) (at : ℕ) (field : Field)
    → is_empty base ≡ false
    → i < 2 ^ 63
    → lookup base (replicas_by_node [] nodes) ≡ none
    → has_node (pod_name base (pos i)) nodes ≡ true
    → (validate_link_endpoint (pod_name base (pos i)) (replicas_by_node [] nodes) at field
        ≡ err (no_such_node at field (pod_name base (pos i))))
      × (resolve_pod_name_from_link (pod_name base (pos i)) nodes
          ≡ pod_name (pod_name base (pos i)) (pos 0))
indexed_node_name_refused base i nodes at field h k none_such there = (
  validate_link_endpoint-pod_name base i _ at field h k ∙ rw none_such,
  resolve-node _ nodes (is_empty-pod_name base i h k) (pod_name-ne_external base i h k) there,
)
