-- ===== src/Links/Resolved.antt =====
-- Links that pass ValidateLinksForModify name pods that exist.
use kubendt.Prelude.{
  ℕ, suc, String, Bool, sym, ◌≡◌, refl, false, true, none, some, List, [], ◌∷◌, ◌⊎◌, inl, inr, ℤ,
  pos, ◌<ℤ◌, ◌≤ℤ◌, arith, All, Table, put, lookup, is_empty, trim_space, eq_iff, ◌==◌, string_eq,
  Bool-cases, Option-cases, ok, ◌∙◌, lookup-put,
}
use kubendt.Types.{NodeSpec, LinkSpec}
use kubendt.Names.{
  external_node_name, has_node, pod_name, split_indexed_pod_name, resolve_pod_name_from_link,
}
use kubendt.Names.Resolution.{resolve_pod_name_from_link_lem}
use kubendt.Links.{
  Field, node_field, peer_node_field, replicas_by_node, validate_link_endpoint, validate_link,
  validate_links, validate_links_for_modify,
}

-- No node's name reads as a replica of another, and every node has a replica.
abbrev pub WellNamed : List NodeSpec → Type 0
WellNamed = All (λ n. (split_indexed_pod_name n.name ≡ none) × (pos 1 ≤ℤ n.replicas))

-- A reference that carries a number spells it as the pods' names do: "router-00" does not.
abbrev pub is_plain : String → Bool
is_plain e = elim (split_indexed_pod_name e) [
  | none ↦ true
  | some (base, idx) ↦ pod_name base idx == e
]

abbrev pub IsPlain : List LinkSpec → Type 0
IsPlain = All (λ l. (is_plain l.node ≡ true) × (is_plain l.peer_node ≡ true))

-- The pod of replica idx of a listed node.
pub record IsPod (counts : Table String ℤ) (pod : String) : Type 0 where
  pub base : String
  pub idx : ℤ
  pub count : ℤ
  pub named : pod ≡ pod_name base idx
  pub listed : lookup base counts ≡ some count
  pub nonneg : pos 0 ≤ℤ idx
  pub below : idx <ℤ count

has_node-lookup :
    (e : String) (table : Table String ℤ) (nodes : List NodeSpec) (r : ℤ)
    → WellNamed nodes
    → lookup e (replicas_by_node table nodes) ≡ some r
    → ((has_node e nodes ≡ true) × (pos 1 ≤ℤ r)) ⊎ (lookup e table ≡ some r)
unfolding has_node replicas_by_node
has_node-lookup e table [] r w h = inr h
has_node-lookup e table (n ∷ nodes) r w h = ground (
  arith,
  has_node-lookup e (put n.name n.replicas table) nodes r w.1 h,
  lookup-put n.name e n.replicas table,
  w.0,
)

split_indexed_pod_name-has_node :
    (e : String) (nodes : List NodeSpec)
    → WellNamed nodes
    → has_node e nodes ≡ true
    → split_indexed_pod_name e ≡ none
unfolding has_node
split_indexed_pod_name-has_node e [] w h = cc
split_indexed_pod_name-has_node e (n ∷ nodes) w h = elim (Bool-cases (n.name == e)) [
  | inl q ↦ rw (← (eq_iff n.name e).0 q) w.0.0
  | inr q ↦ split_indexed_pod_name-has_node e nodes w.1 (ground (arith, h, q))
]

is_empty_of-trim_space : (s : String) → is_empty (trim_space s) ≡ false → is_empty s ≡ false
unfolding trim_space
is_empty_of-trim_space String.[] h = h
is_empty_of-trim_space (String.◌∷◌ c s) h = refl

validate_link_parts :
    (link : LinkSpec) (counts : Table String ℤ) (at : ℕ)
    → validate_link link counts at ≡ ok tt
    → (is_empty (trim_space link.node) ≡ false)
      × (is_empty (trim_space link.peer_node) ≡ false)
      × (validate_link_endpoint link.node counts at node_field ≡ ok tt)
      × (validate_link_endpoint link.peer_node counts at peer_node_field ≡ ok tt)
unfolding validate_link
validate_link_parts link counts at h = (ground arith, ground arith, ground arith, ground arith)

module _ (nodes : List NodeSpec) (w : WellNamed nodes) where
  -- An end that passed is the external network or resolves to a replica of a listed node.
  abbrev pub EndResolves : String → Type 0
  EndResolves e =
      (resolve_pod_name_from_link e nodes ≡ external_node_name)
      ⊎ IsPod (replicas_by_node [] nodes) (resolve_pod_name_from_link e nodes)

  indexed-EndResolves :
      (e base : String) (idx : ℤ) (at : ℕ) (field : Field)
      → is_plain e ≡ true
      → is_empty e ≡ false
      → (e == external_node_name) ≡ false
      → split_indexed_pod_name e ≡ some (base, idx)
      → validate_link_endpoint e (replicas_by_node [] nodes) at field ≡ ok tt
      → EndResolves e
  unfolding validate_link_endpoint
  indexed-EndResolves e base idx at field plain ne x parts h =
      let absent : has_node e nodes ≡ false = elim (Bool-cases (has_node e nodes)) [
        | inl there ↦ cc (split_indexed_pod_name-has_node e nodes w there)
        | inr absent ↦ absent
      ] in
      let same : resolve_pod_name_from_link e nodes ≡ e =
        resolve_pod_name_from_link_lem e nodes ∙ rw (ne, x, absent) in
      let spelled : e ≡ pod_name base idx =
        sym ((eq_iff (pod_name base idx) e).0 (rw (is_plain, parts) at plain)) in
      elim (Option-cases (lookup base (replicas_by_node [] nodes))) [
        | inl none_such ↦ cc (rw (x, parts, none_such, validate_link_endpoint) at h)
        | inr (count, listed) ↦ inr (record {
          base = base;
          idx = idx;
          count = count;
          named = same ∙ spelled;
          listed = listed;
          nonneg = ground (arith, h, x, parts, listed);
          below = ground (arith, h, x, parts, listed);
        })
      ]

  plain-EndResolves :
      (e : String) (at : ℕ) (field : Field)
      → is_empty e ≡ false
      → (e == external_node_name) ≡ false
      → split_indexed_pod_name e ≡ none
      → validate_link_endpoint e (replicas_by_node [] nodes) at field ≡ ok tt
      → EndResolves e
  unfolding validate_link_endpoint
  plain-EndResolves e at field ne x parts h =
      elim (Option-cases (lookup e (replicas_by_node [] nodes))) [
        | inl none_such ↦ ground (arith, h, x, parts, none_such)
        | inr (count, listed) ↦ elim (has_node-lookup e [] nodes count w listed) [
          | inl (there, one) ↦
              let same : resolve_pod_name_from_link e nodes ≡ pod_name e (pos 0) =
                resolve_pod_name_from_link_lem e nodes ∙ rw (ne, x, there) in
              inr (record {
                base = e;
                idx = pos 0;
                count = count;
                named = same;
                listed = listed;
                nonneg = omega arith;
                below = ground (arith, one);
              })
          | inr q ↦ cc
        ]
      ]

  validate_link_endpoint-EndResolves :
      (e : String) (at : ℕ) (field : Field)
      → is_plain e ≡ true
      → is_empty e ≡ false
      → validate_link_endpoint e (replicas_by_node [] nodes) at field ≡ ok tt
      → EndResolves e
  validate_link_endpoint-EndResolves e at field plain ne h =
      elim (Bool-cases (e == external_node_name)) [
        | inl x ↦ inl (
            resolve_pod_name_from_link_lem e nodes ∙ rw (ne, x) ((eq_iff e external_node_name).0 x))
        | inr x ↦ elim (Option-cases (split_indexed_pod_name e)) [
          | inl parts ↦ plain-EndResolves e at field ne x parts h
          | inr ((base, idx), parts) ↦ indexed-EndResolves e base idx at field plain ne x parts h
        ]
      ]

  validate_link-EndResolves :
      (link : LinkSpec) (at : ℕ)
      → (is_plain link.node ≡ true) × (is_plain link.peer_node ≡ true)
      → validate_link link (replicas_by_node [] nodes) at ≡ ok tt
      → EndResolves link.node × EndResolves link.peer_node
  validate_link-EndResolves link at plain h =
      let (n, p, node_ok, peer_ok) = validate_link_parts link (replicas_by_node [] nodes) at h in
      (
        validate_link_endpoint-EndResolves link.node at _ plain.0 (is_empty_of-trim_space _ n)
            node_ok,
        validate_link_endpoint-EndResolves link.peer_node at _ plain.1 (is_empty_of-trim_space _ p)
            peer_ok,
      )

  validate_links-EndResolves :
      (links : List LinkSpec) (at : ℕ)
      → IsPlain links
      → validate_links links (replicas_by_node [] nodes) at ≡ ok tt
      → All (λ l. EndResolves l.node × EndResolves l.peer_node) links
  unfolding validate_links
  validate_links-EndResolves [] at plain h = tt
  validate_links-EndResolves (link ∷ links) at plain h = (
    validate_link-EndResolves link at plain.0 (ground (arith, h)),
    validate_links-EndResolves links (suc at) plain.1 (ground (arith, h)),
  )

  -- Both ends of every link that passes the check are the external network or, once the reference
  -- is resolved, the name of the pod of a replica that a listed node has; provided that every node
  -- has a replica, no node's name reads as a replica of another, and a reference that carries a
  -- number spells it as pod names do, without leading zeros or a sign.
  pub validate_links_for_modify-EndResolves :
      (links : List LinkSpec)
      → IsPlain links
      → validate_links_for_modify links nodes ≡ ok tt
      → All (λ l. EndResolves l.node × EndResolves l.peer_node) links
  unfolding validate_links_for_modify
  validate_links_for_modify-EndResolves links plain h = validate_links-EndResolves links 0 plain h
