-- ===== src/Topologies/Agreed.antt =====
-- What an upsert collects for a pod and what a deployment creates for it, link by link.
use kubendt.Prelude.{
  ℕ, ℤ, String, ◌≡◌, ◌≢◌, refl, sym, ◌∙◌, Bool, true, false, Bool-cases, Option, none, some, inl,
  inr, List, [], ◌∷◌, ◌++◌, if◌then◌else◌, not, ◌&&◌, ◌||◌, ◌==◌, string_eq, Table, lookup, put,
  lookup-put, All, is_empty, length, arith,
}
use kubendt.Types.{NodeSpec, LinkSpec}
use kubendt.Names.{external_node_name, resolve_pod_name_from_link}
use kubendt.Names.Resolution.{resolve_pod_name_from_link_lem}
use kubendt.Topologies.{Entry, Objects, add_entry, local_entry, peer_entry}
use kubendt.Topologies.Upserts.{Additions, uid_of, add_node_side, add_peer_side, collect_links}
use kubendt.Topologies.Create.{Created, resolve_link_uids, own_entry, add_own_link, add_own_links}

abbrev pub entries_of : Option (List Entry) → List Entry
entries_of none = []
entries_of (some es) = es

abbrev pub label_of : Option String → String
label_of none = ""
label_of (some label) = label

-- The link does not lead from the pod to itself.
abbrev pub LeavesPod : String → List NodeSpec → LinkSpec → Type 0
LeavesPod pod nodes link =
    (resolve_pod_name_from_link link.node nodes == pod
      && resolve_pod_name_from_link link.peer_node nodes == pod)
    ≡ false

entries_of-add_entry :
    (pod k : String) (e : Entry) (m : Objects)
    → entries_of (lookup k (add_entry pod e m))
      ≡ (if pod == k then entries_of (lookup k m) ++ (e ∷ []) else entries_of (lookup k m))
entries_of-add_entry pod k e m = ground (
  arith,
  lookup-put pod k (elim (lookup pod m) [ none ↦ [] | some es ↦ es ] ++ (e ∷ [])) m,
  string_eq.beq_iff pod k,
)

-- What has been collected agrees with the object so far.
pub record Agrees (pod : String) (c : Created) (m : Additions) : Type 0 where
  pub entries : c.links ≡ entries_of (lookup pod m.pod_links)
  pub label : c.peer_label ≡ label_of (lookup pod m.peer_label_by_pod)

-- A label that one side of a link sets, or the one before it.
lookup-label :
    (set : Bool) (k pod label : String) (labels : Table String String)
    → label_of (lookup pod (if set then put k label labels else labels))
      ≡ (if set && k == pod then label else label_of (lookup pod labels))
lookup-label true k pod label labels =
    ground (arith, lookup-put k pod label labels, string_eq.beq_iff k pod)
lookup-label false k pod label labels = refl

abbrev is_labelled : LinkSpec → Bool
is_labelled link =
    not (is_empty link.peer_label)
    && (link.peer_node == external_node_name || link.node == external_node_name)

module _ (pod : String) (real : pod ≢ external_node_name) where
  is_other : (side : String) → (side == external_node_name) ≡ true → (side == pod) ≡ false
  is_other side e = elim (Bool-cases (side == pod)) [
    | inl x ↦ absurd (
        real (
          sym ((string_eq.beq_iff side pod).0 x) ∙ (string_eq.beq_iff side external_node_name).0 e))
    | inr x ↦ x
  ]

  pub add_node_side-at :
      (node peer : String) (uid : ℤ) (link : LinkSpec) (m : Additions)
      → let after = add_node_side node peer uid link m in
        let entry : Entry = record (local_entry peer link) { uid = some uid } in
        (entries_of (lookup pod after.pod_links) ≡ (
          if node == pod
          then entries_of (lookup pod m.pod_links) ++ (entry ∷ [])
          else entries_of (lookup pod m.pod_links)))
        × (label_of (lookup pod after.peer_label_by_pod) ≡ (
            if is_labelled link && node == pod
            then link.peer_label
            else label_of (lookup pod m.peer_label_by_pod)))
  unfolding add_node_side
  add_node_side-at node peer uid link m = elim (Bool-cases (node == external_node_name)) [
    | inl e ↦ rw (add_node_side, e, is_other node e) (refl, ground arith)
    | inr e ↦
        rw (add_node_side, e)
          (
            entries_of-add_entry node pod (record (local_entry peer link) { uid = some uid })
                m.pod_links,
            lookup-label (is_labelled link) node pod link.peer_label m.peer_label_by_pod,
          )
  ]

  pub add_peer_side-at :
      (node peer : String) (uid : ℤ) (link : LinkSpec) (m : Additions)
      → let after = add_peer_side node peer uid link m in
        let entry : Entry = record (peer_entry node link) { uid = some uid } in
        let labels = not (is_empty link.peer_label) && link.node == external_node_name in
        (entries_of (lookup pod after.pod_links) ≡ (
          if peer == pod
          then entries_of (lookup pod m.pod_links) ++ (entry ∷ [])
          else entries_of (lookup pod m.pod_links)))
        × (label_of (lookup pod after.peer_label_by_pod) ≡ (
            if labels && peer == pod
            then link.peer_label
            else label_of (lookup pod m.peer_label_by_pod)))
  unfolding add_peer_side
  add_peer_side-at node peer uid link m = elim (Bool-cases (peer == external_node_name)) [
    | inl e ↦ rw (add_peer_side, e, is_other peer e) (refl, ground arith)
    | inr e ↦
        rw (add_peer_side, e)
          (
            entries_of-add_entry peer pod (record (peer_entry node link) { uid = some uid })
                m.pod_links,
            lookup-label (not (is_empty link.peer_label) && link.node == external_node_name) peer
                pod link.peer_label m.peer_label_by_pod,
          )
  ]

  step-Agrees :
      (node peer : String) (uid : ℤ) (link : LinkSpec) (c : Created) (m : Additions)
      → (node == pod && peer == pod) ≡ false
      → ((link.peer_node == external_node_name) ≡ true → (peer == pod) ≡ false)
      → Agrees pod c m
      → Agrees pod
          (add_own_link pod node peer uid link c)
          (add_peer_side node peer uid link (add_node_side node peer uid link m))
  unfolding add_own_link own_entry
  step-Agrees node peer uid link c m leaves inner a =
      let near = add_node_side node peer uid link m in
      let (first, first_label) = add_node_side-at node peer uid link m in
      let (second, second_label) = add_peer_side-at node peer uid link near in
      record {
        entries = ground (arith, leaves, first, second, a.entries);
        label = ground (arith, leaves, inner, first_label, second_label, a.label);
      }

  resolve-external :
      (nodes : List NodeSpec) (name : String)
      → (name == external_node_name) ≡ true
      → (resolve_pod_name_from_link name nodes == pod) ≡ false
  resolve-external nodes name e =
      is_other (resolve_pod_name_from_link name nodes)
        (ground (arith, e, resolve_pod_name_from_link_lem name nodes))

  pub collect_links-Agrees :
      (draw : ℕ → ℤ) (nodes : List NodeSpec) (links : List LinkSpec) (c : Created) (m : Additions)
      → All (LeavesPod pod nodes) links
      → Agrees pod c m
      → Agrees pod
          (add_own_links pod nodes (resolve_link_uids draw links) c)
          (collect_links draw nodes links m)
  unfolding collect_links add_own_links resolve_link_uids
  collect_links-Agrees draw nodes [] c m leaves a = a
  collect_links-Agrees draw nodes (link ∷ links) c m (here, leaves) a =
      collect_links-Agrees draw nodes links _ _ leaves (
        step-Agrees (resolve_pod_name_from_link link.node nodes)
          (resolve_pod_name_from_link link.peer_node nodes) (uid_of draw (length links) link) link c
          m here (resolve-external nodes link.peer_node) a)
