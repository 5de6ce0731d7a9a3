-- ===== src/Topologies/Roundtrip.antt =====
-- The links of a deployment, written to the objects of its pods and read back from them.
use kubendt.Prelude.{
  ℕ, ℤ, String, ◌≡◌, ◌≢◌, refl, sym, ap, ◌∙◌, Bool, true, false, Bool-cases, is_some, inl, inr,
  List, [], ◌∷◌, ◌++◌, if◌then◌else◌, ◌&&◌, ◌||◌, ◌==◌, string_eq, All, All-append, contains,
  Distinct, beq_ne, length, arith,
}
use kubendt.Types.{NodeSpec, LinkSpec}
use kubendt.Names.{
  external_node_name, crd_external_peer_pod, to_crd_peer_pod, resolve_pod_name_from_link,
}
use kubendt.Topologies.{Entry, Objects}
use kubendt.Topologies.Upserts.{uid_of}
use kubendt.Topologies.Readback.{end_name, ends_key, entry_key, build_links_from_topology_crds}
use kubendt.Topologies.Reread.{
  ends_key-flip, pair_keys, entry_at, object_at, IsInside, contains-pair_keys,
  build_links_from_topology_crds_once,
}
use kubendt.Topologies.Create.{
  Created, resolve_link_uids, own_entry, add_own_link, add_own_links, bare_object,
  create_topology_for_pod,
}

-- The objects that a deployment creates for its pods.
abbrev pub deployed : (ℕ → ℤ) → List LinkSpec → List NodeSpec → List String → Objects
deployed draw links nodes [] = []
deployed draw links nodes (pod ∷ pods) =
    (pod, (create_topology_for_pod draw pod links nodes).links) ∷ deployed draw links nodes pods

-- The two interfaces that a link joins, as one name.
abbrev pub wire_key : List NodeSpec → LinkSpec → String
wire_key nodes l =
    ends_key (end_name (to_crd_peer_pod (resolve_pod_name_from_link l.node nodes)) l.local_intf)
      (end_name (to_crd_peer_pod (resolve_pod_name_from_link l.peer_node nodes)) l.peer_intf)

-- A link of that name ends on the pod, or on one of the pods.
abbrev pub wired_at : List NodeSpec → String → String → List LinkSpec → Bool
wired_at nodes k pod [] = false
wired_at nodes k pod (l ∷ links) =
    ((resolve_pod_name_from_link l.node nodes == pod
        || resolve_pod_name_from_link l.peer_node nodes == pod)
      && wire_key nodes l == k)
    || wired_at nodes k pod links

abbrev pub is_wired : List NodeSpec → List LinkSpec → String → List String → Bool
is_wired nodes links k [] = false
is_wired nodes links k (pod ∷ pods) = wired_at nodes k pod links || is_wired nodes links k pods

to_crd_peer_pod_ne : (name : String) → to_crd_peer_pod name ≢ external_node_name
unfolding to_crd_peer_pod
to_crd_peer_pod_ne name e = elim (Bool-cases (name == external_node_name)) [
  | inl x ↦
      absurd (ground (arith, e, x, string_eq.beq_iff crd_external_peer_pod external_node_name))
  | inr x ↦ absurd (ground (arith, e, x, string_eq.beq_iff name external_node_name))
]

entry_at-append :
    (k pod : String) (es fs : List Entry)
    → is_some (entry_at k pod (es ++ fs))
      ≡ (is_some (entry_at k pod es) || is_some (entry_at k pod fs))
entry_at-append k pod [] fs = refl
entry_at-append k pod (e ∷ es) fs = ground (arith, entry_at-append k pod es fs)

module _ (nodes : List NodeSpec) (pod : String) (real : pod ≢ external_node_name) where
  to_crd_peer_pod-real : (name : String) → (name == pod) ≡ true → to_crd_peer_pod name ≡ pod
  unfolding to_crd_peer_pod
  to_crd_peer_pod-real name e =
      let same = (string_eq.beq_iff name pod).0 e in
      rw (same, beq_ne pod external_node_name real) refl

  entry_key-own_entry :
      (l : LinkSpec) (uid : ℤ)
      → let node = resolve_pod_name_from_link l.node nodes in
        let peer = resolve_pod_name_from_link l.peer_node nodes in
        (node == pod || peer == pod) ≡ true
        → entry_key pod (own_entry pod node peer uid l) ≡ wire_key nodes l
  unfolding entry_key own_entry
  entry_key-own_entry l uid here =
      let node = resolve_pod_name_from_link l.node nodes in
      let peer = resolve_pod_name_from_link l.peer_node nodes in
      elim (Bool-cases (peer == pod)) [
        | inl e ↦
            let same = (string_eq.beq_iff peer pod).0 e in
            rw (own_entry, e)
              (ends_key-flip (end_name (to_crd_peer_pod node) l.local_intf)
                  (end_name pod l.peer_intf)
                ∙ ap
                    (λ p.
                      ends_key (end_name (to_crd_peer_pod node) l.local_intf)
                        (end_name p l.peer_intf))
                    (sym (to_crd_peer_pod-real peer e)))
        | inr e ↦
            rw (own_entry, e)
              (ap
                (λ p.
                  ends_key (end_name p l.local_intf) (end_name (to_crd_peer_pod peer) l.peer_intf))
                (sym (to_crd_peer_pod-real node (ground (arith, here, e)))))
      ]

  own_entry-IsInside :
      (node peer : String) (uid : ℤ) (l : LinkSpec) → IsInside (own_entry pod node peer uid l)
  unfolding own_entry
  own_entry-IsInside node peer uid l = elim (Bool-cases (peer == pod)) [
    | inl e ↦ rw (own_entry, e) (to_crd_peer_pod_ne node)
    | inr e ↦ rw (own_entry, e) (to_crd_peer_pod_ne peer)
  ]

  add_own_link-links :
      (node peer : String) (uid : ℤ) (l : LinkSpec) (c : Created)
      → (add_own_link pod node peer uid l c).links ≡ (
          if node == pod || peer == pod
          then c.links ++ (own_entry pod node peer uid l ∷ [])
          else c.links)
  unfolding add_own_link
  add_own_link-links node peer uid l c = ground arith

  add_own_links-wired :
      (draw : ℕ → ℤ) (k : String) (links : List LinkSpec) (c : Created)
      → All IsInside c.links
      → let c' = add_own_links pod nodes (resolve_link_uids draw links) c in
        All IsInside c'.links
        × (is_some (entry_at k pod c'.links)
            ≡ (is_some (entry_at k pod c.links) || wired_at nodes k pod links))
  unfolding add_own_links resolve_link_uids
  add_own_links-wired draw k [] c a = (a, ground arith)
  add_own_links-wired draw k (l ∷ links) c a =
      let node = resolve_pod_name_from_link l.node nodes in
      let peer = resolve_pod_name_from_link l.peer_node nodes in
      let uid = uid_of draw (length links) l in
      let e = own_entry pod node peer uid l in
      let c' = add_own_link pod node peer uid l c in
      let step = add_own_link-links node peer uid l c in
      elim (Bool-cases (node == pod || peer == pod)) [
        | inl h ↦
            let grown : c'.links ≡ c.links ++ (e ∷ []) = step ∙ rw h refl in
            let inside : All IsInside c'.links =
              rw grown
                (All-append IsInside c.links (e ∷ []) a (own_entry-IsInside node peer uid l, tt)) in
            let (rest, same) = add_own_links-wired draw k links c' inside in
            let key = entry_key-own_entry l uid h in
            let more = entry_at-append k pod c.links (e ∷ []) in
            (rest, same ∙ ground (arith, h, grown, key, more))
        | inr h ↦
            let kept : c'.links ≡ c.links = step ∙ rw h refl in
            let (rest, same) = add_own_links-wired draw k links c' (rw kept a) in
            (rest, same ∙ ground (arith, h, kept))
      ]

deployed-wired :
    (draw : ℕ → ℤ) (links : List LinkSpec) (nodes : List NodeSpec) (k : String) (pods : List String)
    → All (λ (p : String). p ≢ external_node_name) pods
    → All (λ (o : String × List Entry). All IsInside o.1) (deployed draw links nodes pods)
      × (is_some (object_at k (deployed draw links nodes pods)) ≡ is_wired nodes links k pods)
unfolding create_topology_for_pod bare_object
deployed-wired draw links nodes k [] real = (tt, refl)
deployed-wired draw links nodes k (pod ∷ pods) (here, real) =
    let (inside, same) = add_own_links-wired nodes pod here draw k links (bare_object pod) tt in
    let (rest, more) = deployed-wired draw links nodes k pods real in
    ((inside, rest), ground (arith, same, more))

pub build_links_from_topology_crds-deployed :
    (draw : ℕ → ℤ) (links : List LinkSpec) (nodes : List NodeSpec) (pods : List String) (k : String)
    → All (λ (p : String). p ≢ external_node_name) pods
    → let read = pair_keys (build_links_from_topology_crds (deployed draw links nodes pods)) in
      Distinct read × (contains read k ≡ is_wired nodes links k pods)
build_links_from_topology_crds-deployed draw links nodes pods k real =
    let objects = deployed draw links nodes pods in
    let (inside, same) = deployed-wired draw links nodes k pods real in
    let (once, at) = build_links_from_topology_crds_once objects k inside in
    (once, contains-pair_keys (build_links_from_topology_crds objects) k ∙ ap is_some at ∙ same)
