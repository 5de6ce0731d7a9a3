-- ===== src/Topologies/Created.antt =====
-- The object that a deployment creates against the one that an upsert writes.
use kubendt.Prelude.{
  ℕ, ℤ, String, ◌≡◌, ◌≢◌, refl, sym, ap, ◌∙◌, true, false, none, some, Option-cases, inl, inr, List,
  [], ◌∷◌, ◌==◌, string_eq, lookup, All, contains, beq_ne, beq_refl, arith,
}
use kubendt.Types.{NodeSpec, LinkSpec}
use kubendt.Names.{external_node_name, resolve_pod_name_from_link}
use kubendt.Topologies.{Entry, local_entry, peer_entry}
use kubendt.Topologies.Upserts.{
  full_keys, uid_of, add_node_side, add_peer_side, collect_links, no_additions, Stored,
  upsert_append_links_in_topologies,
}
use mathlib.Core.List.{append-nil}
use kubendt.Topologies.Retried.{full_keys_at, collect_links-keys, merged-all_in}
use kubendt.Topologies.Upserted.{
  after_upsert, fresh, fresh-all_in, lookup-upsert_append_links_in_topologies,
}
use kubendt.Topologies.Create.{
  resolve_link_uids, own_entry, add_own_link, add_own_links, bare_object, create_topology_for_pod,
}
use kubendt.Topologies.Agreed.{entries_of, label_of, LeavesPod, collect_links-Agrees}

-- The pod is not called "external", no link leads from it to itself, and it has no object yet. Then
-- the object that an upsert leaves the pod, drawing the same uids, has exactly the entries of the
-- one that a deployment creates for it, in the same order, or there is none and these are none; and
-- the label that it collects for the pod is the one of that object.
pub create_topology_for_pod-upsert :
    (draw : ℕ → ℤ) (links : List LinkSpec) (nodes : List NodeSpec) (s : Stored) (pod : String)
    → pod ≢ external_node_name
    → All (LeavesPod pod nodes) links
    → lookup pod s.objects ≡ none
    → let created = create_topology_for_pod draw pod links nodes in
      (entries_of (lookup pod (upsert_append_links_in_topologies draw links nodes s).1.objects)
        ≡ created.links)
      × (label_of (lookup pod (collect_links draw nodes links no_additions).peer_label_by_pod)
          ≡ created.peer_label)
unfolding create_topology_for_pod bare_object no_additions
create_topology_for_pod-upsert draw links nodes s pod real leaves new =
    let agrees =
      collect_links-Agrees pod real draw nodes links (bare_object pod) no_additions leaves
        (record { entries = refl; label = refl }) in
    let (found, _) = lookup-upsert_append_links_in_topologies draw links nodes s pod in
    (ground (arith, found, new, agrees.entries), sym agrees.label)

-- The object of a pod that is not called "external" holds the entries that were created for it from
-- some links, none of which leads from the pod to itself. Then adding these links to all pods,
-- perhaps with other uids drawn, neither reports that pod nor gives its object an entry more.
pub upsert-create_topology_for_pod :
    (draw again : ℕ → ℤ) (links : List LinkSpec) (nodes : List NodeSpec) (s : Stored) (pod : String)
    → pod ≢ external_node_name
    → All (LeavesPod pod nodes) links
    → lookup pod s.objects ≡ some (create_topology_for_pod draw pod links nodes).links
    → let (touched, after) = upsert_append_links_in_topologies again links nodes s in
      (lookup pod after.objects ≡ lookup pod s.objects) × (contains touched pod ≡ false)
unfolding create_topology_for_pod bare_object no_additions
upsert-create_topology_for_pod draw again links nodes s pod real leaves old =
    let first = collect_links draw nodes links no_additions in
    let second = collect_links again nodes links no_additions in
    let agrees =
      collect_links-Agrees pod real draw nodes links (bare_object pod) no_additions leaves
        (record { entries = refl; label = refl }) in
    let (found, told) = lookup-upsert_append_links_in_topologies again links nodes s pod in
    elim (Option-cases (lookup pod second.pod_links)) [
      | inl e ↦ (found ∙ ap (λ o. after_upsert o (lookup pod s.objects)) e, ground (arith, told, e))
      | inr (added, e) ↦
          let (a, at, ks) =
            full_keys_at pod added first.pod_links second.pod_links
              (collect_links-keys draw again nodes links no_additions no_additions refl) e in
          let mine : lookup pod s.objects ≡ some a = ground (arith, old, agrees.entries, at) in
          let none_new : fresh (full_keys a) added ≡ [] =
            fresh-all_in (full_keys a) added (rw (sym ks) (merged-all_in none a)) in
          (
            ground (arith, found, e, mine, none_new, append-nil a),
            ground (arith, told, e, mine, none_new),
          )
    ]

-- A link whose two ends resolve to the same pod, which is not called "external": the object that a
-- deployment creates for the pod from this link declares its peer end alone, and the one that an
-- upsert writes, where there was none, declares both ends.
pub create_topology_for_pod_self :
    (draw : ℕ → ℤ) (link : LinkSpec) (nodes : List NodeSpec) (pod : String)
    → pod ≢ external_node_name
    → resolve_pod_name_from_link link.node nodes ≡ pod
    → resolve_pod_name_from_link link.peer_node nodes ≡ pod
    → let near : Entry = record (local_entry pod link) { uid = some (uid_of draw 0 link) } in
      let far : Entry = record (peer_entry pod link) { uid = some (uid_of draw 0 link) } in
      let before : Stored = record { objects = []; peer_labels = [] } in
      let after = (upsert_append_links_in_topologies draw (link ∷ []) nodes before).1 in
      ((create_topology_for_pod draw pod (link ∷ []) nodes).links ≡ far ∷ [])
      × (lookup pod after.objects ≡ some (near ∷ far ∷ []))
unfolding create_topology_for_pod add_own_links resolve_link_uids add_own_link own_entry bare_object
    collect_links no_additions add_node_side add_peer_side
create_topology_for_pod_self draw link nodes pod real here there =
    let before : Stored = record { objects = []; peer_labels = [] } in
    let (found, _) = lookup-upsert_append_links_in_topologies draw (link ∷ []) nodes before pod in
    let self : (pod == pod) ≡ true = beq_refl pod in
    let named : (pod == external_node_name) ≡ false = beq_ne pod external_node_name real in
    (
      rw (here, there) (ground (arith, self)),
      found ∙ rw (here, there) (ground (arith, self, named)),
    )
