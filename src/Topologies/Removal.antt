-- ===== src/Topologies/Removal.antt =====
-- What removals leave in the Topology objects.
use kubendt.Prelude.{
  String, ◌≡◌, refl, ◌∙◌, Bool, true, false, Bool-cases, Option, none, some, Option-cases, inl, inr,
  List, [], ◌∷◌, if◌then◌else◌, not, ◌==◌, string_eq, lookup, put, keys, select, contains, Distinct,
  contains-keys, lookup-put, put-Distinct, beq_refl, is_some, ok, >>=-eq-ok, arith,
}
use kubendt.Types.{NodeSpec, LinkSpec}
use kubendt.Names.{external_node_name, resolve_pod_name_from_link}
use kubendt.Topologies.{
  Entry, Objects, topology_link_key_for_modify, build_per_pod_link_entries, add_link_entries,
  check_pods, has_all, validate_delete_links_exist, link_keys, spared, any_entry, remove_from_pods,
  remove_specific_links_from_topologies,
}

select_none :
    (p : Entry → Bool) (es : List Entry) → any_entry p es ≡ false → select (λ e. not (p e)) es ≡ es
select_none p [] h = refl
select_none p (e ∷ es) h =
    let later : any_entry p es ≡ false = ground (arith, h) in
    ground (arith, h, select_none p es later)

any_entry-select :
    (p : Entry → Bool) (es : List Entry) → any_entry p (select (λ e. not (p e)) es) ≡ false
any_entry-select p [] = refl
any_entry-select p (e ∷ es) = ground (arith, any_entry-select p es)

abbrev pub spared_of : Option (List Entry) → Option (List Entry) → Option (List Entry)
spared_of none found = found
spared_of (some entries) none = none
spared_of (some entries) (some es) = some (select (spared (link_keys entries)) es)

remove_from_pods_cons :
    (pod : String) (entries : List Entry) (per_pod objects after : Objects) (touched : List String)
    → remove_from_pods objects ((pod, entries) ∷ per_pod) ≡ ok (touched, after)
    → (existing : List Entry) × (written : Objects) × (rest : List String) × (lookup pod objects
        ≡ some existing)
      × (remove_from_pods written per_pod ≡ ok (rest, after))
      × ((k : String)
          → lookup k written ≡ (
              if pod == k
              then some (select (spared (link_keys entries)) existing)
              else lookup k objects))
unfolding remove_from_pods
remove_from_pods_cons pod entries per_pod objects after touched h =
    elim (Option-cases (lookup pod objects)) [
      | inl e ↦ absurd (ground (arith, h, e))
      | inr (existing, e) ↦
          let listed : Entry → Bool =
            λ x. contains (link_keys entries) (topology_link_key_for_modify x) in
          let kept = select (spared (link_keys entries)) existing in
          elim (Bool-cases (any_entry listed existing)) [
            | inl c ↦
                let ((rest, _), h1, h2) =
                  >>=-eq-ok (remove_from_pods (put pod kept objects) per_pod) _
                    (rw (e, c, remove_from_pods) at h) in
                (
                  existing,
                  put pod kept objects,
                  rest,
                  e,
                  h1 ∙ ground (arith, h2),
                  λ k. lookup-put pod k kept objects,
                )
            | inr c ↦
                let ((rest, _), h1, h2) =
                  >>=-eq-ok (remove_from_pods objects per_pod) _
                    (rw (e, c, remove_from_pods) at h) in
                (
                  existing,
                  objects,
                  rest,
                  e,
                  h1 ∙ ground (arith, h2),
                  λ k. ground (arith, select_none listed existing c, e, string_eq.beq_iff pod k),
                )
          ]
    ]

lookup-remove_from_pods :
    (per_pod objects after : Objects) (touched : List String) (pod : String)
    → Distinct (keys per_pod)
    → remove_from_pods objects per_pod ≡ ok (touched, after)
    → lookup pod after ≡ spared_of (lookup pod per_pod) (lookup pod objects)
unfolding remove_from_pods
lookup-remove_from_pods [] objects after touched pod d h = ground (arith, h)
lookup-remove_from_pods ((p, entries) ∷ per_pod) objects after touched pod (new, d) h =
    let (existing, written, rest, e, h1, w) =
      remove_from_pods_cons p entries per_pod objects after touched h in
    ground (
      arith,
      e,
      w pod,
      new,
      contains-keys p per_pod,
      string_eq.beq_iff p pod,
      lookup-remove_from_pods per_pod written after rest pod d h1,
    )

add_link_entries-Distinct :
    (nodes : List NodeSpec) (link : LinkSpec) (m : Objects)
    → Distinct (keys m)
    → Distinct (keys (add_link_entries nodes link m))
unfolding add_link_entries
add_link_entries-Distinct nodes link m d =
    elim (Bool-cases (resolve_pod_name_from_link link.node nodes == external_node_name)) [
      | inl e ↦
          elim (Bool-cases
            (resolve_pod_name_from_link link.peer_node nodes == external_node_name)) [
              | inl f ↦ rw (e, f) d
              | inr f ↦ rw (e, f) (put-Distinct _ _ m d)
            ]
      | inr e ↦
          elim (Bool-cases
            (resolve_pod_name_from_link link.peer_node nodes == external_node_name)) [
              | inl f ↦ rw (e, f) (put-Distinct _ _ m d)
              | inr f ↦ rw (e, f) (put-Distinct _ _ _ (put-Distinct _ _ m d))
            ]
    ]

build_per_pod_link_entries-Distinct :
    (links : List LinkSpec) (nodes : List NodeSpec) (m : Objects)
    → Distinct (keys m)
    → Distinct (keys (build_per_pod_link_entries links nodes m))
unfolding build_per_pod_link_entries
build_per_pod_link_entries-Distinct [] nodes m d = d
build_per_pod_link_entries-Distinct (link ∷ links) nodes m d =
    build_per_pod_link_entries-Distinct links nodes _ (add_link_entries-Distinct nodes link m d)

check_pods-present :
    (objects per_pod : Objects) (pod : String)
    → check_pods objects per_pod ≡ ok tt
    → contains (keys per_pod) pod ≡ true
    → is_some (lookup pod objects) ≡ true
unfolding check_pods
check_pods-present objects [] pod h c = cc
check_pods-present objects ((p, entries) ∷ per_pod) pod h c =
    elim (Option-cases (lookup p objects)) [
      | inl e ↦ absurd (ground (arith, h, e))
      | inr (existing, e) ↦
          let (_, h1, h2) =
            >>=-eq-ok (has_all p (link_keys existing) entries) _ (rw (e, check_pods) at h) in
          ground (arith, c, e, string_eq.beq_iff p pod, check_pods-present objects per_pod pod h2)
    ]

remove_from_pods_total :
    (per_pod objects : Objects)
    → ((k : String) → contains (keys per_pod) k ≡ true → is_some (lookup k objects) ≡ true)
    → (r : List String × Objects) × (remove_from_pods objects per_pod ≡ ok r)
unfolding remove_from_pods
remove_from_pods_total [] objects present = (([], objects), refl)
remove_from_pods_total ((p, entries) ∷ per_pod) objects present =
    elim (Option-cases (lookup p objects)) [
      | inl e ↦
          let there : is_some (lookup p objects) ≡ true = present p (ground (arith, beq_refl p)) in
          absurd (ground (arith, there, e))
      | inr (existing, e) ↦
          let listed : Entry → Bool =
            λ x. contains (link_keys entries) (topology_link_key_for_modify x) in
          let kept = select (spared (link_keys entries)) existing in
          elim (Bool-cases (any_entry listed existing)) [
            | inl c ↦
                let still : (k : String)
                    → contains (keys per_pod) k ≡ true
                    → is_some (lookup k (put p kept objects)) ≡ true =
                  λ k m. ground (arith, m, present k, lookup-put p k kept objects) in
                let (r, h) = remove_from_pods_total per_pod (put p kept objects) still in
                ((p ∷ r.0, r.1), rw (e, c, remove_from_pods) (rw h refl))
            | inr c ↦
                let still : (k : String)
                    → contains (keys per_pod) k ≡ true
                    → is_some (lookup k objects) ≡ true =
                  λ k m. ground (arith, m, present k) in
                let (r, h) = remove_from_pods_total per_pod objects still in
                (r, rw (e, c, remove_from_pods) (rw h refl))
          ]
    ]

-- Links that pass the test for existence are removed without an error, and then the object of every
-- pod keeps, in order, exactly the entries whose key is none of those that the links have on that
-- pod.
pub remove_specific_links_from_topologies_lem :
    (objects : Objects) (links : List LinkSpec) (nodes : List NodeSpec)
    → validate_delete_links_exist objects links nodes ≡ ok tt
    → (r : List String × Objects) × (remove_specific_links_from_topologies objects links nodes
        ≡ ok r)
      × ((pod : String)
          → lookup pod r.1
            ≡ spared_of
                (lookup pod (build_per_pod_link_entries links nodes []))
                (lookup pod objects))
unfolding validate_delete_links_exist remove_specific_links_from_topologies
remove_specific_links_from_topologies_lem objects links nodes h =
    let per_pod = build_per_pod_link_entries links nodes [] in
    let (r, done) =
      remove_from_pods_total per_pod objects (λ k. check_pods-present objects per_pod k h) in
    (
      r,
      done,
      λ pod.
          lookup-remove_from_pods per_pod objects r.1 r.0 pod
            (build_per_pod_link_entries-Distinct links nodes [] tt) done,
    )
