-- ===== src/Topologies/Retried.antt =====
-- A request whose links were added before, whatever uids it draws.
use kubendt.Prelude.{
  ℕ, ℤ, String, ◌≡◌, refl, sym, ap, ◌∙◌, true, false, Bool-cases, Option, none, some, Option-cases,
  inl, inr, List, [], ◌∷◌, ◌++◌, ◌==◌, string_eq, Table, lookup, put, keys, contains, Distinct,
  contains-keys, beq_refl, length, arith,
}
use kubendt.Types.{NodeSpec, LinkSpec}
use kubendt.Names.{external_node_name, resolve_pod_name_from_link}
use kubendt.Topologies.{Entry, Objects, add_entry, local_entry, peer_entry}
use kubendt.Topologies.Upserts.{
  topology_link_key, Additions, uid_of, add_node_side, add_peer_side, collect_links, full_keys,
  append_new, Stored, upsert_pod, upsert_pods, no_additions, upsert_append_links_in_topologies,
}
use kubendt.Topologies.Upserted.{
  fresh, fresh-covers, fresh-all_in, full_keys-append, all_in, merged, after_upsert,
  append_new-changed, collect_links-Distinct, lookup-upsert_append_links_in_topologies,
}

-- A table of keys in place of entries.
abbrev pub keys_of : Objects → Table String (List String)
keys_of [] = []
keys_of ((pod, es) ∷ m) = (pod, full_keys es) ∷ keys_of m

lookup-keys_of :
    (k : String) (m : Objects)
    → lookup k (keys_of m) ≡ elim (lookup k m) [ none ↦ none | some es ↦ some (full_keys es) ]
lookup-keys_of k [] = refl
lookup-keys_of k ((pod, es) ∷ m) = ground (arith, lookup-keys_of k m)

keys_of-put :
    (pod : String) (es : List Entry) (m : Objects)
    → keys_of (put pod es m) ≡ put pod (full_keys es) (keys_of m)
keys_of-put pod es [] = refl
keys_of-put pod es ((p, fs) ∷ m) = elim (Bool-cases (p == pod)) [
  | inl e ↦ rw e refl
  | inr e ↦ rw e (ap (λ t. (p, full_keys fs) ∷ t) (keys_of-put pod es m))
]

abbrev add_key : String → String → Table String (List String) → Table String (List String)
add_key pod key t = put pod (elim (lookup pod t) [ none ↦ [] | some ks ↦ ks ] ++ (key ∷ [])) t

keys_of-add_entry :
    (pod : String) (e : Entry) (m : Objects)
    → keys_of (add_entry pod e m) ≡ add_key pod (topology_link_key e) (keys_of m)
keys_of-add_entry pod e m = elim (Option-cases (lookup pod m)) [
  | inl x ↦
      let old : lookup pod (keys_of m) ≡ none = ground (arith, lookup-keys_of pod m, x) in
      rw (x, old) (keys_of-put pod (e ∷ []) m)
  | inr (es, x) ↦
      let old : lookup pod (keys_of m) ≡ some (full_keys es) =
        ground (arith, lookup-keys_of pod m, x) in
      rw (x, old)
        (keys_of-put pod (es ++ (e ∷ [])) m
          ∙ ap (λ ks. put pod ks (keys_of m)) (full_keys-append es (e ∷ [])))
]

lookup-later :
    (pod k : String) (added a : List Entry) (per_pod : Objects)
    → contains (keys per_pod) pod ≡ false
    → lookup k per_pod ≡ some a
    → lookup k ((pod, added) ∷ per_pod) ≡ some a
lookup-later pod k added a per_pod new x = elim (Bool-cases (pod == k)) [
  | inr o ↦ rw o x
  | inl o ↦
      let gone : contains (keys per_pod) k ≡ false = rw ((string_eq.beq_iff pod k).0 o) at new in
      absurd (ground (arith, gone, contains-keys k per_pod, x))
]

settled :
    (labels : Table String String) (per_pod : Objects) (s : Stored)
    → Distinct (keys per_pod)
    → ((k : String) (added : List Entry)
        → lookup k per_pod ≡ some added
        → (ex : List Entry) × (lookup k s.objects ≡ some ex)
          × (all_in (full_keys ex) (full_keys added) ≡ true))
    → upsert_pods labels per_pod s ≡ ([], s)
unfolding upsert_pods upsert_pod
settled labels [] s d h = refl
settled labels ((pod, added) ∷ per_pod) s (new, d) h =
    let (ex, found, known) = h pod added (rw (beq_refl pod) refl) in
    let same : (append_new ex added).1 ≡ false =
      rw (append_new-changed ex added, fresh-all_in (full_keys ex) added known) refl in
    let rest =
      settled labels per_pod s d (λ k a x. h k a (lookup-later pod k added a per_pod new x)) in
    rw (upsert_pods, upsert_pod, found, same, rest) refl

all_in-of :
    (known ks : List String)
    → ((k : String) → contains ks k ≡ true → contains known k ≡ true)
    → all_in known ks ≡ true
all_in-of known [] h = refl
all_in-of known (k ∷ ks) h =
    let here = h k (ground (arith, beq_refl k)) in
    ground (arith, here, all_in-of known ks (λ j c. h j (ground (arith, c))))

pub merged-all_in :
    (found : Option (List Entry)) (added : List Entry)
    → all_in (full_keys (merged found added)) (full_keys added) ≡ true
merged-all_in none added = all_in-of (full_keys added) (full_keys added) (λ k c. c)
merged-all_in (some ex) added =
    all_in-of (full_keys (ex ++ fresh (full_keys ex) added)) (full_keys added) (λ k c.
      rw (full_keys-append ex (fresh (full_keys ex) added)) (fresh-covers (full_keys ex) added k c))

add_entry-keys :
    (pod : String) (e f : Entry) (m n : Objects)
    → topology_link_key e ≡ topology_link_key f
    → keys_of m ≡ keys_of n
    → keys_of (add_entry pod e m) ≡ keys_of (add_entry pod f n)
add_entry-keys pod e f m n same h =
    keys_of-add_entry pod e m ∙ (λ i. add_key pod (same i) (h i)) ∙ sym (keys_of-add_entry pod f n)

add_node_side-keys :
    (node peer : String) (u v : ℤ) (link : LinkSpec) (m n : Additions)
    → keys_of m.pod_links ≡ keys_of n.pod_links
    → keys_of (add_node_side node peer u link m).pod_links
      ≡ keys_of (add_node_side node peer v link n).pod_links
unfolding add_node_side topology_link_key
add_node_side-keys node peer u v link m n h = elim (Bool-cases (node == external_node_name)) [
  | inl e ↦ rw (add_node_side, e) h
  | inr e ↦
      let entry = local_entry peer link in
      rw (add_node_side, e)
        (add_entry-keys node (record entry { uid = some u }) (record entry { uid = some v })
          m.pod_links n.pod_links refl h)
]

add_peer_side-keys :
    (node peer : String) (u v : ℤ) (link : LinkSpec) (m n : Additions)
    → keys_of m.pod_links ≡ keys_of n.pod_links
    → keys_of (add_peer_side node peer u link m).pod_links
      ≡ keys_of (add_peer_side node peer v link n).pod_links
unfolding add_peer_side topology_link_key
add_peer_side-keys node peer u v link m n h = elim (Bool-cases (peer == external_node_name)) [
  | inl e ↦ rw (add_peer_side, e) h
  | inr e ↦
      let entry = peer_entry node link in
      rw (add_peer_side, e)
        (add_entry-keys peer (record entry { uid = some u }) (record entry { uid = some v })
          m.pod_links n.pod_links refl h)
]

pub collect_links-keys :
    (draw again : ℕ → ℤ) (nodes : List NodeSpec) (links : List LinkSpec) (m n : Additions)
    → keys_of m.pod_links ≡ keys_of n.pod_links
    → keys_of (collect_links draw nodes links m).pod_links
      ≡ keys_of (collect_links again nodes links n).pod_links
unfolding collect_links
collect_links-keys draw again nodes [] m n h = h
collect_links-keys draw again nodes (link ∷ links) m n h =
    let node = resolve_pod_name_from_link link.node nodes in
    let peer = resolve_pod_name_from_link link.peer_node nodes in
    let u = uid_of draw (length links) link in
    let v = uid_of again (length links) link in
    collect_links-keys draw again nodes links
      (add_peer_side node peer u link (add_node_side node peer u link m))
      (add_peer_side node peer v link (add_node_side node peer v link n))
      (add_peer_side-keys node peer u v link (add_node_side node peer u link m)
        (add_node_side node peer v link n) (add_node_side-keys node peer u v link m n h))

pub full_keys_at :
    (k : String) (added : List Entry) (first second : Objects)
    → keys_of first ≡ keys_of second
    → lookup k second ≡ some added
    → (a : List Entry) × (lookup k first ≡ some a) × (full_keys a ≡ full_keys added)
full_keys_at k added first second same x =
    let theirs : lookup k (keys_of first) ≡ some (full_keys added) =
      ap (lookup k) same ∙ lookup-keys_of k second ∙ rw x refl in
    elim (Option-cases (lookup k first)) [
      | inl e ↦ absurd (ground (arith, theirs, lookup-keys_of k first, e))
      | inr (a, e) ↦ (a, e, ground (arith, theirs, lookup-keys_of k first, e))
    ]

-- An upsert that is repeated, whatever uids it draws the second time, writes no object: it reports
-- no pod and leaves the objects and the labels as they are.
pub upsert_append_links_in_topologies_again :
    (draw again : ℕ → ℤ) (links : List LinkSpec) (nodes : List NodeSpec) (s : Stored)
    → let after = (upsert_append_links_in_topologies draw links nodes s).1 in
      upsert_append_links_in_topologies again links nodes after ≡ ([], after)
unfolding upsert_append_links_in_topologies no_additions
upsert_append_links_in_topologies_again draw again links nodes s =
    let first = collect_links draw nodes links no_additions in
    let second = collect_links again nodes links no_additions in
    let after = (upsert_append_links_in_topologies draw links nodes s).1 in
    settled second.peer_label_by_pod second.pod_links after
      (collect_links-Distinct again nodes links no_additions tt)
      (λ k added x.
        let (a, e, ks) =
          full_keys_at k added first.pod_links second.pod_links
            (collect_links-keys draw again nodes links no_additions no_additions refl) x in
        let (found, _) = lookup-upsert_append_links_in_topologies draw links nodes s k in
        (
          merged (lookup k s.objects) a,
          found ∙ ap (λ o. after_upsert o (lookup k s.objects)) e,
          rw (sym ks) (merged-all_in (lookup k s.objects) a),
        ))
