-- ===== src/Topologies/Upserted.antt =====
-- What an upsert leaves in the Topology objects.
use kubendt.Prelude.{
  ℕ, ℤ, String, ◌≡◌, refl, sym, ap, ◌∙◌, Bool, true, false, Bool-cases, Option, none, some,
  Option-cases, inl, inr, List, [], ◌∷◌, ◌++◌, if◌then◌else◌, not, ◌&&◌, ◌==◌, string_eq, Table,
  lookup, put, keys, contains, contains-append, Distinct, contains-keys, lookup-put, put-Distinct,
  arith,
}
use mathlib.Core.List.{append_assoc, append-nil}
use kubendt.Types.{NodeSpec, LinkSpec}
use kubendt.Names.{external_node_name}
use kubendt.Topologies.{Entry, Objects}
use kubendt.Topologies.Upserts.{
  topology_link_key, Additions, add_node_side, add_peer_side, collect_links, full_keys, append_new,
  Stored, write_links, upsert_pod, upsert_pods, no_additions, upsert_append_links_in_topologies,
}

-- The entries whose keys stand neither in `known` nor on an entry before them.
abbrev pub fresh : List String → List Entry → List Entry
fresh known [] = []
fresh known (e ∷ es) =
    if contains known (topology_link_key e)
    then fresh known es
    else e ∷ fresh (known ++ (topology_link_key e ∷ [])) es

pub full_keys-append : (es fs : List Entry) → full_keys (es ++ fs) ≡ full_keys es ++ full_keys fs
full_keys-append [] fs = refl
full_keys-append (e ∷ es) fs = ap (λ ks. topology_link_key e ∷ ks) (full_keys-append es fs)

append_new-fresh :
    (existing added : List Entry)
    → (append_new existing added).0 ≡ existing ++ fresh (full_keys existing) added
unfolding append_new
append_new-fresh existing [] = sym (append-nil existing)
append_new-fresh existing (e ∷ added) =
    elim (Bool-cases (contains (full_keys existing) (topology_link_key e))) [
      | inl h ↦ rw (append_new, h) (append_new-fresh existing added)
      | inr h ↦
          let more = append_new-fresh (existing ++ (e ∷ [])) added in
          let ks = full_keys-append existing (e ∷ []) in
          rw (append_new, h)
            (more
              ∙ append_assoc existing (e ∷ []) (fresh (full_keys (existing ++ (e ∷ []))) added)
              ∙ ap (λ k. existing ++ (e ∷ fresh k added)) ks)
    ]

abbrev pub is_nil : List Entry → Bool
is_nil [] = true
is_nil (e ∷ es) = false

is_nil-eq : (es : List Entry) → is_nil es ≡ true → es ≡ []
is_nil-eq [] h = refl
is_nil-eq (e ∷ es) h = absurd (ground (arith, h))

pub append_new-changed :
    (existing added : List Entry)
    → (append_new existing added).1 ≡ not (is_nil (fresh (full_keys existing) added))
unfolding append_new
append_new-changed existing [] = refl
append_new-changed existing (e ∷ added) =
    elim (Bool-cases (contains (full_keys existing) (topology_link_key e))) [
      | inl h ↦ rw (append_new, h) (append_new-changed existing added)
      | inr h ↦ rw (append_new, h) refl
    ]

pub fresh-covers :
    (known : List String) (added : List Entry) (k : String)
    → contains (full_keys added) k ≡ true
    → contains (known ++ full_keys (fresh known added)) k ≡ true
fresh-covers known [] k h = absurd (ground (arith, h))
fresh-covers known (e ∷ added) k h =
    let key = topology_link_key e in
    let mine = string_eq.beq_iff key k in
    elim (Bool-cases (contains known key)) [
      | inl c ↦ elim (Bool-cases (key == k)) [
        | inl x ↦
            let found : contains known k ≡ true = rw (mine.0 x) at c in
            rw c (ground (arith, found, contains-append known (full_keys (fresh known added)) k))
        | inr x ↦ rw c (fresh-covers known added k (ground (arith, h, x)))
      ]
      | inr c ↦
          let rest = full_keys (fresh (known ++ (key ∷ [])) added) in
          let ih = fresh-covers (known ++ (key ∷ [])) added k in
          rw c (
            ground (
              arith,
              h,
              ih,
              contains-append known (key ∷ rest) k,
              contains-append (known ++ (key ∷ [])) rest k,
              contains-append known (key ∷ []) k,
            ))
    ]

-- Every key is one of the known.
abbrev pub all_in : List String → List String → Bool
all_in known [] = true
all_in known (k ∷ ks) = contains known k && all_in known ks

pub fresh-all_in :
    (known : List String) (es : List Entry)
    → all_in known (full_keys es) ≡ true
    → fresh known es ≡ []
fresh-all_in known [] h = refl
fresh-all_in known (e ∷ es) h = ground (arith, h, fresh-all_in known es)

-- What an object holds once entries are added to it, and whether it is written for them.
abbrev pub merged : Option (List Entry) → List Entry → List Entry
merged none added = added
merged (some existing) added = existing ++ fresh (full_keys existing) added

abbrev pub is_changed : Option (List Entry) → List Entry → Bool
is_changed none added = true
is_changed (some existing) added = not (is_nil (fresh (full_keys existing) added))

upsert_pod_lem :
    (pod : String) (added : List Entry) (label : Option String) (s : Stored)
    → ((k : String)
        → lookup k (upsert_pod pod added label s).1.objects
          ≡ (if pod == k then some (merged (lookup pod s.objects) added) else lookup k s.objects))
      × ((upsert_pod pod added label s).0 ≡ is_changed (lookup pod s.objects) added)
unfolding upsert_pod write_links
upsert_pod_lem pod added label s = elim (Option-cases (lookup pod s.objects)) [
  | inl e ↦ rw (upsert_pod, e) (λ k. lookup-put pod k added s.objects, refl)
  | inr (ex, e) ↦
      let f = append_new-fresh ex added in
      let c = append_new-changed ex added in
      elim (Bool-cases (append_new ex added).1) [
        | inl w ↦
            rw (upsert_pod, e, w)
              (
                λ k. ap (λ es. lookup k (put pod es s.objects)) f ∙ lookup-put pod k _ s.objects,
                sym w ∙ c,
              )
        | inr w ↦
            let none_new = is_nil-eq (fresh (full_keys ex) added) (ground (arith, w, c)) in
            rw (upsert_pod, e, w)
              (
                λ k. elim (Bool-cases (pod == k)) [
                  | inr x ↦ rw x refl
                  | inl x ↦ rw x (
                      ap (λ j. lookup j s.objects) (sym ((string_eq.beq_iff pod k).0 x))
                      ∙ e
                      ∙ ap some (sym (append-nil ex) ∙ ap (λ r. ex ++ r) (sym none_new)))
                ],
                sym w ∙ c,
              )
      ]
]

abbrev pub after_upsert : Option (List Entry) → Option (List Entry) → Option (List Entry)
after_upsert none found = found
after_upsert (some added) found = some (merged found added)

abbrev pub written : Option (List Entry) → Option (List Entry) → Bool
written none found = false
written (some added) found = is_changed found added

upsert_pods_lem :
    (labels : Table String String) (per_pod : Objects) (s : Stored) (k : String)
    → Distinct (keys per_pod)
    → (lookup k (upsert_pods labels per_pod s).1.objects
        ≡ after_upsert (lookup k per_pod) (lookup k s.objects))
      × (contains (upsert_pods labels per_pod s).0 k
          ≡ written (lookup k per_pod) (lookup k s.objects))
unfolding upsert_pods
upsert_pods_lem labels [] s k d = (refl, refl)
upsert_pods_lem labels ((pod, added) ∷ per_pod) s k (new, d) =
    let one = upsert_pod pod added (lookup pod labels) s in
    let (found, changed) = upsert_pod_lem pod added (lookup pod labels) s in
    let (rest, told) = upsert_pods_lem labels per_pod one.1 k d in
    let absent = contains-keys pod per_pod in
    elim (Bool-cases (pod == k)) [
      | inl x ↦
          let here = (string_eq.beq_iff pod k).0 x in
          let gone : lookup k per_pod ≡ none = ground (arith, new, absent, here) in
          let same = ap (λ j. lookup j s.objects) here in
          (
            ground (arith, rest, gone, found k, x, same),
            ground (arith, told, gone, changed, x, same),
          )
      | inr x ↦ (ground (arith, rest, found k, x), ground (arith, told, found k, x))
    ]

add_node_side-Distinct :
    (node peer : String) (uid : ℤ) (link : LinkSpec) (m : Additions)
    → Distinct (keys m.pod_links)
    → Distinct (keys (add_node_side node peer uid link m).pod_links)
unfolding add_node_side
add_node_side-Distinct node peer uid link m d = elim (Bool-cases (node == external_node_name)) [
  | inl e ↦ rw (add_node_side, e) d
  | inr e ↦ rw (add_node_side, e) (put-Distinct node _ m.pod_links d)
]

add_peer_side-Distinct :
    (node peer : String) (uid : ℤ) (link : LinkSpec) (m : Additions)
    → Distinct (keys m.pod_links)
    → Distinct (keys (add_peer_side node peer uid link m).pod_links)
unfolding add_peer_side
add_peer_side-Distinct node peer uid link m d = elim (Bool-cases (peer == external_node_name)) [
  | inl e ↦ rw (add_peer_side, e) d
  | inr e ↦ rw (add_peer_side, e) (put-Distinct peer _ m.pod_links d)
]

pub collect_links-Distinct :
    (draw : ℕ → ℤ) (nodes : List NodeSpec) (links : List LinkSpec) (m : Additions)
    → Distinct (keys m.pod_links)
    → Distinct (keys (collect_links draw nodes links m).pod_links)
unfolding collect_links
collect_links-Distinct draw nodes [] m d = d
collect_links-Distinct draw nodes (link ∷ links) m d =
    collect_links-Distinct draw nodes links _
      (add_peer_side-Distinct _ _ _ link _ (add_node_side-Distinct _ _ _ link m d))

-- Each object after an upsert, from what was collected for its pod.
pub lookup-upsert_append_links_in_topologies :
    (draw : ℕ → ℤ) (links : List LinkSpec) (nodes : List NodeSpec) (s : Stored) (k : String)
    → let added = (collect_links draw nodes links no_additions).pod_links in
      let (touched, after) = upsert_append_links_in_topologies draw links nodes s in
      (lookup k after.objects ≡ after_upsert (lookup k added) (lookup k s.objects))
      × (contains touched k ≡ written (lookup k added) (lookup k s.objects))
unfolding upsert_append_links_in_topologies no_additions
lookup-upsert_append_links_in_topologies draw links nodes s k =
    let m = collect_links draw nodes links no_additions in
    upsert_pods_lem m.peer_label_by_pod m.pod_links s k
      (collect_links-Distinct draw nodes links no_additions tt)
