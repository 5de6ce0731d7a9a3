-- ===== src/Topologies/Reread.antt =====
-- Each link is read back once, whichever of its ends stand in the objects.
use Prim.Native.Nat.{Ordering}
use Prim.Native.String.{compare}
use text.Mathlib.TextEquality.{path_by_compare}
use kubendt.Prelude.Compare.{flip, compare-flip, Ordering-cases}
use kubendt.Prelude.{
  Option, none, some, is_some, String, ◌≡◌, refl, ◌∙◌, ap, sym, arith, inl, inr, false, Bool-cases,
  List, [], ◌∷◌, ◌++◌, contains, contains-append, All, Distinct, if◌then◌else◌, ◌==◌, string_eq,
  ◌≢◌,
}
use kubendt.Types.{LinkSpec}
use kubendt.Names.Pods.{crd_peer_pod_round_trip}
use kubendt.Names.{to_crd_peer_pod, external_node_name}
use kubendt.Topologies.{Entry, Objects}
use kubendt.Topologies.Readback.{
  end_name, ends_key, entry_key, link_of_entry, Read, read_entries, read_objects,
  build_links_from_topology_crds,
}

-- The key of a link is the same from its other end.
pub ends_key-flip : (left right : String) → ends_key right left ≡ ends_key left right
unfolding ends_key
ends_key-flip left right = elim (Ordering-cases (compare right left)) [
  | inl e ↦
      let f : compare left right ≡ Ordering.gt = compare-flip right left ∙ ap flip e in
      rw (ends_key, e, f) refl
  | inr (inl e) ↦
      let p = path_by_compare right left e in
      ap (λ x. ends_key x left) p ∙ sym (ap (λ x. ends_key left x) p)
  | inr (inr e) ↦
      let f : compare left right ≡ Ordering.lt = compare-flip right left ∙ ap flip e in
      rw (ends_key, e, f) refl
]

-- The two ends of a link, as one name.
abbrev pub pair_key : LinkSpec → String
pair_key l =
    ends_key (end_name l.node l.local_intf) (end_name (to_crd_peer_pod l.peer_node) l.peer_intf)

abbrev pub pair_keys : List LinkSpec → List String
pair_keys [] = []
pair_keys (l ∷ links) = pair_key l ∷ pair_keys links

-- The link of a list that has a key.
abbrev pub link_at : String → List LinkSpec → Option LinkSpec
link_at k [] = none
link_at k (l ∷ links) = if pair_key l == k then some l else link_at k links

abbrev pub or_else : Option LinkSpec → Option LinkSpec → Option LinkSpec
or_else none o = o
or_else (some l) o = some l

-- The first entry of the objects that has a key, as a link.
abbrev pub entry_at : String → String → List Entry → Option LinkSpec
entry_at k pod [] = none
entry_at k pod (e ∷ es) =
    if entry_key pod e == k then some (link_of_entry pod e) else entry_at k pod es

abbrev pub object_at : String → Objects → Option LinkSpec
object_at k [] = none
object_at k ((pod, es) ∷ objects) = or_else (entry_at k pod es) (object_at k objects)

abbrev pub IsInside : Entry → Type 0
IsInside e = e.peer_pod ≢ external_node_name

-- The entry of the same link in the object of the peer pod.
abbrev pub mirrored : String → Entry → Entry
mirrored pod e = record {
  local_intf = e.peer_intf;
  local_ip = e.peer_ip;
  peer_pod = pod;
  peer_intf = e.local_intf;
  peer_ip = e.local_ip;
  uid = e.uid;
}

pair_key-link_of_entry :
    (pod : String) (e : Entry) → IsInside e → pair_key (link_of_entry pod e) ≡ entry_key pod e
unfolding link_of_entry entry_key
pair_key-link_of_entry pod e h =
    ap (λ p. ends_key (end_name pod e.local_intf) (end_name p e.peer_intf))
      ((crd_peer_pod_round_trip e.peer_pod).1 h)

pub contains-pair_keys :
    (links : List LinkSpec) (k : String) → contains (pair_keys links) k ≡ is_some (link_at k links)
contains-pair_keys [] k = refl
contains-pair_keys (l ∷ links) k = ground (arith, contains-pair_keys links k)

link_at-append :
    (k : String) (xs ys : List LinkSpec)
    → link_at k (xs ++ ys) ≡ or_else (link_at k xs) (link_at k ys)
link_at-append k [] ys = refl
link_at-append k (x ∷ xs) ys = ground (arith, link_at-append k xs ys)

pair_keys-append : (xs ys : List LinkSpec) → pair_keys (xs ++ ys) ≡ pair_keys xs ++ pair_keys ys
pair_keys-append [] ys = refl
pair_keys-append (x ∷ xs) ys = ap (λ ks. pair_key x ∷ ks) (pair_keys-append xs ys)

Distinct-snoc :
    (ks : List String) (k : String)
    → Distinct ks
    → contains ks k ≡ false
    → Distinct (ks ++ (k ∷ []))
Distinct-snoc [] k d h = (refl, tt)
Distinct-snoc (j ∷ ks) k (new, d) h = (
  ground
      (arith, h, new, contains-append ks (k ∷ []) j, string_eq.beq_iff j k, string_eq.beq_iff k j),
  Distinct-snoc ks k d (ground (arith, h)),
)

record IsRead (r : Read) : Type 0 where
  once : Distinct (pair_keys r.1)
  same : (k : String) → contains r.0 k ≡ is_some (link_at k r.1)

-- Reading on: the invariant is kept, and the links gain the first entries under new keys.
abbrev ReadsOn : Read → (String → Option LinkSpec) → Read → Type 0
ReadsOn r first r' = IsRead r' × ((k : String) → link_at k r'.1 ≡ or_else (link_at k r.1) (first k))

read_entries-ReadsOn :
    (pod : String) (es : List Entry) (r : Read)
    → All IsInside es
    → IsRead r
    → ReadsOn r (λ k. entry_at k pod es) (read_entries pod es r)
unfolding read_entries
read_entries-ReadsOn pod [] r a i = (i, λ k. ground arith)
read_entries-ReadsOn pod (e ∷ es) (seen, links) (here, a) i =
    let key = entry_key pod e in
    let l = link_of_entry pod e in
    elim (Bool-cases (contains seen key)) [
      | inl c ↦
          let (rest, at) = read_entries-ReadsOn pod es (seen, links) a i in
          rw (read_entries, c)
            (rest, λ k. ground (arith, at k, c, i.same key, string_eq.beq_iff key k))
      | inr c ↦
          let named = pair_key-link_of_entry pod e here in
          let grown : IsRead (key ∷ seen, links ++ (l ∷ [])) = record {
            once = rw (pair_keys-append links (l ∷ [])) (
                Distinct-snoc (pair_keys links) (pair_key l) i.once
                  (rw (contains-pair_keys links (pair_key l), named) (sym (i.same key) ∙ c)));
            same = λ k. ground (arith, i.same k, link_at-append k links (l ∷ []), named);
          } in
          let (rest, at) = read_entries-ReadsOn pod es (key ∷ seen, links ++ (l ∷ [])) a grown in
          rw (read_entries, c)
            (rest, λ k. ground (arith, at k, named, link_at-append k links (l ∷ [])))
    ]

read_objects-ReadsOn :
    (objects : Objects) (r : Read)
    → All (λ (o : String × List Entry). All IsInside o.1) objects
    → IsRead r
    → ReadsOn r (λ k. object_at k objects) (read_objects objects r)
unfolding read_objects
read_objects-ReadsOn [] r a i = (i, λ k. ground arith)
read_objects-ReadsOn ((pod, es) ∷ objects) r (here, a) i =
    let (j, at) = read_entries-ReadsOn pod es r here i in
    let (rest, more) = read_objects-ReadsOn objects (read_entries pod es r) a j in
    (rest, λ k. ground (arith, at k, more k))

pub build_links_from_topology_crds_once :
    (objects : Objects) (k : String)
    → All (λ (o : String × List Entry). All IsInside o.1) objects
    → Distinct (pair_keys (build_links_from_topology_crds objects))
      × (link_at k (build_links_from_topology_crds objects) ≡ object_at k objects)
unfolding build_links_from_topology_crds
build_links_from_topology_crds_once objects k a =
    let (read, at) =
      read_objects-ReadsOn objects ([], []) a (record { once = tt; same = λ j. refl }) in
    (read.once, at k)

pub build_links_from_topology_crds_lem :
    (objects : Objects) (k pod : String) (e : Entry)
    → All (λ (o : String × List Entry). All IsInside o.1) objects
    → Distinct (pair_keys (build_links_from_topology_crds objects))
      × (link_at k (build_links_from_topology_crds objects) ≡ object_at k objects)
      × (entry_key e.peer_pod (mirrored pod e) ≡ entry_key pod e)
unfolding entry_key
build_links_from_topology_crds_lem objects k pod e a =
    let (once, at) = build_links_from_topology_crds_once objects k a in
    (once, at, ends_key-flip (end_name pod e.local_intf) (end_name e.peer_pod e.peer_intf))
