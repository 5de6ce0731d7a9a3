-- ===== src/Topologies/Deleted.antt =====
-- What the deletion of pods leaves of the links to them: RemoveLinksReferencingDeletedPods of
-- backend/helpers/network_modify.go.
use kubendt.Prelude.{
  String, ◌≡◌, refl, ap, sym, ◌∙◌, Bool, false, Bool-cases, none, some, inl, inr, List, [], ◌∷◌,
  if◌then◌else◌, not, ◌||◌, All, All-append, string_eq, lookup, keys, select, contains, Distinct,
  contains-keys, arith,
}
use kubendt.Types.{LinkSpec}
use kubendt.Names.{external_node_name, from_crd_peer_pod}
use kubendt.Topologies.{
  Entry, Objects, any_entry, to_deleted, remove_links_referencing_deleted_pods,
}
use kubendt.Topologies.Readback.{
  Read, link_of_entry, entry_key, read_entries, read_objects, build_links_from_topology_crds,
}

abbrev pub names_deleted : List String → List Entry → Bool
names_deleted deleted [] = false
names_deleted deleted (e ∷ es) = contains deleted e.peer_pod || names_deleted deleted es

abbrev pub keep_live : List String → List Entry → List Entry
keep_live deleted [] = []
keep_live deleted (e ∷ es) =
    if contains deleted e.peer_pod then keep_live deleted es else e ∷ keep_live deleted es

any_entry-names_deleted :
    (deleted : List String) (es : List Entry)
    → any_entry (to_deleted deleted) es ≡ names_deleted deleted es
any_entry-names_deleted deleted [] = refl
any_entry-names_deleted deleted (e ∷ es) = ground (arith, any_entry-names_deleted deleted es)

select-keep_live :
    (deleted : List String) (es : List Entry)
    → select (λ e. not (to_deleted deleted e)) es ≡ keep_live deleted es
select-keep_live deleted [] = refl
select-keep_live deleted (e ∷ es) = ground (arith, select-keep_live deleted es)

keep_live_all :
    (deleted : List String) (es : List Entry)
    → names_deleted deleted es ≡ false
    → keep_live deleted es ≡ es
keep_live_all deleted [] h = refl
keep_live_all deleted (e ∷ es) h =
    let later : names_deleted deleted es ≡ false = ground (arith, h) in
    ground (arith, h, keep_live_all deleted es later)

names_deleted-keep_live :
    (deleted : List String) (es : List Entry) → names_deleted deleted (keep_live deleted es) ≡ false
names_deleted-keep_live deleted [] = refl
names_deleted-keep_live deleted (e ∷ es) = ground (arith, names_deleted-keep_live deleted es)

lookup-remove_links :
    (objects : Objects) (deleted : List String) (pod : String)
    → Distinct (keys objects)
    → (lookup pod (remove_links_referencing_deleted_pods objects deleted).1
        ≡ elim (lookup pod objects) [
          | none ↦ none
          | some es ↦ some (if contains deleted pod then es else keep_live deleted es)
        ])
      × (contains (remove_links_referencing_deleted_pods objects deleted).0 pod
          ≡ elim (lookup pod objects) [
            | none ↦ false
            | some es ↦ if contains deleted pod then false else names_deleted deleted es
          ])
unfolding remove_links_referencing_deleted_pods
lookup-remove_links [] deleted pod d = (refl, refl)
lookup-remove_links ((p, es) ∷ objects) deleted pod (new, d) =
    let (found, touched) = lookup-remove_links objects deleted pod d in
    let any = any_entry-names_deleted deleted es in
    let live = select-keep_live deleted es in
    (
      ground (arith, found, string_eq.beq_iff p pod, any, live, keep_live_all deleted es),
      ground (arith, touched, string_eq.beq_iff p pod, new, contains-keys p objects, any),
    )

-- The objects of the pods that stay.
abbrev pub staying : List String → Objects → Objects
staying deleted [] = []
staying deleted ((pod, es) ∷ objects) =
    if contains deleted pod then staying deleted objects else (pod, es) ∷ staying deleted objects

-- Neither end of a link is a deleted pod.
abbrev pub IsLive : List String → LinkSpec → Type 0
IsLive deleted l = (contains deleted l.node ≡ false) × (contains deleted l.peer_node ≡ false)

link_of_entry-IsLive :
    (deleted : List String) (pod : String) (e : Entry)
    → contains deleted external_node_name ≡ false
    → contains deleted pod ≡ false
    → contains deleted e.peer_pod ≡ false
    → IsLive deleted (link_of_entry pod e)
unfolding link_of_entry from_crd_peer_pod
link_of_entry-IsLive deleted pod e x p q = (p, ground (arith, x, q))

read_entries-IsLive :
    (deleted : List String) (pod : String) (es : List Entry) (r : Read)
    → contains deleted external_node_name ≡ false
    → contains deleted pod ≡ false
    → names_deleted deleted es ≡ false
    → All (IsLive deleted) r.1
    → All (IsLive deleted) (read_entries pod es r).1
unfolding read_entries
read_entries-IsLive deleted pod [] r x p q h = h
read_entries-IsLive deleted pod (e ∷ es) (seen, links) x p q h =
    let rest : names_deleted deleted es ≡ false = ground (arith, q) in
    let here : contains deleted e.peer_pod ≡ false = ground (arith, q) in
    let more =
      All-append (IsLive deleted) links (link_of_entry pod e ∷ []) h
        (link_of_entry-IsLive deleted pod e x p here, tt) in
    elim (Bool-cases (contains seen (entry_key pod e))) [
      | inl c ↦ rw (read_entries, c) (read_entries-IsLive deleted pod es _ x p rest h)
      | inr c ↦ rw (read_entries, c) (read_entries-IsLive deleted pod es _ x p rest more)
    ]

read_objects-IsLive :
    (deleted : List String) (objects : Objects) (r : Read)
    → contains deleted external_node_name ≡ false
    → All (IsLive deleted) r.1
    → All
        (IsLive deleted)
        (read_objects
          (staying deleted (remove_links_referencing_deleted_pods objects deleted).1)
          r).1
unfolding read_objects remove_links_referencing_deleted_pods
read_objects-IsLive deleted [] r x h = h
read_objects-IsLive deleted ((pod, es) ∷ objects) r x h = elim (Bool-cases (contains deleted pod)) [
  | inl gone ↦ rw (gone, gone) (read_objects-IsLive deleted objects r x h)
  | inr stays ↦ elim (Bool-cases (any_entry (to_deleted deleted) es)) [
    | inl any ↦
        let clean : names_deleted deleted (select (λ e. not (to_deleted deleted e)) es) ≡ false =
          ap (names_deleted deleted) (select-keep_live deleted es)
          ∙ names_deleted-keep_live deleted es in
        rw (stays, any, stays)
          (read_objects-IsLive deleted objects _ x
            (read_entries-IsLive deleted pod _ r x stays clean h))
    | inr none_gone ↦
        let clean : names_deleted deleted es ≡ false =
          sym (any_entry-names_deleted deleted es) ∙ none_gone in
        rw (stays, none_gone, stays)
          (read_objects-IsLive deleted objects _ x
            (read_entries-IsLive deleted pod es r x stays clean h))
  ]
]

-- After the removal of the links to deleted pods, the object of every pod that stays keeps, in
-- order, exactly its entries whose peer is not deleted, the objects of deleted pods are left alone,
-- and the pods reported are those that stay and had an entry that went; and the links read back
-- from the objects of the pods that stay have no end at a deleted pod. No two objects have one
-- name, and no deleted pod is called "external".
pub lookup-remove_links_referencing_deleted_pods :
    (objects : Objects) (deleted : List String) (pod : String)
    → Distinct (keys objects)
    → contains deleted external_node_name ≡ false
    → let removed = remove_links_referencing_deleted_pods objects deleted in
      (lookup pod removed.1 ≡ elim (lookup pod objects) [
        | none ↦ none
        | some es ↦ some (if contains deleted pod then es else keep_live deleted es)
      ])
      × (contains removed.0 pod ≡ elim (lookup pod objects) [
        | none ↦ false
        | some es ↦ if contains deleted pod then false else names_deleted deleted es
      ])
      × All (IsLive deleted) (build_links_from_topology_crds (staying deleted removed.1))
unfolding build_links_from_topology_crds
lookup-remove_links_referencing_deleted_pods objects deleted pod d x =
    let (found, touched) = lookup-remove_links objects deleted pod d in
    (found, touched, read_objects-IsLive deleted objects ([], []) x tt)
