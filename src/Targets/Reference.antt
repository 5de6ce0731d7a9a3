-- ===== src/Targets/Reference.antt =====
-- A pod reference against the cluster and against one listing of it: ResolvePodReference of
-- backend/helpers/pod_reference.go and podResolver of backend/helpers/configure_targets.go.
use kubendt.Prelude.{
  String, false, List, [], ◌∷◌, ◌++◌, ◌≡◌, refl, sym, ◌∙◌, ap, beq_ne, arith, Table, put,
  lookup-put, contains, is_empty, is_empty→eq, ◌==◌, string_eq, eq_iff, if◌then◌else◌, Bool-cases,
  Option-cases, inl, inr, Result, ok, err, map,
}
use mathlib.Core.List.{append_assoc, append-nil}
use kubendt.Names.{split_indexed_pod_name}
use kubendt.Targets.{
  ReferenceError, Pod, names_at, by_node, only, pod_resolver, single_pod, resolve_pod_reference,
}

-- The names of the pods of an app.
abbrev pub names_of : List Pod → String → List String
names_of [] app = []
names_of (p ∷ pods) app = if p.app == app then p.name ∷ names_of pods app else names_of pods app

names_at_nothing : (app : String) → names_at app [] ≡ []
unfolding names_at
names_at_nothing app = refl

only_nothing : (ref : String) → only ref [] ≡ ref
unfolding only
only_nothing ref = refl

names_at-by_node :
    (pods : List Pod) (table : Table String (List String)) (app : String)
    → is_empty app ≡ false
    → names_at app (by_node table pods) ≡ names_at app table ++ names_of pods app
unfolding by_node names_at
names_at-by_node [] table app h = sym (append-nil (names_at app table))
names_at-by_node (p ∷ pods) table app h =
    let next = put p.app (names_at p.app table ++ (p.name ∷ [])) table in
    ground (
      arith,
      h,
      names_at-by_node pods next app h,
      names_at-by_node pods table app h,
      lookup-put p.app app (names_at p.app table ++ (p.name ∷ [])) table,
      eq_iff p.app app,
      append_assoc (names_at app table) (p.name ∷ []) (names_of pods app),
    )

not_blank : (s : String) → is_empty s ≡ false → (s == "") ≡ false
not_blank s h = beq_ne s "" (λ e. cc (ap is_empty e, h))

names_at-by_node_empty :
    (pods : List Pod) (table : Table String (List String))
    → names_at "" (by_node table pods) ≡ names_at "" table
unfolding by_node names_at
names_at-by_node_empty [] table = refl
names_at-by_node_empty (p ∷ pods) table =
    let next = put p.app (names_at p.app table ++ (p.name ∷ [])) table in
    ground (
      arith,
      names_at-by_node_empty pods next,
      names_at-by_node_empty pods table,
      lookup-put p.app "" (names_at p.app table ++ (p.name ∷ [])) table,
      not_blank p.app,
    )

-- A lookup against a cluster that holds exactly the listed pods and answers every request.
abbrev pub in_listing : {E : Type 0} → List Pod → String → Result (ReferenceError E) String
in_listing {E = E} pods ref =
    resolve_pod_reference {E = E} (contains (map (λ (p : Pod). p.name) pods))
      (λ app. ok (names_of pods app)) ref

only-single_pod :
    (E : Type 0) (ref : String) (names : List String)
    → only ref names ≡ elim (single_pod {E = E} ref names) [ ok pod ↦ pod | err e ↦ ref ]
unfolding only single_pod
only-single_pod E ref [] = refl
only-single_pod E ref (name ∷ []) = refl
only-single_pod E ref (name ∷ other ∷ names) = refl

-- A reference resolved over a listing is the pod that the cluster resolves it to, when the cluster
-- holds exactly the listed pods; a reference that the cluster refuses is left as it is written.
pub pod_resolver-resolve_pod_reference :
    (E : Type 0) (pods : List Pod) (ref : String)
    → pod_resolver pods ref ≡ elim (in_listing {E = E} pods ref) [ ok pod ↦ pod | err e ↦ ref ]
unfolding pod_resolver resolve_pod_reference
pod_resolver-resolve_pod_reference E pods ref = elim (Bool-cases (is_empty ref)) [
  | inl e ↦
      let none_there : names_at ref (by_node [] pods) ≡ [] =
        rw (is_empty→eq ref e) (names_at-by_node_empty pods [] ∙ names_at_nothing "") in
      let as_written : only ref (names_at ref (by_node [] pods)) ≡ ref =
        rw none_there (only_nothing ref) in
      ground (arith, e, as_written)
  | inr e ↦ elim (Option-cases (split_indexed_pod_name ref)) [
    | inr (parts, s) ↦ ground (arith, e, s)
    | inl s ↦
        let listed : names_at ref (by_node [] pods) ≡ names_of pods ref =
          names_at-by_node pods [] ref e
          ∙ ap (λ names. names ++ names_of pods ref) (names_at_nothing ref) in
        let same : only ref (names_at ref (by_node [] pods))
            ≡ elim (single_pod {E = E} ref (names_of pods ref)) [ ok pod ↦ pod | err x ↦ ref ] =
          rw listed (only-single_pod E ref (names_of pods ref)) in
        ground (arith, e, s, same)
  ]
]
