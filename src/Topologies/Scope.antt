-- ===== src/Topologies/Scope.antt =====
-- The links around the pods that a change restarted: FilterLinksByPods of
-- backend/helpers/network_modify.go. A scope is a list of pods in place of a set.
use kubendt.Prelude.{
  String, ◌≡◌, refl, ap, Bool, true, false, Bool-cases, inl, inr, List, [], ◌∷◌, ◌++◌,
  if◌then◌else◌, ◌==◌, ◌||◌, ◌&&◌, string_eq, contains, contains-append, select, arith,
}
use kubendt.Types.{LinkSpec}
use kubendt.Paths.{is_pod}

abbrev pub is_none {ℓ} : {A : Type ℓ} → List A → Bool
is_none [] = true
is_none (x ∷ xs) = false

abbrev pub touches : List String → LinkSpec → Bool
touches scope l = contains scope l.node || contains scope l.peer_node

unfoldable pub enter : String → List String → List String
enter a scope = if is_pod a then a ∷ scope else scope

-- The first pass: a link that touches the scope brings its ends into it, for the links behind it too.
unfoldable pub widen : List LinkSpec → List String → List String
widen [] scope = scope
widen (l ∷ links) scope =
    widen links (if touches scope l then enter l.peer_node (enter l.node scope) else scope)

unfoldable pub filter_links_by_pods : List LinkSpec → List String → List LinkSpec
filter_links_by_pods links pods =
    let scope = select is_pod pods in
    let filtered = select (touches (widen links scope)) links in
    if is_none links || is_none pods
    then links
    else if is_none scope
    then links
    else if is_none filtered
    then links
    else filtered

-- The ends of the links that touch the pods.
abbrev pub neighbours_of : List LinkSpec → List String → List String
neighbours_of [] pods = []
neighbours_of (l ∷ links) pods =
    (if touches pods l then enter l.peer_node (enter l.node []) else []) ++ neighbours_of links pods

-- A link that touches one of the pods or one of their neighbours.
abbrev pub is_near : List LinkSpec → List String → LinkSpec → Bool
is_near links pods l =
    let named = select is_pod pods in touches named l || touches (neighbours_of links named) l

contains-enter :
    (a b : String) (scope : List String)
    → contains (enter a scope) b ≡ ((is_pod a && a == b) || contains scope b)
unfolding enter
contains-enter a b scope = ground arith

abbrev ends_at : LinkSpec → String → Bool
ends_at l a = (is_pod l.node && l.node == a) || (is_pod l.peer_node && l.peer_node == a)

contains-ends :
    (test : Bool) (l : LinkSpec) (scope : List String) (a : String)
    → contains (if test then enter l.peer_node (enter l.node scope) else scope) a
      ≡ (contains scope a || (test && ends_at l a))
contains-ends true l scope a =
    ground (arith, contains-enter l.peer_node a (enter l.node scope), contains-enter l.node a scope)
contains-ends false l scope a = ground arith

touches-sub :
    (pods scope : List String) (l : LinkSpec)
    → ((a : String) → contains pods a ≡ true → contains scope a ≡ true)
    → touches pods l ≡ true
    → touches scope l ≡ true
touches-sub pods scope l sub h = elim (Bool-cases (contains pods l.node)) [
  | inl e ↦ ground (arith, sub l.node e)
  | inr e ↦ ground (arith, sub l.peer_node (ground (arith, h, e)))
]

widen-covers :
    (links : List LinkSpec) (pods scope : List String) (b : String)
    → ((a : String) → contains pods a ≡ true → contains scope a ≡ true)
    → (contains scope b || contains (neighbours_of links pods) b) ≡ true
    → contains (widen links scope) b ≡ true
unfolding widen
widen-covers [] pods scope b sub h = ground (arith, h)
widen-covers (l ∷ links) pods scope b sub h =
    let wide = if touches scope l then enter l.peer_node (enter l.node scope) else scope in
    let near = if touches pods l then enter l.peer_node (enter l.node []) else [] in
    let grown = contains-ends (touches scope l) l scope b in
    let ends = contains-ends (touches pods l) l [] b in
    let both = contains-append near (neighbours_of links pods) b in
    widen-covers links pods wide b
      (λ a c. ground (arith, contains-ends (touches scope l) l scope a, sub a c))
      (elim (Bool-cases (touches pods l)) [
        | inl t ↦ ground (arith, h, grown, ends, both, t, touches-sub pods scope l sub t)
        | inr t ↦ ground (arith, h, grown, ends, both, t)
      ])

near-touches :
    (links : List LinkSpec) (pods : List String) (l : LinkSpec)
    → is_near links pods l ≡ true
    → touches (widen links (select is_pod pods)) l ≡ true
near-touches links pods l h =
    let named = select is_pod pods in
    let covered : (b : String)
        → (contains named b || contains (neighbours_of links named) b) ≡ true
        → contains (widen links named) b ≡ true =
      λ b c. widen-covers links named named b (λ a x. x) c in
    elim (Bool-cases (contains named l.node || contains (neighbours_of links named) l.node)) [
      | inl e ↦ ground (arith, covered l.node e)
      | inr e ↦ ground (arith, covered l.peer_node (ground (arith, h, e)))
    ]

select-select :
    (p q : LinkSpec → Bool) (links : List LinkSpec)
    → ((l : LinkSpec) → p l ≡ true → q l ≡ true)
    → select p (select q links) ≡ select p links
select-select p q [] h = refl
select-select p q (l ∷ links) h = elim (Bool-cases (q l)) [
  | inl e ↦ rw e (ap (λ r. if p l then l ∷ r else r) (select-select p q links h))
  | inr e ↦
      let spared : p l ≡ false = elim (Bool-cases (p l)) [
        | inl x ↦ absurd (ground (arith, e, h l x))
        | inr x ↦ x
      ] in
      rw (e, spared) (select-select p q links h)
]

select-if :
    (p : LinkSpec → Bool) (links : List LinkSpec) (test : Bool) (xs ys : List LinkSpec)
    → select p xs ≡ select p links
    → select p ys ≡ select p links
    → select p (if test then xs else ys) ≡ select p links
select-if p links true xs ys hx hy = hx
select-if p links false xs ys hx hy = hy

-- No link that touches one of the pods, or a neighbour of one, is lost, and their order is kept.
pub filter_links_by_pods-is_near :
    (links : List LinkSpec) (pods : List String)
    → select (is_near links pods) (filter_links_by_pods links pods)
      ≡ select (is_near links pods) links
unfolding filter_links_by_pods
filter_links_by_pods-is_near links pods =
    let scope = select is_pod pods in
    let filtered = select (touches (widen links scope)) links in
    let kept =
      select-select (is_near links pods) (touches (widen links scope)) links
        (near-touches links pods) in
    let keeps = select-if (is_near links pods) links in
    keeps (is_none links || is_none pods) links _ refl
      (keeps (is_none scope) links _ refl (keeps (is_none filtered) links filtered refl kept))
