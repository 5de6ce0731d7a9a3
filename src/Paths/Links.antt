-- ===== src/Paths/Links.antt =====
-- The adjacency of the links, and so the paths that a trace draws through them.
use kubendt.Prelude.{
  String, ◌≡◌, ◌≢◌, refl, sym, ◌∙◌, Bool, false, List, [], ◌∷◌, ◌++◌, ◌==◌, ◌||◌, ◌&&◌, string_eq,
  contains, contains-append, put, lookup-put, if◌then◌else◌, arith,
}
use kubendt.Types.{LinkSpec}
use kubendt.Paths.{
  Adjacency, neighbours, is_pod, add_neighbour, add_links, build_pod_adjacency, bfs_path,
}
use kubendt.Paths.Walks.{linked, IsShortestRoute}
use kubendt.Paths.Shortest.{bfs_path-IsShortestRoute}

neighbours-put :
    (x a : String) (ns : List String) (adj : Adjacency)
    → neighbours (put x ns adj) a ≡ (if x == a then ns else neighbours adj a)
neighbours-put x a ns adj = ground (arith, lookup-put x a ns adj)

add_neighbour_lem :
    (x y a b : String) (adj : Adjacency)
    → contains (neighbours (add_neighbour x y adj) a) b
      ≡ ((is_pod a && is_pod b && (x == a && y == b)) || contains (neighbours adj a) b)
unfolding add_neighbour
add_neighbour_lem x y a b adj = ground (
  arith,
  neighbours-put x a (neighbours adj x ++ (y ∷ [])) adj,
  contains-append (neighbours adj x) (y ∷ []) b,
  string_eq.beq_iff x a,
  string_eq.beq_iff y b,
)

add_links_lem :
    (links : List LinkSpec) (adj : Adjacency) (a b : String)
    → contains (neighbours (add_links links adj) a) b
      ≡ (linked links a b || contains (neighbours adj a) b)
unfolding add_links
add_links_lem [] adj a b = refl
add_links_lem (l ∷ links) adj a b =
    let first = add_neighbour l.node l.peer_node adj in
    ground (
      arith,
      add_links_lem links (add_neighbour l.peer_node l.node first) a b,
      add_neighbour_lem l.peer_node l.node a b first,
      add_neighbour_lem l.node l.peer_node a b adj,
    )

neighbours-linked :
    (links : List LinkSpec) (a b : String)
    → contains (neighbours (build_pod_adjacency links) a) b ≡ linked links a b
unfolding build_pod_adjacency
neighbours-linked links a b = ground (arith, add_links_lem links [] a b)

linked_blank : (links : List LinkSpec) (a : String) → linked links a "" ≡ false
linked_blank [] a = refl
linked_blank (l ∷ links) a = ground (arith, linked_blank links a)

-- The path that a trace draws between two named pods is a shortest one through the links between
-- pods, either way along each; there is no path only where no links join the two, and the search
-- and the way back both end.
pub bfs_path-build_pod_adjacency :
    (links : List LinkSpec) (src dst : String)
    → src ≢ ""
    → dst ≢ ""
    → IsShortestRoute (linked links) src dst (bfs_path (build_pod_adjacency links) src dst)
bfs_path-build_pod_adjacency links src dst a b =
    let adj = build_pod_adjacency links in
    let same : ◌≡◌ {A = String → String → Bool} (λ x y. contains (neighbours adj x) y)
        (linked links) =
      λ i. λ x y. neighbours-linked links x y i in
    rw (sym same) (
      bfs_path-IsShortestRoute adj src dst
        (λ x. neighbours-linked links x "" ∙ linked_blank links x) a b)
