-- ===== src/Paths.antt =====
-- The pods a packet crosses between two hops: backend/helpers/trace.go, BuildPodAdjacency and
-- BFSPath. The links are those that BuildLinksFromTopologyCRDs returned. A map read at a missing
-- key is the empty value, as in Go, and "" stands in `prev` behind the source.
-- Both loops run on fuel: the search pops a pod that was queued once, and the way back follows
-- `prev`, in which every pod stands once.
pub mod Walks
mod Tree
mod Frontier
mod Left
mod Shortest
pub mod Links
mod Samples
use kubendt.Prelude.{
  ℕ, zero, suc, String, Bool, true, false, Option, none, some, is_some, List, [], ◌∷◌, ◌++◌,
  if◌then◌else◌, not, ◌==◌, ◌||◌, ◌&&◌, string_eq, Table, lookup, put, length,
}
use kubendt.Types.{LinkSpec}
use kubendt.Names.{external_node_name}

abbrev pub Adjacency : Type 0
Adjacency = Table String (List String)

-- adj[v]
abbrev pub neighbours : Adjacency → String → List String
neighbours adj v = elim (lookup v adj) [ none ↦ [] | some ns ↦ ns ]

abbrev pub is_pod : String → Bool
is_pod a = not (a == "" || a == external_node_name)

unfoldable pub add_neighbour : String → String → Adjacency → Adjacency
add_neighbour a b adj =
    if is_pod a && is_pod b then put a (neighbours adj a ++ (b ∷ [])) adj else adj

unfoldable pub add_links : List LinkSpec → Adjacency → Adjacency
add_links [] adj = adj
add_links (l ∷ links) adj =
    add_links links (add_neighbour l.peer_node l.node (add_neighbour l.node l.peer_node adj))

unfoldable pub build_pod_adjacency : List LinkSpec → Adjacency
build_pod_adjacency links = add_links links []

pub record Search : Type 0 where
  pub prev : Table String String
  pub queue : List String

abbrev pub seen : Table String String → String → Bool
seen prev v = is_some (lookup v prev)

-- prev[p]
abbrev pub parent : Table String String → String → String
parent prev p = elim (lookup p prev) [ none ↦ "" | some q ↦ q ]

-- `arrived` carries the map in which the destination has just been entered.
pub data Scanned : Type 0 where
  arrived : Table String String → Scanned
  passed : Search → Scanned

pub data Route : Type 0 where
  found : List String → Route
  no_path : Route
  out_of_fuel : Route

unfoldable pub queue_neighbour : String → String → Search → Search
queue_neighbour cur nb s = record { prev = put nb cur s.prev; queue = s.queue ++ (nb ∷ []) }

unfoldable pub scan : String → String → List String → Search → Scanned
scan dst cur [] s = passed s
scan dst cur (nb ∷ nbs) s =
    let rest = scan dst cur nbs (if seen s.prev nb then s else queue_neighbour cur nb s) in
    if not (seen s.prev nb) && nb == dst then arrived (put nb cur s.prev) else rest

unfoldable pub walk_back : ℕ → Table String String → String → List String → Option (List String)
walk_back zero prev p path = if p == "" then some path else none
walk_back (suc fuel) prev p path =
    let rest = walk_back fuel prev (parent prev p) (p ∷ path) in if p == "" then some path else rest

unfoldable pub route_back : Table String String → String → String → Route
route_back prev cur dst = elim (walk_back (length prev) prev cur (dst ∷ [])) [
  | none ↦ out_of_fuel
  | some path ↦ found path
]

unfoldable pub search : ℕ → Adjacency → String → Search → Route
search zero adj dst s = elim s.queue [ [] ↦ no_path | cur ∷ rest ↦ out_of_fuel ]
search (suc fuel) adj dst s = elim s.queue [
  | [] ↦ no_path
  | cur ∷ rest ↦ elim (scan dst cur (neighbours adj cur) (record s { queue = rest })) [
    | arrived prev ↦ route_back prev cur dst
    | passed t ↦ search fuel adj dst t
  ]
]

-- Every name that a search can queue.
abbrev pub names : Adjacency → List String
names [] = []
names ((v, ns) ∷ adj) = ns ++ names adj

unfoldable pub bfs_path : Adjacency → String → String → Route
bfs_path adj src dst =
    if src == "" || dst == ""
    then no_path
    else if src == dst
    then found (src ∷ [])
    else search (suc (length (names adj))) adj dst
        (record { prev = (src, "") ∷ []; queue = src ∷ [] })
