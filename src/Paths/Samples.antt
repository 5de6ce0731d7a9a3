-- ===== src/Paths/Samples.antt =====
-- Paths through a small network.
use kubendt.Prelude.{◌≡◌, refl, filled_ne, List, [], ◌∷◌}
use kubendt.Types.{LinkSpec}
use kubendt.Types.Samples.{sample_link}
use kubendt.Paths.{
  found, no_path, build_pod_adjacency, add_links, add_neighbour, bfs_path, search, scan,
  queue_neighbour, route_back, walk_back,
}
use kubendt.Paths.Walks.{IsShortestRoute, linked}
use kubendt.Paths.Links.{bfs_path-build_pod_adjacency}

-- A ring of five pods, one link to the outside, and a pair apart.
abbrev ring : List LinkSpec
ring =
    sample_link "r1" "eth1" "sw" "eth1"
    ∷ sample_link "sw" "eth2" "r2" "eth1"
    ∷ sample_link "r3" "eth1" "r2" "eth2"
    ∷ sample_link "r3" "eth2" "r4" "eth1"
    ∷ sample_link "r4" "eth2" "r1" "eth2"
    ∷ sample_link "r1" "eth3" "external" "ens3"
    ∷ sample_link "a" "eth1" "b" "eth1"
    ∷ []

ring_path : bfs_path (build_pod_adjacency ring) "r1" "r2" ≡ found ("r1" ∷ "sw" ∷ "r2" ∷ [])
unfolding build_pod_adjacency add_links add_neighbour bfs_path search scan queue_neighbour
    route_back walk_back
ring_path = refl

ring_apart : bfs_path (build_pod_adjacency ring) "r1" "b" ≡ no_path
unfolding build_pod_adjacency add_links add_neighbour bfs_path search scan queue_neighbour
    route_back walk_back
ring_apart = refl

ring_outside : bfs_path (build_pod_adjacency ring) "r1" "external" ≡ no_path
unfolding build_pod_adjacency add_links add_neighbour bfs_path search scan queue_neighbour
    route_back walk_back
ring_outside = refl

bfs_path-build_pod_adjacency_example :
    IsShortestRoute (linked ring) "r1" "r2" (bfs_path (build_pod_adjacency ring) "r1" "r2")
bfs_path-build_pod_adjacency_example =
    bfs_path-build_pod_adjacency ring "r1" "r2" (filled_ne "r1" refl) (filled_ne "r2" refl)
