-- ===== src/Trace/Samples.antt =====
-- Traces through a small network: a router, a switch and a host, a tunnel and the cluster.
use kubendt.Prelude.{
  ℕ, ◌≡◌, ◌⊎◌, refl, String, true, false, none, some, List, [], ◌∷◌, lookup, string_eq, filled_ne,
  pos, atoi, ◌==◌, split_char, if◌then◌else◌,
}
use kubendt.Types.{LinkSpec}
use kubendt.Types.Samples.{sample_link}
use kubendt.Paths.{
  build_pod_adjacency, add_links, add_neighbour, bfs_path, search, scan, queue_neighbour,
  route_back, walk_back,
}
use kubendt.Paths.Walks.{linked}
use kubendt.Trace.{
  Patterns, TraceMap, parse_trace_target, parse_trace_hop, parse_trace_unreachable, read_ttl,
  has_text, cluster_contains, any_net, annotate_trace_hop, annotate_node, on_path, off_path,
}
use kubendt.Trace.Hops.{
  MtrHub, run_trace, run_mtr, trace_lines, trace_line, start, outcome_of, on_reply, on_no_reply,
  hop_of, timeout_at, is_l3,
}
use kubendt.Trace.Drawn.{Drawn}
use kubendt.Trace.Index.{
  TracePod, is_running, build_trace_ip_index, add_pods, add_addresses, declare_links, declare_end,
  strip_mask, before,
}
use kubendt.Trace.Declared.{last_declared, declarations}
use kubendt.Trace.Indexed.{Reorders, Member, has_live, build_trace_ip_index_lem}
use kubendt.Trace.Mapped.{trace_map, run_trace-trace_map}

abbrev wiring : List LinkSpec
wiring =
    let up : LinkSpec = sample_link "host" "eth1" "sw" "eth1" in
    let down : LinkSpec = sample_link "sw" "eth2" "r1" "eth1" in
    (record up { local_ip = "10.0.0.2/24" ∷ [] })
    ∷ (record down { peer_ip = "10.0.0.1/24" ∷ "10.0.9.1/24" ∷ [] })
    ∷ []

abbrev cluster_pods : List TracePod
cluster_pods =
    record { name = "host"; phase = "Running"; addresses = ("10.0.0.2", "eth1") ∷ [] }
    ∷ record { name = "r1"; phase = "Pending"; addresses = ("10.0.0.9", "eth1") ∷ [] }
    ∷ record { name = "upf"; phase = "Running"; addresses = ("10.0.9.1", "ogstun") ∷ [] }
    ∷ []

abbrev in_turn : List TracePod → List TracePod
in_turn pods = pods

abbrev in_turn-Reorders : Reorders in_turn
in_turn-Reorders pods p = (λ m. m, λ m. m)

-- The lines of the tests and what the expressions find in them.
abbrev patterns : Patterns ℕ
patterns = record {
  hop = λ line. lookup line (
      ("1  10.0.0.1  1 ms", ("1", "10.0.0.1"))
      ∷ ("2  10.0.9.1  3 ms", ("2", "10.0.9.1"))
      ∷ ("2  10.0.0.1  4 ms !N", ("2", "10.0.0.1"))
      ∷ []);
  ttl = λ line. if line == "3  *" then some "3" else none;
  unreachable = λ line. if line == "2  10.0.0.1  4 ms !N" then some "N" else none;
  paren_ip = λ line. if line == "traceroute to upf (10.0.9.1)" then some "10.0.9.1" else none;
  any_ip = λ line. none;
  rtt = λ line. 1;
  zero_rtt = 0;
}

abbrev mapped : TraceMap
mapped = trace_map in_turn wiring cluster_pods none (λ ip. true)

abbrev output : List String
output = "traceroute to upf (10.0.9.1)" ∷ "1  10.0.0.1  1 ms" ∷ "2  10.0.9.1  3 ms" ∷ []

abbrev refused : List String
refused = "3  *" ∷ "2  10.0.0.1  4 ms !N" ∷ "3  *" ∷ []

delivered_outcome : (run_trace patterns mapped "host" output).1 ≡ "delivered"
unfolding run_trace trace_lines trace_line start outcome_of on_reply on_no_reply hop_of timeout_at
    is_l3 parse_trace_target parse_trace_hop parse_trace_unreachable read_ttl has_text
    annotate_trace_hop annotate_node on_path off_path cluster_contains any_net build_trace_ip_index
    add_pods add_addresses declare_links declare_end strip_mask before split_char
    build_pod_adjacency add_links add_neighbour bfs_path search scan queue_neighbour route_back
    walk_back atoi is_running
delivered_outcome = refl

refused_outcome : (run_trace patterns mapped "host" refused).1 ≡ "unreachable"
unfolding run_trace trace_lines trace_line start outcome_of on_reply on_no_reply hop_of timeout_at
    is_l3 parse_trace_target parse_trace_hop parse_trace_unreachable read_ttl has_text
    annotate_trace_hop annotate_node on_path off_path cluster_contains any_net build_trace_ip_index
    add_pods add_addresses declare_links declare_end strip_mask before split_char
    build_pod_adjacency add_links add_neighbour bfs_path search scan queue_neighbour route_back
    walk_back atoi is_running
refused_outcome = refl

abbrev hubs : List (MtrHub ℕ)
hubs =
    (record { count = pos 1; host = "???"; avg = 0; answered = false })
    ∷ (record { count = pos 2; host = "10.0.0.2"; avg = 2; answered = true })
    ∷ []

run_trace-trace_map_example :
    Drawn (linked wiring) "host" (run_trace patterns mapped "host" output).0
    × Drawn (linked wiring) "host" (run_mtr patterns mapped "host" hubs).0
unfolding is_running
run_trace-trace_map_example =
    run_trace-trace_map in_turn wiring cluster_pods none (λ ip. true) patterns "host" output hubs
      (filled_ne "host" refl, (filled_ne "upf" refl, tt)) (filled_ne "host" refl)

build_trace_ip_index_lem_example :
    let found = lookup "10.0.9.1" (build_trace_ip_index in_turn wiring cluster_pods) in
    ((has_live "10.0.9.1" cluster_pods ≡ true)
      × (p : TracePod) × Member p cluster_pods
      × (p.phase ≡ "Running")
      × (iface : String) × Member ("10.0.9.1", iface) p.addresses
      × (found ≡ some (record { pod = p.name; iface = iface })))
    ⊎ ((has_live "10.0.9.1" cluster_pods ≡ false)
        × (found ≡ last_declared (declarations wiring) "10.0.9.1"))
build_trace_ip_index_lem_example =
    build_trace_ip_index_lem in_turn wiring cluster_pods "10.0.9.1" in_turn-Reorders
