-- ===== src/Trace/Mapped.antt =====
-- Traces resolved with the index and the adjacency that one reading of the links gives.
use kubendt.Prelude.{
  String, ◌≢◌, refl, Bool, Bool-cases, inl, inr, Option, List, [], ◌∷◌, if◌then◌else◌, ◌==◌,
  string_eq, Table, put, All, arith,
}
use kubendt.Types.{LinkSpec}
use kubendt.Types.Addresses.{Addrs}
use kubendt.Paths.{is_pod, build_pod_adjacency}
use kubendt.Paths.Walks.{linked}
use kubendt.Trace.{Patterns, TraceIpNode, TraceClusterInfo, TraceMap}
use kubendt.Trace.Hops.{run_trace, MtrHub, run_mtr}
use kubendt.Trace.Drawn.{Named, Drawn, run_trace-Drawn}
use kubendt.Trace.Index.{
  Index, strip_mask, declare_end, declare_links, add_addresses, add_pods, build_trace_ip_index,
  TracePod, arrived,
}

put-Named :
    (ip : String) (n : TraceIpNode) (idx : Index) → n.pod ≢ "" → Named idx → Named (put ip n idx)
put-Named ip n [] p h = (p, tt)
put-Named ip n ((j, m) ∷ idx) p (here, h) = elim (Bool-cases (j == ip)) [
  | inl e ↦ rw e (p, h)
  | inr e ↦ rw e (here, put-Named ip n idx p h)
]

declare_end-Named :
    (pod iface : String) (addrs : Addrs) (idx : Index)
    → pod ≢ ""
    → Named idx
    → Named (declare_end pod iface addrs idx)
unfolding declare_end
declare_end-Named pod iface [] idx p h = h
declare_end-Named pod iface (a ∷ addrs) idx p h =
    declare_end-Named pod iface addrs _ p (put-Named (strip_mask a) _ idx p h)

declare_side-Named :
    (pod iface : String) (addrs : Addrs) (idx : Index)
    → Named idx
    → Named (if is_pod pod then declare_end pod iface addrs idx else idx)
declare_side-Named pod iface addrs idx h = elim (Bool-cases (is_pod pod)) [
  | inl e ↦ rw e (
      declare_end-Named pod iface addrs idx (λ x. ground (arith, e, x, string_eq.beq_iff pod "")) h)
  | inr e ↦ rw e h
]

declare_links-Named :
    (links : List LinkSpec) (idx : Index) → Named idx → Named (declare_links links idx)
unfolding declare_links
declare_links-Named [] idx h = h
declare_links-Named (l ∷ links) idx h = declare_links-Named links _ (
    declare_side-Named l.peer_node l.peer_intf l.peer_ip _
      (declare_side-Named l.node l.local_intf l.local_ip idx h))

add_addresses-Named :
    (pod : String) (addrs : Table String String) (idx : Index)
    → pod ≢ ""
    → Named idx
    → Named (add_addresses pod addrs idx)
unfolding add_addresses
add_addresses-Named pod [] idx p h = h
add_addresses-Named pod ((ip, iface) ∷ addrs) idx p h =
    add_addresses-Named pod addrs _ p (put-Named ip _ idx p h)

-- Every running pod has a name.
abbrev pub NamedPods : List TracePod → Type 0
NamedPods pods = All (λ p. p.name ≢ "") pods

add_pods-Named :
    (pods : List TracePod) (idx : Index) → NamedPods pods → Named idx → Named (add_pods pods idx)
unfolding add_pods
add_pods-Named [] idx p h = h
add_pods-Named (q ∷ pods) idx (here, p) h =
    add_pods-Named pods _ p (add_addresses-Named q.name q.addresses idx here h)

-- What a handler builds before it traces.
abbrev pub trace_map :
    (List TracePod → List TracePod)
    → List LinkSpec
    → List TracePod
    → Option TraceClusterInfo
    → (String → Bool)
    → TraceMap
trace_map order links pods cluster parses = record {
  ip_index = build_trace_ip_index order links pods;
  adjacency = build_pod_adjacency links;
  cluster = cluster;
  parses = parses;
}

-- The pods that run have names, and so does the one traced from. Then every hop at a pod, of a
-- traceroute and of an mtr report, is drawn from the pod of the last hop at a pod before it, as a
-- shortest walk through the links, or as a tunnel exactly where no links join the two, and a hop at
-- no pod draws nothing.
pub run_trace-trace_map :
    {R : Type 0} (order : List TracePod → List TracePod) (links : List LinkSpec)
    (pods : List TracePod) (cluster : Option TraceClusterInfo) (parses : String → Bool)
    (patterns : Patterns R) (pod : String) (lines : List String) (hubs : List (MtrHub R))
    → NamedPods (arrived order pods)
    → pod ≢ ""
    → let map = trace_map order links pods cluster parses in
      Drawn (linked links) pod (run_trace patterns map pod lines).0
      × Drawn (linked links) pod (run_mtr patterns map pod hubs).0
unfolding build_trace_ip_index
run_trace-trace_map order links pods cluster parses patterns pod lines hubs named p =
    let index = add_pods-Named (arrived order pods) _ named (declare_links-Named links [] tt) in
    run_trace-Drawn links (trace_map order links pods cluster parses) patterns pod lines hubs refl
      index p
