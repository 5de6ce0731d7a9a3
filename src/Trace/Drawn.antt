-- ===== src/Trace/Drawn.antt =====
-- What is drawn between the hops of a trace.
use kubendt.Prelude.{
  suc, leb, String, ◌≡◌, ◌≢◌, refl, sym, ap, ◌∙◌, Bool, true, false, Bool-cases, none, some,
  Option-cases, inl, inr, List, [], ◌∷◌, if◌then◌else◌, not, ◌==◌, ◌||◌, ◌&&◌, string_eq, Table,
  lookup, is_empty, ℤ,
}
use kubendt.Types.{LinkSpec}
use kubendt.Paths.{Route, found, no_path, out_of_fuel, bfs_path, build_pod_adjacency}
use kubendt.Paths.Walks.{IsShortestRoute, linked}
use kubendt.Paths.Links.{bfs_path-build_pod_adjacency}
use kubendt.Trace.{
  Patterns, TraceIpNode, TraceHop, HopKind, l3, cluster_hop, external_hop, HopSegment, no_segment,
  link_segment, tunnel_segment, ParsedHop, no_hop, no_reply, reply, TraceMap, on_path, off_path,
  annotate_node, annotate_trace_hop, parse_trace_target, parse_trace_unreachable, parse_trace_hop,
  cluster_contains,
}
use kubendt.Trace.Hops.{
  max_consecutive_trace_timeouts, Tracing, Step, Step-cases, silent, emits, stops, start, is_l3,
  timeout_at, hop_of, on_no_reply, on_reply, trace_line, trace_lines, run_trace, MtrHub, is_silent,
  mtr_hops, run_mtr,
}

-- A link segment is a shortest walk through the links, and a tunnel is drawn straight where no
-- links join the two pods.
abbrev pub Segment : (String → String → Bool) → String → String → List String → HopSegment → Type 0
Segment joined prev node path link_segment = IsShortestRoute joined prev node (found path)
Segment joined prev node path tunnel_segment =
    (path ≡ prev ∷ node ∷ []) × IsShortestRoute joined prev node no_path
Segment joined prev node path no_segment = ⊥

abbrev pub Shown :
    (String → String → Bool) → String → String → List String → HopSegment → HopKind → Type 0
Shown joined prev node path segment l3 = Segment joined prev node path segment
Shown joined prev node path segment kind = (path ≡ []) × (segment ≡ no_segment)

-- Each hop at a pod is drawn from the last pod before it; the others draw nothing.
abbrev pub Drawn : {R : Type 0} → (String → String → Bool) → String → List (TraceHop R) → Type 0
Drawn joined prev [] = Unit
Drawn joined prev (h ∷ hops) =
    Shown joined prev h.node h.path h.segment h.kind
    × Drawn joined (if is_l3 h.kind then h.node else prev) hops

-- The pods of an index have names.
abbrev pub Named : Table String TraceIpNode → Type 0
Named [] = Unit
Named ((ip, n) ∷ index) = (n.pod ≢ "") × Named index

lookup-Named :
    (index : Table String TraceIpNode) (ip : String) (n : TraceIpNode)
    → Named index
    → lookup ip index ≡ some n
    → n.pod ≢ ""
lookup-Named [] ip n named h = cc
lookup-Named ((j, m) ∷ index) ip n (here, named) h = elim (Bool-cases (j == ip)) [
  | inl e ↦ λ x. here (ap (λ o. elim o [ none ↦ "" | some k ↦ k.pod ]) (rw e at h) ∙ x)
  | inr e ↦ lookup-Named index ip n named (rw e at h)
]

annotate_node_lem :
    (joined : String → String → Bool) (prev : String) (n : TraceIpNode) (r : Route)
    → IsShortestRoute joined prev n.pod r
    → let a = annotate_node prev n r in
      Shown joined prev a.node a.path a.segment a.kind × (is_l3 a.kind ≡ true) × (a.node ≡ n.pod)
unfolding annotate_node on_path is_l3
annotate_node_lem joined prev n (found path) h = (h, refl, refl)
annotate_node_lem joined prev n no_path h = ((refl, h), refl, refl)
annotate_node_lem joined prev n out_of_fuel h = absurd h

off_path_lem :
    (joined : String → String → Bool) (prev : String) (in_cluster : Bool)
    → let a = off_path (if in_cluster then cluster_hop else external_hop) in
      Shown joined prev a.node a.path a.segment a.kind × (is_l3 a.kind ≡ false)
unfolding off_path is_l3
off_path_lem joined prev true = ((refl, refl), refl)
off_path_lem joined prev false = ((refl, refl), refl)

module _ (links : List LinkSpec) (map : TraceMap) where
  abbrev IsMapped : Type 0
  IsMapped = (map.adjacency ≡ build_pod_adjacency links) × Named map.ip_index

  annotate_trace_hop_lem :
      (ip prev : String)
      → IsMapped
      → prev ≢ ""
      → let a = annotate_trace_hop map ip prev in
        Shown (linked links) prev a.node a.path a.segment a.kind
        × ((if is_l3 a.kind then a.node else prev) ≢ "")
  unfolding annotate_trace_hop is_l3
  annotate_trace_hop_lem ip prev (adj, named) p = elim (Option-cases (lookup ip map.ip_index)) [
    | inl e ↦
        let (shown, kind) =
          off_path_lem (linked links) prev (cluster_contains map.parses map.cluster ip) in
        rw (annotate_trace_hop, e) (shown, rw kind p)
    | inr (n, e) ↦
        let pod = lookup-Named map.ip_index ip n named e in
        let (shown, kind, node) =
          annotate_node_lem (linked links) prev n (bfs_path map.adjacency prev n.pod)
            (rw adj (bfs_path-build_pod_adjacency links prev n.pod p pod)) in
        rw (annotate_trace_hop, e) (shown, rw (kind, node) pod)
  ]

  abbrev HopDrawn : {R : Type 0} → String → String → TraceHop R → Type 0
  HopDrawn prev next h =
      Shown (linked links) prev h.node h.path h.segment h.kind
      × (next ≡ (if is_l3 h.kind then h.node else prev))
      × (next ≢ "")

  -- What a step draws, and where the next hop is drawn from.
  abbrev StepDrawn : {R : Type 0} → Tracing → Step R → Type 0
  StepDrawn t (silent t') = t'.prev_pod ≡ t.prev_pod
  StepDrawn t (emits t' h) = HopDrawn t.prev_pod t'.prev_pod h
  StepDrawn t (stops t' h) = HopDrawn t.prev_pod t'.prev_pod h

  module _ {R : Type 0} (patterns : Patterns R) where
    timeout-HopDrawn :
        (prev : String) (ttl : ℤ) → prev ≢ "" → HopDrawn prev prev (timeout_at patterns map ttl)
    unfolding timeout_at is_l3
    timeout-HopDrawn prev ttl p = ((refl, refl), refl, p)

    hop-HopDrawn :
        (prev : String) (ttl : ℤ) (ip : String) (rtt : R) (flag : String)
        → IsMapped
        → prev ≢ ""
        → let a = annotate_trace_hop map ip prev in
          HopDrawn prev
            (if is_l3 a.kind then a.node else prev)
            (hop_of patterns map ttl ip rtt flag a)
    unfolding hop_of
    hop-HopDrawn prev ttl ip rtt flag m p =
        let (shown, named) = annotate_trace_hop_lem ip prev m p in (shown, refl, named)

    pick :
        (t : Tracing) (b : Bool) (x y : Step R)
        → StepDrawn t x
        → StepDrawn t y
        → StepDrawn t (if b then x else y)
    pick t true x y hx hy = hx
    pick t false x y hx hy = hy

    parsed-StepDrawn :
        (t : Tracing) (line : String) (parsed : ParsedHop R)
        → IsMapped
        → t.prev_pod ≢ ""
        → StepDrawn t (elim parsed [
          | no_hop ↦ silent t
          | no_reply ttl ↦ on_no_reply patterns map t ttl
          | reply ttl ip rtt ↦ on_reply patterns map line t ttl ip rtt
        ])
    unfolding on_no_reply on_reply
    parsed-StepDrawn t line no_hop m p = refl
    parsed-StepDrawn t line (no_reply ttl) m p =
        let h = timeout-HopDrawn t.prev_pod ttl p in
        pick t (leb max_consecutive_trace_timeouts (suc t.consecutive)) _ _ h h
    parsed-StepDrawn t line (reply ttl ip rtt) m p =
        let flag = parse_trace_unreachable patterns line in
        let h = hop-HopDrawn t.prev_pod ttl ip rtt flag m p in
        pick t (t.dropped || not (is_empty flag)) _ _ h h

    trace_line-StepDrawn :
        (t : Tracing) (line : String)
        → IsMapped
        → t.prev_pod ≢ ""
        → StepDrawn t (trace_line patterns map t line)
    unfolding trace_line on_no_reply on_reply
    trace_line-StepDrawn t line m p =
        pick t (is_empty t.target_ip && not (is_empty (parse_trace_target patterns line))) _ _ refl
          (parsed-StepDrawn t line (parse_trace_hop patterns line) m p)

    trace_lines-Drawn :
        (t : Tracing) (lines : List String)
        → IsMapped
        → t.prev_pod ≢ ""
        → Drawn (linked links) t.prev_pod (trace_lines patterns map t lines).hops
    unfolding trace_lines
    trace_lines-Drawn t [] m p = tt
    trace_lines-Drawn t (line ∷ lines) m p =
        let drawn = trace_line-StepDrawn t line m p in
        elim (Step-cases (trace_line patterns map t line)) [
          | inl (t', e) ↦
              let same : t'.prev_pod ≡ t.prev_pod = rw e at drawn in
              rw (trace_lines, e, sym same) (trace_lines-Drawn t' lines m (rw (sym same) at p))
          | inr (inl (t', h, e)) ↦
              let (shown, next, named) : HopDrawn t.prev_pod t'.prev_pod h = rw e at drawn in
              rw (trace_lines, e) (shown, rw (sym next) (trace_lines-Drawn t' lines m named))
          | inr (inr (t', h, e)) ↦
              let (shown, next, named) : HopDrawn t.prev_pod t'.prev_pod h = rw e at drawn in
              rw (trace_lines, e) (shown, tt)
        ]

    mtr_hops-Drawn :
        (hubs : List (MtrHub R)) (prev : String)
        → IsMapped
        → prev ≢ ""
        → Drawn (linked links) prev (mtr_hops patterns map prev hubs)
    unfolding mtr_hops timeout_at hop_of is_l3
    mtr_hops-Drawn [] prev m p = tt
    mtr_hops-Drawn (hub ∷ hubs) prev m p = elim (Bool-cases (is_silent hub)) [
      | inl e ↦
          let (shown, next, named) = timeout-HopDrawn prev hub.count p in
          rw (mtr_hops, e) (shown, mtr_hops-Drawn hubs prev m p)
      | inr e ↦
          let (shown, next, named) = hop-HopDrawn prev hub.count hub.host hub.avg "" m p in
          rw (mtr_hops, e) (shown, mtr_hops-Drawn hubs _ m named)
    ]

-- The links of a namespace give the adjacency, the pods of the index are named and so is the pod
-- traced from: then every hop at a pod, of a traceroute and of an mtr report, is drawn from the pod
-- of the hop before it, as a shortest walk through the links, or as a tunnel exactly where no links
-- join the two, and a hop at no pod draws nothing.
pub run_trace-Drawn :
    {R : Type 0} (links : List LinkSpec) (map : TraceMap) (patterns : Patterns R) (pod : String)
    (lines : List String) (hubs : List (MtrHub R))
    → map.adjacency ≡ build_pod_adjacency links
    → Named map.ip_index
    → pod ≢ ""
    → Drawn (linked links) pod (run_trace patterns map pod lines).0
      × Drawn (linked links) pod (run_mtr patterns map pod hubs).0
unfolding run_trace run_mtr start
run_trace-Drawn links map patterns pod lines hubs adj named p = (
  trace_lines-Drawn links map patterns (start pod) lines (adj, named) p,
  mtr_hops-Drawn links map patterns hubs pod (adj, named) p,
)
