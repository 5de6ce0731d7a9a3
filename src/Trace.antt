-- ===== src/Trace.antt =====
-- The traceroute of a pod: backend/helpers/trace.go, without what asks the cluster. The regular
-- expressions, the JSON and float readers and the tests on addresses are Go's libraries, so they are
-- arguments; R stands for round trip times. A probe's output is its list of lines, and an mtr report
-- its hubs, whose further measures are left out.
pub mod Hops
pub mod Ends
pub mod Index
mod Declared
mod Indexed
mod Mapped
pub mod Drawn
mod Samples
use Prim.Native.String.{◌∷◌ as cons}
use Prim.Native.Char.{code}
use kubendt.Prelude.{
  has_prefix, ℕ, suc, ◌-◌, ◌^◌, String, Bool, true, false, Option, none, some, is_some, List, [],
  ◌∷◌, ◌++◌, if◌then◌else◌, not, ◌==◌, ◌||◌, ◌&&◌, string_eq, eqb, leb, Table, lookup, put,
  contains, is_empty, append, ℤ, pos, ltb_ℤ, atoi, show_int,
}
use kubendt.Paths.{Adjacency, Route, found, no_path, out_of_fuel, bfs_path}

-- strings.Contains
unfoldable pub has_text : String → String → Bool
has_text String.[] part = is_empty part
has_text (String.◌∷◌ c s) part = has_prefix (String.◌∷◌ c s) part || has_text s part

-- The first submatch of each pattern, and the readings that a line holds.
pub record Patterns (R : Type 0) : Type 0 where
  pub hop : String → Option (String × String)
  pub ttl : String → Option String
  pub unreachable : String → Option String
  pub paren_ip : String → Option String
  pub any_ip : String → Option String
  pub rtt : String → R
  pub zero_rtt : R

pub record TraceIpNode : Type 0 where
  pub pod : String
  pub iface : String

-- The nets are tests on addresses that parse.
pub record TraceClusterInfo : Type 0 where
  pub ips : List String
  pub nets : List (String → Bool)

pub data HopKind : Type 0 where
  l3 cluster_hop external_hop timeout_hop : HopKind

pub data HopSegment : Type 0 where
  no_segment link_segment tunnel_segment : HopSegment

pub record TraceHop (R : Type 0) : Type 0 where
  pub ttl : ℤ
  pub ip : String
  pub rtt : R
  pub node : String
  pub iface : String
  pub kind : HopKind
  pub unreachable : String
  pub path : List String
  pub segment : HopSegment

-- The ttl, the address and the round trip time of a line.
pub data ParsedHop (R : Type 0) : Type 0 where
  no_hop : ParsedHop R
  no_reply : ℤ → ParsedHop R
  reply : ℤ → String → R → ParsedHop R

unfoldable pub any_net : String → List (String → Bool) → Bool
any_net ip [] = false
any_net ip (n ∷ nets) = n ip || any_net ip nets

unfoldable pub cluster_contains : (String → Bool) → Option TraceClusterInfo → String → Bool
cluster_contains parses none ip = false
cluster_contains parses (some c) ip = contains c.ips ip || (parses ip && any_net ip c.nets)

pub record Annotation : Type 0 where
  pub kind : HopKind
  pub node : String
  pub iface : String
  pub segment : HopSegment
  pub path : List String

unfoldable pub off_path : HopKind → Annotation
off_path kind = record { kind = kind; node = ""; iface = ""; segment = no_segment; path = [] }

unfoldable pub on_path : TraceIpNode → HopSegment → List String → Annotation
on_path n segment path = record {
  kind = l3;
  node = n.pod;
  iface = n.iface;
  segment = segment;
  path = path;
}

-- A route of nil is a tunnel, and so is a search that has run out of fuel.
unfoldable pub annotate_node : String → TraceIpNode → Route → Annotation
annotate_node prev_pod n (found path) = on_path n link_segment path
annotate_node prev_pod n no_path = on_path n tunnel_segment (prev_pod ∷ n.pod ∷ [])
annotate_node prev_pod n out_of_fuel = on_path n tunnel_segment (prev_pod ∷ n.pod ∷ [])

-- What the hops of a trace are resolved with.
pub record TraceMap : Type 0 where
  pub ip_index : Table String TraceIpNode
  pub adjacency : Adjacency
  pub cluster : Option TraceClusterInfo
  pub parses : String → Bool

unfoldable pub annotate_trace_hop : TraceMap → String → String → Annotation
annotate_trace_hop map ip prev_pod = elim (lookup ip map.ip_index) [
  | some n ↦ annotate_node prev_pod n (bfs_path map.adjacency prev_pod n.pod)
  | none ↦
      off_path (if cluster_contains map.parses map.cluster ip then cluster_hop else external_hop)
]

unfoldable pub parse_trace_target : {R : Type 0} → Patterns R → String → String
parse_trace_target patterns line =
    if not (has_prefix line "traceroute to") && not (has_prefix line "Tracing the path to")
    then ""
    else elim (patterns.paren_ip line) [
      | some ip ↦ ip
      | none ↦ elim (patterns.any_ip line) [ some ip ↦ ip | none ↦ "" ]
    ]

unfoldable pub parse_trace_unreachable : {R : Type 0} → Patterns R → String → String
parse_trace_unreachable patterns line = elim (patterns.unreachable line) [
  | some flag ↦ append "!" flag
  | none ↦ ""
]

-- strconv.Atoi on digits, with the error left aside: only the range can be exceeded.
unfoldable pub read_ttl : String → ℤ
read_ttl digits = elim (atoi digits) [ some n ↦ n | none ↦ pos (2 ^ 63 - 1) ]

unfoldable pub parse_trace_hop : {R : Type 0} → Patterns R → String → ParsedHop R
parse_trace_hop patterns line = elim (patterns.hop line) [
  | some (ttl, ip) ↦ reply (read_ttl ttl) ip (patterns.rtt line)
  | none ↦ elim (patterns.ttl line) [
    | none ↦ no_hop
    | some ttl ↦ if has_text line "*" then no_reply (read_ttl ttl) else no_hop
  ]
]
