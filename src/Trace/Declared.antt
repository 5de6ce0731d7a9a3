-- ===== src/Trace/Declared.antt =====
-- Which end of a link declares an address: the first pass of BuildTraceIPIndex.
use kubendt.Prelude.{
  String, ◌≡◌, refl, sym, ap, ◌∙◌, Bool-cases, inl, inr, Option, none, some, List, [], ◌∷◌,
  if◌then◌else◌, ◌++◌, ◌==◌, string_eq, lookup, put, lookup-put, arith,
}
use kubendt.Types.{LinkSpec}
use kubendt.Types.Addresses.{Addrs}
use kubendt.Paths.{is_pod}
use kubendt.Trace.{TraceIpNode}
use kubendt.Trace.Index.{Index, strip_mask, declare_end, declare_links}

-- The later of two finds.
abbrev pub later : Option TraceIpNode → Option TraceIpNode → Option TraceIpNode
later first none = first
later first (some n) = some n

-- The addresses that a link's end declares, each without its mask, if the end is a pod.
abbrev pub declared_at : String → String → Addrs → List (String × TraceIpNode)
declared_at pod iface [] = []
declared_at pod iface (a ∷ addrs) =
    (strip_mask a, record { pod = pod; iface = iface }) ∷ declared_at pod iface addrs

abbrev pub declarations : List LinkSpec → List (String × TraceIpNode)
declarations [] = []
declarations (l ∷ links) =
    (if is_pod l.node then declared_at l.node l.local_intf l.local_ip else [])
    ++ (if is_pod l.peer_node then declared_at l.peer_node l.peer_intf l.peer_ip else [])
    ++ declarations links

-- What the last declaration of an address names.
abbrev pub last_declared : List (String × TraceIpNode) → String → Option TraceIpNode
last_declared [] ip = none
last_declared ((a, n) ∷ ds) ip = later (if a == ip then some n else none) (last_declared ds ip)

pub later_assoc : (a b c : Option TraceIpNode) → later a (later b c) ≡ later (later a b) c
later_assoc a b none = refl
later_assoc a b (some n) = refl

pub nothing_first : (o : Option TraceIpNode) → later none o ≡ o
nothing_first none = refl
nothing_first (some n) = refl

last_declared-append :
    (ds es : List (String × TraceIpNode)) (ip : String)
    → last_declared (ds ++ es) ip ≡ later (last_declared ds ip) (last_declared es ip)
last_declared-append [] es ip = sym (nothing_first (last_declared es ip))
last_declared-append ((a, n) ∷ ds) es ip =
    ap (later (if a == ip then some n else none)) (last_declared-append ds es ip)
    ∙ later_assoc (if a == ip then some n else none) (last_declared ds ip) (last_declared es ip)

declare_end_lem :
    (pod iface : String) (addrs : Addrs) (idx : Index) (ip : String)
    → lookup ip (declare_end pod iface addrs idx)
      ≡ later (lookup ip idx) (last_declared (declared_at pod iface addrs) ip)
unfolding declare_end
declare_end_lem pod iface [] idx ip = refl
declare_end_lem pod iface (a ∷ addrs) idx ip =
    let n : TraceIpNode = record { pod = pod; iface = iface } in
    ground (
      arith,
      declare_end_lem pod iface addrs (put (strip_mask a) n idx) ip,
      lookup-put (strip_mask a) ip n idx,
    )

-- What an end declares, if it is a pod.
abbrev side : String → String → Addrs → List (String × TraceIpNode)
side pod iface addrs = if is_pod pod then declared_at pod iface addrs else []

declare_side :
    (pod iface : String) (addrs : Addrs) (idx : Index) (ip : String)
    → lookup ip (if is_pod pod then declare_end pod iface addrs idx else idx)
      ≡ later (lookup ip idx) (last_declared (side pod iface addrs) ip)
declare_side pod iface addrs idx ip = elim (Bool-cases (is_pod pod)) [
  | inl e ↦ rw e (declare_end_lem pod iface addrs idx ip)
  | inr e ↦ rw e refl
]

pub declare_links_lem :
    (links : List LinkSpec) (idx : Index) (ip : String)
    → lookup ip (declare_links links idx)
      ≡ later (lookup ip idx) (last_declared (declarations links) ip)
unfolding declare_links
declare_links_lem [] idx ip = refl
declare_links_lem (l ∷ links) idx ip =
    let mine = if is_pod l.node then declare_end l.node l.local_intf l.local_ip idx else idx in
    let both =
      if is_pod l.peer_node then declare_end l.peer_node l.peer_intf l.peer_ip mine else mine in
    let here = lookup ip idx in
    let a = side l.node l.local_intf l.local_ip in
    let b = side l.peer_node l.peer_intf l.peer_ip in
    let rest = last_declared (declarations links) ip in
    declare_links_lem links both ip
    ∙ ap (λ o. later o rest)
        (declare_side l.peer_node l.peer_intf l.peer_ip mine ip
          ∙ ap (λ o. later o (last_declared b ip))
              (declare_side l.node l.local_intf l.local_ip idx ip)
          ∙ sym (later_assoc here (last_declared a ip) (last_declared b ip)))
    ∙ sym (later_assoc here (later (last_declared a ip) (last_declared b ip)) rest)
    ∙ ap (later here) (
        ap (λ o. later o rest) (sym (last_declared-append a b ip))
        ∙ sym (last_declared-append (a ++ b) (declarations links) ip))
