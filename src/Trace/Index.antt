-- ===== src/Trace/Index.antt =====
-- The index of BuildTraceIPIndex in backend/helpers/trace.go, from the addresses declared on the
-- links and those that `ip addr` prints in the pods that run. The expression that takes a line of it
-- apart is an argument, and so is the order in which the goroutines of the pods take the lock; the
-- pods can be listed.
use Prim.Native.Char.{Char, char, code}
use kubendt.Prelude.{
  has_prefix, String, Bool, Option, none, some, List, [], ◌∷◌, if◌then◌else◌, ◌==◌, ◌||◌, string_eq,
  eqb, Table, put, select, split_char,
}
use kubendt.Types.{LinkSpec}
use kubendt.Types.Addresses.{Addrs}
use kubendt.Paths.{is_pod}
use kubendt.Trace.{TraceIpNode}

-- strings.ToLower on the characters of an address: digits, colons, dots and hexadecimal letters
unfoldable pub lower_char : Char → Char
lower_char c =
    let n = code c in
    if eqb n b'A'
    then char b'a' tt
    else if eqb n b'B'
    then char b'b' tt
    else if eqb n b'C'
    then char b'c' tt
    else if eqb n b'D'
    then char b'd' tt
    else if eqb n b'E'
    then char b'e' tt
    else if eqb n b'F'
    then char b'f' tt
    else c

unfoldable pub to_lower : String → String
to_lower String.[] = ""
to_lower (String.◌∷◌ c s) = String.◌∷◌ (lower_char c) (to_lower s)

-- The text before a character, or the whole text.
unfoldable pub before : List String → String
before [] = ""
before (part ∷ parts) = part

unfoldable pub strip_mask : String → String
strip_mask cidr = before (split_char b'/' cidr)

unfoldable pub is_ignored : String → String → Bool
is_ignored iface ip = iface == "lo" || has_prefix ip "127." || ip == "::1" || has_prefix ip "fe80:"

unfoldable pub parse_pod_addresses :
    (String → Option (String × String)) → List String → Table String String → Table String String
parse_pod_addresses addr_of [] out = out
parse_pod_addresses addr_of (line ∷ lines) out = elim (addr_of line) [
  | none ↦ parse_pod_addresses addr_of lines out
  | some (name, address) ↦
      let iface = before (split_char b'@' name) in
      let ip = to_lower address in
      parse_pod_addresses addr_of lines (if is_ignored iface ip then out else put ip iface out)
]

abbrev pub Index : Type 0
Index = Table String TraceIpNode

unfoldable pub declare_end : String → String → Addrs → Index → Index
declare_end pod iface [] idx = idx
declare_end pod iface (a ∷ addrs) idx =
    declare_end pod iface addrs (put (strip_mask a) (record { pod = pod; iface = iface }) idx)

unfoldable pub declare_links : List LinkSpec → Index → Index
declare_links [] idx = idx
declare_links (l ∷ links) idx =
    let mine = if is_pod l.node then declare_end l.node l.local_intf l.local_ip idx else idx in
    declare_links links
      (if is_pod l.peer_node then declare_end l.peer_node l.peer_intf l.peer_ip mine else mine)

unfoldable pub add_addresses : String → Table String String → Index → Index
add_addresses pod [] idx = idx
add_addresses pod ((ip, iface) ∷ addrs) idx =
    add_addresses pod addrs (put ip (record { pod = pod; iface = iface }) idx)

-- A pod of the namespace, with what podAddresses finds in it.
pub record TracePod : Type 0 where
  pub name : String
  pub phase : String
  pub addresses : Table String String

unfoldable pub is_running : TracePod → Bool
is_running p = p.phase == "Running"

unfoldable pub add_pods : List TracePod → Index → Index
add_pods [] idx = idx
add_pods (p ∷ pods) idx = add_pods pods (add_addresses p.name p.addresses idx)

-- The pods that run, in the order in which their addresses come in.
abbrev pub arrived : (List TracePod → List TracePod) → List TracePod → List TracePod
arrived order pods = order (select is_running pods)

unfoldable pub build_trace_ip_index :
    (List TracePod → List TracePod) → List LinkSpec → List TracePod → Index
build_trace_ip_index order links pods = add_pods (arrived order pods) (declare_links links [])
