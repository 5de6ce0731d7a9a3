-- ===== src/Trace/Hops.antt =====
-- The loop of RunTrace over the lines of a traceroute, and its loop over the hubs of an mtr report,
-- as steps on the variables of the function; the hops are those that were emitted.
use kubendt.Prelude.{
  ℕ, suc, String, Bool, true, false, List, [], ◌∷◌, if◌then◌else◌, not, ◌==◌, ◌||◌, ◌&&◌, string_eq,
  leb, is_empty, ℤ, ◌≡◌, refl, ◌⊎◌, inl, inr,
}
use kubendt.Trace.{
  Patterns, TraceHop, HopKind, l3, timeout_hop, no_segment, no_hop, no_reply, reply, TraceMap,
  Annotation, annotate_trace_hop, parse_trace_target, parse_trace_unreachable, parse_trace_hop,
  has_text,
}

abbrev pub max_consecutive_trace_timeouts : ℕ
max_consecutive_trace_timeouts = 3

pub record Tracing : Type 0 where
  pub prev_pod : String
  pub target_ip : String
  pub consecutive : ℕ
  pub reached : Bool
  pub dropped : Bool

unfoldable pub start : String → Tracing
start pod = record {
  prev_pod = pod;
  target_ip = "";
  consecutive = 0;
  reached = false;
  dropped = false;
}

-- What a line of the output does: nothing is emitted, a hop is, or a hop is and the trace stops.
pub data Step (R : Type 0) : Type 0 where
  silent : Tracing → Step R
  emits : Tracing → TraceHop R → Step R
  stops : Tracing → TraceHop R → Step R

pub Step-cases :
    {R : Type 0} (s : Step R)
    → ((t : Tracing) × (s ≡ silent t))
      ⊎ (((t : Tracing) × (h : TraceHop R) × (s ≡ emits t h))
          ⊎ ((t : Tracing) × (h : TraceHop R) × (s ≡ stops t h)))
Step-cases (silent t) = inl (t, refl)
Step-cases (emits t h) = inr (inl (t, h, refl))
Step-cases (stops t h) = inr (inr (t, h, refl))

pub record Traced (R : Type 0) : Type 0 where
  pub hops : List (TraceHop R)
  pub last : Tracing

unfoldable pub is_l3 : HopKind → Bool
is_l3 l3 = true
is_l3 kind = false

unfoldable pub is_timeout : HopKind → Bool
is_timeout timeout_hop = true
is_timeout kind = false

module _ {R : Type 0} (patterns : Patterns R) (map : TraceMap) where
  unfoldable pub timeout_at : ℤ → TraceHop R
  timeout_at ttl = record {
    ttl = ttl;
    ip = "";
    rtt = patterns.zero_rtt;
    node = "";
    iface = "";
    kind = timeout_hop;
    unreachable = "";
    path = [];
    segment = no_segment;
  }

  unfoldable pub hop_of : ℤ → String → R → String → Annotation → TraceHop R
  hop_of ttl ip rtt unreachable a = record {
    ttl = ttl;
    ip = ip;
    rtt = rtt;
    node = a.node;
    iface = a.iface;
    kind = a.kind;
    unreachable = unreachable;
    path = a.path;
    segment = a.segment;
  }

  unfoldable pub on_no_reply : Tracing → ℤ → Step R
  on_no_reply t ttl =
      let t' : Tracing = record t { consecutive = suc t.consecutive } in
      if leb max_consecutive_trace_timeouts (suc t.consecutive)
      then stops t' (timeout_at ttl)
      else emits t' (timeout_at ttl)

  unfoldable pub on_reply : String → Tracing → ℤ → String → R → Step R
  on_reply line t ttl ip rtt =
      let flag = parse_trace_unreachable patterns line in
      let dropped = t.dropped || not (is_empty flag) in
      let a = annotate_trace_hop map ip t.prev_pod in
      let t' : Tracing = record {
        prev_pod = if is_l3 a.kind then a.node else t.prev_pod;
        target_ip = t.target_ip;
        consecutive = 0;
        reached =
            t.reached
            || (not (is_empty t.target_ip) && ip == t.target_ip)
            || has_text line "[open]"
            || has_text line "[closed]";
        dropped = dropped;
      } in
      if dropped then stops t' (hop_of ttl ip rtt flag a) else emits t' (hop_of ttl ip rtt flag a)

  unfoldable pub trace_line : Tracing → String → Step R
  trace_line t line =
      let target = parse_trace_target patterns line in
      if is_empty t.target_ip && not (is_empty target)
      then silent (record t { target_ip = target })
      else elim (parse_trace_hop patterns line) [
        | no_hop ↦ silent t
        | no_reply ttl ↦ on_no_reply t ttl
        | reply ttl ip rtt ↦ on_reply line t ttl ip rtt
      ]

  unfoldable pub trace_lines : Tracing → List String → Traced R
  trace_lines t [] = record { hops = []; last = t }
  trace_lines t (line ∷ lines) = elim (trace_line t line) [
    | silent t' ↦ trace_lines t' lines
    | emits t' hop ↦ let rest = trace_lines t' lines in record rest { hops = hop ∷ rest.hops }
    | stops t' hop ↦ record { hops = hop ∷ []; last = t' }
  ]

unfoldable pub outcome_of : Tracing → String
outcome_of t = if t.dropped then "unreachable" else if t.reached then "delivered" else "unreached"

-- The hops emitted and the outcome of a trace whose probe ran.
unfoldable pub run_trace :
    {R : Type 0} → Patterns R → TraceMap → String → List String → List (TraceHop R) × String
run_trace patterns map pod lines =
    let traced = trace_lines patterns map (start pod) lines in (traced.hops, outcome_of traced.last)

-- `stats` are the measures of a hub; `answered` says that its loss is below 100.
pub record MtrHub (R : Type 0) : Type 0 where
  pub count : ℤ
  pub host : String
  pub avg : R
  pub answered : Bool

unfoldable pub is_silent : {R : Type 0} → MtrHub R → Bool
is_silent hub = is_empty hub.host || hub.host == "???"

module _ {R : Type 0} (patterns : Patterns R) (map : TraceMap) where
  unfoldable pub mtr_hops : String → List (MtrHub R) → List (TraceHop R)
  mtr_hops prev_pod [] = []
  mtr_hops prev_pod (hub ∷ hubs) =
      let a = annotate_trace_hop map hub.host prev_pod in
      let silent_hub = is_silent hub in
      let next = if not silent_hub && is_l3 a.kind then a.node else prev_pod in
      let hop =
        if silent_hub
        then timeout_at patterns map hub.count
        else hop_of patterns map hub.count hub.host hub.avg "" a in
      hop ∷ mtr_hops next hubs

unfoldable pub reached_last : {R : Type 0} → List (MtrHub R) → Bool
reached_last [] = false
reached_last (hub ∷ []) = not (is_silent hub) && hub.answered
reached_last (hub ∷ next ∷ hubs) = reached_last (next ∷ hubs)

unfoldable pub run_mtr :
    {R : Type 0} → Patterns R → TraceMap → String → List (MtrHub R) → List (TraceHop R) × String
run_mtr patterns map pod hubs =
    (mtr_hops patterns map pod hubs, if reached_last hubs then "delivered" else "unreached")
