-- ===== src/Trace/Ends.antt =====
-- When a trace stops, and the outcome it has.
use kubendt.Prelude.{
  ℕ, suc, ◌<◌, String, ◌≡◌, refl, sym, ◌∙◌, ◌==◌, string_eq, Bool, true, false, Bool-cases, inl,
  inr, List, [], ◌∷◌, ◌++◌, if◌then◌else◌, not, ◌||◌, ◌&&◌, ◌⊎◌, ℤ, All, length, ◌≤◌, ◌+◌, leb,
  is_empty, arith,
}
use kubendt.Trace.{
  Patterns, TraceHop, ParsedHop, no_hop, no_reply, reply, TraceMap, parse_trace_target,
  parse_trace_unreachable, parse_trace_hop, annotate_trace_hop, annotate_node, on_path, off_path,
}
use kubendt.Trace.Hops.{
  max_consecutive_trace_timeouts, Tracing, Step, silent, emits, stops, start, is_timeout,
  Step-cases, timeout_at, hop_of, on_no_reply, on_reply, trace_line, trace_lines, outcome_of,
  run_trace,
}

-- A hop that a router answered with a flag of its own.
abbrev pub is_flagged : {R : Type 0} → TraceHop R → Bool
is_flagged h = not (is_empty h.unreachable)

abbrev pub any_flagged : {R : Type 0} → List (TraceHop R) → Bool
any_flagged [] = false
any_flagged (h ∷ hops) = is_flagged h || any_flagged hops

-- Behind `n` hops without a reply: the third such hop in a row is the last hop, and so is a flagged one.
abbrev pub Stops : {R : Type 0} → ℕ → List (TraceHop R) → Type 0
Stops n [] = n < max_consecutive_trace_timeouts
Stops n (h ∷ hops) =
    if is_timeout h.kind
    then (if leb max_consecutive_trace_timeouts (suc n) then hops ≡ [] else Stops (suc n) hops)
    else (if is_flagged h then hops ≡ [] else Stops 0 hops)

Stops-eq : {R : Type 0} (m n : ℕ) (hops : List (TraceHop R)) → m ≡ n → Stops m hops → Stops n hops
Stops-eq m n hops e h = rw (sym e) h

outcome_of_lem : (t : Tracing) → (outcome_of t == "unreachable") ≡ t.dropped
unfolding outcome_of
outcome_of_lem t = elim (Bool-cases t.dropped) [
  | inl d ↦ rw (outcome_of, d) refl
  | inr d ↦ elim (Bool-cases t.reached) [
    | inl r ↦ rw (outcome_of, d, r) refl
    | inr r ↦ rw (outcome_of, d, r) refl
  ]
]

module _ {R : Type 0} (patterns : Patterns R) (map : TraceMap) where
  -- What a step says of the hops before it.
  abbrev StepStops : Tracing → Step R → Type 0
  StepStops t (silent t') = (t'.consecutive ≡ t.consecutive) × (t'.dropped ≡ t.dropped)
  StepStops t (emits t' h) =
      (t'.dropped ≡ false)
      × (is_flagged h ≡ false)
      × ((hops : List (TraceHop R)) → Stops t'.consecutive hops → Stops t.consecutive (h ∷ hops))
      × (t'.consecutive < 3)
  StepStops t (stops t' h) = (t'.dropped ≡ is_flagged h) × Stops t.consecutive (h ∷ [])

  pick :
      (t : Tracing) (b : Bool) (x y : Step R)
      → (b ≡ true → StepStops t x)
      → (b ≡ false → StepStops t y)
      → StepStops t (if b then x else y)
  pick t true x y hx hy = hx refl
  pick t false x y hx hy = hy refl

  annotated : (ip prev : String) → is_timeout (annotate_trace_hop map ip prev).kind ≡ false
  unfolding annotate_trace_hop annotate_node on_path off_path is_timeout
  annotated ip prev = ground arith

  parsed-StepStops :
      (t : Tracing) (line : String) (parsed : ParsedHop R)
      → t.dropped ≡ false
      → t.consecutive < 3
      → StepStops t (elim parsed [
        | no_hop ↦ silent t
        | no_reply ttl ↦ on_no_reply patterns map t ttl
        | reply ttl ip rtt ↦ on_reply patterns map line t ttl ip rtt
      ])
  unfolding on_no_reply on_reply timeout_at hop_of is_timeout
  parsed-StepStops t line no_hop d n = (refl, refl)
  parsed-StepStops t line (no_reply ttl) d n =
      pick t (leb 3 (suc t.consecutive)) _ _ (λ e. (d, rw e refl))
        (λ e. (d, refl, λ hops h. rw e h, ground (arith, e)))
  parsed-StepStops t line (reply ttl ip rtt) d n =
      let flag = parse_trace_unreachable patterns line in
      let kind = annotated ip t.prev_pod in
      pick t (t.dropped || not (is_empty flag)) _ _
        (λ e.
          let f : not (is_empty flag) ≡ true = ground (arith, d, e) in
          (rw (d, f) refl, rw (kind, f) refl))
        (λ e.
          let f : not (is_empty flag) ≡ false = ground (arith, d, e) in
          (e, f, λ hops h. rw (kind, f) h, omega arith))

  trace_line-StepStops :
      (t : Tracing) (line : String)
      → t.dropped ≡ false
      → t.consecutive < 3
      → StepStops t (trace_line patterns map t line)
  unfolding trace_line
  trace_line-StepStops t line d n =
      pick t (is_empty t.target_ip && not (is_empty (parse_trace_target patterns line))) _ _
        (λ e. (refl, refl)) (λ e. parsed-StepStops t line (parse_trace_hop patterns line) d n)

  trace_lines-Stops :
      (t : Tracing) (lines : List String)
      → t.dropped ≡ false
      → t.consecutive < 3
      → let traced = trace_lines patterns map t lines in
        Stops t.consecutive traced.hops × (traced.last.dropped ≡ any_flagged traced.hops)
  unfolding trace_lines
  trace_lines-Stops t [] d n = (n, d)
  trace_lines-Stops t (line ∷ lines) d n =
      let step = trace_line-StepStops t line d n in
      elim (Step-cases (trace_line patterns map t line)) [
        | inl (t', e) ↦
            let (count, flag) : StepStops t (silent t') = rw e at step in
            let (stopped, told) = trace_lines-Stops t' lines (flag ∙ d) (omega (arith, count)) in
            rw (trace_lines, e) (Stops-eq t'.consecutive t.consecutive _ count stopped, told)
        | inr (inl (t', h, e)) ↦
            let (clear, unflagged, before, below) : StepStops t (emits t' h) = rw e at step in
            let (stopped, told) = trace_lines-Stops t' lines clear below in
            rw (trace_lines, e) (before _ stopped, rw unflagged told)
        | inr (inr (t', h, e)) ↦
            let (told, stopped) : StepStops t (stops t' h) = rw e at step in
            rw (trace_lines, e) (stopped, ground (arith, told))
      ]

-- The hops of a traceroute stop: the third hop in a row without a reply is the last one, and so is
-- a hop that a router refused; the outcome is "unreachable" exactly if there is such a refused hop.
pub run_trace-Stops :
    {R : Type 0} (patterns : Patterns R) (map : TraceMap) (pod : String) (lines : List String)
    → let (hops, outcome) = run_trace patterns map pod lines in
      Stops 0 hops × ((outcome == "unreachable") ≡ any_flagged hops)
unfolding run_trace start outcome_of
run_trace-Stops patterns map pod lines =
    let (stopped, told) = trace_lines-Stops patterns map (start pod) lines refl (omega arith) in
    (stopped, outcome_of_lem (trace_lines patterns map (start pod) lines).last ∙ told)

-- A line by which a probe reports no reply, and no target.
abbrev pub IsSilent : {R : Type 0} → Patterns R → String → Type 0
IsSilent patterns line =
    (is_empty (parse_trace_target patterns line) ≡ true)
    × ((ttl : ℤ) × (parse_trace_hop patterns line ≡ no_reply ttl))

module _ {R : Type 0} (patterns : Patterns R) (map : TraceMap) where
  silent_cases :
      (t : Tracing) (line : String)
      → IsSilent patterns line
      → ((t' : Tracing) × (h : TraceHop R) × (trace_line patterns map t line ≡ stops t' h))
        ⊎ ((t' : Tracing) × (h : TraceHop R) × (trace_line patterns map t line ≡ emits t' h)
            × (t'.consecutive ≡ suc t.consecutive)
            × (suc t.consecutive < 3))
  unfolding trace_line on_no_reply
  silent_cases t line (untold, (ttl, e)) =
      let t' : Tracing = record t { consecutive = suc t.consecutive } in
      let quiet : (is_empty t.target_ip && not (is_empty (parse_trace_target patterns line)))
          ≡ false =
        ground (arith, untold) in
      elim (Bool-cases (leb 3 (suc t.consecutive))) [
        | inl h ↦ inl (t', timeout_at patterns map ttl, rw (trace_line, quiet, e, h) refl)
        | inr h ↦ inr (
          t',
          timeout_at patterns map ttl,
          rw (trace_line, quiet, e, h) refl,
          refl,
          ground (arith, h),
        )
      ]

  silent_lines :
      (t : Tracing) (holes more : List String)
      → All (IsSilent patterns) holes
      → 1 ≤ length holes
      → 3 ≤ t.consecutive + length holes
      → trace_lines patterns map t (holes ++ more) ≡ trace_lines patterns map t holes
  unfolding trace_lines
  silent_lines t [] more s n m = absurd (omega arith)
  silent_lines t (line ∷ holes) more (here, s) n m = elim (silent_cases t line here) [
    | inl (t', h, e) ↦ rw (trace_lines, e) refl
    | inr (t', h, e, count, few) ↦
        rw (trace_lines, e)
          (rw (silent_lines t' holes more s (omega arith) (omega (arith, count))) refl)
  ]

  trace_lines_hole :
      (t : Tracing) (lines holes more : List String)
      → All (IsSilent patterns) holes
      → 3 ≤ length holes
      → trace_lines patterns map t (lines ++ holes ++ more)
        ≡ trace_lines patterns map t (lines ++ holes)
  unfolding trace_lines
  trace_lines_hole t [] holes more s n = silent_lines t holes more s (omega arith) (omega arith)
  trace_lines_hole t (line ∷ lines) holes more s n =
      elim (Step-cases (trace_line patterns map t line)) [
        | inl (t', e) ↦ rw (trace_lines, e) (trace_lines_hole t' lines holes more s n)
        | inr (inl (t', h, e)) ↦
            rw (trace_lines, e) (rw (trace_lines_hole t' lines holes more s n) refl)
        | inr (inr (t', h, e)) ↦ rw (trace_lines, e) refl
      ]

-- Whatever a probe has printed, three lines or more in a row without a reply end the trace: what
-- follows them is not read.
pub run_trace_hole :
    {R : Type 0} (patterns : Patterns R) (map : TraceMap) (pod : String)
    (lines holes more : List String)
    → All (IsSilent patterns) holes
    → 3 ≤ length holes
    → run_trace patterns map pod (lines ++ holes ++ more)
      ≡ run_trace patterns map pod (lines ++ holes)
unfolding run_trace
run_trace_hole patterns map pod lines holes more s n =
    rw (trace_lines_hole patterns map (start pod) lines holes more s n) refl
