-- ===== src/Pipeline/Grouping.antt =====
-- How many requests RunPlannedActions of backend/helpers/action_pipeline.go makes of a pod.
use kubendt.Prelude.{
  ℕ, zero, suc, String, Bool, true, false, Option, none, some, List, [], ◌∷◌, ◌≡◌, refl, ap, ◌∙◌,
  arith, All, length, ◌&&◌, not, map, ◌==◌, string_eq, Result, Bool-cases, Result-cases, inl, inr,
}
use kubendt.Script.{parse_shell_script}
use kubendt.Plans.{
  PlannedAction, ActionOutcome, ToolClass, default_executor_name, is_idle, place, finished,
}
use kubendt.Pipeline.{
  Request, Turn, aborted, went, Report, Runner, joins_batch, joins_script, span, batch_request,
  script_request, of_result, run_group, run_turn, after, stop_at, run_from, run_planned_actions,
}

module _ {E : Type 0} where
  span_whole :
      (joins : PlannedAction E → Bool) (plans : List (PlannedAction E))
      → All (λ p. joins p ≡ true) plans
      → span joins plans ≡ (plans, [])
  unfolding span
  span_whole joins [] h = refl
  span_whole joins (p ∷ plans) h = rw (span, h.0, span_whole joins plans h.1) refl

module _ {E : Type 0} (runner : Runner E) where
  -- What a run has sent, nothing if it did not return.
  abbrev pub sent_by : Option (Report E) → List Request
  sent_by none = []
  sent_by (some r) = r.sent

  -- What follows a turn that took all the actions.
  abbrev loop_on : ℕ → PlannedAction E → List (PlannedAction E) → Turn E → Option (Report E)
  loop_on fuel p plans (aborted e sent) = some (stop_at runner e p plans sent)
  loop_on fuel p plans (went outcomes rest sent) =
      after runner outcomes (run_from runner fuel rest sent)

  sent_by_end :
      (fuel : ℕ) (outcomes : List (ActionOutcome E)) (sent : List Request)
      → sent_by (after runner outcomes (run_from runner fuel [] sent)) ≡ sent
  unfolding run_from after
  sent_by_end zero outcomes sent = refl
  sent_by_end (suc fuel) outcomes sent = refl

  sent_by-run_group :
      (fuel : ℕ) (p : PlannedAction E) (plans : List (PlannedAction E)) (request : Request)
      (outcomes : String → List (ActionOutcome E)) (group : List (PlannedAction E))
      → sent_by (loop_on fuel p plans (run_group runner request outcomes group [] []))
        ≡ request ∷ []
  unfolding run_group stop_at
  sent_by-run_group fuel p plans request outcomes group =
      elim (Result-cases (runner.reply [] request)) [
        | inr (output, e) ↦
            rw (loop_on, run_group, e) (sent_by_end fuel (outcomes output) (request ∷ []))
        | inl (e, h) ↦ elim (Bool-cases (runner.abort e)) [
          | inl stop ↦ rw (loop_on, run_group, h, stop) refl
          | inr carry_on ↦ rw (loop_on, run_group, h, carry_on) (sent_by_end fuel _ (request ∷ []))
        ]
      ]

  run_from-loop_on :
      (fuel : ℕ) (p : PlannedAction E) (plans : List (PlannedAction E)) (sent : List Request)
      → run_from runner (suc fuel) (p ∷ plans) sent
        ≡ loop_on fuel p plans (run_turn runner p plans sent)
  unfolding run_from
  run_from-loop_on fuel p plans sent = elim_turn (run_turn runner p plans sent)
    where
      elim_turn :
          (turn : Turn E)
          → elim turn [
            | aborted e sent' ↦ some (stop_at runner e p plans sent')
            | went outcomes rest sent' ↦ after runner outcomes (run_from runner fuel rest sent')
          ]
            ≡ loop_on fuel p plans turn
      elim_turn (aborted e sent') = refl
      elim_turn (went outcomes rest sent') = refl

  run_from_one_batch :
      (fuel : ℕ) (p : PlannedAction E) (plans : List (PlannedAction E))
      → runner.batchable p.executor ≡ true
      → All (λ q. joins_batch p.executor q ≡ true) (p ∷ plans)
      → sent_by (run_from runner (suc fuel) (p ∷ plans) [])
        ≡ batch_request p.executor (p ∷ plans) ∷ []
  unfolding run_turn joins_batch
  run_from_one_batch fuel p plans batch all =
      let awake : is_idle p ≡ false = ground (arith, all.0) in
      let shared : (runner.batchable p.executor && not p.flags.get) ≡ true =
        ground (arith, all.0, batch) in
      let whole = span_whole (joins_batch p.executor) (p ∷ plans) all in
      let turn : run_turn runner p plans []
          ≡ run_group runner (batch_request p.executor (p ∷ plans))
              (λ output. map (λ q. finished none "") (p ∷ plans)) (p ∷ plans) [] [] =
        rw (run_turn, awake, shared) (rw whole refl) in
      ap sent_by (run_from-loop_on fuel p plans [] ∙ ap (loop_on fuel p plans) turn)
      ∙ sent_by-run_group fuel p plans (batch_request p.executor (p ∷ plans)) _ (p ∷ plans)

  run_from_one_script :
      (fuel : ℕ) (p : PlannedAction E) (plans : List (PlannedAction E))
      → runner.batchable p.executor ≡ false
      → (p.executor == default_executor_name) ≡ true
      → All (λ q. joins_script p.executor p.container q ≡ true) (p ∷ plans)
      → sent_by (run_from runner (suc fuel) (p ∷ plans) [])
        ≡ script_request p.executor p.container (p ∷ plans) ∷ []
  unfolding run_turn joins_batch joins_script
  run_from_one_script fuel p plans batch kubectl all =
      let awake : is_idle p ≡ false = ground (arith, all.0) in
      let single : (runner.batchable p.executor && not p.flags.get) ≡ false =
        ground (arith, batch) in
      let shared : (p.executor == default_executor_name && not p.flags.get) ≡ true =
        ground (arith, all.0, kubectl) in
      let whole = span_whole (joins_script p.executor p.container) (p ∷ plans) all in
      let turn : run_turn runner p plans []
          ≡ run_group runner (script_request p.executor p.container (p ∷ plans))
              (λ output. map (of_result runner) (parse_shell_script output (length (p ∷ plans))))
              (p ∷ plans) [] [] =
        rw (run_turn, awake, single, shared) (rw whole refl) in
      ap sent_by (run_from-loop_on fuel p plans [] ∙ ap (loop_on fuel p plans) turn)
      ∙ sent_by-run_group fuel p plans (script_request p.executor p.container (p ∷ plans)) _
          (p ∷ plans)

  -- Actions that share an executor that batches, where none of them is skipped, failed or captures
  -- its output, go to the pod in one request, with the arguments of all of them in order.
  pub run_planned_actions_one_batch :
      (tool_class : List String → ToolClass) (netns_container : ToolClass → Result E String)
      (first : PlannedAction E) (others : List (PlannedAction E))
      → let p = place tool_class netns_container first in
        let placed = map (place tool_class netns_container) (first ∷ others) in
        runner.batchable p.executor ≡ true
        → All (λ q. joins_batch p.executor q ≡ true) placed
        → sent_by (run_planned_actions runner tool_class netns_container (first ∷ others))
          ≡ batch_request p.executor placed ∷ []
  unfolding run_planned_actions
  run_planned_actions_one_batch tool_class netns_container first others =
      run_from_one_batch (length others) (place tool_class netns_container first)
        (map (place tool_class netns_container) others)

  -- Actions that share the default executor, which batches nothing, and a container, where none of
  -- them is skipped, failed or captures its output, go to the pod in one request, the script of all
  -- of them in order.
  pub run_planned_actions_one_script :
      (tool_class : List String → ToolClass) (netns_container : ToolClass → Result E String)
      (first : PlannedAction E) (others : List (PlannedAction E))
      → let p = place tool_class netns_container first in
        let placed = map (place tool_class netns_container) (first ∷ others) in
        runner.batchable p.executor ≡ false
        → (p.executor == default_executor_name) ≡ true
        → All (λ q. joins_script p.executor p.container q ≡ true) placed
        → sent_by (run_planned_actions runner tool_class netns_container (first ∷ others))
          ≡ script_request p.executor p.container placed ∷ []
  unfolding run_planned_actions
  run_planned_actions_one_script tool_class netns_container first others =
      run_from_one_script (length others) (place tool_class netns_container first)
        (map (place tool_class netns_container) others)
