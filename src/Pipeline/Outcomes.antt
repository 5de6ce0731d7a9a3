-- ===== src/Pipeline/Outcomes.antt =====
-- What RunPlannedActions of backend/helpers/action_pipeline.go reports of each action.
use kubendt.Prelude.{
  ℕ, zero, suc, ◌≤◌, String, true, false, Option, none, some, List, [], ◌∷◌, ◌++◌, ◌≡◌, refl, ap,
  sym, ◌∙◌, arith, length, map, Result,
}
use mathlib.Core.List.{append_assoc}
use kubendt.Plans.{exec_failed, PlannedAction, ActionOutcome, ToolClass, is_idle, place, untouched}
use kubendt.Pipeline.{
  Request, Turn, aborted, went, Report, Runner, run_turn, after, stop_at, run_from,
  run_planned_actions,
}
use kubendt.Pipeline.Groups.{AllReported, AllReported-append}
use kubendt.Pipeline.Turns.{TurnIsRight, run_turn-IsRight}

length-map : {A B : Type 0} (f : A → B) (xs : List A) → length (map f xs) ≡ length xs
length-map f [] = refl
length-map f (x ∷ xs) = ap suc (length-map f xs)

module _ {E : Type 0} (runner : Runner E) where
  -- A run that an error stopped: the actions before are reported, the one it hit did not run and has
  -- the error, and the ones after it are left alone.
  pub record Stopped (e : E) (plans : List (PlannedAction E)) (outcomes : List (ActionOutcome E))
      : Type 0 where
    pub before : List (PlannedAction E)
    pub at : PlannedAction E
    pub behind : List (PlannedAction E)
    pub done : List (ActionOutcome E)
    pub parts : before ++ (at ∷ behind) ≡ plans
    pub reported : AllReported before done
    pub left :
        outcomes
        ≡ done ++ (record (untouched at) { error = some (exec_failed e) } ∷ map untouched behind)
    pub busy : is_idle at ≡ false
    pub aborts : runner.abort e ≡ true

  abbrev pub Explains : Option E → List (PlannedAction E) → List (ActionOutcome E) → Type 0
  Explains none plans outcomes = AllReported plans outcomes
  Explains (some e) plans outcomes = Stopped e plans outcomes

  Explains-append :
      (stopped_by : Option E) (group rest plans : List (PlannedAction E))
      (outcomes more : List (ActionOutcome E))
      → group ++ rest ≡ plans
      → AllReported group outcomes
      → Explains stopped_by rest more
      → Explains stopped_by plans (outcomes ++ more)
  Explains-append none group rest plans outcomes more whole h k =
      rw (← whole) (AllReported-append group rest outcomes more h k)
  Explains-append (some e) group rest plans outcomes more whole h k = record {
    before = group ++ k.before;
    at = k.at;
    behind = k.behind;
    done = outcomes ++ k.done;
    parts = append_assoc group k.before (k.at ∷ k.behind) ∙ ap (λ r. group ++ r) k.parts ∙ whole;
    reported = AllReported-append group k.before outcomes k.done h k.reported;
    left = ap (λ r. outcomes ++ r) k.left ∙ sym (append_assoc outcomes k.done _);
    busy = k.busy;
    aborts = k.aborts;
  }

  abbrev pub Returns : List (PlannedAction E) → Option (Report E) → Type 0
  Returns plans found = (r : Report E) × (found ≡ some r) × Explains r.stopped_by plans r.outcomes

  after-Returns :
      (group rest plans : List (PlannedAction E)) (outcomes : List (ActionOutcome E))
      (found : Option (Report E))
      → group ++ rest ≡ plans
      → AllReported group outcomes
      → Returns rest found
      → Returns plans (after runner outcomes found)
  unfolding after
  after-Returns group rest plans outcomes found whole h (r, e, k) = rw e (
    record r { outcomes = outcomes ++ r.outcomes },
    refl,
    Explains-append r.stopped_by group rest plans outcomes r.outcomes whole h k,
  )

  run_from-Returns :
      (fuel : ℕ) (plans : List (PlannedAction E)) (sent : List Request)
      → length plans ≤ fuel
      → Returns plans (run_from runner fuel plans sent)
  unfolding run_from stop_at
  run_from-Returns fuel [] sent enough =
      (record { outcomes = []; stopped_by = none; sent = sent }, refl, tt)
  run_from-Returns zero (p ∷ plans) sent enough = absurd (omega (arith, enough))
  run_from-Returns (suc fuel) (p ∷ plans) sent enough =
      turned (λ rest sent' less. run_from-Returns fuel rest sent' (omega (arith, less, enough)))
        (run_turn runner p plans sent) (run_turn-IsRight runner p plans sent)
    where
      turned :
          ((rest : List (PlannedAction E)) (sent' : List Request)
            → length rest ≤ length plans
            → Returns rest (run_from runner fuel rest sent'))
          → (turn : Turn E) → TurnIsRight runner p plans turn
          → Returns (p ∷ plans) (elim turn [
            | aborted e sent' ↦ some (stop_at runner e p plans sent')
            | went outcomes rest sent' ↦ after runner outcomes (run_from runner fuel rest sent')
          ])
      turned later (aborted e sent') (awake, stops) = (
        stop_at runner e p plans sent',
        refl,
        record {
          before = [];
          at = p;
          behind = plans;
          done = [];
          parts = refl;
          reported = tt;
          left = refl;
          busy = awake;
          aborts = stops;
        },
      )
      turned later (went outcomes rest sent') (group, whole, reported, less) =
          after-Returns group rest (p ∷ plans) outcomes (run_from runner fuel rest sent') whole
            reported (later rest sent' less)

  -- A run returns, in as many turns as there are actions, with a report. If no error aborted it, the
  -- report has one outcome for each action, in order: an action that is skipped or cannot be planned
  -- or placed stands as it was, and every other one ran. If an error did, this holds up to the
  -- action it hit, which did not run and has the error, and the actions after it are left alone.
  pub run_planned_actions-Returns :
      (tool_class : List String → ToolClass) (netns_container : ToolClass → Result E String)
      (plans : List (PlannedAction E))
      → Returns
          (map (place tool_class netns_container) plans)
          (run_planned_actions runner tool_class netns_container plans)
  unfolding run_planned_actions
  run_planned_actions-Returns tool_class netns_container plans =
      run_from-Returns (length plans) (map (place tool_class netns_container) plans) []
        (omega (arith, length-map (place tool_class netns_container) plans))
