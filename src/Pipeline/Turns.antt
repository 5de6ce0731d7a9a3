-- ===== src/Pipeline/Turns.antt =====
-- One turn of the loop of RunPlannedActions in backend/helpers/action_pipeline.go.
use kubendt.Prelude.{
  suc, ◌≤◌, String, Bool, true, false, none, some, List, [], ◌∷◌, ◌++◌, ◌≡◌, refl, ap, ◌∙◌, arith,
  length, ◌&&◌, not, map, join, ◌==◌, string_eq, beq_refl, Bool-cases, Result-cases, inl, inr,
}
use kubendt.Commands.{Command}
use kubendt.Script.{parse_shell_script}
use kubendt.Plans.{
  exec_failed, PlannedAction, ActionOutcome, default_executor_name, is_idle, finished,
}
use kubendt.Pipeline.{
  Request, Turn, aborted, went, Commanded, commands_aborted, commands_done, keep_output, Runner,
  joins_batch, joins_script, span, run_commands, run_alone, of_result, run_group, run_turn,
}
use kubendt.Pipeline.Groups.{
  AllReported, AllBusy, AllRan, ran_together, span-append, span-All, span_shorter, joins_batch-busy,
  joins_script-busy, length-parse_shell_script,
}

module _ {E : Type 0} (runner : Runner E) where
  AllRan-map :
      {A : Type 0} (f : A → ActionOutcome E) (xs : List A)
      → ((x : A) → (f x).ran ≡ true)
      → AllRan (map f xs) × (length (map f xs) ≡ length xs)
  AllRan-map f [] h = (tt, refl)
  AllRan-map f (x ∷ xs) h = let (ran, same) = AllRan-map f xs h in ((h x, ran), ap suc same)

  -- What a turn at an action leaves: the error that aborts the run, or outcomes for the actions
  -- that it took.
  abbrev pub TurnIsRight : PlannedAction E → List (PlannedAction E) → Turn E → Type 0
  TurnIsRight p plans (aborted e sent) = (is_idle p ≡ false) × (runner.abort e ≡ true)
  TurnIsRight p plans (went outcomes rest sent) =
      (group : List (PlannedAction E)) × (group ++ rest ≡ p ∷ plans)
      × AllReported group outcomes
      × (length rest ≤ length plans)

  run_group-IsRight :
      (p : PlannedAction E) (plans : List (PlannedAction E)) (request : Request)
      (outcomes : String → List (ActionOutcome E)) (group rest : List (PlannedAction E))
      (sent : List Request)
      → is_idle p ≡ false
      → group ++ rest ≡ p ∷ plans
      → AllBusy group
      → length rest ≤ length plans
      → ((output : String) → AllRan (outcomes output) × (length (outcomes output) ≡ length group))
      → TurnIsRight p plans (run_group runner request outcomes group rest sent)
  unfolding run_group finished
  run_group-IsRight p plans request outcomes group rest sent idle whole busy less each =
      elim (Result-cases (runner.reply sent request)) [
        | inr (output, e) ↦
            let (ran, same) = each output in
            rw (run_group, e)
              (group, whole, ran_together group (outcomes output) busy ran same, less)
        | inl (e, h) ↦ elim (Bool-cases (runner.abort e)) [
          | inl stop ↦ rw (run_group, h, stop) (idle, stop)
          | inr carry_on ↦
              let (ran, same) =
                AllRan-map (λ (q : PlannedAction E). finished (some (exec_failed e)) "") group
                  (λ q. refl) in
              rw (run_group, h, carry_on) (group, whole, ran_together group _ busy ran same, less)
        ]
      ]

  abbrev AbortsRightly : Commanded E → Type 0
  AbortsRightly (commands_aborted e sent) = runner.abort e ≡ true
  AbortsRightly (commands_done error outputs sent) = Unit

  run_commands-AbortsRightly :
      (get : Bool) (executor container : String) (commands : List Command) (outputs : List String)
      (sent : List Request)
      → AbortsRightly (run_commands runner get executor container commands outputs sent)
  unfolding run_commands
  run_commands-AbortsRightly get executor container [] outputs sent = tt
  run_commands-AbortsRightly get executor container (c ∷ commands) outputs sent =
      let request : Request = record {
        executor = executor;
        command = record c { container = container };
      } in
      elim (Result-cases (runner.reply sent request)) [
        | inr (output, e) ↦
            rw (run_commands, e)
              (run_commands-AbortsRightly get executor container commands
                (keep_output runner get output outputs) (sent ++ (request ∷ [])))
        | inl (e, h) ↦ elim (Bool-cases (runner.abort e)) [
          | inl stop ↦ rw (run_commands, h, stop) stop
          | inr carry_on ↦ rw (run_commands, h, carry_on) tt
        ]
      ]

  turn_of-IsRight :
      (p : PlannedAction E) (plans : List (PlannedAction E)) (c : Commanded E)
      → is_idle p ≡ false
      → AbortsRightly c
      → TurnIsRight p plans (elim c [
        | commands_aborted e sent ↦ aborted e sent
        | commands_done error outputs sent ↦
            went (finished error (join "\n" outputs) ∷ []) plans sent
      ])
  unfolding finished
  turn_of-IsRight p plans (commands_aborted e sent) busy h = (busy, h)
  turn_of-IsRight p plans (commands_done error outputs sent) busy h =
      (p ∷ [], refl, (((λ idle. cc (idle, busy)), (λ _. refl)), tt), omega arith)

  run_alone-IsRight :
      (p : PlannedAction E) (plans : List (PlannedAction E)) (sent : List Request)
      → is_idle p ≡ false
      → TurnIsRight p plans (run_alone runner p plans sent)
  unfolding run_alone
  run_alone-IsRight p plans sent busy =
      turn_of-IsRight p plans _ busy (run_commands-AbortsRightly _ _ _ _ _ _)

  pub run_turn-IsRight :
      (p : PlannedAction E) (plans : List (PlannedAction E)) (sent : List Request)
      → TurnIsRight p plans (run_turn runner p plans sent)
  unfolding run_turn joins_batch joins_script finished of_result
  run_turn-IsRight p plans sent = elim (Bool-cases (is_idle p)) [
    | inl idle ↦
        rw (run_turn, idle)
          (p ∷ [], refl, (((λ _. refl), (λ busy. cc (idle, busy))), tt), omega arith)
    | inr busy ↦ elim (Bool-cases (runner.batchable p.executor && not p.flags.get)) [
      | inl batch ↦
          let joins = joins_batch p.executor in
          let first : joins p ≡ true = ground (arith, busy, batch, beq_refl p.executor) in
          rw (run_turn, busy, batch)
            (run_group-IsRight p plans _ _ (span joins (p ∷ plans)).0 (span joins (p ∷ plans)).1
              sent busy (span-append joins (p ∷ plans))
              (joins_batch-busy p.executor _ (span-All joins (p ∷ plans)))
              (span_shorter joins p plans first)
              (λ output. AllRan-map (λ q. finished none "") (span joins (p ∷ plans)).0 (λ q. refl)))
      | inr single ↦ elim (Bool-cases (p.executor == default_executor_name && not p.flags.get)) [
        | inl script ↦
            let joins = joins_script p.executor p.container in
            let group = (span joins (p ∷ plans)).0 in
            let first : joins p ≡ true =
              ground (arith, busy, script, beq_refl p.executor, beq_refl p.container) in
            rw (run_turn, busy, single, script)
              (run_group-IsRight p plans _ _ group (span joins (p ∷ plans)).1 sent busy
                (span-append joins (p ∷ plans))
                (joins_script-busy p.executor p.container _ (span-All joins (p ∷ plans)))
                (span_shorter joins p plans first)
                (λ output.
                  let (ran, same) =
                    AllRan-map (of_result runner) (parse_shell_script output (length group))
                      (λ r. refl) in
                  (ran, same ∙ length-parse_shell_script output (length group))))
        | inr alone ↦ rw (run_turn, busy, single, alone) (run_alone-IsRight p plans sent busy)
      ]
    ]
  ]
