-- ===== src/Pipeline/Groups.antt =====
-- The outcomes of a group of actions, and how RunPlannedActions of
-- backend/helpers/action_pipeline.go takes a group.
use kubendt.Prelude.{
  ℕ, zero, suc, ◌≤◌, String, Bool, true, false, List, [], ◌∷◌, ◌++◌, ◌≡◌, refl, ap, ◌∙◌, arith, All,
  length, length-append, fields, split_lines, string_eq, Bool-cases, Option-cases, inl, inr,
}
use kubendt.Script.{
  BatchResult, parse_lines, parse_shell_script, set_at, seen_result, unseen_results, read_marker,
}
use kubendt.Plans.{PlannedAction, ActionOutcome, is_idle, untouched}
use kubendt.Pipeline.{joins_batch, joins_script, span}

module _ {E : Type 0} where
  -- An action that is skipped or failed to plan stands as it was, and every other one ran.
  abbrev pub Reported : PlannedAction E → ActionOutcome E → Type 0
  Reported p o = (is_idle p ≡ true → o ≡ untouched p) × (is_idle p ≡ false → o.ran ≡ true)

  -- One outcome for each action, in order.
  abbrev pub AllReported : List (PlannedAction E) → List (ActionOutcome E) → Type 0
  AllReported [] [] = Unit
  AllReported (p ∷ plans) (o ∷ outcomes) = Reported p o × AllReported plans outcomes
  AllReported [] (o ∷ outcomes) = ⊥
  AllReported (p ∷ plans) [] = ⊥

  pub AllReported-append :
      (plans rest : List (PlannedAction E)) (outcomes more : List (ActionOutcome E))
      → AllReported plans outcomes
      → AllReported rest more
      → AllReported (plans ++ rest) (outcomes ++ more)
  AllReported-append [] rest [] more h k = k
  AllReported-append (p ∷ plans) rest (o ∷ outcomes) more h k =
      (h.0, AllReported-append plans rest outcomes more h.1 k)
  AllReported-append [] rest (o ∷ outcomes) more h k = absurd h
  AllReported-append (p ∷ plans) rest [] more h k = absurd h

  pub length-AllReported :
      (plans : List (PlannedAction E)) (outcomes : List (ActionOutcome E))
      → AllReported plans outcomes
      → length outcomes ≡ length plans
  length-AllReported [] [] h = refl
  length-AllReported (p ∷ plans) (o ∷ outcomes) h =
      omega (arith, length-AllReported plans outcomes h.1)
  length-AllReported [] (o ∷ outcomes) h = absurd h
  length-AllReported (p ∷ plans) [] h = absurd h

  abbrev pub AllBusy : List (PlannedAction E) → Type 0
  AllBusy = All (λ (p : PlannedAction E). is_idle p ≡ false)

  abbrev pub AllRan : List (ActionOutcome E) → Type 0
  AllRan = All (λ (o : ActionOutcome E). o.ran ≡ true)

  pub ran_together :
      (plans : List (PlannedAction E)) (outcomes : List (ActionOutcome E))
      → AllBusy plans
      → AllRan outcomes
      → length outcomes ≡ length plans
      → AllReported plans outcomes
  ran_together [] [] busy ran same = tt
  ran_together (p ∷ plans) (o ∷ outcomes) busy ran same = (
    (λ idle. cc (idle, busy.0), λ _. ran.0),
    ran_together plans outcomes busy.1 ran.1 (omega (arith, same)),
  )
  ran_together [] (o ∷ outcomes) busy ran same = absurd (omega (arith, same))
  ran_together (p ∷ plans) [] busy ran same = absurd (omega (arith, same))

  -- The group that a turn takes, and the actions behind it.
  pub span-append :
      (joins : PlannedAction E → Bool) (plans : List (PlannedAction E))
      → (span joins plans).0 ++ (span joins plans).1 ≡ plans
  unfolding span
  span-append joins [] = refl
  span-append joins (p ∷ plans) = ground (arith, span-append joins plans)

  pub span-All :
      (joins : PlannedAction E → Bool) (plans : List (PlannedAction E))
      → All (λ p. joins p ≡ true) (span joins plans).0
  unfolding span
  span-All joins [] = tt
  span-All joins (p ∷ plans) = elim (Bool-cases (joins p)) [
    | inl e ↦ rw e (e, span-All joins plans)
    | inr e ↦ rw e tt
  ]

  pub span_shorter :
      (joins : PlannedAction E → Bool) (p : PlannedAction E) (plans : List (PlannedAction E))
      → joins p ≡ true
      → length (span joins (p ∷ plans)).1 ≤ length plans
  unfolding span
  span_shorter joins p plans e =
      let whole = ap length (span-append joins plans) in
      rw e (omega (arith, whole, length-append (span joins plans).0 (span joins plans).1))

  pub joins_batch-busy :
      (executor : String) (plans : List (PlannedAction E))
      → All (λ p. joins_batch executor p ≡ true) plans
      → AllBusy plans
  unfolding joins_batch
  joins_batch-busy executor [] h = tt
  joins_batch-busy executor (p ∷ plans) h =
      (ground (arith, h.0), joins_batch-busy executor plans h.1)

  pub joins_script-busy :
      (executor container : String) (plans : List (PlannedAction E))
      → All (λ p. joins_script executor container p ≡ true) plans
      → AllBusy plans
  unfolding joins_script joins_batch
  joins_script-busy executor container [] h = tt
  joins_script-busy executor container (p ∷ plans) h =
      (ground (arith, h.0), joins_script-busy executor container plans h.1)

pub length-set_at :
    (k : ℕ) (r : BatchResult) (res : List BatchResult) → length (set_at k r res) ≡ length res
unfolding set_at
length-set_at k r [] = refl
length-set_at zero r (x ∷ res) = refl
length-set_at (suc k) r (x ∷ res) = ap suc (length-set_at k r res)

pub length-parse_lines :
    (n : ℕ) (cur : List String) (res : List BatchResult) (lines : List String)
    → length (parse_lines n cur res lines) ≡ length res
unfolding parse_lines
length-parse_lines n cur res [] = refl
length-parse_lines n cur res (line ∷ lines) = elim (Option-cases (read_marker n (fields line))) [
  | inl e ↦ rw (parse_lines, e) (length-parse_lines n (cur ++ (line ∷ [])) res lines)
  | inr ((k, rc), e) ↦
      rw (parse_lines, e)
        (length-parse_lines n [] (set_at k (seen_result cur rc) res) lines
          ∙ length-set_at k (seen_result cur rc) res)
]

pub length-unseen_results : (n : ℕ) → length (unseen_results n) ≡ n
unfolding unseen_results
length-unseen_results zero = refl
length-unseen_results (suc n) = ap suc (length-unseen_results n)

pub length-parse_shell_script : (out : String) (n : ℕ) → length (parse_shell_script out n) ≡ n
unfolding parse_shell_script
length-parse_shell_script out n =
    length-parse_lines n [] (unseen_results n) (split_lines out) ∙ length-unseen_results n
