-- ===== src/Scale/Split.antt =====
-- The two phases of a scale section lose no plan and run none twice.
use kubendt.Prelude.{
  ℕ, ◌+◌, String, ◌≡◌, ◌⊎◌, inl, inr, refl, Bool, List, [], ◌∷◌, int_eq, pos, negsuc, All, length,
  select, ok, arith,
}
use kubendt.Types.{NodeSpec, ScaleSpec}
use kubendt.Scale.{ScalePlan, direction, split_scale_plans, build_scale_plans, by_name}
use kubendt.Scale.Plans.{IsProper}
use kubendt.Scale.Replicas.{build_scale_plans-IsProper}

-- How many plans pass a test.
abbrev pub count : (ScalePlan → Bool) → List ScalePlan → ℕ
count p plans = length (select p plans)

abbrev Moves : ScalePlan → Type 0
Moves p = (direction p ≡ negsuc 0) ⊎ (direction p ≡ pos 1)

-- The two lists against the one that they come from.
abbrev pub IsSplit : List ScalePlan → List ScalePlan × List ScalePlan → Type 0
IsSplit plans parts =
    All (λ p. direction p ≡ negsuc 0) parts.0
    × All (λ p. direction p ≡ pos 1) parts.1
    × ((test : ScalePlan → Bool) → count test parts.0 + count test parts.1 ≡ count test plans)

split_scale_plans-IsSplit :
    (plans : List ScalePlan) → All Moves plans → IsSplit plans (split_scale_plans plans)
unfolding split_scale_plans
split_scale_plans-IsSplit [] m = (tt, tt, λ test. refl)
split_scale_plans-IsSplit (p ∷ plans) (way, m) =
    let (downs, ups, counts) = split_scale_plans-IsSplit plans m in
    elim way [
      | inl down ↦
          rw (down, split_scale_plans) ((down, downs), ups, λ test. ground (arith, counts test))
      | inr up ↦ rw (up, split_scale_plans) (downs, (up, ups), λ test. ground (arith, counts test))
    ]

All-Moves :
    (nodes : List NodeSpec) (added deleted : List String) (plans : List ScalePlan)
    → All (IsProper (by_name nodes []) added deleted) plans
    → All Moves plans
All-Moves nodes added deleted [] h = tt
All-Moves nodes added deleted (p ∷ plans) ((_, _, _, _, _, way), h) =
    (way, All-Moves nodes added deleted plans h)

-- The plans of a scale section that passes are split into those that scale down and those that scale
-- up, and every plan is in one of the two lists as often as in the section's: whatever the test, the
-- plans that pass it are as many in the two lists together.
pub build_scale_plans-IsSplit :
    (scale : List ScaleSpec) (nodes : List NodeSpec) (added deleted : List String)
    (plans : List ScalePlan)
    → build_scale_plans scale nodes added deleted ≡ ok plans
    → IsSplit plans (split_scale_plans plans)
build_scale_plans-IsSplit scale nodes added deleted plans h = split_scale_plans-IsSplit plans (
    All-Moves nodes added deleted plans
      (build_scale_plans-IsProper scale nodes added deleted plans h).0)
