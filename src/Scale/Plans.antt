-- ===== src/Scale/Plans.antt =====
-- What the plans of an accepted scale section hold.
use kubendt.Prelude.{
  ℕ, suc, String, ◌≡◌, ◌⊎◌, inl, inr, refl, true, false, Option, none, some, Option-cases,
  Bool-cases, List, [], ◌∷◌, ◌==◌, string_eq, int_eq, pos, negsuc, ◌≤ℤ◌, Table, lookup, contains,
  trim_space, ok, >>=-eq-ok, arith, All, Distinct,
}
use kubendt.Types.{NodeSpec, ScaleSpec, max_replicas}
use kubendt.Names.{split_indexed_pod_name}
use kubendt.Scale.{ScalePlan, check_entry, plan_entries, counted, direction}

-- The trimmed names of a scale section.
abbrev pub entry_names : List ScaleSpec → List String
entry_names [] = []
entry_names (entry ∷ scale) = trim_space entry.name ∷ entry_names scale

-- An entry that passed, and what became of it.
pub record Checked (nodes : Table String NodeSpec) (added deleted seen : List String)
    (entry : ScaleSpec) (plan : Option ScalePlan) : Type 0 where
  pub existing : NodeSpec
  pub known : lookup (trim_space entry.name) nodes ≡ some existing
  pub base : split_indexed_pod_name (trim_space entry.name) ≡ none
  pub not_seen : contains seen (trim_space entry.name) ≡ false
  pub not_deleted : contains deleted (trim_space entry.name) ≡ false
  pub not_added : contains added (trim_space entry.name) ≡ false
  pub low : pos 1 ≤ℤ entry.replicas
  pub high : entry.replicas ≤ℤ max_replicas
  pub outcome :
      ((plan ≡ none) × (entry.replicas ≡ counted existing.replicas))
      ⊎ ((p : ScalePlan) × (plan ≡ some p)
          × (p.node ≡ existing)
          × (p.new_replicas ≡ entry.replicas)
          × (p.current_replicas ≡ counted existing.replicas)
          × ((direction p ≡ negsuc 0) ⊎ (direction p ≡ pos 1)))

module _ (nodes : Table String NodeSpec) (added deleted : List String) where
  pub check_entry-Checked :
      (seen : List String) (i : ℕ) (entry : ScaleSpec) (plan : Option ScalePlan)
      → check_entry nodes added deleted seen i entry ≡ ok plan
      → Checked nodes added deleted seen entry plan
  unfolding check_entry direction
  check_entry-Checked seen i entry plan h =
      elim (Option-cases (lookup (trim_space entry.name) nodes)) [
        | inl e ↦ absurd (ground (arith, h, e))
        | inr (existing, e) ↦ record {
          existing = existing;
          known = e;
          base = ground (arith, h, e);
          not_seen = ground (arith, h, e);
          not_deleted = ground (arith, h, e);
          not_added = ground (arith, h, e);
          low = ground (arith, h, e);
          high = ground (arith, h, e);
          outcome = elim (Bool-cases (entry.replicas == counted existing.replicas)) [
            | inl same ↦ inl (
              ground (arith, h, e, same),
              ground (arith, same, int_eq.beq_iff entry.replicas (counted existing.replicas)),
            )
            | inr differ ↦ inr (
              record {
                node = existing;
                current_replicas = counted existing.replicas;
                new_replicas = entry.replicas;
              },
              ground (arith, h, e, differ),
              refl,
              refl,
              refl,
              ground (arith, differ),
            )
          ];
        }
      ]

  pub plan_entries_cons :
      (seen : List String) (i : ℕ) (entry : ScaleSpec) (scale : List ScaleSpec)
      (plans : List ScalePlan)
      → plan_entries nodes added deleted seen i (entry ∷ scale) ≡ ok plans
      → (plan : Option ScalePlan) × (rest : List ScalePlan) × Checked nodes added deleted seen entry
          plan
        × (plan_entries nodes added deleted (trim_space entry.name ∷ seen) (suc i) scale ≡ ok rest)
        × (plans ≡ elim plan [ none ↦ rest | some p ↦ p ∷ rest ])
  unfolding plan_entries
  plan_entries_cons seen i entry scale plans h =
      let (plan, h1, h2) = >>=-eq-ok (check_entry nodes added deleted seen i entry) _ h in
      let (rest, h3, h4) =
        >>=-eq-ok (plan_entries nodes added deleted (trim_space entry.name ∷ seen) (suc i) scale) _
          h2 in
      (plan, rest, check_entry-Checked seen i entry plan h1, h3, ground (arith, h4))

  -- The names are all different, and none was seen before.
  pub plan_entries-Distinct :
      (scale : List ScaleSpec) (seen : List String) (i : ℕ) (plans : List ScalePlan)
      → plan_entries nodes added deleted seen i scale ≡ ok plans
      → Distinct (entry_names scale)
        × ((k : String) → contains (entry_names scale) k ≡ true → contains seen k ≡ false)
  plan_entries-Distinct [] seen i plans h = (tt, λ k c. cc)
  plan_entries-Distinct (entry ∷ scale) seen i plans h =
      let (plan, rest, checked, h', shape) = plan_entries_cons seen i entry scale plans h in
      let name = trim_space entry.name in
      let (d, new) = plan_entries-Distinct scale (name ∷ seen) (suc i) rest h' in
      let once : contains (entry_names scale) name ≡ false =
        ground (arith, new name, string_eq.beq_iff name name) in
      ((once, d), λ k c. ground (arith, c, new k, checked.not_seen, string_eq.beq_iff name k))

  abbrev pub IsProper : ScalePlan → Type 0
  IsProper p =
      (lookup p.node.name nodes ≡ some p.node)
      × (contains added p.node.name ≡ false)
      × (contains deleted p.node.name ≡ false)
      × (pos 1 ≤ℤ p.new_replicas)
      × (p.new_replicas ≤ℤ max_replicas)
      × ((direction p ≡ negsuc 0) ⊎ (direction p ≡ pos 1))

  module _ (keyed : (k : String) (n : NodeSpec) → lookup k nodes ≡ some n → n.name ≡ k) where
    pub plan_entries-IsProper :
        (scale : List ScaleSpec) (seen : List String) (i : ℕ) (plans : List ScalePlan)
        → plan_entries nodes added deleted seen i scale ≡ ok plans
        → All IsProper plans
    unfolding plan_entries
    plan_entries-IsProper [] seen i plans h =
        let same : plans ≡ [] = ground (arith, h) in rw same tt
    plan_entries-IsProper (entry ∷ scale) seen i plans h =
        let (plan, rest, c, h', shape) = plan_entries_cons seen i entry scale plans h in
        let others = plan_entries-IsProper scale (trim_space entry.name ∷ seen) (suc i) rest h' in
        let key = keyed (trim_space entry.name) c.existing c.known in
        elim c.outcome [
          | inl (no_plan, same) ↦ let e : plans ≡ rest = rw no_plan at shape in rw e others
          | inr (p, eq, node, new, current, way) ↦
              let e : plans ≡ p ∷ rest = rw eq at shape in
              rw e (
                (
                  rw (node, key) c.known,
                  rw (node, key) c.not_added,
                  rw (node, key) c.not_deleted,
                  rw new c.low,
                  rw new c.high,
                  way,
                ),
                others,
              )
        ]
