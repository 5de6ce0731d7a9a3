-- ===== src/Targets/Merge.antt =====
-- Folding the targets that name one pod: mergeTargets of backend/helpers/configure_targets.go.
use kubendt.Prelude.{
  ℕ, zero, suc, String, false, Option, none, some, List, [], ◌∷◌, ◌++◌, ◌≡◌, refl, ap, sym, ◌∙◌,
  arith, Table, lookup, put, lookup-put, contains, Distinct, length, ◌==◌, ◌||◌, string_eq, eq_iff,
  if◌then◌else◌, Option-cases, inl, inr,
}
use mathlib.Core.List.{append_assoc, append-nil}
use kubendt.Types.Actions.{ActionEntry}
use kubendt.Types.Configure.{PodConfig}
use kubendt.Targets.{append_at, merge_from, merge_targets}

module _ (resolve : String → String) where
  -- The actions that targets ask of the pod of a resolved name, in order.
  abbrev pub asked_of : String → List PodConfig → List ActionEntry
  asked_of k [] = []
  asked_of k (t ∷ targets) =
      if resolve t.pod == k then t.actions ++ asked_of k targets else asked_of k targets

  abbrev pub resolved : List PodConfig → List String
  resolved [] = []
  resolved (t ∷ targets) = resolve t.pod ∷ resolved targets

  -- Where the target of a resolved name stands.
  abbrev position : String → List PodConfig → Option ℕ
  position k [] = none
  position k (t ∷ out) =
      let rest = position k out in
      if resolve t.pod == k then some 0 else elim rest [ none ↦ none | some i ↦ some (suc i) ]

  abbrev Indexes : Table String ℕ → List PodConfig → Type 0
  Indexes index out = (k : String) → lookup k index ≡ position k out

  position-append_at :
      (k : String) (i : ℕ) (actions : List ActionEntry) (out : List PodConfig)
      → position k (append_at i actions out) ≡ position k out
  unfolding append_at
  position-append_at k i actions [] = refl
  position-append_at k zero actions (t ∷ out) = refl
  position-append_at k (suc i) actions (t ∷ out) = rw (position-append_at k i actions out) refl

  position-snoc :
      (k : String) (t : PodConfig) (out : List PodConfig)
      → position k (out ++ (t ∷ [])) ≡ elim (position k out) [
        | some i ↦ some i
        | none ↦ if resolve t.pod == k then some (length out) else none
      ]
  position-snoc k t [] = refl
  position-snoc k t (o ∷ out) = ground (arith, position-snoc k t out)

  asked_of_absent :
      (k : String) (out : List PodConfig) → contains (resolved out) k ≡ false → asked_of k out ≡ []
  asked_of_absent k [] h = refl
  asked_of_absent k (t ∷ out) h = ground (arith, h, asked_of_absent k out)

  asked_of-append_at :
      (k j : String) (i : ℕ) (actions : List ActionEntry) (out : List PodConfig)
      → position k out ≡ some i
      → Distinct (resolved out)
      → asked_of j (append_at i actions out)
        ≡ (if k == j then asked_of j out ++ actions else asked_of j out)
  unfolding append_at
  asked_of-append_at k j i actions [] h d = cc
  asked_of-append_at k j zero actions (t ∷ out) h d =
      let here : resolve t.pod ≡ k = ground (arith, h, eq_iff (resolve t.pod) k) in
      let gone = asked_of_absent (resolve t.pod) out d.0 in
      ground (
        arith,
        here,
        gone,
        eq_iff (resolve t.pod) j,
        eq_iff k j,
        append-nil t.actions,
        append-nil (t.actions ++ actions),
      )
  asked_of-append_at k j (suc i) actions (t ∷ out) h d =
      let later : position k out ≡ some i = ground (arith, h) in
      ground (
        arith,
        h,
        asked_of-append_at k j i actions out later d.1,
        append_assoc t.actions (asked_of j out) actions,
      )

  resolved-append_at :
      (i : ℕ) (actions : List ActionEntry) (out : List PodConfig)
      → resolved (append_at i actions out) ≡ resolved out
  unfolding append_at
  resolved-append_at i actions [] = refl
  resolved-append_at zero actions (t ∷ out) = refl
  resolved-append_at (suc i) actions (t ∷ out) =
      ap (λ rest. resolve t.pod ∷ rest) (resolved-append_at i actions out)

  contains-snoc :
      (k : String) (t : PodConfig) (out : List PodConfig)
      → contains (resolved (out ++ (t ∷ []))) k ≡ (contains (resolved out) k || resolve t.pod == k)
  contains-snoc k t [] = ground arith
  contains-snoc k t (o ∷ out) = ground (arith, contains-snoc k t out)

  absent_position :
      (k : String) (out : List PodConfig)
      → position k out ≡ none
      → contains (resolved out) k ≡ false
  absent_position k [] h = refl
  absent_position k (t ∷ out) h = ground (arith, h, absent_position k out)

  snoc-Distinct :
      (t : PodConfig) (out : List PodConfig)
      → contains (resolved out) (resolve t.pod) ≡ false
      → Distinct (resolved out)
      → Distinct (resolved (out ++ (t ∷ [])))
  snoc-Distinct t [] new d = (refl, tt)
  snoc-Distinct t (o ∷ out) new d = (
    rw (contains-snoc (resolve o.pod) t out) (
        ground (
          arith,
          new,
          d.0,
          eq_iff (resolve o.pod) (resolve t.pod),
          eq_iff (resolve t.pod) (resolve o.pod),
        )),
    snoc-Distinct t out (ground (arith, new)) d.1,
  )

  asked_of-append :
      (k : String) (xs ys : List PodConfig) → asked_of k (xs ++ ys) ≡ asked_of k xs ++ asked_of k ys
  asked_of-append k [] ys = refl
  asked_of-append k (t ∷ xs) ys =
      ground
        (arith, asked_of-append k xs ys, append_assoc t.actions (asked_of k xs) (asked_of k ys))

  -- What the loop keeps: one target at most for each resolved name, and nothing lost of what was
  -- asked of it.
  merge_from-asked_of :
      (targets out : List PodConfig) (index : Table String ℕ)
      → Indexes index out
      → Distinct (resolved out)
      → Distinct (resolved (merge_from resolve out index targets))
        × ((k : String)
            → asked_of k (merge_from resolve out index targets)
              ≡ asked_of k out ++ asked_of k targets)
  unfolding merge_from
  merge_from-asked_of [] out index at d = (d, λ k. sym (append-nil (asked_of k out)))
  merge_from-asked_of (t ∷ targets) out index at d =
      elim (Option-cases (lookup (resolve t.pod) index)) [
        | inl none_yet ↦
            let new = sym (at (resolve t.pod)) ∙ none_yet in
            let (d', same) =
              merge_from-asked_of targets (out ++ (t ∷ [])) (put (resolve t.pod) (length out) index)
                (λ k. ground (
                  arith,
                  new,
                  at k,
                  position-snoc k t out,
                  lookup-put (resolve t.pod) k (length out) index,
                  eq_iff (resolve t.pod) k,
                ))
                (snoc-Distinct t out (absent_position (resolve t.pod) out new) d) in
            rw (none_yet, merge_from)
              (
                d',
                λ k. ground (
                  arith,
                  same k,
                  asked_of-append k out (t ∷ []),
                  append_assoc (asked_of k out) t.actions (asked_of k targets),
                  append-nil t.actions,
                  append-nil (asked_of k out),
                ),
              )
        | inr (i, there) ↦
            let found = sym (at (resolve t.pod)) ∙ there in
            let (d', same) =
              merge_from-asked_of targets (append_at i t.actions out) index
                (λ k. at k ∙ sym (position-append_at k i t.actions out))
                (rw (resolved-append_at i t.actions out) d) in
            rw (there, merge_from)
              (
                d',
                λ k. ground (
                  arith,
                  same k,
                  asked_of-append_at (resolve t.pod) k i t.actions out found d,
                  append_assoc (asked_of k out) t.actions (asked_of k targets),
                ),
              )
      ]

  -- After the merge no two targets resolve to one name, and the pod of each name is asked the same
  -- actions in the same order as before.
  pub merge_targets-asked_of :
      (targets : List PodConfig)
      → Distinct (resolved (merge_targets resolve targets))
        × ((k : String) → asked_of k (merge_targets resolve targets) ≡ asked_of k targets)
  unfolding merge_targets
  merge_targets-asked_of targets = merge_from-asked_of targets [] [] (λ k. refl) tt
