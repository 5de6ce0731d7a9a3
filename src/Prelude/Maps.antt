-- ===== src/Prelude/Maps.antt =====
-- Go's maps, as association lists in which a key stands at most once where `put` built them.
use mathlib.Core.Path.{◌≡◌, refl, ap}
use mathlib.Core.Logic.{inl, inr}
use mathlib.Core.List.{List, [], ◌∷◌}
use mathlib.Core.Option.{Option, none, some}
use native.Mathlib.Omega.{arith}
use kubendt.Prelude.Tests.{if◌then◌else◌, is_some, Bool-cases}
use kubendt.Prelude.Equality.{Eq, ◌==◌, beq_refl}
use mathlib.Core.Bool.{Bool, false, ◌||◌}
use kubendt.Prelude.Lists.{contains, Distinct, select}

abbrev pub Table {ℓ} : Type ℓ → Type ℓ → Type ℓ
Table K V = List (K × V)

module _ {ℓ} {K V : Type ℓ} ⦃e : Eq K⦄ where
  -- v, ok := m[k]
  abbrev pub lookup : K → Table K V → Option V
  lookup k [] = none
  lookup k ((j, v) ∷ m) = if j == k then some v else lookup k m

  -- m[k] = v
  abbrev pub put : K → V → Table K V → Table K V
  put k v [] = (k, v) ∷ []
  put k v ((j, w) ∷ m) = if j == k then (k, v) ∷ m else (j, w) ∷ put k v m

  abbrev pub keys : Table K V → List K
  keys [] = []
  keys ((j, v) ∷ m) = j ∷ keys m

  pub lookup-put :
      (k j : K) (v : V) (m : Table K V)
      → lookup j (put k v m) ≡ (if k == j then some v else lookup j m)
  lookup-put k j v [] = refl
  lookup-put k j v ((i, w) ∷ m) =
      ground (arith, e.beq_iff k j, e.beq_iff i k, e.beq_iff i j, lookup-put k j v m)

  pub lookup-put_self : (k : K) (v : V) (m : Table K V) → lookup k (put k v m) ≡ some v
  lookup-put_self k v m = rw (lookup-put k k v m, beq_refl k)

  pub contains-keys : (k : K) (m : Table K V) → contains (keys m) k ≡ is_some (lookup k m)
  contains-keys k [] = refl
  contains-keys k ((j, v) ∷ m) = ground (arith, contains-keys k m)

  pub contains-put :
      (k j : K) (v : V) (m : Table K V)
      → contains (keys (put k v m)) j ≡ (k == j || contains (keys m) j)
  contains-put k j v m =
      ground (arith, contains-keys j (put k v m), contains-keys j m, lookup-put k j v m)

  -- Setting a key keeps the keys different.
  pub put-Distinct :
      (k : K) (v : V) (m : Table K V) → Distinct (keys m) → Distinct (keys (put k v m))
  put-Distinct k v [] d = (refl, tt)
  put-Distinct k v ((j, w) ∷ m) (new, d) =
      ground
        (arith, new, d, put-Distinct k v m d, contains-put k j v m, e.beq_iff j k, e.beq_iff k j)

  contains-select :
      (p : K × V → Bool) (j : K) (m : Table K V)
      → contains (keys m) j ≡ false
      → contains (keys (select p m)) j ≡ false
  contains-select p j [] h = refl
  contains-select p j ((i, v) ∷ m) h = ground (arith, h, contains-select p j m)

  pub select-Distinct :
      (p : K × V → Bool) (m : Table K V) → Distinct (keys m) → Distinct (keys (select p m))
  select-Distinct p [] d = tt
  select-Distinct p ((j, v) ∷ m) (new, d) =
      ground (arith, new, d, select-Distinct p m d, contains-select p j m new)

  -- What a table holds at a key once the entries that fail a test are gone.
  pub lookup-select :
      (p : K × V → Bool) (k : K) (m : Table K V)
      → Distinct (keys m)
      → lookup k (select p m)
        ≡ elim (lookup k m) [ none ↦ none | some v ↦ if p (k, v) then some v else none ]
  lookup-select p k [] d = refl
  lookup-select p k ((j, v) ∷ m) (new, d) = ground (
    arith,
    new,
    e.beq_iff j k,
    lookup-select p k m d,
    contains-keys k m,
    contains-keys j m,
    contains-keys k (select p m),
  )

  -- Every value changed by its key and itself.
  abbrev pub update_values : (K → V → V) → Table K V → Table K V
  update_values f [] = []
  update_values f ((j, v) ∷ m) = (j, f j v) ∷ update_values f m

  pub lookup-update_values :
      (f : K → V → V) (k : K) (m : Table K V)
      → lookup k (update_values f m) ≡ elim (lookup k m) [ none ↦ none | some v ↦ some (f k v) ]
  lookup-update_values f k [] = refl
  lookup-update_values f k ((j, v) ∷ m) = elim (Bool-cases (j == k)) [
    | inl h ↦ rw h (ap (λ i. some (f i v)) ((e.beq_iff j k).0 h))
    | inr h ↦ rw h (lookup-update_values f k m)
  ]

  pub keys-update_values : (f : K → V → V) (m : Table K V) → keys (update_values f m) ≡ keys m
  keys-update_values f [] = refl
  keys-update_values f ((j, v) ∷ m) = ap (λ ks. j ∷ ks) (keys-update_values f m)
