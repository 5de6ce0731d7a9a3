-- ===== src/Prelude/Compare.antt =====
-- Go's comparison of texts, from the other side.
use Prim.Native.Nat.{Ordering, compare as compare_ℕ, ℕ}
use Prim.Native.Char.{Char, code}
use Prim.Native.String.{String, compare, then as and_then}
use Prim.Native.String.compare.{nil-nil, nil-cons, cons-nil, cons-cons}
use mathlib.Core.Path.{◌≡◌, refl, sym, ap, ◌∙◌}
use mathlib.Core.Logic.{◌⊎◌, inl, inr}
use native.Mathlib.Omega.{arith}

abbrev pub flip : Ordering → Ordering
flip Ordering.lt = Ordering.gt
flip Ordering.eq = Ordering.eq
flip Ordering.gt = Ordering.lt

compare_ℕ-flip : (a b : ℕ) → compare_ℕ b a ≡ flip (compare_ℕ a b)
compare_ℕ-flip a b = ground arith

flip-then : (o p : Ordering) → and_then (flip o) (flip p) ≡ flip (and_then o p)
flip-then Ordering.lt p = refl
flip-then Ordering.eq p = refl
flip-then Ordering.gt p = refl

pub Ordering-cases : (o : Ordering) → (o ≡ Ordering.lt) ⊎ ((o ≡ Ordering.eq) ⊎ (o ≡ Ordering.gt))
Ordering-cases Ordering.lt = inl refl
Ordering-cases Ordering.eq = inr (inl refl)
Ordering-cases Ordering.gt = inr (inr refl)

pub compare-flip : (s t : String) → compare t s ≡ flip (compare s t)
compare-flip String.[] String.[] =
    let e : compare String.[] String.[] ≡ Ordering.eq = λ i. nil-nil i in e ∙ ap flip (sym e)
compare-flip String.[] (String.◌∷◌ d t) =
    let e : compare (String.◌∷◌ d t) String.[] ≡ Ordering.gt = λ i. cons-nil d t i in
    let f : compare String.[] (String.◌∷◌ d t) ≡ Ordering.lt = λ i. nil-cons d t i in
    e ∙ ap flip (sym f)
compare-flip (String.◌∷◌ c s) String.[] =
    let e : compare (String.◌∷◌ c s) String.[] ≡ Ordering.gt = λ i. cons-nil c s i in
    let f : compare String.[] (String.◌∷◌ c s) ≡ Ordering.lt = λ i. nil-cons c s i in
    f ∙ ap flip (sym e)
compare-flip (String.◌∷◌ c s) (String.◌∷◌ d t) =
    let step : (a b : Char) (u v : String)
        → compare (String.◌∷◌ a u) (String.◌∷◌ b v)
          ≡ and_then (compare_ℕ (code a) (code b)) (compare u v) =
      λ a b u v. λ i. cons-cons a b u v i in
    step d c t s
    ∙ (λ i. and_then (compare_ℕ-flip (code c) (code d) i) (compare-flip s t i))
    ∙ flip-then (compare_ℕ (code c) (code d)) (compare s t)
    ∙ ap flip (sym (step c d s t))
