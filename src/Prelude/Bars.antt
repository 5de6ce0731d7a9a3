-- ===== src/Prelude/Bars.antt =====
-- Texts cut at a bar, which the backend joins its keys with.
use Prim.Native.Char.{code}
use Prim.Native.String.{String}
use Prim.Native.String.append
use mathlib.Core.Path.{◌≡◌, refl, ap, sym, ◌∙◌}
use mathlib.Core.Bool.{Bool, true, not, ◌&&◌}
use native.Mathlib.Omega.{arith}
use kubendt.Prelude.Tests.{eqb, if◌then◌else◌}
use kubendt.Prelude.Text.{append}

abbrev pub no_bar : String → Bool
no_bar String.[] = true
no_bar (String.◌∷◌ c s) = not (eqb (code c) b'|') && no_bar s

-- The text in front of the first bar.
abbrev pub before_bar : String → String
before_bar String.[] = ""
before_bar (String.◌∷◌ c s) =
    let rest = before_bar s in if eqb (code c) b'|' then "" else String.◌∷◌ c rest

pub before_bar-append : (r t : String) → no_bar r ≡ true → before_bar (append r (append "|" t)) ≡ r
before_bar-append String.[] t h = rw (append.nil, append.cons) refl
before_bar-append (String.◌∷◌ c s) t h =
    let tail : no_bar s ≡ true = ground (arith, h) in
    rw append.cons (ground (arith, h, before_bar-append s t tail))

-- The text behind it.
abbrev pub after_bar : String → String
after_bar String.[] = ""
after_bar (String.◌∷◌ c s) = let rest = after_bar s in if eqb (code c) b'|' then s else rest

pub after_bar-append : (r t : String) → no_bar r ≡ true → after_bar (append r (append "|" t)) ≡ t
after_bar-append String.[] t h = rw (append.nil, append.cons, append.nil) refl
after_bar-append (String.◌∷◌ c s) t h =
    let tail : no_bar s ≡ true = ground (arith, h) in
    rw append.cons (ground (arith, h, after_bar-append s t tail))

-- The parts of two joins that agree, where no bar stands in the parts in front of it.
pub bar_injective :
    (a b s t : String)
    → no_bar a ≡ true
    → no_bar b ≡ true
    → append a (append "|" s) ≡ append b (append "|" t)
    → (a ≡ b) × (s ≡ t)
bar_injective a b s t p q h = (
  sym (before_bar-append a s p) ∙ ap before_bar h ∙ before_bar-append b t q,
  sym (after_bar-append a s p) ∙ ap after_bar h ∙ after_bar-append b t q,
)
