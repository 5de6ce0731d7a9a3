-- ===== src/Prelude/Decimal.antt =====
-- Reading back what was printed: `atoi` after `show`, and the cut at the last dash.
use Prim.Native.Nat.{ℕ, zero, suc, ◌+◌, ◌*◌, ◌/◌, ◌%◌, ◌^◌, ◌<◌, ◌-◌}
use Prim.Native.Char.{Char, code}
use Prim.Native.String.{String, ◌++◌}
use Prim.Native.String.append
use mathlib.Core.Path.{◌≡◌, refl, ap, ◌∙◌}
use mathlib.Core.Logic.{◌≢◌, inl, inr}
use mathlib.Core.Bool.{true, false}
use mathlib.Core.Option.{none, some}
use native.Mathlib.Omega.{arith}
use kubendt.Prelude.Tests.{ltb, Bool-cases}
use kubendt.Prelude.Int.{pos}
use kubendt.Prelude.Text.{
  is_empty, is_digit, read_digits, digit_char, code-digit_char, show_digits, show, all_digit_chars,
  cut_last_dash, atoi,
}

is_digit-digit_char : (d : ℕ) → d < 10 → is_digit (digit_char d) ≡ true
unfolding is_digit
is_digit-digit_char d h = ground (arith, code-digit_char d h)

read_digits-cons :
    (acc d : ℕ) (out : String)
    → d < 10
    → read_digits acc (String.◌∷◌ (digit_char d) out) ≡ read_digits (acc * 10 + d) out
unfolding read_digits
read_digits-cons acc d out h =
    let e : acc * 10 + (code (digit_char d) - 48) ≡ acc * 10 + d =
      omega (arith, code-digit_char d h) in
    rw (is_digit-digit_char d h) (ap (λ k. read_digits k out) e)

read_digits-show_digits :
    (fuel n : ℕ) (out : String)
    → n < fuel
    → read_digits 0 (show_digits fuel n out) ≡ read_digits n out
unfolding show_digits
read_digits-show_digits zero n out h = absurd (omega arith)
read_digits-show_digits (suc fuel) n out h = elim (Bool-cases (ltb n 10)) [
  | inl small ↦
      rw small
        (read_digits-cons 0 (n % 10) out (omega arith) ∙ ap (λ k. read_digits k out) (ground arith))
  | inr large ↦ rw large (
      read_digits-show_digits fuel (n / 10) _ (ground arith)
      ∙ read_digits-cons (n / 10) (n % 10) out (omega arith)
      ∙ ap (λ k. read_digits k out) (omega arith))
]

is_empty-show_digits :
    (fuel n : ℕ) (c : Char) (out : String)
    → is_empty (show_digits fuel n (String.◌∷◌ c out)) ≡ false
unfolding show_digits
is_empty-show_digits zero n c out = refl
is_empty-show_digits (suc fuel) n c out =
    ground (arith, is_empty-show_digits fuel (n / 10) (digit_char (n % 10)) (String.◌∷◌ c out))

pub is_empty-show : (n : ℕ) → is_empty (show n) ≡ false
unfolding show
is_empty-show n = ground (arith, is_empty-show_digits n (n / 10) (digit_char (n % 10)) "")

-- A text of digits only.
abbrev pub AllDigits : String → Type 0
AllDigits String.[] = Unit
AllDigits (String.◌∷◌ c s) = (is_digit c ≡ true) × AllDigits s

AllDigits-show_digits :
    (fuel n : ℕ) (out : String) → AllDigits out → AllDigits (show_digits fuel n out)
unfolding show_digits
AllDigits-show_digits zero n out h = h
AllDigits-show_digits (suc fuel) n out h = elim (Bool-cases (ltb n 10)) [
  | inl small ↦ rw small (is_digit-digit_char (n % 10) (omega arith), h)
  | inr large ↦
      rw large
        (AllDigits-show_digits fuel (n / 10) _ (is_digit-digit_char (n % 10) (omega arith), h))
]

cut_last_dash-digits : (s : String) → AllDigits s → cut_last_dash s ≡ none
unfolding cut_last_dash is_digit
cut_last_dash-digits String.[] h = refl
cut_last_dash-digits (String.◌∷◌ c s) h =
    rw (cut_last_dash-digits s h.1, cut_last_dash) (ground arith)

-- The cut finds the dash in front of the printed number.
pub cut_last_dash-append :
    (base t : String) → cut_last_dash t ≡ none → cut_last_dash (base ++ ("-" ++ t)) ≡ some (base, t)
unfolding cut_last_dash
cut_last_dash-append String.[] t h = rw (append.nil, append.cons, append.nil, h)
cut_last_dash-append (String.◌∷◌ c s) t h =
    rw (append.cons, cut_last_dash) (rw (cut_last_dash-append s t h))

pub cut_last_dash-show : (n : ℕ) → cut_last_dash (show n) ≡ none
unfolding show
cut_last_dash-show n = cut_last_dash-digits _ (AllDigits-show_digits (suc n) n "" tt)

all_digit_chars_of : (s : String) → AllDigits s → all_digit_chars s ≡ true
unfolding all_digit_chars is_digit
all_digit_chars_of String.[] h = refl
all_digit_chars_of (String.◌∷◌ c s) h = rw (h.0, all_digit_chars_of s h.1)

atoi-digits :
    (s : String) (n : ℕ)
    → AllDigits s
    → is_empty s ≡ false
    → read_digits 0 s ≡ some n
    → n < 2 ^ 63
    → atoi s ≡ some (pos n)
unfolding atoi is_digit
atoi-digits String.[] n d e r h = cc
atoi-digits (String.◌∷◌ c s) n d e r h = rw r (ground (arith, d.0))

read_digits-show : (n : ℕ) → read_digits 0 (show n) ≡ some n
unfolding show
read_digits-show n = read_digits-show_digits (suc n) n "" (omega arith) ∙ unfold read_digits in refl

pub atoi-show : (n : ℕ) → n < 2 ^ 63 → atoi (show n) ≡ some (pos n)
unfolding show
atoi-show n h =
    atoi-digits _ n (AllDigits-show_digits (suc n) n "" tt) (is_empty-show n) (read_digits-show n) h

pub all_digit_chars-show : (n : ℕ) → all_digit_chars (show n) ≡ true
unfolding show
all_digit_chars-show n = all_digit_chars_of _ (AllDigits-show_digits (suc n) n "" tt)

pub filled_ne : (s : String) → is_empty s ≡ false → s ≢ ""
filled_ne s h e = absurd (ground (arith, rw e at h))

pub is_empty→eq : (s : String) → is_empty s ≡ true → s ≡ ""
is_empty→eq String.[] h = refl
is_empty→eq (String.◌∷◌ c s) h = cc

pub show-AllDigits : (n : ℕ) → AllDigits (show n)
unfolding show
show-AllDigits n = AllDigits-show_digits (suc n) n "" tt

pub show_injective : (a b : ℕ) → show a ≡ show b → a ≡ b
show_injective a b h = cc (read_digits-show a, read_digits-show b)
