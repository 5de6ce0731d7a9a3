-- ===== src/Prelude/Text.antt =====
-- Go's `strings` and `strconv` on the native text: the functions that the backend calls.
use Prim.Native.Nat.{ℕ, zero, suc, ◌+◌, ◌-◌, ◌*◌, ◌/◌, ◌%◌, ◌^◌, ◌<◌}
use Prim.Native.Char.{Char, char, code}
use Prim.Native.String.{String, ◌++◌}
use mathlib.Core.Path.{◌≡◌, refl}
use mathlib.Core.Bool.{Bool, true, false, ◌&&◌, ◌||◌}
use mathlib.Core.List.{List, [], ◌∷◌}
use mathlib.Core.Option.{Option, none, some}
use native.Mathlib.Omega.{arith}
use kubendt.Prelude.Tests.{leb, ltb, eqb, if◌then◌else◌}
use kubendt.Prelude.Int.{ℤ, pos, negsuc}

-- The code points of a text: its bytes, if it is ASCII.
abbrev pub codes : String → List ℕ
codes String.[] = []
codes (String.◌∷◌ c s) = code c ∷ codes s

-- unicode.IsSpace
unfoldable pub is_space : Char → Bool
is_space c =
    let n = code c in
    (leb 9 n && leb n 13)
    || eqb n 32
    || eqb n 0x85
    || eqb n 0xa0
    || eqb n 0x1680
    || (leb 0x2000 n && leb n 0x200a)
    || eqb n 0x2028
    || eqb n 0x2029
    || eqb n 0x202f
    || eqb n 0x205f
    || eqb n 0x3000

-- s == ""
abbrev pub is_empty : String → Bool
is_empty String.[] = true
is_empty (String.◌∷◌ c s) = false

trim_left : String → String
trim_left String.[] = ""
trim_left (String.◌∷◌ c s) = let rest = trim_left s in if is_space c then rest else String.◌∷◌ c s

trim_right : String → String
trim_right String.[] = ""
trim_right (String.◌∷◌ c s) =
    let r = trim_right s in if is_empty r && is_space c then "" else String.◌∷◌ c r

-- strings.TrimSpace
unfoldable pub trim_space : String → String
unfolding trim_left trim_right is_space
trim_space s = trim_right (trim_left s)

-- The text before and after the last dash: s[:i] and s[i+1:] for i = strings.LastIndex(s, "-").
unfoldable pub cut_last_dash : String → Option (String × String)
cut_last_dash String.[] = none
cut_last_dash (String.◌∷◌ c s) = elim (cut_last_dash s) [
  | some (a, b) ↦ some (String.◌∷◌ c a, b)
  | none ↦ if eqb (code c) b'-' then some ("", s) else none
]

unfoldable pub is_digit : Char → Bool
is_digit c = leb b'0' (code c) && leb (code c) b'9'

-- The value of a run of decimal digits, in front of which `acc` was read.
unfoldable pub read_digits : ℕ → String → Option ℕ
unfolding is_digit
read_digits acc String.[] = some acc
read_digits acc (String.◌∷◌ c s) =
    let rest = read_digits (acc * 10 + (code c - b'0')) s in if is_digit c then rest else none

-- '0' + d, for a digit.
unfoldable pub digit_char : ℕ → Char
digit_char zero = char b'0' tt
digit_char (suc zero) = char b'1' tt
digit_char (suc (suc zero)) = char b'2' tt
digit_char (suc (suc (suc zero))) = char b'3' tt
digit_char (suc (suc (suc (suc zero)))) = char b'4' tt
digit_char (suc (suc (suc (suc (suc zero))))) = char b'5' tt
digit_char (suc (suc (suc (suc (suc (suc zero)))))) = char b'6' tt
digit_char (suc (suc (suc (suc (suc (suc (suc zero))))))) = char b'7' tt
digit_char (suc (suc (suc (suc (suc (suc (suc (suc zero)))))))) = char b'8' tt
digit_char d = char b'9' tt

pub code-digit_char : (d : ℕ) → d < 10 → code (digit_char d) ≡ 48 + d
unfolding digit_char
code-digit_char zero h = refl
code-digit_char (suc zero) h = refl
code-digit_char (suc (suc zero)) h = refl
code-digit_char (suc (suc (suc zero))) h = refl
code-digit_char (suc (suc (suc (suc zero)))) h = refl
code-digit_char (suc (suc (suc (suc (suc zero))))) h = refl
code-digit_char (suc (suc (suc (suc (suc (suc zero)))))) h = refl
code-digit_char (suc (suc (suc (suc (suc (suc (suc zero))))))) h = refl
code-digit_char (suc (suc (suc (suc (suc (suc (suc (suc zero)))))))) h = refl
code-digit_char (suc (suc (suc (suc (suc (suc (suc (suc (suc zero))))))))) h = refl
code-digit_char (suc (suc (suc (suc (suc (suc (suc (suc (suc (suc d)))))))))) h =
    absurd (omega arith)

-- The digits of n in front of `out`; each round drops the last digit, so n + 1 rounds are enough.
unfoldable pub show_digits : ℕ → ℕ → String → String
unfolding digit_char
show_digits zero n out = out
show_digits (suc fuel) n out =
    let out' = String.◌∷◌ (digit_char (n % 10)) out in
    let more = show_digits fuel (n / 10) out' in if ltb n 10 then out' else more

-- fmt's %d, of a number that is not negative
unfoldable pub show : ℕ → String
unfolding show_digits
show n = show_digits (suc n) n ""

-- The value of a run of digits that is not empty.
unfoldable pub read_unsigned : String → Option ℕ
unfolding read_digits
read_unsigned s = if is_empty s then none else read_digits 0 s

-- The number, if the 64 bits of an `int` hold it.
unfoldable pub in_range : Bool → Option ℕ → Option ℤ
in_range negative none = none
in_range false (some n) = if ltb n (2 ^ 63) then some (pos n) else none
in_range true (some zero) = some (pos 0)
in_range true (some (suc n)) = if ltb n (2 ^ 63) then some (negsuc n) else none

-- strconv.Atoi: an optional sign, then digits
unfoldable pub atoi : String → Option ℤ
unfolding read_unsigned in_range
atoi String.[] = none
atoi (String.◌∷◌ c s) =
    if eqb (code c) b'-'
    then in_range true (read_unsigned s)
    else if eqb (code c) b'+'
    then in_range false (read_unsigned s)
    else in_range false (read_unsigned (String.◌∷◌ c s))

-- fmt's %d
unfoldable pub show_int : ℤ → String
unfolding show
show_int (pos n) = show n
show_int (negsuc n) = "-" ++ show (suc n)

-- The native `++` of texts, under a name beside the one of lists.
abbrev pub append : String → String → String
append s t = s ++ t

-- strings.HasPrefix
abbrev pub has_prefix : String → String → Bool
has_prefix s String.[] = true
has_prefix String.[] (String.◌∷◌ d p) = false
has_prefix (String.◌∷◌ c s) (String.◌∷◌ d p) = eqb (code c) (code d) && has_prefix s p

-- Matches \d*.
unfoldable pub all_digit_chars : String → Bool
unfolding is_digit
all_digit_chars String.[] = true
all_digit_chars (String.◌∷◌ c s) = is_digit c && all_digit_chars s

show_example : show_int (pos 10203) ≡ "10203"
unfolding show_int
show_example = refl

trim_example : trim_space "  a b " ≡ "a b"
unfolding trim_space
trim_example = refl

cut_example : cut_last_dash "dmz-sw-12" ≡ some ("dmz-sw", "12")
unfolding cut_last_dash
cut_example = refl

atoi_example :
    (atoi "-12" ≡ some (negsuc 11))
    × (atoi "+3" ≡ some (pos 3))
    × (atoi "9223372036854775808" ≡ none)
unfolding atoi
atoi_example = (refl, refl, refl)
