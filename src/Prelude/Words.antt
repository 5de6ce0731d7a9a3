-- ===== src/Prelude/Words.antt =====
-- Go's strings.Join, Fields, Split at a line end and ReplaceAll of one character.
use Prim.Native.Nat.{ℕ}
use Prim.Native.Char.{Char, char, code}
use Prim.Native.String.{String, ◌++◌}
use Prim.Native.String.append
use text.Mathlib.TextLemmas.{append-nil}
use mathlib.Core.Path.{◌≡◌, refl, sym}
use mathlib.Core.Bool.{false}
use mathlib.Core.List.{List, [], ◌∷◌}
use native.Mathlib.Omega.{arith}
use kubendt.Prelude.Tests.{eqb, if◌then◌else◌}
use kubendt.Prelude.Text.{is_space, is_empty, is_digit, show}
use kubendt.Prelude.Decimal.{AllDigits, show-AllDigits}

-- strings.Join
unfoldable pub join : String → List String → String
join sep [] = ""
join sep (s ∷ []) = s
join sep (s ∷ t ∷ rest) = s ++ (sep ++ join sep (t ∷ rest))

abbrev cons_word : String → List String → List String
cons_word w ws = if is_empty w then ws else w ∷ ws

-- The word that the text begins with, "" for none, and the words after it.
unfoldable pub split_words : String → String × List String
unfolding is_space
split_words String.[] = ("", [])
split_words (String.◌∷◌ c s) =
    let rest = split_words s in
    if is_space c then ("", cons_word rest.0 rest.1) else (String.◌∷◌ c rest.0, rest.1)

-- strings.Fields
unfoldable pub fields : String → List String
unfolding split_words
fields s = let parts = split_words s in cons_word parts.0 parts.1

-- The first line and the lines after it.
unfoldable pub split_line : String → String × List String
split_line String.[] = ("", [])
split_line (String.◌∷◌ c s) =
    let rest = split_line s in
    if eqb (code c) 10 then ("", rest.0 ∷ rest.1) else (String.◌∷◌ c rest.0, rest.1)

-- strings.Split(s, "\n")
unfoldable pub split_lines : String → List String
unfolding split_line
split_lines s = let parts = split_line s in parts.0 ∷ parts.1

-- strings.Split at one character: the first part and the parts after it.
unfoldable pub split_part : ℕ → String → String × List String
split_part c String.[] = ("", [])
split_part c (String.◌∷◌ d s) =
    let rest = split_part c s in
    if eqb (code d) c then ("", rest.0 ∷ rest.1) else (String.◌∷◌ d rest.0, rest.1)

unfoldable pub split_char : ℕ → String → List String
unfolding split_part
split_char c s = let parts = split_part c s in parts.0 ∷ parts.1

-- strings.ReplaceAll of one character
unfoldable pub replace_char : ℕ → String → String → String
replace_char c new String.[] = ""
replace_char c new (String.◌∷◌ d s) =
    let rest = replace_char c new s in if eqb (code d) c then new ++ rest else String.◌∷◌ d rest

-- A word: no character of it is a space.
abbrev pub IsWord : String → Type 0
IsWord String.[] = Unit
IsWord (String.◌∷◌ c s) = (is_space c ≡ false) × IsWord s

-- A line: no character of it ends a line.
abbrev pub IsLine : String → Type 0
IsLine String.[] = Unit
IsLine (String.◌∷◌ c s) = (eqb (code c) 10 ≡ false) × IsLine s

split_words-append :
    (w s : String) → IsWord w → split_words (w ++ s) ≡ (w ++ (split_words s).0, (split_words s).1)
unfolding split_words is_space
split_words-append String.[] s h = rw (append.nil, append.nil) refl
split_words-append (String.◌∷◌ c w) s h =
    rw (append.cons, append.cons, h.0, split_words-append w s h.1) refl

space : Char
space = char 32 tt

-- A word before a blank comes off as a field.
pub fields-word :
    (w s : String) → IsWord w → is_empty w ≡ false → fields (w ++ (" " ++ s)) ≡ w ∷ fields s
unfolding fields split_words is_space
fields-word w s h e =
    rw (split_words-append w (" " ++ s) h)
      (rw (append.cons, append.nil, append-nil) (ground (arith, e)))

pub fields-last : (w : String) → IsWord w → is_empty w ≡ false → fields w ≡ w ∷ []
unfolding fields split_words is_space
fields-last w h e =
    let same : split_words w ≡ (w, []) = rw (sym (append-nil w)) (split_words-append w "" h) in
    ground (arith, same, e)

split_line-append :
    (l s : String) → IsLine l → split_line (l ++ s) ≡ (l ++ (split_line s).0, (split_line s).1)
unfolding split_line
split_line-append String.[] s h = rw (append.nil, append.nil) refl
split_line-append (String.◌∷◌ c l) s h =
    rw (append.cons, append.cons, h.0, split_line-append l s h.1) refl

-- A line before a line end comes off first.
pub split_lines-append :
    (l s : String) → IsLine l → split_lines (l ++ ("\n" ++ s)) ≡ l ∷ split_lines s
unfolding split_lines split_line
split_lines-append l s h =
    rw (split_line-append l ("\n" ++ s) h) (rw (append.cons, append.nil, append-nil) refl)

pub IsLine-append : (s t : String) → IsLine s → IsLine t → IsLine (s ++ t)
IsLine-append String.[] t h k = rw append.nil k
IsLine-append (String.◌∷◌ c s) t h k = rw append.cons (h.0, IsLine-append s t h.1 k)

pub IsWord-IsLine : (s : String) → IsWord s → IsLine s
unfolding is_space
IsWord-IsLine String.[] h = tt
IsWord-IsLine (String.◌∷◌ c s) h = (ground (arith, h.0), IsWord-IsLine s h.1)

digits-IsWord : (s : String) → AllDigits s → IsWord s
unfolding is_space is_digit
digits-IsWord String.[] h = tt
digits-IsWord (String.◌∷◌ c s) h = (ground (arith, h.0), digits-IsWord s h.1)

pub show-IsWord : (n : ℕ) → IsWord (show n)
show-IsWord n = digits-IsWord (show n) (show-AllDigits n)
