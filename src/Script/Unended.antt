-- ===== src/Script/Unended.antt =====
-- Actions whose output ends no line: the markers of shellScript in
-- backend/helpers/action_pipeline.go stand behind the output as it is.
use kubendt.Prelude.{
  ℕ, String, Option, List, ◌++◌, join, false, none, some, [], ◌∷◌, ◌≡◌, ◌≢◌, refl, ap, sym, ◌∙◌,
  arith, is_empty, is_empty-show, fields, fields-word, fields-last, split_lines, split_lines-append,
  IsWord, IsLine, IsLine-append, IsWord-IsLine, show-IsWord, append, show, map, string_eq, beq_ne,
}
use Prim.Native.String.{count}
use Prim.Native.String.append
use Prim.Native.String.count
use text.Mathlib.TextLemmas.{
  append_assoc as append_assoc_text, length-append as length-append_text,
  append-nil as append-nil_text,
}
use kubendt.Script.{
  left_no_result, batch_err, batch_marker, read_marker, unseen, unseen_results, parse_lines,
  parse_shell_script, Precondition, or_true, guard_commands, row_commands, script_line,
  shell_script,
}
use kubendt.Script.Output.{marker_line, marker-IsWord, marker_line-IsLine, plain_line, last_line}

pub append_longer : (w m : String) → is_empty w ≡ false → append w m ≢ m
append_longer String.[] m h same = cc
append_longer (String.◌∷◌ c w) m h same =
    omega (arith, length-append_text (String.◌∷◌ c w) m, count.cons c w, ap count same)

IsWord-append : (s t : String) → IsWord s → IsWord t → IsWord (append s t)
IsWord-append String.[] t h k = rw append.nil k
IsWord-append (String.◌∷◌ c s) t h k = rw append.cons (h.0, IsWord-append s t h.1 k)

is_empty-append : (s t : String) → is_empty s ≡ false → is_empty (append s t) ≡ false
is_empty-append String.[] t h = cc
is_empty-append (String.◌∷◌ c s) t h = rw append.cons refl

-- A marker behind a word that no line end follows stands in a line of its own fields.
fields_unended :
    (w : String) (rc : ℕ)
    → IsWord w
    → is_empty w ≡ false
    → fields (append w (marker_line 0 rc)) ≡ append w batch_marker ∷ show 0 ∷ show rc ∷ []
fields_unended w rc h e =
    ap fields (sym (append_assoc_text w batch_marker _))
    ∙ fields-word (append w batch_marker) _ (IsWord-append w batch_marker h marker-IsWord)
        (is_empty-append w batch_marker e)
    ∙ ap (λ rest. append w batch_marker ∷ rest)
        (fields-word (show 0) _ (show-IsWord 0) (is_empty-show 0)
          ∙ ap (λ rest. show 0 ∷ rest) (fields-last (show rc) (show-IsWord rc) (is_empty-show rc)))

read_marker_unended :
    (n : ℕ) (w k rc : String)
    → is_empty w ≡ false
    → read_marker n (append w batch_marker ∷ k ∷ rc ∷ []) ≡ none
unfolding read_marker
read_marker_unended n w k rc e =
    rw (beq_ne (append w batch_marker) batch_marker (append_longer w batch_marker e)) refl

unended_output :
    (missing_program : String → String) (w : String) (rc : ℕ)
    → IsWord w
    → is_empty w ≡ false
    → map
        (batch_err missing_program)
        (parse_shell_script (append w (append (marker_line 0 rc) "\n")) 1)
      ≡ some left_no_result ∷ []
unfolding parse_shell_script unseen_results batch_err
unended_output missing_program w rc h e =
    let line = append w (marker_line 0 rc) in
    let one_line : IsLine line =
      IsLine-append w (marker_line 0 rc) (IsWord-IsLine w h) (marker_line-IsLine 0 rc) in
    let no_marker : read_marker 1 (fields line) ≡ none =
      ap (read_marker 1) (fields_unended w rc h e) ∙ read_marker_unended 1 w (show 0) (show rc) e in
    let split : split_lines (append w (append (marker_line 0 rc) "\n")) ≡ line ∷ split_lines "" =
      ap split_lines (sym (append_assoc_text w (marker_line 0 rc) "\n"))
      ∙ split_lines-append line "" one_line in
    ap (λ lines. map (batch_err missing_program) (parse_lines 1 [] (unseen ∷ []) lines)) split
    ∙ ap (map (batch_err missing_program))
        (plain_line 1 [] (unseen ∷ []) line (split_lines "") no_marker)
    ∙ ap (map (batch_err missing_program)) (last_line 1 (line ∷ []) (unseen ∷ []))

-- The commands of one action.
abbrev pub body_of : Option Precondition → List (List String) → String
body_of guard rows = join " && " (or_true (guard_commands guard ++ row_commands rows))

-- What sh prints for the commands `body`, which print `w` and exit with `rc`, and an echo behind
-- them: echo expands $? and ends its line.
abbrev pub RunsAction : (String → String) → String → String → ℕ → Type 0
RunsAction sh body w rc =
    (text : String)
    → sh (append "{ " (append body (append "; } 2>&1; echo \"" (append text " $?\"\n"))))
      ≡ append w (append text (append " " (append (show rc) "\n")))

one_action :
    (guard : Option Precondition) (rows : List (List String))
    → shell_script 0 ((guard, rows) ∷ [])
      ≡ append "{ " (
          append (body_of guard rows) (
            append "; } 2>&1; echo \""
              (append (append batch_marker (append " " (show 0))) " $?\"\n")))
unfolding shell_script script_line
one_action guard rows = simp (append_assoc_text, append-nil_text)

marker_text :
    (rc : ℕ)
    → append (append batch_marker (append " " (show 0))) (append " " (append (show rc) "\n"))
      ≡ append (marker_line 0 rc) "\n"
marker_text rc = simp append_assoc_text

pub parse_shell_script_unended :
    (missing_program sh : String → String) (guard : Option Precondition) (rows : List (List String))
    (w : String) (rc : ℕ)
    → RunsAction sh (body_of guard rows) w rc
    → IsWord w
    → is_empty w ≡ false
    → map
        (batch_err missing_program)
        (parse_shell_script (sh (shell_script 0 ((guard, rows) ∷ []))) 1)
      ≡ some left_no_result ∷ []
parse_shell_script_unended missing_program sh guard rows w rc runs h e =
    let text = append batch_marker (append " " (show 0)) in
    let out : sh (shell_script 0 ((guard, rows) ∷ [])) ≡ append w (append (marker_line 0 rc) "\n") =
      ap sh (one_action guard rows) ∙ runs text ∙ ap (append w) (marker_text rc) in
    ap (λ o. map (batch_err missing_program) (parse_shell_script o 1)) out
    ∙ unended_output missing_program w rc h e
