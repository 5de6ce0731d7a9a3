-- ===== src/Script/Samples.antt =====
-- Scripts and their output at small inputs.
use kubendt.Prelude.{
  String, ◌≢◌, false, beq_ne, ◌==◌, string_eq, if◌then◌else◌, List, [], ◌∷◌, ◌≡◌, refl, arith, some,
  none, map, fields, split_words, is_space, show, join, replace_char, append,
}
use Prim.Native.String.append
use kubendt.Script.{
  shell_script, script_line, shell_join, shell_quote, precondition_guard, row_commands,
  guard_commands, or_true, read_marker, left_no_result, batch_err, parse_shell_script,
}
use kubendt.Script.Output.{Section, Sections, printed, result_of, parse_shell_script-printed}
use kubendt.Script.Unended.{RunsAction, body_of, append_longer, parse_shell_script_unended}

quoted : shell_quote "it's" ≡ "'it'\\''s'"
unfolding shell_quote replace_char
quoted = refl

two_actions :
    shell_script 0 ((none, ("ip" ∷ "a" ∷ []) ∷ []) ∷ (none, [] ∷ []) ∷ [])
    ≡ "{ 'ip' 'a'; } 2>&1; echo \"__kubendt_rc__ 0 $?\"\n{ true; } 2>&1; echo \"__kubendt_rc__ 1 $?\"\n"
unfolding shell_script script_line shell_join shell_quote precondition_guard row_commands
    guard_commands or_true join replace_char show
two_actions = refl

abbrev two_sections : List Section
two_sections = ("up" ∷ "" ∷ [], 0) ∷ ([], 2) ∷ []

two_sections-Sections : Sections 2 two_sections
unfolding fields split_words is_space read_marker
two_sections-Sections =
    ((((((refl, (refl, tt)), refl), ((tt, refl), tt))), omega arith), ((tt, omega arith), tt))

parse_shell_script-printed_example :
    parse_shell_script (printed 0 two_sections) 2 ≡ map result_of two_sections
parse_shell_script-printed_example =
    parse_shell_script-printed two_sections (omega arith) two_sections-Sections

-- A text without a part in front of it.
abbrev skip : String → String → String
skip String.[] s = s
skip (String.◌∷◌ c p) String.[] = ""
skip (String.◌∷◌ c p) (String.◌∷◌ d s) = skip p s

skip-append : (p s : String) → skip p (append p s) ≡ s
skip-append String.[] s = rw append.nil refl
skip-append (String.◌∷◌ c p) s = rw append.cons (skip-append p s)

-- What echo prints when the commands before it exited with 0.
abbrev echoed : String → String
echoed String.[] = ""
echoed (String.◌∷◌ c s) =
    let rest = echoed s in if String.◌∷◌ c s == " $?\"\n" then " 0\n" else String.◌∷◌ c rest

echoed-append : (text : String) → echoed (append text " $?\"\n") ≡ append text " 0\n"
echoed-append String.[] = rw append.nil refl
echoed-append (String.◌∷◌ c text) =
    let more : append (String.◌∷◌ c text) " $?\"\n" ≢ " $?\"\n" =
      append_longer (String.◌∷◌ c text) " $?\"\n" refl in
    let tail : (String.◌∷◌ c (append text " $?\"\n") == " $?\"\n") ≡ false =
      beq_ne _ _ (rw append.cons at more) in
    rw (append.cons, append.cons) (rw (tail, echoed-append text) refl)

abbrev printf_rows : List (List String)
printf_rows = ("printf" ∷ "done" ∷ []) ∷ []

-- A shell for the script of an action that runs printf.
abbrev printf_sh : String → String
printf_sh s =
    append "done"
      (echoed (skip "; } 2>&1; echo \"" (skip (body_of none printf_rows) (skip "{ " s))))

printf_sh-RunsAction : RunsAction printf_sh (body_of none printf_rows) "done" 0
unfolding show
printf_sh-RunsAction text = simp (skip-append, echoed-append)

parse_shell_script_unended_example :
    map
      (batch_err (λ out. ""))
      (parse_shell_script (printf_sh (shell_script 0 ((none, printf_rows) ∷ []))) 1)
    ≡ some left_no_result ∷ []
unfolding is_space
parse_shell_script_unended_example =
    parse_shell_script_unended (λ out. "") printf_sh none printf_rows "done" 0 printf_sh-RunsAction
      (refl, (refl, (refl, (refl, tt)))) refl
