-- ===== src/Script/Output.antt =====
-- What parseShellScript of backend/helpers/action_pipeline.go reads back from a script's output.
use kubendt.Prelude.{
  ℕ, suc, ◌+◌, ◌<◌, ◌^◌, String, none, some, List, [], ◌∷◌, ◌++◌, ◌≡◌, refl, ap, sym, ◌∙◌, arith,
  All, length, length-append, lt→ltb, is_empty-show, fields, fields-word, fields-last, split_lines,
  split_line, split_words, split_lines-append, is_space, IsWord, IsLine, IsLine-append,
  IsWord-IsLine, show-IsWord, append, atoi-show, show, pos, ℤ, map, string_eq,
}
use mathlib.Core.List.{append_assoc, append-nil}
use kubendt.Script.{
  BatchResult, batch_marker, read_marker, set_at, seen_result, unseen, unseen_results, parse_lines,
  parse_shell_script,
}

-- What the echo after action k prints.
abbrev pub marker_line : ℕ → ℕ → String
marker_line k rc = append batch_marker (append " " (append (show k) (append " " (show rc))))

-- The lines that an action printed, each ended, before some text.
abbrev pub before : List String → String → String
before [] text = text
before (l ∷ lines) text = append l (append "\n" (before lines text))

abbrev pub Section : Type 0
Section = List String × ℕ

-- The output of the script's actions from action k on: the lines and the exit status of each.
abbrev pub printed : ℕ → List Section → String
printed k [] = ""
printed k ((lines, rc) ∷ sections) =
    before lines (append (marker_line k rc) (append "\n" (printed (suc k) sections)))

-- Each is one line, and none is a marker of one of n actions.
abbrev pub Plain : ℕ → List String → Type 0
Plain n = All (λ l. IsLine l × (read_marker n (fields l) ≡ none))

pub marker-IsWord : IsWord batch_marker
unfolding is_space
marker-IsWord = (
  refl,
  (
    refl,
    (
      refl,
      (refl, (refl, (refl, (refl, (refl, (refl, (refl, (refl, (refl, (refl, (refl, tt))))))))))),
    ),
  ),
)

fields-marker_line : (k rc : ℕ) → fields (marker_line k rc) ≡ batch_marker ∷ show k ∷ show rc ∷ []
fields-marker_line k rc =
    fields-word batch_marker _ marker-IsWord refl
    ∙ ap (λ rest. batch_marker ∷ rest)
        (fields-word (show k) _ (show-IsWord k) (is_empty-show k)
          ∙ ap (λ rest. show k ∷ rest) (fields-last (show rc) (show-IsWord rc) (is_empty-show rc)))

read_marker-marker_line :
    (n k rc : ℕ)
    → k < n
    → n < 2 ^ 63
    → rc < 2 ^ 63
    → read_marker n (fields (marker_line k rc)) ≡ some (k, pos rc)
unfolding read_marker
read_marker-marker_line n k rc small bound status =
    rw (fields-marker_line k rc)
      (rw (atoi-show k (omega arith)) (rw (atoi-show rc status) (rw (lt→ltb k n small) refl)))

pub marker_line-IsLine : (k rc : ℕ) → IsLine (marker_line k rc)
marker_line-IsLine k rc = IsLine-append batch_marker _ (IsWord-IsLine batch_marker marker-IsWord) (
    IsLine-append " " _ (refl, tt)
      (IsLine-append (show k) _ (IsWord-IsLine (show k) (show-IsWord k))
        (IsLine-append " " _ (refl, tt) (IsWord-IsLine (show rc) (show-IsWord rc)))))

split_lines-before :
    (n : ℕ) (lines : List String) (text : String)
    → Plain n lines
    → split_lines (before lines text) ≡ lines ++ split_lines text
split_lines-before n [] text h = refl
split_lines-before n (l ∷ lines) text h =
    split_lines-append l (before lines text) h.0.0
    ∙ ap (λ rest. l ∷ rest) (split_lines-before n lines text h.1)

module _ (n : ℕ) (cur : List String) (res : List BatchResult) (l : String)
    (more : List String) where
  pub plain_line :
      read_marker n (fields l) ≡ none
      → parse_lines n cur res (l ∷ more) ≡ parse_lines n (cur ++ (l ∷ [])) res more
  unfolding parse_lines
  plain_line h = rw (parse_lines, h) refl

  marked_line :
      (k : ℕ) (rc : ℤ)
      → read_marker n (fields l) ≡ some (k, rc)
      → parse_lines n cur res (l ∷ more) ≡ parse_lines n [] (set_at k (seen_result cur rc) res) more
  unfolding parse_lines
  marked_line k rc h = rw (parse_lines, h) refl

parse_lines-Plain :
    (n : ℕ) (cur lines more : List String) (res : List BatchResult)
    → Plain n lines
    → parse_lines n cur res (lines ++ more) ≡ parse_lines n (cur ++ lines) res more
parse_lines-Plain n cur [] more res h = ap (λ c. parse_lines n c res more) (sym (append-nil cur))
parse_lines-Plain n cur (l ∷ lines) more res h =
    plain_line n cur res l (lines ++ more) h.0.1
    ∙ parse_lines-Plain n (cur ++ (l ∷ [])) lines more res h.1
    ∙ ap (λ c. parse_lines n c res more) (append_assoc cur (l ∷ []) lines)

set_at-length :
    (r x : BatchResult) (done rest : List BatchResult)
    → set_at (length done) r (done ++ (x ∷ rest)) ≡ (done ++ (r ∷ [])) ++ rest
unfolding set_at
set_at-length r x [] rest = refl
set_at-length r x (d ∷ done) rest = ap (λ more. d ∷ more) (set_at-length r x done rest)

-- What the parse should give for a section.
abbrev pub result_of : Section → BatchResult
result_of (lines, rc) = seen_result lines (pos rc)

abbrev pub Sections : ℕ → List Section → Type 0
Sections n = All (λ (s : Section). Plain n s.0 × (s.1 < 2 ^ 63))

pub last_line :
    (n : ℕ) (cur : List String) (res : List BatchResult)
    → parse_lines n cur res (split_lines "") ≡ res
unfolding parse_lines split_lines split_line fields split_words read_marker
last_line n cur res = refl

parse_lines-printed :
    (n : ℕ) (done : List BatchResult) (sections : List Section)
    → length done + length sections ≡ n
    → n < 2 ^ 63
    → Sections n sections
    → parse_lines n []
        (done ++ unseen_results (length sections))
        (split_lines (printed (length done) sections))
      ≡ done ++ map result_of sections
unfolding unseen_results
parse_lines-printed n done [] total bound h = last_line n [] (done ++ [])
parse_lines-printed n done ((lines, rc) ∷ sections) total bound h =
    let k = length done in
    let rest = printed (suc k) sections in
    let r = seen_result lines (pos rc) in
    let res = done ++ (unseen ∷ unseen_results (length sections)) in
    let next : length (done ++ (r ∷ [])) ≡ suc k = omega (arith, length-append done (r ∷ [])) in
    let marked = read_marker-marker_line n k rc (omega arith) bound h.0.1 in
    ap (parse_lines n [] res) (
      split_lines-before n lines _ h.0.0
      ∙ ap (λ more. lines ++ more)
          (split_lines-append (marker_line k rc) rest (marker_line-IsLine k rc)))
    ∙ parse_lines-Plain n [] lines (marker_line k rc ∷ split_lines rest) res h.0.0
    ∙ marked_line n lines res (marker_line k rc) (split_lines rest) k (pos rc) marked
    ∙ ap (λ now. parse_lines n [] now (split_lines rest))
        (set_at-length r unseen done (unseen_results (length sections)))
    ∙ ap
        (λ at.
          parse_lines n [] ((done ++ (r ∷ [])) ++ unseen_results (length sections))
            (split_lines (printed at sections)))
        (sym next)
    ∙ parse_lines-printed n (done ++ (r ∷ [])) sections (omega (arith, next)) bound h.1
    ∙ append_assoc done (r ∷ []) (map result_of sections)

-- The output of a script's n actions comes apart into one result per action, in order, each with
-- the trimmed lines that the action printed and its exit status, where every line that an action
-- prints is ended and reads as no marker, and the exit statuses and n fit the 64 bits of an int.
pub parse_shell_script-printed :
    (sections : List Section)
    → length sections < 2 ^ 63
    → Sections (length sections) sections
    → parse_shell_script (printed 0 sections) (length sections) ≡ map result_of sections
unfolding parse_shell_script
parse_shell_script-printed sections bound h =
    parse_lines-printed (length sections) [] sections (omega arith) bound h
