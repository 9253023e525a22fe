-- ===== src/Template.antt =====
-- include/template_renderer.h. The data is the list of the map's entries in iteration order, which
-- the standard leaves open. The file system is the content of the template file, if it opens.
pub mod Variables
pub mod Filling
pub mod Cycles
use cdragon.Prelude.{
  ℕ, zero, suc, ◌+◌, Bool, true, false, not, Option, none, some, List, [], ◌∷◌, ◌++◌, ◌||◌, ◌&&◌,
  Bytes, codes, length, take, drop, find_bytes, leb, ◌==◌, if◌then◌else◌,
}
use mathlib.Core.List.{foldl}
use cdragon.Prelude.Assoc.{Assoc, find}
use cdragon.Prelude.Numerals.{is_space, is_digit}
use cdragon.Prelude.Result.{Result, ok, throws, runtime_error}
use cdragon.Regex.{
  Item, once, many, plus, regex_search, regex_replace, groups, joined_spans, after_match,
}

-- `\w`
abbrev is_word : ℕ → Bool
is_word b = is_digit b || (leb 65 b && leb b 90) || (leb 97 b && leb b 122) || b == b'_'

-- `.`
abbrev pub is_dot : ℕ → Bool
is_dot b = not (b == 10 || b == 13)

-- A literal part of a pattern.
abbrev pub literal : Bytes → List Item → List Item
literal [] is = is
literal (b ∷ t) is = once (λ c. c == b) ∷ literal t is

-- \{\{\s*for\s+(\w+)\s+in\s+(\w+)\s*\}\}(.*?)\{\{\s*endfor\s*\}\}
abbrev pub cycle_pattern : List Item
cycle_pattern = literal (codes "{{") (
    many false false is_space
    ∷ literal (codes "for") (
        plus false false is_space
        ∷ plus true false is_word
        ∷ plus false false is_space
        ∷ literal (codes "in") (
            plus false false is_space
            ∷ plus true false is_word
            ∷ many false false is_space
            ∷ literal (codes "}}") (
                many true true is_dot
                ∷ literal (codes "{{") (
                    many false false is_space
                    ∷ literal (codes "endfor")
                        (many false false is_space ∷ literal (codes "}}") []))))))

-- <!--.*?-->
abbrev pub comment_pattern : List Item
comment_pattern = literal (codes "<!--") (many false true is_dot ∷ literal (codes "-->") [])

-- >\s+<
abbrev pub gap_pattern : List Item
gap_pattern = once (λ c. c == b'>') ∷ plus false false is_space ∷ once (λ c. c == b'<') ∷ []

unfoldable pub minify_html : Bytes → Bytes
minify_html html = regex_replace gap_pattern (codes "><") (regex_replace comment_pattern [] html)

-- The loop of `find` and `replace` that goes on behind each text put in. A placeholder is never
-- empty, so the length of the text is fuel enough.
unfoldable pub replace_from : ℕ → Bytes → Bytes → Bytes → Bytes
replace_from zero placeholder value s = s
replace_from (suc fuel) placeholder value s = elim (find_bytes placeholder s) [
  | none ↦ s
  | some pos ↦
      take pos s
      ++ (value ++ replace_from fuel placeholder value (drop (length placeholder) (drop pos s)))
]

unfoldable pub replace_all : Bytes → Bytes → Bytes → Bytes
unfolding replace_from
replace_all placeholder value s = replace_from (length s) placeholder value s

abbrev pub placeholder_of : Bytes → Bytes
placeholder_of key = b'{' ∷ b'{' ∷ 32 ∷ (key ++ 32 ∷ b'}' ∷ b'}' ∷ [])

-- values.empty() ? "" : values.at(0)
abbrev pub first_value : List Bytes → Bytes
first_value [] = []
first_value (v ∷ vs) = v

-- One round of the loop of `replaceVariables`.
unfoldable pub replace_variable : Bytes → Bytes × List Bytes → Bytes
replace_variable output (key, values) = replace_all (placeholder_of key) (first_value values) output

unfoldable pub replace_variables : Bytes → Assoc (List Bytes) → Bytes
replace_variables output entries = foldl replace_variable output entries

-- The scope once for each value.
unfoldable pub expand : Bytes → Bytes → List Bytes → Bytes
expand item scope [] = []
expand item scope (value ∷ values) =
    replace_all (placeholder_of item) value scope ++ expand item scope values

expansion : Option (List Bytes) → List Bytes → Bytes → Bytes × List Bytes → Bytes
unfolding expand after_match
expansion (some values) (item ∷ list ∷ scope ∷ []) output found =
    found.0 ++ (expand item scope values ++ after_match output found)
expansion _ captured output found = output

pub list_name : List Bytes → Bytes
list_name (item ∷ list ∷ _) = list
list_name _ = []

-- One round of the loop of `replaceCycles`: an unknown list leaves the output as it is.
unfoldable pub replace_cycle : Assoc (List Bytes) → Bytes → Bytes × List Bytes → Bytes
unfolding expansion list_name
replace_cycle entries output found =
    let captured = groups cycle_pattern found.1 in
    expansion (find (list_name captured) entries) captured output found

-- `while (regex_search(…))`; `none` if the rounds are used up.
unfoldable pub replace_cycles : ℕ → Assoc (List Bytes) → Bytes → Option Bytes
replace_cycles zero entries output = none
replace_cycles (suc fuel) entries output = elim (regex_search cycle_pattern output) [
  | none ↦ some output
  | some found ↦ replace_cycles fuel entries (replace_cycle entries output found)
]

finish : Assoc (List Bytes) → Option Bytes → Option (Result Bytes)
finish entries none = none
finish entries (some output) = some (ok (minify_html (replace_variables output entries)))

-- `none` if the loop over the cycles is still running after that many rounds.
unfoldable pub render : ℕ → Option Bytes → Assoc (List Bytes) → Option (Result Bytes)
unfolding finish
render rounds none entries = some (throws (runtime_error "Could not open file"))
render rounds (some template) entries = finish entries (replace_cycles rounds entries template)
