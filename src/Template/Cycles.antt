-- ===== src/Template/Cycles.antt =====
-- When the loop over the cycles ends.
use cdragon.Prelude.{ℕ, zero, suc, ◌≡◌, refl, none, some, List, Bytes}
use cdragon.Prelude.Assoc.{Assoc, find}
use cdragon.Prelude.Result.{ok}
use cdragon.Regex.{regex_search, groups}
use cdragon.Template.{
  cycle_pattern, list_name, replace_cycle, replace_cycles, replace_variables, minify_html, render,
}

-- The first cycle of a text names a list that the data does not have.
abbrev pub HasUnknownList : Assoc (List Bytes) → Bytes → Type 0
HasUnknownList entries output =
    (found : Bytes × List Bytes) × (regex_search cycle_pattern output ≡ some found)
    × (find (list_name (groups cycle_pattern found.1)) entries ≡ none)

unchanged :
    (entries : Assoc (List Bytes)) (output : Bytes) (found : Bytes × List Bytes)
    → find (list_name (groups cycle_pattern found.1)) entries ≡ none
    → replace_cycle entries output found ≡ output
unfolding replace_cycle
unchanged entries output found e = rw e

stuck :
    (fuel : ℕ) (entries : Assoc (List Bytes)) (output : Bytes) (found : Bytes × List Bytes)
    → regex_search cycle_pattern output ≡ some found
    → find (list_name (groups cycle_pattern found.1)) entries ≡ none
    → replace_cycles fuel entries output ≡ none
unfolding replace_cycles
stuck zero entries output found e missing = refl
stuck (suc fuel) entries output found e missing =
    rw (e, replace_cycles)
      (rw (unchanged entries output found missing) (stuck fuel entries output found e missing))

-- A template whose first cycle names an unknown list is never rendered, however long it runs.
pub render_never_ends :
    (rounds : ℕ) (entries : Assoc (List Bytes)) (template : Bytes)
    → HasUnknownList entries template
    → render rounds (some template) entries ≡ none
unfolding render
render_never_ends rounds entries template (found, e, missing) =
    rw (stuck rounds entries template found e missing)

-- Without a cycle the template's variables are replaced and the result is minified, in one round.
pub render_no_cycle :
    (rounds : ℕ) (entries : Assoc (List Bytes)) (template : Bytes)
    → regex_search cycle_pattern template ≡ none
    → render (suc rounds) (some template) entries
      ≡ some (ok (minify_html (replace_variables template entries)))
unfolding render replace_cycles
render_no_cycle rounds entries template e = rw (e, replace_cycles)
