-- ===== src/Template/Filling.antt =====
-- include/template_renderer.h: replacing all variables of a template, whatever the order of the map.
use cdragon.Prelude.{
  none, some, ◌≡◌, refl, ap, inl, inr, List, [], ◌∷◌, arith, Bytes, Lacks, equal, map, Bool-cases,
  ◌∙◌, All, sym,
}
use cdragon.Template.{first_value, replace_variable, replace_variables}
use cdragon.Prelude.Assoc.{Assoc, find}
use cdragon.Template.Variables.{
  Part, plain, var, print, IsKey, IsPart, set_part, set_parts, replace_all-print,
}

-- A part by the whole map: a variable that the map knows becomes the first of its values.
unfoldable pub fill_part : Assoc (List Bytes) → Part → Part
fill_part entries (plain t) = plain t
fill_part entries (var j) = elim (find j entries) [
  | none ↦ var j
  | some values ↦ plain (first_value values)
]

-- A name without braces, and a value that opens none.
abbrev pub IsEntry : Bytes × List Bytes → Type 0
IsEntry (key, values) = IsKey key × Lacks b'{' (first_value values)

set_part-IsPart :
    (key value : Bytes)
    → Lacks b'{' value
    → (ps : List Part) → All IsPart ps
    → All IsPart (set_parts key value ps)
unfolding set_parts set_part
set_part-IsPart key value l [] _ = tt
set_part-IsPart key value l (plain t ∷ ps) (h, hs) = (h, set_part-IsPart key value l ps hs)
set_part-IsPart key value l (var j ∷ ps) (h, hs) = elim (Bool-cases (equal key j)) [
  | inl same ↦ rw (same) (l, set_part-IsPart key value l ps hs)
  | inr differ ↦ rw (differ) (h, set_part-IsPart key value l ps hs)
]

fill_part-set_part :
    (key : Bytes) (values : List Bytes) (entries : Assoc (List Bytes)) (p : Part)
    → fill_part entries (set_part key (first_value values) p)
      ≡ fill_part ((key, values) ∷ entries) p
unfolding fill_part set_part find
fill_part-set_part key values entries (plain t) = refl
fill_part-set_part key values entries (var j) = ground arith

map-set_parts :
    (key : Bytes) (values : List Bytes) (entries : Assoc (List Bytes)) (ps : List Part)
    → map (fill_part entries) (set_parts key (first_value values) ps)
      ≡ map (fill_part ((key, values) ∷ entries)) ps
unfolding set_parts
map-set_parts key values entries [] = refl
map-set_parts key values entries (p ∷ ps) =
    ap (λ q. q ∷ map (fill_part entries) (set_parts key (first_value values) ps))
      (fill_part-set_part key values entries p)
    ∙ ap (λ qs. fill_part ((key, values) ∷ entries) p ∷ qs) (map-set_parts key values entries ps)

fill_nothing : (ps : List Part) → map (fill_part []) ps ≡ ps
unfolding fill_part find
fill_nothing [] = refl
fill_nothing (plain t ∷ ps) = ap (λ qs. plain t ∷ qs) (fill_nothing ps)
fill_nothing (var j ∷ ps) = ap (λ qs. var j ∷ qs) (fill_nothing ps)

-- A template whose texts open no brace gets, for each variable that the map knows, the first of its
-- values, and keeps the other variables, in whatever order the map lists its entries, if no name
-- has a brace and no value opens one.
pub replace_variables-print :
    (entries : Assoc (List Bytes)) (ps : List Part)
    → All IsEntry entries
    → All IsPart ps
    → replace_variables (print ps) entries ≡ print (map (fill_part entries) ps)
unfolding replace_variables replace_variable
replace_variables-print [] ps _ _ = ap print (sym (fill_nothing ps))
replace_variables-print ((key, values) ∷ entries) ps ((k, l), es) h =
    ap (λ t. replace_variables t entries) (replace_all-print key (first_value values) ps k h)
    ∙ replace_variables-print entries (set_parts key (first_value values) ps) es
        (set_part-IsPart key (first_value values) l ps h)
    ∙ ap print (map-set_parts key values entries ps)
