-- ===== src/Router/Registration.antt =====
-- How `addDynamicRoute` turns a path with parameters into a pattern.
use cdragon.Prelude.{
  ℕ, zero, suc, ◌≤◌, ◌<◌, ◌≡◌, ◌≢◌, refl, ◌∙◌, ap, false, none, some, inl, inr, List, [], ◌∷◌, ◌++◌,
  arith, Bytes, All, length, length-append, drop, drop-length_append, ◌==◌, Option-cases,
  append_assoc,
}
use mathlib.Core.Option
use cdragon.Regex.{
  Item, once, many, match_items, regex_search, regex_replace, replace_from, after_match,
  joined_spans,
}
use cdragon.Router.{not_slash, parameter_pattern, group_text, compile, read_regex}
use cdragon.Router.Pattern.{
  Segment, text, param, written, IsPlain, NotSlash, IsSegment, grouped, items, read_regex-grouped,
  EndsSegment, written-EndsSegment,
}

abbrev closing : List Item
closing = once (λ b. b == b'>') ∷ []

no_closing :
    (s : Bytes) → EndsSegment s → match_items false (many false false not_slash ∷ closing) s ≡ none
unfolding match_items
no_closing [] _ = refl
no_closing (b ∷ s) slash = rw slash

match_end : (s : Bytes) → match_items false [] s ≡ some []
unfolding match_items
match_end [] = refl
match_end (b ∷ s) = refl

match_closing :
    (name s : Bytes)
    → All NotSlash name
    → EndsSegment s
    → match_items false (many false false not_slash ∷ closing) (name ++ b'>' ∷ s)
      ≡ some (name ∷ (b'>' ∷ []) ∷ [])
unfolding match_items
match_closing [] s _ ends = rw (no_closing s ends) (rw (match_end s))
match_closing (b ∷ name) s (p, h) ends = rw p (rw (match_closing name s h ends))

match_parameter :
    (name s : Bytes)
    → name ≢ []
    → All NotSlash name
    → EndsSegment s
    → match_items false parameter_pattern (b'<' ∷ (name ++ b'>' ∷ s))
      ≡ some ((b'<' ∷ []) ∷ name ∷ (b'>' ∷ []) ∷ [])
unfolding match_items
match_parameter [] s ne _ _ = absurd (ne refl)
match_parameter (b ∷ name) s ne (p, h) ends = rw p (rw (match_closing name s h ends))

no_parameter : (b : ℕ) (s : Bytes) → b ≢ b'<' → match_items false parameter_pattern (b ∷ s) ≡ none
unfolding match_items
no_parameter b s ne = ground arith

search_copies :
    (b : ℕ) (s : Bytes)
    → b ≢ b'<'
    → regex_search parameter_pattern (b ∷ s)
      ≡ Option.map (λ m. (b ∷ m.0, m.1)) (regex_search parameter_pattern s)
unfolding regex_search
search_copies b s ne = rw (no_parameter b s ne)

abbrev replaced : ℕ → Bytes → Bytes
replaced fuel s = replace_from fuel parameter_pattern group_text s

-- A byte that opens no parameter is copied.
replace_copies :
    (fuel b : ℕ) (s : Bytes) → b ≢ b'<' → replaced (suc fuel) (b ∷ s) ≡ b ∷ replaced (suc fuel) s
unfolding replace_from after_match
replace_copies fuel b s ne = elim (Option-cases (regex_search parameter_pattern s)) [
  | inl e ↦ rw (search_copies b s ne, replace_from) (rw (e, replace_from))
  | inr (m, e) ↦ rw (search_copies b s ne, replace_from) (rw (e, replace_from))
]

replace_copies-All :
    (fuel : ℕ) (t s : Bytes)
    → All IsPlain t
    → replaced (suc fuel) (t ++ s) ≡ t ++ replaced (suc fuel) s
replace_copies-All fuel [] s _ = refl
replace_copies-All fuel (b ∷ t) s ((_, _, ne), h) =
    replace_copies fuel b (t ++ s) ne ∙ ap (λ u. b ∷ u) (replace_copies-All fuel t s h)

drop_parameter :
    (name s : Bytes)
    → drop
        (length (joined_spans ((b'<' ∷ []) ∷ name ∷ (b'>' ∷ []) ∷ [])))
        (b'<' ∷ (name ++ b'>' ∷ s))
      ≡ s
unfolding joined_spans
drop_parameter name s =
    rw (← append_assoc name (b'>' ∷ []) s) (drop-length_append (name ++ b'>' ∷ []) s)

replace_parameter :
    (fuel : ℕ) (name s : Bytes)
    → name ≢ []
    → All NotSlash name
    → EndsSegment s
    → replaced (suc fuel) (b'<' ∷ (name ++ b'>' ∷ s)) ≡ group_text ++ replaced fuel s
unfolding replace_from regex_search after_match
replace_parameter fuel name s ne h ends =
    rw (match_parameter name s ne h ends, replace_from)
      (ap (λ u. group_text ++ replaced fuel u) (drop_parameter name s))

-- The parameters of a route.
abbrev parameters : List Segment → ℕ
parameters [] = 0
parameters (text t ∷ r) = parameters r
parameters (param name ∷ r) = suc (parameters r)

replace-written :
    (fuel : ℕ) (r : List Segment)
    → All IsSegment r
    → parameters r < fuel
    → replaced fuel (written r) ≡ grouped r
unfolding written grouped
replace-written zero r h lt = absurd (omega arith)
replace-written (suc fuel) [] h lt = unfold replace_from regex_search match_items in refl
replace-written (suc fuel) (text t ∷ r) (h, k) lt =
    replace_copies fuel b'/' (t ++ written r) (omega arith)
    ∙ ap (λ u. b'/' ∷ u)
        (replace_copies-All fuel t (written r) h
          ∙ ap (λ u. t ++ u) (replace-written (suc fuel) r k lt))
replace-written (suc fuel) (param name ∷ r) ((ne, h), k) lt =
    replace_copies fuel b'/' (b'<' ∷ (name ++ b'>' ∷ written r)) (omega arith)
    ∙ ap (λ u. b'/' ∷ u)
        (replace_parameter fuel name (written r) ne h (written-EndsSegment r)
          ∙ ap (λ u. group_text ++ u) (replace-written fuel r k (omega arith)))

parameters-le : (r : List Segment) → parameters r ≤ length (written r)
unfolding written
parameters-le [] = omega arith
parameters-le (text t ∷ r) = omega (arith, parameters-le r, length-append t (written r))
parameters-le (param name ∷ r) =
    omega (arith, parameters-le r, length-append name (b'>' ∷ written r))

parameters-lt : (s : Segment) (r : List Segment) → parameters (s ∷ r) < length (written (s ∷ r))
unfolding written
parameters-lt (text t) r = omega (arith, parameters-le r, length-append t (written r))
parameters-lt (param name) r = omega (arith, parameters-le r, length-append name (b'>' ∷ written r))

-- Every path of plain segments and parameters is registered, with a group for each parameter.
pub compile-written : (r : List Segment) → All IsSegment r → compile (written r) ≡ some (items r)
unfolding compile regex_replace
compile-written [] h = unfold written replace_from items read_regex in refl
compile-written (s ∷ r) h =
    rw (replace-written (length (written (s ∷ r))) (s ∷ r) h (parameters-lt s r))
      (read_regex-grouped (s ∷ r) h)
