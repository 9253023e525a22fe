-- ===== src/Regex.antt =====
-- The part of `std::regex` that the program's patterns use: a sequence of bytes of a class, each
-- once, or repeated greedily or lazily, where a repetition may be a group. Matching backtracks in
-- the order of the standard's ECMAScript grammar.
pub mod Language
pub mod Complete
use cdragon.Prelude.{
  ℕ, zero, suc, ◌+◌, Bool, true, false, Option, none, some, List, [], ◌∷◌, ◌++◌, ◌&&◌, Bytes,
  length, drop, is_empty, if◌then◌else◌,
}
use mathlib.Core.Option
use cdragon.Prelude.Assoc.{or_else}

pub data Item : Type 0 where
  once : (ℕ → Bool) → Item
  -- `*`, or `*?` if it is lazy
  many : (captured lazy : Bool) → (ℕ → Bool) → Item
  -- `+`, or `+?` if it is lazy
  plus : (captured lazy : Bool) → (ℕ → Bool) → Item

abbrev pub longer : ℕ → List Bytes → List Bytes
longer b [] = []
longer b (span ∷ spans) = (b ∷ span) ∷ spans

-- The spans of the items in the first match at the start of the text, in backtracking order;
-- `full` asks that the match end with the text.
unfoldable pub match_items : Bool → List Item → Bytes → Option (List Bytes)
match_items full [] [] = some []
match_items full [] (b ∷ s) = if full then none else some []
match_items full (once p ∷ is) [] = none
match_items full (once p ∷ is) (b ∷ s) =
    let rest = match_items full is s in if p b then Option.map (λ l. (b ∷ []) ∷ l) rest else none
match_items full (many c lazy p ∷ is) [] = Option.map (λ l. [] ∷ l) (match_items full is [])
match_items full (many c lazy p ∷ is) (b ∷ s) =
    let stop = Option.map (λ l. [] ∷ l) (match_items full is (b ∷ s)) in
    let more = Option.map (longer b) (match_items full (many c lazy p ∷ is) s) in
    let go = if p b then more else none in if lazy then or_else stop go else or_else go stop
match_items full (plus c lazy p ∷ is) [] = none
match_items full (plus c lazy p ∷ is) (b ∷ s) =
    let more = Option.map (longer b) (match_items full (many c lazy p ∷ is) s) in
    if p b then more else none

-- regex_match
abbrev pub regex_match : List Item → Bytes → Option (List Bytes)
regex_match = match_items true

-- regex_search: what stands before the first match, and its spans
unfoldable pub regex_search : List Item → Bytes → Option (Bytes × List Bytes)
regex_search is [] = Option.map (λ l. ([], l)) (match_items false is [])
regex_search is (b ∷ s) =
    let later = Option.map (λ m. (b ∷ m.0, m.1)) (regex_search is s) in
    or_else (Option.map (λ l. ([], l)) (match_items false is (b ∷ s))) later

-- The texts of the groups.
unfoldable pub groups : List Item → List Bytes → List Bytes
groups [] _ = []
groups (i ∷ is) [] = []
groups (many true lazy p ∷ is) (t ∷ ts) = t ∷ groups is ts
groups (plus true lazy p ∷ is) (t ∷ ts) = t ∷ groups is ts
groups (_ ∷ is) (t ∷ ts) = groups is ts

-- The text of a match.
unfoldable pub joined_spans : List Bytes → Bytes
joined_spans [] = []
joined_spans (t ∷ ts) = t ++ joined_spans ts

unfoldable pub after_match : Bytes → Bytes × List Bytes → Bytes
unfolding joined_spans
after_match s (before, spans) = drop (length (joined_spans spans)) (drop (length before) s)

-- regex_replace by a text without `$`, for patterns that do not match the empty text; the fuel is
-- the length of the text, since every match takes a byte.
unfoldable pub replace_from : ℕ → List Item → Bytes → Bytes → Bytes
unfolding after_match
replace_from zero is by s = s
replace_from (suc fuel) is by s = elim (regex_search is s) [
  | none ↦ s
  | some found ↦ found.0 ++ (by ++ replace_from fuel is by (after_match s found))
]

unfoldable pub regex_replace : List Item → Bytes → Bytes → Bytes
unfolding replace_from
regex_replace is by s = replace_from (length s) is by s
