-- ===== src/Regex/Complete.antt =====
-- The matcher finds a match wherever the pattern has one.
use cdragon.Prelude.{
  ℕ, ◌≡◌, ◌≢◌, ◌↔◌, ◌⊎◌, refl, Bool, true, false, Option, none, some, inl, inr, List, [], ◌∷◌, ◌++◌,
  Bytes, if◌then◌else◌, append-nil, Option-cases,
}
use mathlib.Core.Option
use cdragon.Prelude.Assoc.{or_else}
use cdragon.Regex.{Item, once, many, plus, longer, match_items, regex_match, joined_spans}
use cdragon.Regex.Language.{Fits, match_items_sound}

-- A full match ends with the text.
abbrev pub Ends : Bool → Bytes → Type 0
Ends true rest = rest ≡ []
Ends false rest = Unit

map-ne-none {ℓ κ} :
    {A : Type ℓ} {B : Type κ} (f : A → B) (o : Option A) → o ≢ none → Option.map f o ≢ none
map-ne-none f none h = absurd (h refl)
map-ne-none f (some a) h = λ e. cc

or_else-ne-none {ℓ} :
    {A : Type ℓ} (o o' : Option A) → o ≢ none → (or_else o o' ≢ none) × (or_else o' o ≢ none)
or_else-ne-none none o' h = absurd (h refl)
or_else-ne-none (some a) none h = (h, h)
or_else-ne-none (some a) (some b) h = (λ e. cc, λ e. cc)

choose-ne-none :
    (lazy : Bool) (stop go : Option (List Bytes))
    → (stop ≢ none) ⊎ (go ≢ none)
    → (if lazy then or_else stop go else or_else go stop) ≢ none
choose-ne-none true stop go (inl h) = (or_else-ne-none stop go h).0
choose-ne-none true stop go (inr h) = (or_else-ne-none go stop h).1
choose-ne-none false stop go (inl h) = (or_else-ne-none stop go h).1
choose-ne-none false stop go (inr h) = (or_else-ne-none go stop h).0

module _ (full c lazy : Bool) (p : ℕ → Bool) (is : List Item) where
  many_stop :
      (s : Bytes) → match_items full is s ≢ none → match_items full (many c lazy p ∷ is) s ≢ none
  unfolding match_items
  many_stop [] h = map-ne-none _ (match_items full is []) h
  many_stop (b ∷ s) h =
      choose-ne-none lazy _ _ (inl (map-ne-none (λ l. [] ∷ l) (match_items full is (b ∷ s)) h))

  many_go :
      (b : ℕ) (s : Bytes)
      → p b ≡ true
      → match_items full (many c lazy p ∷ is) s ≢ none
      → match_items full (many c lazy p ∷ is) (b ∷ s) ≢ none
  unfolding match_items
  many_go b s h k = rw h (
      choose-ne-none lazy _ _
        (inr (map-ne-none (longer b) (match_items full (many c lazy p ∷ is) s) k)))

  plus_go :
      (b : ℕ) (s : Bytes)
      → p b ≡ true
      → match_items full (many c lazy p ∷ is) s ≢ none
      → match_items full (plus c lazy p ∷ is) (b ∷ s) ≢ none
  unfolding match_items
  plus_go b s h k = rw h (map-ne-none (longer b) (match_items full (many c lazy p ∷ is) s) k)

  once_go :
      (b : ℕ) (s : Bytes)
      → p b ≡ true
      → match_items full is s ≢ none
      → match_items full (once p ∷ is) (b ∷ s) ≢ none
  unfolding match_items
  once_go b s h k = rw h (map-ne-none (λ l. (b ∷ []) ∷ l) (match_items full is s) k)

match_end : (full : Bool) (rest : Bytes) → Ends full rest → match_items full [] rest ≢ none
unfolding match_items
match_end full [] h = λ e. cc
match_end true (b ∷ s) h = cc
match_end false (b ∷ s) h = λ e. cc

match_items_complete :
    (full : Bool) (rest : Bytes) (is : List Item) (ts : List Bytes)
    → Ends full rest
    → Fits is ts
    → match_items full is (joined_spans ts ++ rest) ≢ none
unfolding joined_spans
match_items_complete full rest [] [] e f = match_end full rest e
match_items_complete full rest [] (t ∷ ts) e f = absurd f
match_items_complete full rest (i ∷ is) [] e f = absurd f
match_items_complete full rest (once p ∷ is) (t ∷ ts) e ((b, same, h), f) = rw same (
    once_go full true true p is b (joined_spans ts ++ rest) h
      (match_items_complete full rest is ts e f))
match_items_complete full rest (many c lazy p ∷ is) ([] ∷ ts) e (_, f) =
    many_stop full c lazy p is (joined_spans ts ++ rest) (match_items_complete full rest is ts e f)
match_items_complete full rest (many c lazy p ∷ is) ((b ∷ t) ∷ ts) e ((h, a), f) =
    many_go full c lazy p is b (joined_spans (t ∷ ts) ++ rest) h
      (match_items_complete full rest (many c lazy p ∷ is) (t ∷ ts) e (a, f))
match_items_complete full rest (plus c lazy p ∷ is) ([] ∷ ts) e ((ne, _), f) = absurd (ne refl)
match_items_complete full rest (plus c lazy p ∷ is) ((b ∷ t) ∷ ts) e ((_, (h, a)), f) =
    plus_go full c lazy p is b (joined_spans (t ∷ ts) ++ rest) h
      (match_items_complete full rest (many c lazy p ∷ is) (t ∷ ts) e (a, f))

-- `regex_match` accepts a text exactly if it is made of spans that fit the items of the pattern.
pub regex_match_iff :
    (is : List Item) (s : Bytes)
    → (regex_match is s ≢ none) ↔ ((ts : List Bytes) × Fits is ts × (joined_spans ts ≡ s))
regex_match_iff is s = (to, from)
  where
    to : regex_match is s ≢ none → (ts : List Bytes) × Fits is ts × (joined_spans ts ≡ s)
    to h = elim (Option-cases (regex_match is s)) [
      | inl e ↦ absurd (h e)
      | inr (ts, e) ↦ let (f, c) = match_items_sound true is s ts e in (ts, f, c)
    ]

    from : (ts : List Bytes) × Fits is ts × (joined_spans ts ≡ s) → regex_match is s ≢ none
    from (ts, f, same) =
        rw (append-nil (joined_spans ts), same) at (match_items_complete true [] is ts refl f)
