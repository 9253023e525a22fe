-- ===== src/Regex/Language.antt =====
-- The matcher decides the language of a pattern.
use cdragon.Prelude.{
  ℕ, ◌≡◌, ◌≢◌, refl, ◌∙◌, ap, Bool, true, false, Option, none, some, List, [], ◌∷◌, ◌++◌, Bytes,
  All, if◌then◌else◌, append_assoc,
}
use mathlib.Core.Option
use cdragon.Prelude.Assoc.{or_else}
use cdragon.Regex.{Item, once, many, plus, longer, match_items, joined_spans}

abbrev pub IsIn : (ℕ → Bool) → ℕ → Type 0
IsIn p b = p b ≡ true

-- The texts that an item stands for.
abbrev pub Stands : Item → Bytes → Type 0
Stands (once p) t = (b : ℕ) × (t ≡ b ∷ []) × IsIn p b
Stands (many c lazy p) t = All (IsIn p) t
Stands (plus c lazy p) t = (t ≢ []) × All (IsIn p) t

-- Spans that fit the items one by one.
abbrev pub Fits : List Item → List Bytes → Type 0
Fits [] [] = Unit
Fits [] (t ∷ ts) = ⊥
Fits (i ∷ is) [] = ⊥
Fits (i ∷ is) (t ∷ ts) = Stands i t × Fits is ts

-- A text that the spans begin, or make up.
abbrev pub Covers : Bool → List Bytes → Bytes → Type 0
Covers true ts s = joined_spans ts ≡ s
Covers false ts s = (rest : Bytes) × (joined_spans ts ++ rest ≡ s)

Covers-cons :
    (full : Bool) (t : Bytes) (ts : List Bytes) (s : Bytes)
    → Covers full ts s
    → Covers full (t ∷ ts) (t ++ s)
unfolding joined_spans
Covers-cons true t ts s e = ap (λ u. t ++ u) e
Covers-cons false t ts s (rest, e) =
    (rest, append_assoc t (joined_spans ts) rest ∙ ap (λ u. t ++ u) e)

abbrev Found : Bool → List Item → Bytes → List Bytes → Type 0
Found full is s ts = Fits is ts × Covers full ts s

longer-Found :
    (full c lazy : Bool) (p : ℕ → Bool) (is : List Item) (b : ℕ) (s : Bytes) (ts : List Bytes)
    → p b ≡ true
    → Found full (many c lazy p ∷ is) s ts
    → Found full (many c lazy p ∷ is) (b ∷ s) (longer b ts)
      × Found full (plus c lazy p ∷ is) (b ∷ s) (longer b ts)
longer-Found full c lazy p is b s [] h (f, e) = absurd f
longer-Found true c lazy p is b s (t ∷ ts) h ((a, f), e) =
    let cover : joined_spans ((b ∷ t) ∷ ts) ≡ b ∷ s = (unfold joined_spans in ap (λ u. b ∷ u) e) in
    ((((h, a), f), cover), ((((λ q. cc), (h, a)), f), cover))
longer-Found false c lazy p is b s (t ∷ ts) h ((a, f), (rest, e)) =
    let cover : joined_spans ((b ∷ t) ∷ ts) ++ rest ≡ b ∷ s =
      (unfold joined_spans in ap (λ u. b ∷ u) e) in
    ((((h, a), f), (rest, cover)), ((((λ q. cc), (h, a)), f), (rest, cover)))

-- What a result says: nothing, or spans that are found.
abbrev Sound : Bool → List Item → Bytes → Option (List Bytes) → Type 0
Sound full is s none = Unit
Sound full is s (some ts) = Found full is s ts

Sound-or_else :
    (full : Bool) (is : List Item) (s : Bytes) (o o' : Option (List Bytes))
    → Sound full is s o
    → Sound full is s o'
    → Sound full is s (or_else o o')
Sound-or_else full is s none o' h k = k
Sound-or_else full is s (some ts) o' h k = h

Sound-if :
    (full : Bool) (is : List Item) (s : Bytes) (b : Bool) (o : Option (List Bytes))
    → (b ≡ true → Sound full is s o)
    → Sound full is s (if b then o else none)
Sound-if full is s true o h = h refl
Sound-if full is s false o h = tt

Sound-once :
    (full : Bool) (p : ℕ → Bool) (is : List Item) (b : ℕ) (s : Bytes) (o : Option (List Bytes))
    → p b ≡ true
    → Sound full is s o
    → Sound full (once p ∷ is) (b ∷ s) (Option.map (λ l. (b ∷ []) ∷ l) o)
Sound-once full p is b s none h k = tt
Sound-once full p is b s (some ts) h (f, e) = (((b, refl, h), f), Covers-cons full (b ∷ []) ts s e)

Sound-stop :
    (full c lazy : Bool) (p : ℕ → Bool) (is : List Item) (s : Bytes) (o : Option (List Bytes))
    → Sound full is s o
    → Sound full (many c lazy p ∷ is) s (Option.map (λ l. [] ∷ l) o)
Sound-stop full c lazy p is s none k = tt
Sound-stop full c lazy p is s (some ts) (f, e) = ((tt, f), Covers-cons full [] ts s e)

Sound-more :
    (full c lazy : Bool) (p : ℕ → Bool) (is : List Item) (b : ℕ) (s : Bytes)
    (o : Option (List Bytes))
    → p b ≡ true
    → Sound full (many c lazy p ∷ is) s o
    → Sound full (many c lazy p ∷ is) (b ∷ s) (Option.map (longer b) o)
      × Sound full (plus c lazy p ∷ is) (b ∷ s) (Option.map (longer b) o)
Sound-more full c lazy p is b s none h k = (tt, tt)
Sound-more full c lazy p is b s (some ts) h k = longer-Found full c lazy p is b s ts h k

Sound-many :
    (full lazy : Bool) (is : List Item) (s : Bytes) (stop go : Option (List Bytes))
    → Sound full is s stop
    → Sound full is s go
    → Sound full is s (if lazy then or_else stop go else or_else go stop)
Sound-many full true is s stop go h k = Sound-or_else full is s stop go h k
Sound-many full false is s stop go h k = Sound-or_else full is s go stop k h

Sound-end :
    (full : Bool) (b : ℕ) (s : Bytes) → Sound full [] (b ∷ s) (if full then none else some [])
unfolding joined_spans
Sound-end true b s = tt
Sound-end false b s = (tt, (b ∷ s, refl))

Sound-nil : (full : Bool) → Sound full [] [] (some [])
unfolding joined_spans
Sound-nil true = (tt, refl)
Sound-nil false = (tt, ([], refl))

match_items-Sound :
    (full : Bool) (is : List Item) (s : Bytes) → Sound full is s (match_items full is s)
unfolding match_items
match_items-Sound full [] [] = Sound-nil full
match_items-Sound full [] (b ∷ s) = Sound-end full b s
match_items-Sound full (once p ∷ is) [] = tt
match_items-Sound full (once p ∷ is) (b ∷ s) =
    Sound-if full (once p ∷ is) (b ∷ s) (p b) _
      (λ h. Sound-once full p is b s (match_items full is s) h (match_items-Sound full is s))
match_items-Sound full (many c lazy p ∷ is) [] =
    Sound-stop full c lazy p is [] (match_items full is []) (match_items-Sound full is [])
match_items-Sound full (many c lazy p ∷ is) (b ∷ s) =
    let later = match_items-Sound full (many c lazy p ∷ is) s in
    Sound-many full lazy (many c lazy p ∷ is) (b ∷ s) _ _
      (Sound-stop full c lazy p is (b ∷ s) (match_items full is (b ∷ s))
        (match_items-Sound full is (b ∷ s)))
      (Sound-if full (many c lazy p ∷ is) (b ∷ s) (p b) _ (λ h.
        (Sound-more full c lazy p is b s (match_items full (many c lazy p ∷ is) s) h later).0))
match_items-Sound full (plus c lazy p ∷ is) [] = tt
match_items-Sound full (plus c lazy p ∷ is) (b ∷ s) =
    let later = match_items-Sound full (many c lazy p ∷ is) s in
    Sound-if full (plus c lazy p ∷ is) (b ∷ s) (p b) _
      (λ h. (Sound-more full c lazy p is b s (match_items full (many c lazy p ∷ is) s) h later).1)

-- Spans that the matcher returns fit the pattern, and begin the text or make it up.
pub match_items_sound :
    (full : Bool) (is : List Item) (s : Bytes) (ts : List Bytes)
    → match_items full is s ≡ some ts
    → Fits is ts × Covers full ts s
match_items_sound full is s ts e = rw e at (match_items-Sound full is s)
