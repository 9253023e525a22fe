-- ===== src/Http/Request/Trim.antt =====
-- `trim` of http_request.cpp removes the blanks at both ends and nothing else.
use cdragon.Prelude.{
  ℕ, zero, suc, ◌≡◌, refl, ◌∙◌, ap, true, false, none, some, inl, inr, [], ◌∷◌, ◌++◌, arith, take,
  Bytes, All, if◌then◌else◌, Bool-cases, Option-cases,
}
use cdragon.Http.Request.{is_blank, find_first_not_blank, find_last_not_blank, trim}

-- The text without the blanks in front.
unfoldable pub strip_left : Bytes → Bytes
strip_left [] = []
strip_left (b ∷ s) = let rest = strip_left s in if is_blank b then rest else b ∷ s

abbrev keep_unless_blank : ℕ → Bytes → Bytes
keep_unless_blank b [] = if is_blank b then [] else b ∷ []
keep_unless_blank b (c ∷ s) = b ∷ c ∷ s

-- The text without the blanks at its end.
unfoldable pub strip_right : Bytes → Bytes
strip_right [] = []
strip_right (b ∷ s) = keep_unless_blank b (strip_right s)

last_none : (s : Bytes) → find_last_not_blank s ≡ none → strip_right s ≡ []
unfolding find_last_not_blank strip_right
last_none [] e = refl
last_none (b ∷ s) e = ground (arith, last_none s)

last_some :
    (s : Bytes) (n : ℕ)
    → find_last_not_blank s ≡ some n
    → (take (suc n) s ≡ strip_right s) × (strip_right s ≡ [] → ⊥)
unfolding find_last_not_blank strip_right
last_some [] n e = cc
last_some (b ∷ s) zero e = ground (arith, last_none s)
last_some (b ∷ s) (suc n) e = ground (arith, last_some s n)

first_none : (s : Bytes) → find_last_not_blank s ≡ none → find_first_not_blank s ≡ none
unfolding find_last_not_blank find_first_not_blank
first_none [] e = refl
first_none (b ∷ s) e = ground (arith, first_none s)

last_of_first :
    (s : Bytes) (n : ℕ)
    → find_first_not_blank s ≡ some n
    → (m : ℕ) × (find_last_not_blank s ≡ some m)
last_of_first s n e = elim (Option-cases (find_last_not_blank s)) [
  | inl missing ↦ cc (first_none s missing)
  | inr found ↦ found
]

trim_nonblank : (b : ℕ) (s : Bytes) → is_blank b ≡ false → trim (b ∷ s) ≡ strip_right (b ∷ s)
unfolding trim
trim_nonblank b s h =
    let (m, e) = last_of_first (b ∷ s) 0 (unfold find_first_not_blank in ground arith) in
    ground (arith, last_some (b ∷ s) m e)

trim_blank : (b : ℕ) (s : Bytes) → is_blank b ≡ true → trim (b ∷ s) ≡ trim s
unfolding trim
trim_blank b s h = elim (Option-cases (find_first_not_blank s)) [
  | inl e ↦ ground (arith)
  | inr (n, e) ↦ let (m, e') = last_of_first s n e in ground arith
]

pub trim-eq-strip : (s : Bytes) → trim s ≡ strip_right (strip_left s)
unfolding strip_left
trim-eq-strip [] = unfold trim strip_right in refl
trim-eq-strip (b ∷ s) = elim (Bool-cases (is_blank b)) [
  | inl e ↦ rw e (trim_blank b s e ∙ trim-eq-strip s)
  | inr e ↦ rw e (trim_nonblank b s e)
]

abbrev pub IsBlank : ℕ → Type 0
IsBlank b = is_blank b ≡ true

-- The first byte, if there is one, is not blank.
abbrev pub HeadClear : Bytes → Type 0
HeadClear [] = Unit
HeadClear (b ∷ s) = is_blank b ≡ false

-- The last byte, if there is one, is not blank.
abbrev pub LastClear : Bytes → Type 0
LastClear [] = Unit
LastClear (b ∷ []) = is_blank b ≡ false
LastClear (b ∷ c ∷ s) = LastClear (c ∷ s)

strip_left_parts :
    (s : Bytes) → (a : Bytes) × (s ≡ a ++ strip_left s) × All IsBlank a × HeadClear (strip_left s)
unfolding strip_left
strip_left_parts [] = ([], refl, tt, tt)
strip_left_parts (b ∷ s) = elim (Bool-cases (is_blank b)) [
  | inl e ↦ rw e (
      let (a, same, blank, clear) = strip_left_parts s in
      (b ∷ a, ap (λ t. b ∷ t) same, (e, blank), clear))
  | inr e ↦ rw e ([], refl, tt, e)
]

keep_clear : (b : ℕ) (t : Bytes) → LastClear t → LastClear (keep_unless_blank b t)
keep_clear b [] h = ground arith
keep_clear b (c ∷ t) h = h

keep_parts :
    (b : ℕ) (t z : Bytes)
    → All IsBlank z
    → (z' : Bytes) × (b ∷ (t ++ z) ≡ keep_unless_blank b t ++ z') × All IsBlank z'
keep_parts b [] z h = elim (Bool-cases (is_blank b)) [
  | inl e ↦ rw e (b ∷ z, refl, (e, h))
  | inr e ↦ rw e (z, refl, h)
]
keep_parts b (c ∷ t) z h = (z, refl, h)

strip_right_parts :
    (s : Bytes) → (z : Bytes) × (s ≡ strip_right s ++ z) × All IsBlank z × LastClear (strip_right s)
unfolding strip_right
strip_right_parts [] = ([], refl, tt, tt)
strip_right_parts (b ∷ s) =
    let (z, same, blank, clear) = strip_right_parts s in
    let (z', same', blank') = keep_parts b (strip_right s) z blank in
    (z', ap (λ t. b ∷ t) same ∙ same', blank', keep_clear b (strip_right s) clear)

head_of_keep : (b : ℕ) (t : Bytes) → is_blank b ≡ false → HeadClear (keep_unless_blank b t)
head_of_keep b [] h = ground arith
head_of_keep b (c ∷ t) h = h

strip_right-HeadClear : (s : Bytes) → HeadClear s → HeadClear (strip_right s)
unfolding strip_right
strip_right-HeadClear [] h = tt
strip_right-HeadClear (b ∷ s) h = head_of_keep b (strip_right s) h

-- Every text is blanks, its trimmed form, and blanks; the trimmed form begins and ends with no
-- blank.
pub trim_parts :
    (s : Bytes)
    → (a z : Bytes) × (s ≡ a ++ (trim s ++ z))
      × All IsBlank a
      × All IsBlank z
      × HeadClear (trim s)
      × LastClear (trim s)
trim_parts s =
    let (a, front, blank, clear) = strip_left_parts s in
    let (z, back, blank', clear') = strip_right_parts (strip_left s) in
    rw (trim-eq-strip s) (
      a,
      z,
      front ∙ ap (λ t. a ++ t) back,
      blank,
      blank',
      strip_right-HeadClear (strip_left s) clear,
      clear',
    )

strip_left_clear : (s : Bytes) → HeadClear s → strip_left s ≡ s
unfolding strip_left
strip_left_clear [] h = refl
strip_left_clear (b ∷ s) h = ground arith

strip_left-append : (a s : Bytes) → All IsBlank a → strip_left (a ++ s) ≡ strip_left s
unfolding strip_left
strip_left-append [] s _ = refl
strip_left-append (b ∷ a) s (e, h) = rw e (strip_left-append a s h)

strip_right_blank : (z : Bytes) → All IsBlank z → strip_right z ≡ []
unfolding strip_right
strip_right_blank [] _ = refl
strip_right_blank (b ∷ z) (e, h) = rw (strip_right_blank z h, e)

strip_right-append : (s z : Bytes) → LastClear s → All IsBlank z → strip_right (s ++ z) ≡ s
unfolding strip_right
strip_right-append [] z c h = strip_right_blank z h
strip_right-append (b ∷ []) z c h = rw (strip_right_blank z h, c)
strip_right-append (b ∷ d ∷ s) z c h = rw (strip_right-append (d ∷ s) z c h)

strip_left_blank : (z : Bytes) → All IsBlank z → strip_left z ≡ []
unfolding strip_left
strip_left_blank [] _ = refl
strip_left_blank (b ∷ z) (e, h) = rw e (strip_left_blank z h)

-- Blanks round a text that begins and ends with none are what `trim` takes off.
pub trim-append :
    (a s z : Bytes)
    → All IsBlank a
    → All IsBlank z
    → HeadClear s
    → LastClear s
    → trim (a ++ (s ++ z)) ≡ s
trim-append a [] z ha hz hc lc =
    trim-eq-strip (a ++ z)
    ∙ rw (strip_left-append a z ha, strip_left_blank z hz) (unfold strip_right in refl)
trim-append a (b ∷ s) z ha hz hc lc =
    trim-eq-strip (a ++ (b ∷ s ++ z))
    ∙ rw (strip_left-append a (b ∷ s ++ z) ha, strip_left_clear (b ∷ s ++ z) hc)
        (strip_right-append (b ∷ s) z lc hz)
