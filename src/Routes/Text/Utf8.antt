-- ===== src/Routes/Text/Utf8.antt =====
-- src/router/routes.cpp: truncateUTF8 on UTF-8 and on other bytes.
use cdragon.Prelude.{
  ℕ, zero, suc, ◌+◌, ◌*◌, ◌/◌, ◌%◌, ◌≤◌, ◌<◌, ◌≡◌, refl, ◌∙◌, Bool, true, false, ◌&&◌, List, [],
  ◌∷◌, ◌++◌, arith, Bytes, All, length, take, drop, ltb, ◌==◌, ==_iff, length-append, append_assoc,
  length-take-le, take-append-drop, take-length_append, drop-length_append, Bool-cases, inl, inr,
  if◌then◌else◌,
}
use cdragon.Routes.Text.{char_len, truncate_utf8}

-- The UTF-8 of a code point.
unfoldable pub encode_char : ℕ → Bytes
encode_char c =
    if ltb c 0x80
    then c ∷ []
    else if ltb c 0x800
    then (0xC0 + c / 64) ∷ (0x80 + c % 64) ∷ []
    else if ltb c 0x10000
    then (0xE0 + c / 4096) ∷ (0x80 + c / 64 % 64) ∷ (0x80 + c % 64) ∷ []
    else (0xF0 + c / 262144) ∷ (0x80 + c / 4096 % 64) ∷ (0x80 + c / 64 % 64) ∷ (0x80 + c % 64) ∷ []

unfoldable pub encode : List ℕ → Bytes
unfolding encode_char
encode [] = []
encode (c ∷ cs) = encode_char c ++ encode cs

abbrev pub IsCodePoint : ℕ → Type 0
IsCodePoint c = c < 0x110000

all_below : ℕ → (ℕ → Bool) → Bool
all_below zero p = true
all_below (suc n) p = p n && all_below n p

below : (n : ℕ) (p : ℕ → Bool) (x : ℕ) → all_below n p ≡ true → x < n → p x ≡ true
unfolding all_below
below zero p x h lt = absurd (omega arith)
below (suc n) p x h lt = ground (arith, below n p x)

-- The length that a byte announces, by its range; a byte that starts no character counts as one.
announced : ℕ → ℕ
announced c =
    if ltb c 192
    then 1
    else if ltb c 224
    then 2
    else if ltb c 240
    then 3
    else if ltb c 248
    then 4
    else 1

char_len_table : all_below 256 (λ c. char_len c == announced c) ≡ true
char_len_table = unfold all_below char_len announced in refl

char_len-announced : (c : ℕ) → c < 256 → char_len c ≡ announced c
char_len-announced c lt = (==_iff _ _).0 (below 256 _ c char_len_table lt)

leads :
    (c : ℕ)
    → IsCodePoint c
    → (b : ℕ) × (t : Bytes) × (encode_char c ≡ b ∷ t) × (char_len b ≡ suc (length t))
unfolding encode_char announced
leads c h = elim (Bool-cases (ltb c 0x80)) [
  | inl one ↦ (c, [], rw (one) refl, char_len-announced c (ground arith) ∙ ground arith)
  | inr more ↦ elim (Bool-cases (ltb c 0x800)) [
    | inl two ↦ (
      0xC0 + c / 64,
      (0x80 + c % 64) ∷ [],
      rw (more) (rw (two) refl),
      char_len-announced (0xC0 + c / 64) (ground arith) ∙ ground arith,
    )
    | inr most ↦ elim (Bool-cases (ltb c 0x10000)) [
      | inl three ↦ (
        0xE0 + c / 4096,
        (0x80 + c / 64 % 64) ∷ (0x80 + c % 64) ∷ [],
        rw (more) (rw (most) (rw (three) refl)),
        char_len-announced (0xE0 + c / 4096) (ground arith) ∙ ground arith,
      )
      | inr all ↦ (
        0xF0 + c / 262144,
        (0x80 + c / 4096 % 64) ∷ (0x80 + c / 64 % 64) ∷ (0x80 + c % 64) ∷ [],
        rw (more) (rw (most) (rw (all) refl)),
        char_len-announced (0xF0 + c / 262144) (ground arith) ∙ ground arith,
      )
    ]
  ]
]

truncate_char :
    (b : ℕ) (t s : Bytes) (n : ℕ)
    → char_len b ≡ suc (length t)
    → truncate_utf8 ((b ∷ t) ++ s) (suc n) ≡ (b ∷ t) ++ truncate_utf8 s n
unfolding truncate_utf8
truncate_char b t s n e =
    rw (e) (rw (take-length_append t s) (rw (drop-length_append t s) (rw (not_short t s) refl)))
  where
    not_short : (t s : Bytes) → ltb (suc (length (t ++ s))) (suc (length t)) ≡ false
    not_short t s = ground (arith, length-append t s)

truncate-encode_char :
    (c : ℕ) (s : Bytes) (n : ℕ)
    → IsCodePoint c
    → truncate_utf8 (encode_char c ++ s) (suc n) ≡ encode_char c ++ truncate_utf8 s n
truncate-encode_char c s n h = let (b, t, e, l) = leads c h in rw (e) (truncate_char b t s n l)

truncate_none : (s : Bytes) → truncate_utf8 s 0 ≡ []
unfolding truncate_utf8
truncate_none s = refl

truncate_nothing : (n : ℕ) → truncate_utf8 [] n ≡ []
unfolding truncate_utf8
truncate_nothing zero = refl
truncate_nothing (suc n) = refl

-- Of a text in UTF-8, `truncateUTF8` keeps the first characters, whole ones only.
pub truncate_utf8-encode :
    (cs : List ℕ) (n : ℕ) → All IsCodePoint cs → truncate_utf8 (encode cs) n ≡ encode (take n cs)
unfolding encode
truncate_utf8-encode [] zero h = truncate_none []
truncate_utf8-encode [] (suc n) h = truncate_nothing (suc n)
truncate_utf8-encode (c ∷ cs) zero h = truncate_none (encode (c ∷ cs))
truncate_utf8-encode (c ∷ cs) (suc n) (p, h) =
    truncate-encode_char c (encode cs) n p ∙ rw (truncate_utf8-encode cs n h)

char_len-bounds : (c : ℕ) → (1 ≤ char_len c) × (char_len c ≤ 4)
unfolding char_len
char_len-bounds c = ground arith

-- Of any bytes, `truncateUTF8` keeps a beginning, of at most four bytes for each character.
pub truncate_utf8-bounds :
    (s : Bytes) (n : ℕ)
    → (length (truncate_utf8 s n) ≤ 4 * n) × ((t : Bytes) × (truncate_utf8 s n ++ t ≡ s))
unfolding truncate_utf8
truncate_utf8-bounds s zero = (omega arith, (s, refl))
truncate_utf8-bounds [] (suc n) = (omega arith, ([], refl))
truncate_utf8-bounds (c ∷ s) (suc n) = elim (Bool-cases (ltb (length (c ∷ s)) (char_len c))) [
  | inl short ↦ rw (short) (omega arith, (c ∷ s, refl))
  | inr fits ↦
      let l = char_len c in
      let (le, (t, e)) = truncate_utf8-bounds (drop l (c ∷ s)) n in
      rw (fits) (
        omega (
          arith,
          le,
          char_len-bounds c,
          length-append (take l (c ∷ s)) (truncate_utf8 (drop l (c ∷ s)) n),
          length-take-le l (c ∷ s),
        ),
        (t, append_assoc (take l (c ∷ s)) _ t ∙ rw (e) (take-append-drop l (c ∷ s))),
      )
]
