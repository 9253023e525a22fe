-- ===== src/Routes/Text/Spans.antt =====
-- src/router/routes.cpp: renderSpanText, the words of a title, each in a span.
use cdragon.Prelude.{
  ℕ, zero, suc, ◌-◌, ◌<◌, ◌≡◌, refl, ◌∙◌, sym, ap, Bool, true, false, ◌&&◌, some, List, [], ◌∷◌,
  ◌++◌, arith, Bytes, codes, All, length, take, get_elem?, ltb, append_assoc, append-nil,
  length-append, take-length_append, drop-length_append, starts_with, if◌then◌else◌,
}
use cdragon.Prelude.Numerals.{pos}
use cdragon.Routes.Text.{
  words, open_span, close_span, wrapped, rfind_bytes, is_high, with_dots, render_words,
  render_span_text,
}
use cdragon.Routes.Text.Utf8.{encode, encode_char, IsCodePoint, truncate_utf8-encode}

-- The last byte of a word is none of ASCII.
abbrev pub ends_high : Bytes → Bool
ends_high [] = false
ends_high (b ∷ []) = ltb 0x7F b
ends_high (b ∷ c ∷ w) = ends_high (c ∷ w)

-- Each word in a span; dots stand at the end of the last one.
unfoldable pub marked : Bool → List Bytes → Bytes
marked cut [] = []
marked cut (w ∷ []) =
    open_span ++ w ++ (if cut && ends_high w then codes "..." else []) ++ close_span
marked cut (w ∷ v ∷ ws) = open_span ++ w ++ close_span ++ marked cut (v ∷ ws)

-- What stands before the last `</span>`, and the last word in it.
before : Bytes → List Bytes → Bytes
before w [] = open_span ++ w
before w (v ∷ ws) = open_span ++ w ++ close_span ++ before v ws

last_word : Bytes → List Bytes → Bytes
last_word w [] = w
last_word w (v ∷ ws) = last_word v ws

wrapped-before : (w : Bytes) (ws : List Bytes) → wrapped (w ∷ ws) ≡ before w ws ++ close_span
unfolding wrapped before
wrapped-before w [] = simp (append_assoc, append-nil)
wrapped-before w (v ∷ ws) =
    ap (λ t. open_span ++ w ++ close_span ++ t) (wrapped-before v ws) ∙ simp (append_assoc)

marked-before :
    (cut : Bool) (w : Bytes) (ws : List Bytes)
    → marked cut (w ∷ ws)
      ≡ before w ws ++ (if cut && ends_high (last_word w ws) then codes "..." else []) ++ close_span
unfolding marked before last_word
marked-before cut w [] = simp (append_assoc)
marked-before cut w (v ∷ ws) = simp (append_assoc, marked-before cut v ws)

rfind_end : (s : Bytes) → rfind_bytes close_span (s ++ close_span) ≡ some (length s)
unfolding rfind_bytes
rfind_end [] = unfold starts_with in refl
rfind_end (b ∷ s) = rw (rfind_end s) refl

ends_high-append : (s t : Bytes) → 0 < length t → ends_high (s ++ t) ≡ ends_high t
ends_high-append [] t h = refl
ends_high-append (b ∷ []) [] h = absurd (omega (arith, h))
ends_high-append (b ∷ []) (c ∷ t) h = refl
ends_high-append (b ∷ c ∷ s) t h = ends_high-append (c ∷ s) t h

length-before : (w : Bytes) (ws : List Bytes) → 0 < length (before w ws)
unfolding before
length-before w [] = omega arith
length-before w (v ∷ ws) = omega arith

ends_high_empty : (w : Bytes) → ends_high (open_span ++ w) ≡ ends_high w
ends_high_empty [] = refl
ends_high_empty (b ∷ w) = ends_high-append open_span (b ∷ w) (omega arith)

ends_high-before :
    (w : Bytes) (ws : List Bytes) → ends_high (before w ws) ≡ ends_high (last_word w ws)
unfolding before last_word
ends_high-before w [] = ends_high_empty w
ends_high-before w (v ∷ ws) =
    ap ends_high (sym (regroup w (before v ws)))
    ∙ ends_high-append (open_span ++ w ++ close_span) (before v ws) (length-before v ws)
    ∙ ends_high-before v ws
  where
    regroup :
        (w t : Bytes) → (open_span ++ w ++ close_span) ++ t ≡ open_span ++ w ++ close_span ++ t
    regroup w t = simp (append_assoc)

is_high-get_elem? :
    (b : ℕ) (s t : Bytes) → is_high (get_elem? (b ∷ (s ++ t)) (length s)) ≡ ends_high (b ∷ s)
is_high-get_elem? b [] t = refl
is_high-get_elem? b (c ∷ s) t = is_high-get_elem? c s t

is_high_end :
    (s t : Bytes) → 0 < length s → is_high (get_elem? (s ++ t) (length s - 1)) ≡ ends_high s
is_high_end [] t h = absurd (omega (arith, h))
is_high_end (b ∷ s) t h = rw (less_one (length s)) (is_high-get_elem? b s t)
  where
    less_one : (n : ℕ) → suc n - 1 ≡ n
    less_one n = omega arith

with_dots_end :
    (s : Bytes)
    → 0 < length s
    → with_dots (some (length s)) (s ++ close_span)
      ≡ s ++ (if ends_high s then codes "..." else []) ++ close_span
unfolding with_dots
with_dots_end s h = rw (is_high_end s close_span h) (
    rw (take-length_append s close_span)
      (rw (drop-length_append s close_span) (either (ends_high s) s)))
  where
    either :
        (b : Bool) (s : Bytes)
        → (if b then s ++ codes "..." ++ close_span else s ++ close_span)
          ≡ s ++ (if b then codes "..." else []) ++ close_span
    either true s = refl
    either false s = simp (append_assoc)

render_words-marked : (cut : Bool) (ws : List Bytes) → render_words cut ws ≡ marked cut ws
unfolding render_words
render_words-marked cut [] = unfold marked in refl
render_words-marked false (w ∷ ws) =
    wrapped-before w ws ∙ (simp (append_assoc) at (sym (marked-before false w ws)))
render_words-marked true (w ∷ ws) =
    ap (λ r. with_dots (rfind_bytes close_span r) r) (wrapped-before w ws)
    ∙ ap (λ o. with_dots o (before w ws ++ close_span)) (rfind_end (before w ws))
    ∙ with_dots_end (before w ws) (length-before w ws)
    ∙ rw (ends_high-before w ws) (sym (marked-before true w ws))

length-encode_char : (c : ℕ) → 0 < length (encode_char c)
unfolding encode_char
length-encode_char c = ground arith

length-encode :
    (cs : List ℕ) (n : ℕ)
    → ltb (length (encode (take n cs))) (length (encode cs)) ≡ ltb n (length cs)
unfolding encode
length-encode [] zero = refl
length-encode [] (suc n) = ground arith
length-encode (c ∷ cs) zero =
    ground (arith, length-encode_char c, length-append (encode_char c) (encode cs))
length-encode (c ∷ cs) (suc n) = ground (
  arith,
  length-encode cs n,
  length-append (encode_char c) (encode cs),
  length-append (encode_char c) (encode (take n cs)),
)

-- Of a title in UTF-8, `renderSpanText` shows the words of the first characters, each in a span,
-- with dots behind the last if characters are left out and it does not end in ASCII.
pub render_span_text-marked :
    (cs : List ℕ) (n : ℕ)
    → All IsCodePoint cs
    → render_span_text (encode cs) (pos (suc n))
      ≡ marked (ltb (suc n) (length cs)) (words [] (encode (take (suc n) cs)))
unfolding render_span_text
render_span_text-marked cs n h =
    rw (truncate_utf8-encode cs (suc n) h) (rw (length-encode cs (suc n)) (render_words-marked _ _))
