-- ===== src/Routes/Text.antt =====
-- src/router/routes.cpp: truncateUTF8 and renderSpanText, which cut a title and wrap its words.
pub mod Utf8
pub mod Spans
use Prim.Native.Nat.{bit_and}
use cdragon.Prelude.{
  ℕ, zero, suc, ◌+◌, ◌-◌, Bool, true, false, ◌&&◌, Option, none, some, List, [], ◌∷◌, ◌++◌, Bytes,
  codes, length, take, drop, get_elem?, ltb, ◌==◌, is_empty, starts_with, if◌then◌else◌,
}
use cdragon.Prelude.Numerals.{ℤ, pos, negsuc, is_space}

-- The length of a character by its first byte.
unfoldable pub char_len : ℕ → ℕ
char_len c =
    if bit_and c 0x80 == 0x00
    then 1
    else if bit_and c 0xE0 == 0xC0
    then 2
    else if bit_and c 0xF0 == 0xE0
    then 3
    else if bit_and c 0xF8 == 0xF0
    then 4
    else 1

-- The loop, on the bytes from `i` on, with `max_text_size - len` characters to go.
unfoldable pub truncate_utf8 : Bytes → ℕ → Bytes
unfolding char_len
truncate_utf8 text zero = []
truncate_utf8 [] (suc n) = []
truncate_utf8 (c ∷ s) (suc n) =
    let rest = truncate_utf8 (drop (char_len c) (c ∷ s)) n in
    if ltb (length (c ∷ s)) (char_len c) then [] else take (char_len c) (c ∷ s) ++ rest

-- The words that `stream >> word` reads, behind the bytes of a word that has begun.
unfoldable pub words : Bytes → Bytes → List Bytes
words word [] = if is_empty word then [] else word ∷ []
words word (b ∷ s) =
    let here = words [] s in
    let longer = words (word ++ b ∷ []) s in
    if is_space b then (if is_empty word then here else word ∷ here) else longer

abbrev pub open_span : Bytes
open_span = codes "<span>"

abbrev pub close_span : Bytes
close_span = codes "</span>"

unfoldable pub wrapped : List Bytes → Bytes
wrapped [] = []
wrapped (w ∷ ws) = open_span ++ w ++ close_span ++ wrapped ws

-- str.rfind(pattern)
unfoldable pub rfind_bytes : Bytes → Bytes → Option ℕ
unfolding starts_with
rfind_bytes p [] = if is_empty p then some 0 else none
rfind_bytes p (b ∷ s) = elim (rfind_bytes p s) [
  | none ↦ if starts_with p (b ∷ s) then some 0 else none
  | some n ↦ some (suc n)
]

-- `(unsigned char)result[i] > 0x7F`
abbrev pub is_high : Option ℕ → Bool
is_high none = false
is_high (some b) = ltb 0x7F b

-- The loop over `insert_pos` behind the test changes nothing that is read later.
unfoldable pub with_dots : Option ℕ → Bytes → Bytes
with_dots none result = result
with_dots (some n) result =
    if is_high (get_elem? result (n - 1))
    then take n result ++ codes "..." ++ drop n result
    else result

-- `word` is empty exactly if there was none, and so is `result`.
unfoldable pub render_words : Bool → List Bytes → Bytes
unfolding wrapped rfind_bytes with_dots
render_words cut [] = []
render_words cut (w ∷ ws) =
    let result = wrapped (w ∷ ws) in
    if cut then with_dots (rfind_bytes close_span result) result else result

unfoldable pub render_span_text : Bytes → ℤ → Bytes
unfolding truncate_utf8 words render_words
render_span_text text (negsuc n) = []
render_span_text text (pos zero) = []
render_span_text text (pos (suc n)) =
    let truncated = truncate_utf8 text (suc n) in
    render_words (ltb (length truncated) (length text)) (words [] truncated)
