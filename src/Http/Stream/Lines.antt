-- ===== src/Http/Stream/Lines.antt =====
-- The lines that a `getline` loop reads are the pieces of the text between the delimiters.
use cdragon.Prelude.{
  ℕ, zero, suc, ◌+◌, ◌<◌, ◌≡◌, refl, false, none, some, List, [], ◌∷◌, ◌++◌, arith, take, drop,
  length, length-drop, Bytes, Lacks, All, find_byte, find_byte-append, find_byte_of_Lacks, ◌≢◌,
  Option-cases, ◌==◌, if◌then◌else◌, drop-suc-length_append, ap, ◌∙◌, take-length_append, inl, inr,
}
use cdragon.Http.Stream.{open_stream, getline, read_lines, lines}

abbrev cons_head : ℕ → List Bytes → List Bytes
cons_head b [] = (b ∷ []) ∷ []
cons_head b (l ∷ ls) = (b ∷ l) ∷ ls

-- The text cut at each delimiter; what follows the last one is a piece only if it is not empty.
unfoldable pub pieces : ℕ → Bytes → List Bytes
pieces delim [] = []
pieces delim (b ∷ s) =
    let later = pieces delim s in if b == delim then [] ∷ later else cons_head b later

pieces_found :
    (d : ℕ) (s : Bytes) (n : ℕ)
    → find_byte d s ≡ some n
    → pieces d s ≡ take n s ∷ pieces d (drop (suc n) s)
unfolding pieces find_byte
pieces_found d [] n e = cc
pieces_found d (b ∷ s) zero e = ground arith
pieces_found d (b ∷ s) (suc n) e = ground (arith, pieces_found d s n)

pieces_last : (d b : ℕ) (s : Bytes) → find_byte d (b ∷ s) ≡ none → pieces d (b ∷ s) ≡ (b ∷ s) ∷ []
unfolding pieces find_byte
pieces_last d b [] e = ground arith
pieces_last d b (c ∷ s) e = ground (arith, pieces_last d c s)

read_lines_ended :
    (fuel d : ℕ) (line : Bytes) (s : Bytes)
    → read_lines fuel d (record { rest = s; good = false }) line ≡ []
unfolding read_lines getline
read_lines_ended zero d line s = refl
read_lines_ended (suc fuel) d line s = refl

read_lines-pieces :
    (fuel d : ℕ) (s line : Bytes)
    → length s < fuel
    → read_lines fuel d (open_stream s) line ≡ pieces d s
unfolding read_lines getline
read_lines-pieces zero d s line h = elim h [ ]
read_lines-pieces (suc fuel) d [] line h = unfold pieces find_byte in refl
read_lines-pieces (suc fuel) d (b ∷ s) line h = elim (Option-cases (find_byte d (b ∷ s))) [
  | inl e ↦ rw e (rw (read_lines_ended fuel d (b ∷ s) [], pieces_last d b s e))
  | inr (n, e) ↦ rw e (
      rw (read_lines-pieces fuel d (drop n s) (take n (b ∷ s)) (omega (arith, length-drop n s)))
        (rw (pieces_found d (b ∷ s) n e)))
]

-- The loop ends by itself, with every piece read.
pub lines-pieces : (d : ℕ) (s : Bytes) → lines d (open_stream s) ≡ pieces d s
unfolding lines
lines-pieces d s = read_lines-pieces (length s + 2) d s [] (omega arith)

-- A line and its delimiter, in front of the rest.
pub pieces-append : (d : ℕ) (l s : Bytes) → Lacks d l → pieces d (l ++ d ∷ s) ≡ l ∷ pieces d s
pieces-append d l s h = rw (
  pieces_found d (l ++ d ∷ s) (length l) (find_byte-append d l s h),
  take-length_append l (d ∷ s),
  drop-suc-length_append l d s,
)

-- Lines without the delimiter, each ended by it, are the lines that are read.
unfoldable pub ended : ℕ → List Bytes → Bytes
ended d [] = []
ended d (l ∷ ls) = l ++ d ∷ ended d ls

pub pieces-ended : (d : ℕ) (ls : List Bytes) → All (Lacks d) ls → pieces d (ended d ls) ≡ ls
unfolding ended pieces
pieces-ended d [] _ = refl
pieces-ended d (l ∷ ls) (p, h) =
    pieces-append d l (ended d ls) p ∙ ap (λ t. l ∷ t) (pieces-ended d ls h)

-- The lines with the delimiter between them.
unfoldable pub joined : ℕ → List Bytes → Bytes
joined d [] = []
joined d (l ∷ []) = l
joined d (l ∷ m ∷ ls) = l ++ d ∷ joined d (m ∷ ls)

abbrev pub IsPiece : ℕ → Bytes → Type 0
IsPiece d l = (l ≢ []) × Lacks d l

pieces_one : (d : ℕ) (l : Bytes) → IsPiece d l → pieces d l ≡ l ∷ []
pieces_one d [] (ne, h) = absurd (ne refl)
pieces_one d (b ∷ l) (ne, h) = pieces_last d b l (find_byte_of_Lacks d (b ∷ l) h)

pub pieces-joined : (d : ℕ) (ls : List Bytes) → All (IsPiece d) ls → pieces d (joined d ls) ≡ ls
unfolding joined
pieces-joined d [] _ = unfold pieces in refl
pieces-joined d (l ∷ []) (p, _) = pieces_one d l p
pieces-joined d (l ∷ m ∷ ls) (p, h) =
    pieces-append d l (joined d (m ∷ ls)) p.1 ∙ ap (λ t. l ∷ t) (pieces-joined d (m ∷ ls) h)
