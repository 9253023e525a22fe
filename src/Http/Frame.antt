-- ===== src/Http/Frame.antt =====
-- The blank line that ends an HTTP head, and where `find("\r\n\r\n")` meets it.
use cdragon.Prelude.{
  ℕ, ◌+◌, ◌≡◌, ◌≢◌, refl, ◌∙◌, ap, Option, none, some, List, [], ◌∷◌, ◌++◌, arith, Bytes, All,
  Lacks, length, length-append, take, drop, find_bytes, append_assoc, take-length_append,
  drop-length_append,
}
use mathlib.Core.Option
use cdragon.Http.Stream.Lines.{ended}
use cdragon.Http.Request.Head.{head_lines}

abbrev pub blank_line : Bytes
blank_line = 13 ∷ 10 ∷ 13 ∷ 10 ∷ []

-- Lines, each with `\r\n` behind it, and an empty one.
unfoldable pub crlf_lines : List Bytes → Bytes
crlf_lines [] = 13 ∷ 10 ∷ []
crlf_lines (l ∷ ls) = l ++ 13 ∷ 10 ∷ crlf_lines ls

-- A line of a head: it is not empty and holds no `\r`.
abbrev pub IsLine : Bytes → Type 0
IsLine l = (l ≢ []) × Lacks 13 l

abbrev plus : ℕ → Option ℕ → Option ℕ
plus n o = Option.map (λ k. n + k) o

-- The search passes every byte of a line.
find_past_line :
    (l s : Bytes)
    → Lacks 13 l
    → find_bytes blank_line (l ++ s) ≡ plus (length l) (find_bytes blank_line s)
unfolding find_bytes
find_past_line [] s _ = ground arith
find_past_line (b ∷ l) s (p, h) = ground (arith, find_past_line l s h)

-- And the end of a line that is not the last.
find_past_end :
    (b : ℕ) (s : Bytes)
    → b ≢ 13
    → find_bytes blank_line (13 ∷ 10 ∷ b ∷ s) ≡ plus 2 (find_bytes blank_line (b ∷ s))
unfolding find_bytes
find_past_end b s ne = ground arith

find_at_end : (s : Bytes) → find_bytes blank_line (13 ∷ 10 ∷ 13 ∷ 10 ∷ s) ≡ some 0
unfolding find_bytes
find_at_end s = refl

-- The offset of the end of the last line.
abbrev pub head_end : List Bytes → ℕ
head_end [] = 0
head_end (l ∷ []) = length l
head_end (l ∷ m ∷ ls) = length l + 2 + head_end (m ∷ ls)

find-crlf_lines :
    (l : Bytes) (ls : List Bytes) (rest : Bytes)
    → All IsLine (l ∷ ls)
    → find_bytes blank_line (crlf_lines (l ∷ ls) ++ rest) ≡ some (head_end (l ∷ ls))
unfolding crlf_lines
find-crlf_lines l [] rest ((_, h), _) =
    rw (append_assoc l (13 ∷ 10 ∷ 13 ∷ 10 ∷ []) rest) (
      find_past_line l (13 ∷ 10 ∷ 13 ∷ 10 ∷ rest) h ∙ rw (find_at_end rest) (ap some (omega arith)))
find-crlf_lines l ([] ∷ ls) rest (_, ((ne, _), _)) = absurd (ne refl)
find-crlf_lines l ((b ∷ m) ∷ ls) rest ((_, h), ((ne, (p, q)), k)) =
    let later = crlf_lines ((b ∷ m) ∷ ls) in
    rw (append_assoc l (13 ∷ 10 ∷ later) rest) (
      find_past_line l (13 ∷ 10 ∷ (later ++ rest)) h
      ∙ rw
          (
            find_past_end b ((m ++ 13 ∷ 10 ∷ crlf_lines ls) ++ rest) p,
            find-crlf_lines (b ∷ m) ls rest ((ne, (p, q)), k),
          )
          (ap some (omega arith)))

length-crlf_lines :
    (l : Bytes) (ls : List Bytes) → length (crlf_lines (l ∷ ls)) ≡ head_end (l ∷ ls) + 4
unfolding crlf_lines
length-crlf_lines l [] = omega (arith, length-append l (13 ∷ 10 ∷ 13 ∷ 10 ∷ []))
length-crlf_lines l (m ∷ ls) =
    omega (arith, length-append l (13 ∷ 10 ∷ crlf_lines (m ∷ ls)), length-crlf_lines m ls)

-- A text cut behind the first blank line, as the server cuts it.
unfoldable pub split_head : Bytes → Option (Bytes × Bytes)
split_head s = elim (find_bytes blank_line s) [
  | none ↦ none
  | some n ↦ some (take (n + 4) s, drop (n + 4) s)
]

-- The cut comes behind the lines of the head, whatever follows them.
pub split_head-crlf_lines :
    (ls : List Bytes) (rest : Bytes)
    → ls ≢ []
    → All IsLine ls
    → split_head (crlf_lines ls ++ rest) ≡ some (crlf_lines ls, rest)
unfolding split_head
split_head-crlf_lines [] rest ne _ = absurd (ne refl)
split_head-crlf_lines (l ∷ ls) rest ne h =
    rw (find-crlf_lines l ls rest h, split_head)
      (rw (
        ← length-crlf_lines l ls,
        take-length_append (crlf_lines (l ∷ ls)) rest,
        drop-length_append (crlf_lines (l ∷ ls)) rest,
      ))

-- `key: value`
abbrev pub header_text : Bytes × Bytes → Bytes
header_text (k, v) = k ++ (b':' ∷ 32 ∷ v)

abbrev pub header_texts : List (Bytes × Bytes) → List Bytes
header_texts [] = []
header_texts (h ∷ hs) = header_text h ∷ header_texts hs

-- The lines that the parser reads are those of the head.
pub ended-head_lines :
    (hs : List (Bytes × Bytes)) → ended 10 (head_lines hs) ≡ crlf_lines (header_texts hs)
unfolding ended crlf_lines
ended-head_lines [] = refl
ended-head_lines ((k, v) ∷ hs) = simp (append_assoc, ended-head_lines hs)
