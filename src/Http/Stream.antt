-- ===== src/Http/Stream.antt =====
-- `std::istringstream` as http_request.cpp uses it: `getline`, `ignore` and the loops over lines.
pub mod Lines
use cdragon.Prelude.{
  ℕ, zero, suc, ◌+◌, Bool, true, false, Option, none, some, List, [], ◌∷◌, not, take, drop, length,
  Bytes, find_byte, is_empty, if◌then◌else◌,
}

-- What is left to read, and `good()`.
pub record Stream : Type 0 where
  pub rest : Bytes
  pub good : Bool

abbrev pub open_stream : Bytes → Stream
open_stream s = record { rest = s; good = true }

-- Reading up to a delimiter that stands at an offset, or to the end.
extract : Bytes → Option ℕ → Bool × Bytes × Stream
extract s (some n) = (true, take n s, record { rest = drop (suc n) s; good = true })
extract s none = (not (is_empty s), s, record { rest = []; good = false })

-- getline(stream, line, delim): whether it succeeded, the new value of `line`, and the stream. A
-- stream that is not good leaves `line` alone.
unfoldable pub getline : ℕ → Stream → Bytes → Bool × Bytes × Stream
unfolding extract
getline delim st line =
    if st.good then extract st.rest (find_byte delim st.rest) else (false, line, st)

-- stream.ignore()
unfoldable pub ignore : Stream → Stream
ignore st =
    if st.good then (record { rest = drop 1 st.rest; good = not (is_empty st.rest) }) else st

-- while (getline(stream, line, delim)): the lines that the body sees, in order
unfoldable pub read_lines : ℕ → ℕ → Stream → Bytes → List Bytes
read_lines zero delim st line = []
read_lines (suc fuel) delim st line =
    let (done, line', st') = getline delim st line in
    let later = read_lines fuel delim st' line' in if done then line' ∷ later else []

-- Each round reads a byte or ends the stream, so one round more than there are bytes is enough.
unfoldable pub lines : ℕ → Stream → List Bytes
lines delim st = read_lines (length st.rest + 2) delim st []
