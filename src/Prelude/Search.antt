-- ===== src/Prelude/Search.antt =====
-- `str.find(pattern)`: where it looks, and what bytes behind a match change.
use Prim.Native.Nat.{ℕ, suc, ◌+◌, ◌≤◌}
use mathlib.Core.Path.{◌≡◌, refl, sym, ◌∙◌, ap}
use mathlib.Core.Logic.{inl, inr}
use mathlib.Core.Bool.{true, false}
use mathlib.Core.Option
use mathlib.Core.Option.{none, some}
use mathlib.Core.List.{[], ◌∷◌, ◌++◌}
use native.Mathlib.Omega.{arith}
use cdragon.Prelude.Tests.{Bool-cases}
use cdragon.Prelude.Lists.{length}
use cdragon.Prelude.Text.{Bytes, starts_with, find_bytes}

starts_with-le : (p s : Bytes) → starts_with p s ≡ true → length p ≤ length s
unfolding starts_with
starts_with-le [] s h = omega arith
starts_with-le (b ∷ p) [] h = cc
starts_with-le (b ∷ p) (c ∷ s) h = ground (arith, starts_with-le p s)

-- Bytes behind a text that is long enough do not matter.
starts_with-append :
    (p s t : Bytes) → length p ≤ length s → starts_with p (s ++ t) ≡ starts_with p s
unfolding starts_with
starts_with-append [] s t h = refl
starts_with-append (b ∷ p) [] t h = absurd (omega arith)
starts_with-append (b ∷ p) (c ∷ s) t h = rw (starts_with-append p s t (omega arith))

pub find_bytes_here :
    (p : Bytes) (b : ℕ) (s : Bytes) → starts_with p (b ∷ s) ≡ true → find_bytes p (b ∷ s) ≡ some 0
unfolding find_bytes
find_bytes_here p b s h = rw h

pub find_bytes_later :
    (p : Bytes) (b : ℕ) (s : Bytes)
    → starts_with p (b ∷ s) ≡ false
    → find_bytes p (b ∷ s) ≡ Option.map suc (find_bytes p s)
unfolding find_bytes
find_bytes_later p b s h = rw h

find_bytes_none : (p : Bytes) (n : ℕ) → find_bytes p [] ≡ some n → n + length p ≤ 0
unfolding find_bytes
find_bytes_none [] n h = ground arith
find_bytes_none (b ∷ p) n h = cc

-- A match lies inside the text.
pub find_bytes-le : (p s : Bytes) (n : ℕ) → find_bytes p s ≡ some n → n + length p ≤ length s
find_bytes-le p [] n e = find_bytes_none p n e
find_bytes-le p (b ∷ s) n e = elim (Bool-cases (starts_with p (b ∷ s))) [
  | inl here ↦ ground (arith, starts_with-le p (b ∷ s) here, find_bytes_here p b s here)
  | inr later ↦
      let (m, found, same) =
        (Option.map-eq-some_iff suc (find_bytes p s)).0 (sym (find_bytes_later p b s later) ∙ e) in
      omega (arith, find_bytes-le p s m found, same)
]

find_bytes_empty : (p t : Bytes) (n : ℕ) → find_bytes p [] ≡ some n → find_bytes p t ≡ some n
unfolding find_bytes starts_with
find_bytes_empty [] [] n h = h
find_bytes_empty [] (b ∷ t) n h = h
find_bytes_empty (c ∷ p) t n h = cc

-- It stays the first match when more bytes come.
pub find_bytes-append :
    (p s t : Bytes) (n : ℕ) → find_bytes p s ≡ some n → find_bytes p (s ++ t) ≡ some n
find_bytes-append p [] t n e = find_bytes_empty p t n e
find_bytes-append p (b ∷ s) t n e =
    let fits = find_bytes-le p (b ∷ s) n e in
    let same = starts_with-append p (b ∷ s) t (omega arith) in
    elim (Bool-cases (starts_with p (b ∷ s))) [
      | inl here ↦
          find_bytes_here p b (s ++ t) (same ∙ here) ∙ (sym (find_bytes_here p b s here) ∙ e)
      | inr later ↦
          let (m, found, eq) =
            (Option.map-eq-some_iff _ _).0 (sym (find_bytes_later p b s later) ∙ e) in
          find_bytes_later p b (s ++ t) (same ∙ later)
          ∙ rw (find_bytes-append p s t m found) (ap some eq)
    ]
