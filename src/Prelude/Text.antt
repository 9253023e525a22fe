-- ===== src/Prelude/Text.antt =====
-- `std::string` as the list of its bytes: equality, searches, `substr`, decimal numerals.
use Prim.Native.Char.{code}
use Prim.Native.Nat.{ℕ, zero, suc, ◌+◌, ◌/◌, ◌%◌, ◌≤◌, ◌<◌}
use Prim.Native.String.{String}
use mathlib.Core.Path.{◌≡◌, refl}
use mathlib.Core.Logic.{◌↔◌, ◌≢◌}
use mathlib.Core.Bool.{Bool, true, false, ◌&&◌}
use mathlib.Core.Option
use mathlib.Core.Option.{Option, none, some}
use mathlib.Core.List.{List, [], ◌∷◌, ◌++◌}
use native.Mathlib.Omega.{arith}
use cdragon.Prelude.Tests.{ltb, ◌==◌, if◌then◌else◌}
use cdragon.Prelude.Lists.{length, take, drop, All}

abbrev pub Bytes : Type 0
Bytes = List ℕ

-- The code points of a literal: its bytes, since every literal below is ASCII.
abbrev pub codes : String → Bytes
codes String.[] = []
codes (String.◌∷◌ c s) = code c ∷ codes s

-- operator==
unfoldable pub equal : Bytes → Bytes → Bool
equal [] [] = true
equal (a ∷ s) (b ∷ t) = a == b && equal s t
equal _ _ = false

pub equal_iff : (s t : Bytes) → (equal s t ≡ true) ↔ (s ≡ t)
unfolding equal
equal_iff (a ∷ s) (b ∷ t) = ground (arith, equal_iff s t)
equal_iff _ _ = ground arith

pub equal_refl : (s : Bytes) → equal s s ≡ true
equal_refl s = (equal_iff s s).1 refl

pub equal_ne : (s t : Bytes) → s ≢ t → equal s t ≡ false
equal_ne s t ne = ground (arith, equal_iff s t)

abbrev pub is_empty : Bytes → Bool
is_empty [] = true
is_empty (_ ∷ _) = false

-- str.find(c), with `none` for npos
unfoldable pub find_byte : ℕ → Bytes → Option ℕ
find_byte c [] = none
find_byte c (b ∷ s) = let later = Option.map suc (find_byte c s) in if b == c then some 0 else later

unfoldable pub starts_with : Bytes → Bytes → Bool
starts_with [] s = true
starts_with (p ∷ ps) [] = false
starts_with (p ∷ ps) (b ∷ s) = p == b && starts_with ps s

-- str.find(pattern)
unfoldable pub find_bytes : Bytes → Bytes → Option ℕ
unfolding starts_with
find_bytes p [] = if is_empty p then some 0 else none
find_bytes p (b ∷ s) =
    let later = Option.map suc (find_bytes p s) in if starts_with p (b ∷ s) then some 0 else later

-- No byte of the text is `c`.
abbrev pub Lacks : ℕ → Bytes → Type 0
Lacks c = All (λ b. b ≢ c)

pub find_byte-append :
    (c : ℕ) (s t : Bytes) → Lacks c s → find_byte c (s ++ c ∷ t) ≡ some (length s)
unfolding find_byte
find_byte-append c [] t _ = ground arith
find_byte-append c (b ∷ s) t (p, h) = ground (arith, find_byte-append c s t h)

pub find_byte_of_Lacks : (c : ℕ) (s : Bytes) → Lacks c s → find_byte c s ≡ none
unfolding find_byte
find_byte_of_Lacks c [] _ = refl
find_byte_of_Lacks c (b ∷ s) (p, h) = ground (arith, find_byte_of_Lacks c s h)

pub find_byte-split :
    (c : ℕ) (s : Bytes) (n : ℕ)
    → find_byte c s ≡ some n
    → (s ≡ take n s ++ c ∷ drop (suc n) s) × Lacks c (take n s) × (n < length s)
unfolding find_byte
find_byte-split c [] n e = cc
find_byte-split c (b ∷ s) zero e = ground arith
find_byte-split c (b ∷ s) (suc n) e = ground (arith, find_byte-split c s n)

pub find_byte-none : (c : ℕ) (s : Bytes) → find_byte c s ≡ none → Lacks c s
unfolding find_byte
find_byte-none c [] e = tt
find_byte-none c (b ∷ s) e = ground (arith, find_byte-none c s)

-- Decimal digits of a number, as `to_string` and `<<` print it; the fuel bounds their number.
abbrev digit : ℕ → ℕ
digit n = 48 + n

unfoldable pub print_from : ℕ → ℕ → Bytes → Bytes
print_from zero n out = out
print_from (suc f) n out =
    let rest = print_from f (n / 10) (digit (n % 10) ∷ out) in
    if ltb n 10 then digit n ∷ out else rest

unfoldable pub to_string : ℕ → Bytes
unfolding print_from
to_string n = print_from (suc n) n []

print_from_digits :
    (f n : ℕ) (out : Bytes) → All (λ b. 48 ≤ b) out → All (λ b. 48 ≤ b) (print_from f n out)
unfolding print_from
print_from_digits zero n out h = h
print_from_digits (suc f) n out h =
    ground (arith, print_from_digits f (n / 10) (digit (n % 10) ∷ out) (omega arith, h))

above-Lacks : (c : ℕ) (s : Bytes) → c < 48 → All (λ b. 48 ≤ b) s → Lacks c s
above-Lacks c [] lt _ = tt
above-Lacks c (b ∷ s) lt (p, h) = (omega arith, above-Lacks c s lt h)

-- A printed number holds no byte below `0`.
pub to_string-Lacks : (c n : ℕ) → c < 48 → Lacks c (to_string n)
unfolding to_string
to_string-Lacks c n lt = above-Lacks c (to_string n) lt (print_from_digits (suc n) n [] tt)
