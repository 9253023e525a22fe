-- ===== src/Prelude/Numerals.antt =====
-- `std::stoi` and `std::to_string` on `int`.
use Prim.Native.Nat.{ℕ, zero, suc, ◌+◌, ◌-◌, ◌*◌, ◌/◌, ◌%◌, ◌≤◌, ◌<◌}
use mathlib.Core.Path.{◌≡◌, refl, ap, ◌∙◌}
use mathlib.Core.Bool.{Bool, true, false, ◌&&◌, ◌||◌}
use mathlib.Core.List.{[], ◌∷◌, ◌++◌}
use native.Mathlib.Omega.{arith}
use cdragon.Prelude.Tests.{ltb, leb, ◌==◌, if◌then◌else◌}
use cdragon.Prelude.Text.{Bytes, to_string, print_from}
use cdragon.Prelude.Result.{Result, ok, throws, invalid_argument, out_of_range}

-- `negsuc n` is -(n + 1).
pub data ℤ : Type 0 where
  pos : ℕ → ℤ
  negsuc : ℕ → ℤ

abbrev pub int_max : ℕ
int_max = 2147483647

abbrev pub is_digit : ℕ → Bool
is_digit b = leb 48 b && leb b 57

-- `isspace` in the C locale
abbrev pub is_space : ℕ → Bool
is_space b = b == 32 || (leb 9 b && leb b 13)

unfoldable pub skip_spaces : Bytes → Bytes
skip_spaces [] = []
skip_spaces (b ∷ s) = let rest = skip_spaces s in if is_space b then rest else b ∷ s

unfoldable pub read_digits : ℕ → Bytes → ℕ
read_digits n [] = n
read_digits n (b ∷ s) =
    let rest = read_digits (n * 10 + (b - 48)) s in if is_digit b then rest else n

starts_with_digit : Bytes → Bool
starts_with_digit [] = false
starts_with_digit (b ∷ s) = is_digit b

signed : Bool → ℕ → Result ℤ
signed false n = if ltb int_max n then throws out_of_range else ok (pos n)
signed true zero = ok (pos 0)
signed true (suc n) = if ltb int_max n then throws out_of_range else ok (negsuc n)

magnitude : Bool → Bytes → Result ℤ
magnitude negative s =
    if starts_with_digit s
    then signed negative (read_digits 0 s)
    else throws (invalid_argument "stoi")

after_sign : Bytes → Result ℤ
after_sign [] = throws (invalid_argument "stoi")
after_sign (b ∷ s) =
    if b == b'-'
    then magnitude true s
    else if b == b'+'
    then magnitude false s
    else magnitude false (b ∷ s)

-- Blanks, a sign, digits; what follows them is left.
unfoldable pub stoi : Bytes → Result ℤ
unfolding skip_spaces read_digits starts_with_digit signed magnitude after_sign
stoi s = after_sign (skip_spaces s)

-- to_string(int)
unfoldable pub int_to_string : ℤ → Bytes
int_to_string (pos n) = to_string n
int_to_string (negsuc n) = b'-' ∷ to_string (suc n)

read_print_from :
    (f n : ℕ) (out : Bytes) → n < f → read_digits 0 (print_from f n out) ≡ read_digits n out
unfolding print_from read_digits
read_print_from zero n out h = elim h [ ]
read_print_from (suc f) n out h = ground (arith, read_print_from f (n / 10) ((48 + n % 10) ∷ out))

print_from-append : (f n : ℕ) (out s : Bytes) → print_from f n out ++ s ≡ print_from f n (out ++ s)
unfolding print_from
print_from-append zero n out s = refl
print_from-append (suc f) n out s =
    ground (arith, print_from-append f (n / 10) ((48 + n % 10) ∷ out) s)

print_from_digit : (f n : ℕ) (out : Bytes) → n < f → starts_with_digit (print_from f n out) ≡ true
unfolding print_from starts_with_digit
print_from_digit zero n out h = elim h [ ]
print_from_digit (suc f) n out h = ground (arith, print_from_digit f (n / 10) ((48 + n % 10) ∷ out))

skip_spaces_digit : (s : Bytes) → starts_with_digit s ≡ true → skip_spaces s ≡ s
unfolding skip_spaces starts_with_digit
skip_spaces_digit [] h = refl
skip_spaces_digit (b ∷ s) h = ground arith

after_sign_digit :
    (s : Bytes) → starts_with_digit s ≡ true → after_sign s ≡ signed false (read_digits 0 s)
unfolding after_sign magnitude starts_with_digit
after_sign_digit [] h = cc
after_sign_digit (b ∷ s) h = ground arith

-- What follows a number ends it.
abbrev pub EndsNumber : Bytes → Type 0
EndsNumber [] = Unit
EndsNumber (b ∷ s) = is_digit b ≡ false

read_digits_end : (n : ℕ) (s : Bytes) → EndsNumber s → read_digits n s ≡ n
unfolding read_digits
read_digits_end n [] _ = refl
read_digits_end n (b ∷ s) h = ground arith

-- `stoi` reads back what `to_string` prints, for every `int` that is not negative.
pub stoi-to_string :
    (n : ℕ) (s : Bytes) → n ≤ int_max → EndsNumber s → stoi (to_string n ++ s) ≡ ok (pos n)
unfolding stoi to_string
stoi-to_string n s h e =
    let digits = print_from (suc n) n s in
    let starts = print_from_digit (suc n) n s (omega arith) in
    rw (print_from-append (suc n) n [] s) (
      ap after_sign (skip_spaces_digit digits starts)
      ∙ after_sign_digit digits starts
      ∙ rw (read_print_from (suc n) n s (omega arith), read_digits_end n s e) (ground arith))

pub stoi_space : (s : Bytes) → stoi (32 ∷ s) ≡ stoi s
unfolding stoi
stoi_space s = refl
