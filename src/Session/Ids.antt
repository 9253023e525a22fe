-- ===== src/Session/Ids.antt =====
-- The session ids that are drawn.
use cdragon.Prelude.{ℕ, ◌≤◌, ◌<◌, ◌⊎◌, ◌≡◌, refl, List, [], ◌∷◌, arith, All, length}
use cdragon.Session.{hex_digit, generate_session_id}

-- A hexadecimal digit in lower case.
abbrev pub IsHex : ℕ → Type 0
IsHex b = ((48 ≤ b) × (b ≤ 57)) ⊎ ((97 ≤ b) × (b ≤ 102))

hex_digit-IsHex : (d : ℕ) → d < 16 → IsHex (hex_digit d)
hex_digit-IsHex d h = ground arith

hex_digit_injective : (d e : ℕ) → d < 16 → e < 16 → hex_digit d ≡ hex_digit e → d ≡ e
hex_digit_injective d e h k eq = ground arith

-- An id has one hexadecimal digit for each draw.
pub generate_session_id-IsHex :
    (draws : List ℕ)
    → All (λ d. d < 16) draws
    → All IsHex (generate_session_id draws) × (length (generate_session_id draws) ≡ length draws)
unfolding generate_session_id
generate_session_id-IsHex [] _ = (tt, refl)
generate_session_id-IsHex (d ∷ ds) (p, h) =
    let (hex, size) = generate_session_id-IsHex ds h in
    ((hex_digit-IsHex d p, hex), omega (arith, size))

-- Different draws make different ids.
pub generate_session_id_injective :
    (ds es : List ℕ)
    → All (λ d. d < 16) ds
    → All (λ d. d < 16) es
    → generate_session_id ds ≡ generate_session_id es
    → ds ≡ es
unfolding generate_session_id
generate_session_id_injective [] [] _ _ e = refl
generate_session_id_injective [] (y ∷ es) _ _ e = cc
generate_session_id_injective (x ∷ ds) [] _ _ e = cc
generate_session_id_injective (x ∷ ds) (y ∷ es) (p, h) (q, k) e =
    ground (arith, hex_digit_injective x y p q, generate_session_id_injective ds es h k)
