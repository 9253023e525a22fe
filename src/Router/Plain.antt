-- ===== src/Router/Plain.antt =====
-- Routes that the router takes as they are written, by a test that evaluates.
use cdragon.Prelude.{
  ℕ, ◌≡◌, ◌≢◌, Bool, true, false, not, ◌&&◌, List, [], ◌∷◌, arith, Bytes, All, is_empty, ◌==◌,
}
use cdragon.Router.{is_special, not_slash}
use cdragon.Router.Pattern.{Segment, text, param, IsPlain, NotSlash, IsSegment}
use cdragon.Router.Apart.{IsRoute}

-- A byte of a segment, and a segment, that the router takes as it is.
unfoldable pub plain_byte : ℕ → Bool
plain_byte b = not (is_special b) && (not (b == b'.') && (not (b == b'<') && not_slash b))

both : (a b : Bool) → (a && b) ≡ true → (a ≡ true) × (b ≡ true)
both a b h = ground arith

refused : (a : Bool) → not a ≡ true → a ≡ false
refused a h = ground arith

differs : (b c : ℕ) → not (b == c) ≡ true → b ≢ c
differs b c h = ground arith

plain_byte-IsPlain : (b : ℕ) → plain_byte b ≡ true → IsPlain b × NotSlash b
unfolding plain_byte
plain_byte-IsPlain b h =
    let (special, r1) =
      both (not (is_special b)) (not (b == b'.') && (not (b == b'<') && not_slash b)) h in
    let (dot, r2) = both (not (b == b'.')) (not (b == b'<') && not_slash b) r1 in
    let (angle, slash) = both (not (b == b'<')) (not_slash b) r2 in
    ((refused (is_special b) special, differs b b'.' dot, differs b b'<' angle), slash)

abbrev pub plain_bytes : Bytes → Bool
plain_bytes [] = true
plain_bytes (b ∷ t) = plain_byte b && plain_bytes t

abbrev pub plain_route : List Segment → Bool
plain_route [] = true
plain_route (text t ∷ r) = plain_bytes t && plain_route r
plain_route (param name ∷ r) = not (is_empty name) && plain_bytes name && plain_route r

plain_bytes-All : (t : Bytes) → plain_bytes t ≡ true → All IsPlain t × All NotSlash t
plain_bytes-All [] h = (tt, tt)
plain_bytes-All (b ∷ t) h =
    let (here, later) = both (plain_byte b) (plain_bytes t) h in
    let (p, q) = plain_bytes-All t later in
    let (plain, slashless) = plain_byte-IsPlain b here in ((plain, p), (slashless, q))

pub plain_route-All : (r : List Segment) → plain_route r ≡ true → All IsSegment r × All IsRoute r
plain_route-All [] h = (tt, tt)
plain_route-All (text t ∷ r) h =
    let (here, later) = both (plain_bytes t) (plain_route r) h in
    let (p, q) = plain_bytes-All t here in
    let (ps, qs) = plain_route-All r later in ((p, ps), (q, qs))
plain_route-All (param [] ∷ r) h = absurd (ground arith)
plain_route-All (param (b ∷ name) ∷ r) h =
    let (here, later) = both (plain_bytes (b ∷ name)) (plain_route r) h in
    let (ps, qs) = plain_route-All r later in
    (((ground arith, (plain_bytes-All (b ∷ name) here).1), ps), (tt, qs))
