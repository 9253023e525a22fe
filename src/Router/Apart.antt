-- ===== src/Router/Apart.antt =====
-- Routes that no path can take both, by their segments.
use cdragon.Prelude.{
  ◌≡◌, refl, ◌∙◌, sym, ap, Bool, true, false, not, ◌||◌, none, inl, inr, List, [], ◌∷◌, ◌++◌, arith,
  Bytes, All, equal, equal_iff, Option-cases, drop,
}
use cdragon.Regex.{regex_match, groups}
use cdragon.Router.Pattern.{Segment, text, param, items, NotSlash, IsSegment}
use cdragon.Router.Registration.{compile-written}
use cdragon.Router.Captures.{fill, Arguments, registered_matches}

-- Segments of a path, each behind its slash.
join : List Bytes → Bytes
join [] = []
join (v ∷ vs) = b'/' ∷ (v ++ join vs)

-- What stands in the path for each segment.
filled : List Segment → List Bytes → List Bytes
filled [] args = []
filled (text t ∷ r) args = t ∷ filled r args
filled (param name ∷ r) [] = []
filled (param name ∷ r) (a ∷ args) = a ∷ filled r args

-- A route whose texts hold no slash.
abbrev pub IsRoute : Segment → Type 0
IsRoute (text t) = All NotSlash t
IsRoute (param name) = Unit

-- They differ in length, or in a text.
unfoldable pub apart : List Segment → List Segment → Bool
apart [] [] = false
apart [] (_ ∷ _) = true
apart (_ ∷ _) [] = true
apart (text t ∷ r) (text u ∷ s) = not (equal t u) || apart r s
apart (text t ∷ r) (param name ∷ s) = apart r s
apart (param name ∷ r) (text u ∷ s) = apart r s
apart (param name ∷ r) (param other ∷ s) = apart r s

join-filled :
    (r : List Segment) (args : List Bytes) → Arguments r args → join (filled r args) ≡ fill r args
unfolding join filled fill
join-filled [] args h = refl
join-filled (text t ∷ r) args h = ap (λ u. b'/' ∷ (t ++ u)) (join-filled r args h)
join-filled (param name ∷ r) [] h = absurd h
join-filled (param name ∷ r) (a ∷ args) (_, h) = ap (λ u. b'/' ∷ (a ++ u)) (join-filled r args h)

filled-All :
    (r : List Segment) (args : List Bytes)
    → All IsRoute r
    → Arguments r args
    → All (All NotSlash) (filled r args)
unfolding filled
filled-All [] args h k = tt
filled-All (text t ∷ r) args (p, h) k = (p, filled-All r args h k)
filled-All (param name ∷ r) [] h k = absurd k
filled-All (param name ∷ r) (a ∷ args) (_, h) ((_, p), k) = (p, filled-All r args h k)

split :
    (v w : Bytes) (vs ws : List Bytes)
    → All NotSlash v
    → All NotSlash w
    → v ++ join vs ≡ w ++ join ws
    → (v ≡ w) × (join vs ≡ join ws)
unfolding join
split [] [] vs ws p q e = (refl, e)
split [] (c ∷ w) [] ws p q e = cc
split [] (c ∷ w) (v ∷ vs) ws p (q, _) e = ground arith
split (b ∷ v) [] vs [] p q e = cc
split (b ∷ v) [] vs (w ∷ ws) (p, _) q e = ground arith
split (b ∷ v) (c ∷ w) vs ws (_, p) (_, q) e = ground (arith, split v w vs ws p q)

join_injective :
    (vs ws : List Bytes)
    → All (All NotSlash) vs
    → All (All NotSlash) ws
    → join vs ≡ join ws
    → vs ≡ ws
unfolding join
join_injective [] [] p q e = refl
join_injective [] (w ∷ ws) p q e = cc
join_injective (v ∷ vs) [] p q e = cc
join_injective (v ∷ vs) (w ∷ ws) (p, ps) (q, qs) e =
    let (same, rest) = split v w vs ws p q (ap (drop 1) e) in
    let more = join_injective vs ws ps qs rest in cc

-- What fills two routes alike is no way to tell them apart.
filled-apart :
    (r s : List Segment) (a b : List Bytes)
    → Arguments r a
    → Arguments s b
    → filled r a ≡ filled s b
    → apart r s ≡ false
unfolding filled apart
filled-apart [] [] a b h k e = refl
filled-apart [] (text u ∷ s) a b h k e = cc
filled-apart [] (param name ∷ s) a [] h k e = absurd k
filled-apart [] (param name ∷ s) a (c ∷ b) h k e = cc
filled-apart (text t ∷ r) [] a b h k e = cc
filled-apart (param name ∷ r) [] [] b h k e = absurd h
filled-apart (param name ∷ r) [] (c ∷ a) b h k e = cc
filled-apart (text t ∷ r) (text u ∷ s) a b h k e =
    ground (arith, equal_iff t u, filled-apart r s a b h k (ap (drop 1) e))
filled-apart (text t ∷ r) (param name ∷ s) a [] h k e = absurd k
filled-apart (text t ∷ r) (param name ∷ s) a (c ∷ b) h (_, k) e =
    filled-apart r s a b h k (ap (drop 1) e)
filled-apart (param name ∷ r) s [] b h k e = absurd h
filled-apart (param name ∷ r) (text u ∷ s) (c ∷ a) b (_, h) k e =
    filled-apart r s a b h k (ap (drop 1) e)
filled-apart (param name ∷ r) (param other ∷ s) (c ∷ a) [] h k e = absurd k
filled-apart (param name ∷ r) (param other ∷ s) (c ∷ a) (d ∷ b) (_, h) (_, k) e =
    filled-apart r s a b h k (ap (drop 1) e)

-- A route does not match the path of one that is apart from it.
pub unmatched :
    (r s : List Segment) (args : List Bytes)
    → All IsSegment r
    → All IsRoute r
    → All IsRoute s
    → Arguments s args
    → apart r s ≡ true
    → regex_match (items r) (fill s args) ≡ none
unmatched r s args plain h k fits differ =
    elim (Option-cases (regex_match (items r) (fill s args))) [
      | inl e ↦ e
      | inr (ts, matched) ↦
          let (same, given) =
            registered_matches r (fill s args) (items r) ts plain (compile-written r plain)
              matched in
          let alike =
            join_injective (filled r (groups (items r) ts)) (filled s args) (filled-All r _ h given)
              (filled-All s args k fits)
              (join-filled r _ given ∙ sym same ∙ sym (join-filled s args fits)) in
          absurd (cc (differ, filled-apart r s (groups (items r) ts) args given fits alike))
    ]
