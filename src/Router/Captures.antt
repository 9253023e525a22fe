-- ===== src/Router/Captures.antt =====
-- The paths that a registered route matches, and the path parameters that its handler gets.
use cdragon.Prelude.{
  ℕ, ◌≡◌, ◌≢◌, refl, ◌∙◌, ap, sym, true, some, List, [], ◌∷◌, ◌++◌, Bytes, All, ◌==◌, ==_iff,
}
use cdragon.Regex.{Item, once, match_items, regex_match, joined_spans, groups}
use cdragon.Regex.Language.{Fits, match_items_sound}
use cdragon.Router.{compile}
use cdragon.Router.Pattern.{
  Segment, text, param, written, NotSlash, IsSegment, onces, group, items, EndsSegment, greedy_plus,
}
use cdragon.Router.Registration.{compile-written}

-- The path with arguments in the place of the parameters.
unfoldable pub fill : List Segment → List Bytes → Bytes
fill [] args = []
fill (text t ∷ r) args = b'/' ∷ (t ++ fill r args)
fill (param name ∷ r) [] = []
fill (param name ∷ r) (a ∷ args) = b'/' ∷ (a ++ fill r args)

-- An argument for each parameter, not empty and without a slash.
abbrev pub Arguments : List Segment → List Bytes → Type 0
Arguments [] [] = Unit
Arguments [] (a ∷ args) = ⊥
Arguments (text t ∷ r) args = Arguments r args
Arguments (param name ∷ r) [] = ⊥
Arguments (param name ∷ r) (a ∷ args) = ((a ≢ []) × All NotSlash a) × Arguments r args

fill-EndsSegment : (r : List Segment) (args : List Bytes) → EndsSegment (fill r args)
unfolding fill
fill-EndsSegment [] args = tt
fill-EndsSegment (text t ∷ r) args = refl
fill-EndsSegment (param name ∷ r) [] = tt
fill-EndsSegment (param name ∷ r) (a ∷ args) = refl

-- A match whose groups are given.
abbrev Captures : List Item → Bytes → List Bytes → Type 0
Captures is s args = (ts : List Bytes) × (match_items true is s ≡ some ts) × (groups is ts ≡ args)

same_byte : (b : ℕ) → (b == b) ≡ true
same_byte b = (==_iff b b).1 refl

Captures-byte :
    (b : ℕ) (is : List Item) (s : Bytes) (args : List Bytes)
    → Captures is s args
    → Captures (once (λ c. c == b) ∷ is) (b ∷ s) args
unfolding match_items groups
Captures-byte b is s args (ts, e, g) = ((b ∷ []) ∷ ts, rw (same_byte b) (rw e), g)

Captures-bytes :
    (t : Bytes) (is : List Item) (s : Bytes) (args : List Bytes)
    → Captures is s args
    → Captures (onces t is) (t ++ s) args
unfolding onces
Captures-bytes [] is s args h = h
Captures-bytes (b ∷ t) is s args h =
    Captures-byte b (onces t is) (t ++ s) args (Captures-bytes t is s args h)

Captures-group :
    (a : Bytes) (is : List Item) (s : Bytes) (args : List Bytes)
    → a ≢ []
    → All NotSlash a
    → EndsSegment s
    → Captures is s args
    → Captures (group ∷ is) (a ++ s) (a ∷ args)
Captures-group a is s args ne h ends (ts, e, g) =
    (a ∷ ts, greedy_plus true true is a s ts ne h ends e, unfold groups in ap (λ l. a ∷ l) g)

items-fill :
    (r : List Segment) (args : List Bytes)
    → Arguments r args
    → Captures (items r) (fill r args) args
unfolding items fill
items-fill [] [] _ = ([], unfold match_items in refl, unfold groups in refl)
items-fill [] (a ∷ args) h = absurd h
items-fill (text t ∷ r) args h =
    Captures-bytes (b'/' ∷ t) (items r) (fill r args) args (items-fill r args h)
items-fill (param name ∷ r) [] h = absurd h
items-fill (param name ∷ r) (a ∷ args) ((ne, p), h) =
    Captures-byte b'/' (group ∷ items r) (a ++ fill r args) (a ∷ args) (
      Captures-group a (items r) (fill r args) args ne p (fill-EndsSegment r args)
        (items-fill r args h))

-- A registered route matches its path with any arguments, and the groups are those arguments.
pub registered_captures :
    (r : List Segment) (args : List Bytes)
    → All IsSegment r
    → Arguments r args
    → (is : List Item) × (compile (written r) ≡ some is)
      × ((ts : List Bytes) × (regex_match is (fill r args) ≡ some ts) × (groups is ts ≡ args))
registered_captures r args h a = (items r, compile-written r h, items-fill r args a)

-- Spans that fit the pattern make up the path with the groups as arguments.
abbrev Fills : List Segment → List Bytes → Type 0
Fills r ts = (joined_spans ts ≡ fill r (groups (items r) ts)) × Arguments r (groups (items r) ts)

byte_of : (b : ℕ) (t : Bytes) → ((c : ℕ) × (t ≡ c ∷ []) × ((c == b) ≡ true)) → t ≡ b ∷ []
byte_of b t (c, e, same) = rw ((==_iff c b).0 same) at e

Fits-bytes :
    (t : Bytes) (is : List Item) (ts : List Bytes)
    → Fits (onces t is) ts
    → (ts' : List Bytes) × Fits is ts'
      × (joined_spans ts ≡ t ++ joined_spans ts')
      × (groups (onces t is) ts ≡ groups is ts')
unfolding onces joined_spans groups
Fits-bytes [] is ts f = (ts, f, refl, refl)
Fits-bytes (b ∷ t) is [] f = absurd f
Fits-bytes (b ∷ t) is (u ∷ ts) (one, f) =
    let (ts', fits, same, g) = Fits-bytes t is ts f in
    (ts', fits, rw (byte_of b u one) (ap (λ v. b ∷ v) same), g)

items_fill : (r : List Segment) (ts : List Bytes) → Fits (items r) ts → Fills r ts
unfolding items fill joined_spans groups
items_fill [] [] _ = (refl, tt)
items_fill [] (t ∷ ts) f = absurd f
items_fill (text t ∷ r) ts f =
    let (ts', fits, same, g) = Fits-bytes (b'/' ∷ t) (items r) ts f in
    let (filled, args) = items_fill r ts' fits in
    rw g (same ∙ ap (λ u. b'/' ∷ (t ++ u)) filled, args)
items_fill (param name ∷ r) [] f = absurd f
items_fill (param name ∷ r) (u ∷ []) (_, f) = absurd f
items_fill (param name ∷ r) (u ∷ a ∷ ts) (slash, (arg, f)) =
    let (filled, args) = items_fill r ts f in
    (rw (byte_of b'/' u slash) (ap (λ v. b'/' ∷ (a ++ v)) filled), (arg, args))

-- A registered route matches nothing but its own path with arguments: whatever path its pattern
-- accepts is the route's path with the groups as arguments, which are as many as the parameters, not
-- empty and without a slash.
pub registered_matches :
    (r : List Segment) (path : Bytes) (is : List Item) (ts : List Bytes)
    → All IsSegment r
    → compile (written r) ≡ some is
    → regex_match is path ≡ some ts
    → (path ≡ fill r (groups is ts)) × Arguments r (groups is ts)
registered_matches r path is ts h compiled matched =
    let same : items r ≡ is = cc (compile-written r h, compiled) in
    rw (← same) (
      let (fits, whole) = match_items_sound true (items r) path ts (rw same matched) in
      let (filled, args) = items_fill r ts fits in (sym whole ∙ filled, args))
