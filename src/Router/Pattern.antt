-- ===== src/Router/Pattern.antt =====
-- What a dynamic route such as `/company/<companyid>/user/<userid>` matches: the text of its
-- segments, with any text that is not empty and holds no slash for a parameter.
use cdragon.Prelude.{
  ℕ, ◌≡◌, ◌≢◌, refl, ap, Bool, true, false, some, List, [], ◌∷◌, ◌++◌, arith, Bytes, All,
  starts_with, ◌==◌,
}
use cdragon.Regex.{Item, once, many, plus, match_items}
use cdragon.Router.{not_slash, group_text, is_special, single, read_regex}

pub data Segment : Type 0 where
  text param : Bytes → Segment

-- The path of a route as it is written in the source.
unfoldable pub written : List Segment → Bytes
written [] = []
written (text t ∷ r) = b'/' ∷ (t ++ written r)
written (param name ∷ r) = b'/' ∷ b'<' ∷ (name ++ b'>' ∷ written r)

-- A byte that stands for itself in a pattern.
abbrev pub IsPlain : ℕ → Type 0
IsPlain b = (is_special b ≡ false) × (b ≢ b'.') × (b ≢ b'<')

abbrev pub NotSlash : ℕ → Type 0
NotSlash b = not_slash b ≡ true

abbrev pub IsSegment : Segment → Type 0
IsSegment (text t) = All IsPlain t
IsSegment (param name) = (name ≢ []) × All NotSlash name

-- The path with the pattern's groups in the place of the parameters.
unfoldable pub grouped : List Segment → Bytes
grouped [] = []
grouped (text t ∷ r) = b'/' ∷ (t ++ grouped r)
grouped (param name ∷ r) = b'/' ∷ (group_text ++ grouped r)

unfoldable pub onces : Bytes → List Item → List Item
onces [] is = is
onces (b ∷ t) is = once (λ c. c == b) ∷ onces t is

abbrev pub group : Item
group = plus true false not_slash

-- The items of the compiled pattern.
unfoldable pub items : List Segment → List Item
items [] = []
items (text t ∷ r) = onces (b'/' ∷ t) (items r)
items (param name ∷ r) = once (λ c. c == b'/') ∷ group ∷ items r

not_group : (b : ℕ) (s : Bytes) → is_special b ≡ false → starts_with group_text (b ∷ s) ≡ false
unfolding starts_with
not_group b s h = ground arith

single_plain : (b : ℕ) → b ≢ b'.' → single b ≡ once (λ c. c == b)
single_plain b h = ground arith

read_byte :
    (b : ℕ) (s : Bytes) (is : List Item)
    → IsPlain b
    → read_regex 0 s ≡ some is
    → read_regex 0 (b ∷ s) ≡ some (once (λ c. c == b) ∷ is)
unfolding read_regex
read_byte b s is (plain, dot, _) e =
    rw (not_group b s plain) (rw plain (rw e (ap (λ i. some (i ∷ is)) (single_plain b dot))))

read_bytes :
    (t s : Bytes) (is : List Item)
    → All IsPlain t
    → read_regex 0 s ≡ some is
    → read_regex 0 (t ++ s) ≡ some (onces t is)
unfolding onces
read_bytes [] s is _ e = e
read_bytes (b ∷ t) s is (p, h) e = read_byte b (t ++ s) (onces t is) p (read_bytes t s is h e)

slash-IsPlain : IsPlain b'/'
slash-IsPlain = (refl, omega arith, omega arith)

read_group :
    (s : Bytes) (is : List Item)
    → read_regex 0 s ≡ some is
    → read_regex 0 (group_text ++ s) ≡ some (group ∷ is)
unfolding read_regex starts_with
read_group s is e = rw e

pub read_regex-grouped :
    (r : List Segment) → All IsSegment r → read_regex 0 (grouped r) ≡ some (items r)
unfolding grouped items onces
read_regex-grouped [] _ = unfold read_regex in refl
read_regex-grouped (text t ∷ r) (h, k) =
    read_bytes (b'/' ∷ t) (grouped r) (items r) (slash-IsPlain, h) (read_regex-grouped r k)
read_regex-grouped (param name ∷ r) (_, k) =
    read_byte b'/' (group_text ++ grouped r) (group ∷ items r) slash-IsPlain
      (read_group (grouped r) (items r) (read_regex-grouped r k))

-- What follows a parameter: the end, or a slash.
abbrev pub EndsSegment : Bytes → Type 0
EndsSegment [] = Unit
EndsSegment (b ∷ s) = b ≡ b'/'

pub written-EndsSegment : (r : List Segment) → EndsSegment (written r)
unfolding written
written-EndsSegment [] = tt
written-EndsSegment (text t ∷ r) = refl
written-EndsSegment (param name ∷ r) = refl

-- A repetition of bytes other than the slash takes all of them, if the rest of the pattern then fits.
greedy_many :
    (full c : Bool) (is : List Item) (a s : Bytes) (ts : List Bytes)
    → All NotSlash a
    → EndsSegment s
    → match_items full is s ≡ some ts
    → match_items full (many c false not_slash ∷ is) (a ++ s) ≡ some (a ∷ ts)
unfolding match_items
greedy_many full c is [] [] ts _ _ e = rw e
greedy_many full c is [] (b ∷ s) ts _ slash e = rw (ap not_slash slash) (rw e)
greedy_many full c is (b ∷ a) s ts (p, h) ends e = rw p (rw (greedy_many full c is a s ts h ends e))

pub greedy_plus :
    (full c : Bool) (is : List Item) (a s : Bytes) (ts : List Bytes)
    → a ≢ []
    → All NotSlash a
    → EndsSegment s
    → match_items full is s ≡ some ts
    → match_items full (plus c false not_slash ∷ is) (a ++ s) ≡ some (a ∷ ts)
unfolding match_items
greedy_plus full c is [] s ts ne _ _ _ = absurd (ne refl)
greedy_plus full c is (b ∷ a) s ts ne (p, h) ends e =
    rw p (rw (greedy_many full c is a s ts h ends e))
