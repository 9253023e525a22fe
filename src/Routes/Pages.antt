-- ===== src/Routes/Pages.antt =====
-- src/router/routes.cpp: the loops that lay articles out on the home page and on a category page.
pub mod Markup
pub mod Menus
pub mod Streams
pub mod Scopes
pub mod Coverage
use cdragon.Prelude.{
  ℕ, zero, suc, ◌+◌, Bool, Option, none, some, List, [], ◌∷◌, ◌++◌, Bytes, length, drop, ltb,
  get_elem?, if◌then◌else◌,
}
use cdragon.Prelude.Numerals.{ℤ, int_to_string}
use cdragon.Prelude.Result.{Result, ok, throws, out_of_range, ◌>>=◌}
use cdragon.Models.Article.{ArticleRecord}
use cdragon.Routes.Values.{Values, describe}
use cdragon.Routes.Pages.Markup.{
  Piece, markup, id, slug, title, description, first_five, first_four, first_three, first_two,
  first_one, second_five, second_four, second_three, second_two, third_five, third_four,
}

-- What a page shows of an article, in the markup.
pub data Part : Type 0 where
  plain : Bytes → Part
  link : ℤ → Part
  field : Bytes → Part

unfoldable pub written : List Part → Bytes
written [] = []
written (plain s ∷ ps) = s ++ written ps
written (link n ∷ ps) = int_to_string n ++ written ps
written (field s ∷ ps) = s ++ written ps

-- articles.at(i)
unfoldable pub article_at : {A : Type 0} → List A → ℕ → Result A
article_at rest k = elim (get_elem? rest k) [ none ↦ throws out_of_range | some a ↦ ok a ]

-- The three layouts, by the value of `templateVariable`.
pub data Layout : Type 0 where
  first second third : Layout

-- Behind the third, `templateVariable` is set to 1 and then incremented.
abbrev pub next_layout : Layout → Layout
next_layout first = second
next_layout second = third
next_layout third = second

abbrev pub by_count :
    List Piece → List Piece → List Piece → List Piece → List Piece → ℕ → List Piece
by_count five four three two one n =
    if ltb 4 n
    then five
    else if ltb 3 n
    then four
    else if ltb 2 n
    then three
    else if ltb 1 n
    then two
    else one

-- The scope for a layout and the number of articles that are left.
unfoldable pub scope : Layout → ℕ → List Piece
scope first n = by_count first_five first_four first_three first_two first_one n
scope second n = by_count second_five second_four second_three second_two first_one n
scope third n = by_count third_five third_four first_three first_two first_one n

-- The article that a piece reads; markup reads none.
unfoldable pub index : Piece → ℕ
index (markup s) = 0
index (id k) = k
index (slug k) = k
index (title k) = k
index (description k) = k

-- How far the pieces move the loop's index: to the last article that they read.
unfoldable pub moved : List Piece → ℕ
unfolding index
moved [] = 0
moved (p ∷ ps) = let later = moved ps in if ltb later (index p) then index p else later

module _ {J : Type 0} (values : Values J) where
  unfoldable pub part_of : List (ArticleRecord J) → Piece → Result Part
  unfolding article_at
  part_of rest (markup s) = ok (plain s)
  part_of rest (id k) = article_at rest k >>= λ a. ok (link a.article_id)
  part_of rest (slug k) = article_at rest k >>= λ a. ok (field a.slug)
  part_of rest (title k) = article_at rest k >>= λ a. ok (field a.title)
  part_of rest (description k) =
      article_at rest k >>= λ a. describe values a.seo_description >>= λ s. ok (field s)

  -- `stream << … << …`, with the articles from the loop's index on.
  unfoldable pub stream : List (ArticleRecord J) → List Piece → Result (List Part)
  stream rest [] = ok []
  stream rest (p ∷ ps) = part_of rest p >>= λ x. stream rest ps >>= λ xs. ok (x ∷ xs)

  -- The loop, with a rule for the next layout. A round takes an article at least, so their number
  -- is fuel enough.
  unfoldable pub scopes :
      (Layout → Layout) → ℕ → Layout → List (ArticleRecord J) → Result (List Part)
  scopes next zero layout rest = ok []
  scopes next (suc fuel) layout [] = ok []
  scopes next (suc fuel) layout (a ∷ rest) =
      let pieces = scope layout (length (a ∷ rest)) in
      stream (a ∷ rest) pieces >>= λ xs.
      scopes next fuel (next layout) (drop (suc (moved pieces)) (a ∷ rest)) >>= λ ys. ok (xs ++ ys)

  unfoldable pub home_scopes : List (ArticleRecord J) → Result (List Part)
  unfolding scopes
  home_scopes articles = scopes (λ layout. first) (length articles) first articles

  unfoldable pub category_scopes : List (ArticleRecord J) → Result (List Part)
  unfolding scopes
  category_scopes articles = scopes next_layout (length articles) first articles
