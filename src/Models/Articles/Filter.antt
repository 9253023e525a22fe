-- ===== src/Models/Articles/Filter.antt =====
-- models/include/tables/articles_table.h: the statement of `filterArticles` for any filters.
use cdragon.Prelude.{
  ℕ, zero, suc, ◌+◌, ◌≡◌, refl, ◌∙◌, ap, List, [], ◌∷◌, ◌++◌, arith, Bytes, codes, length,
  length-append, is_empty,
}
use cdragon.Database.Binding.{IsBound, marks, marks-append, text}
use cdragon.Models.Article.{ArticleRecord, Json}
use cdragon.Models.Articles.{
  Filters, clauses, list_filter, all_text, all_params, filter_articles, create_placeholders,
  more_placeholders, text_filter, filter_head, containing,
}

-- A clause with as many placeholders as parameters.
IsBalanced : Bytes × List Bytes → Type 0
IsBalanced (t, ps) = marks t ≡ length ps

marks-more_placeholders : (n : ℕ) → marks (more_placeholders n) ≡ n
unfolding more_placeholders marks
marks-more_placeholders zero = refl
marks-more_placeholders (suc n) = ap suc (marks-more_placeholders n)

marks-create_placeholders : (n : ℕ) → marks (create_placeholders n) ≡ n
unfolding create_placeholders marks
marks-create_placeholders zero = refl
marks-create_placeholders (suc n) = ap suc (marks-more_placeholders n)

marks-around :
    (column rest placeholders end : Bytes)
    → marks column ≡ 0
    → marks (column ++ rest ++ placeholders ++ end) ≡ marks rest + marks placeholders + marks end
marks-around column rest placeholders end e = omega (
  arith,
  e,
  marks-append column rest,
  marks-append (column ++ rest) placeholders,
  marks-append (column ++ rest ++ placeholders) end,
)

list_filter-IsBalanced :
    (column : Bytes) (vs : List Bytes) → marks column ≡ 0 → IsBalanced (list_filter column vs)
unfolding list_filter IsBalanced marks
list_filter-IsBalanced column [] e =
    marks-around column (codes " IN (") (create_placeholders 1) (codes ") OR ? = '') ") e
    ∙ ap (λ n. 0 + n + 1) (marks-create_placeholders 1)
list_filter-IsBalanced column (v ∷ vs) e =
    marks-around column (codes " IN (") (create_placeholders (suc (length vs))) (codes ") ") e
    ∙ ap (λ n. 0 + n + 0) (marks-create_placeholders (suc (length vs)))
    ∙ omega arith

text_filter-IsBalanced :
    (value : Bytes) (given : List Bytes) (used unused : Bytes)
    → marks used ≡ length given
    → marks unused ≡ 2
    → IsBalanced (text_filter value given used unused)
unfolding IsBalanced
text_filter-IsBalanced [] given used unused e f = f
text_filter-IsBalanced (b ∷ value) given used unused e f = e

all-IsBalanced :
    (c : Bytes × List Bytes) (cs : List (Bytes × List Bytes))
    → IsBalanced c
    → marks (all_text cs) ≡ length (all_params cs)
    → marks (all_text (c ∷ cs)) ≡ length (all_params (c ∷ cs))
unfolding all_text all_params IsBalanced
all-IsBalanced (t, ps) cs e f =
    omega (arith, e, f, marks-append t (all_text cs), length-append ps (all_params cs))

no_clause : marks (all_text []) ≡ length (all_params [])
unfolding all_text all_params marks
no_clause = refl

marks-filter_head : marks filter_head ≡ 0
unfolding marks
marks-filter_head = refl

clauses-IsBalanced : (f : Filters) → marks (all_text (clauses f)) ≡ length (all_params (clauses f))
unfolding clauses marks
clauses-IsBalanced f = all-IsBalanced _ _ (text_filter-IsBalanced f.search_title _ _ _ refl refl) (
    all-IsBalanced _ _ (text_filter-IsBalanced f.status_filter _ _ _ refl refl) (
      all-IsBalanced _ _ (text_filter-IsBalanced f.release_date_start _ _ _ refl refl) (
        all-IsBalanced _ _ (text_filter-IsBalanced f.release_date_end _ _ _ refl refl) (
          all-IsBalanced _ _ (list_filter-IsBalanced (codes "c.name") f.category_filter refl) (
            all-IsBalanced _ _ (list_filter-IsBalanced (codes "k.keyword") f.keyword_filter refl) (
              all-IsBalanced _ [] (list_filter-IsBalanced (codes "t.name") f.tag_filter refl)
                no_clause))))))

-- Whatever the filters, the statement has a placeholder for each parameter and no other.
pub filter_articles-IsBound :
    {J : Type 0} (json : Json J) (blank : ArticleRecord J) (f : Filters)
    → IsBound (filter_articles json blank f)
unfolding filter_articles
filter_articles-IsBound json blank f = omega (
  arith,
  marks-append filter_head (all_text (clauses f)),
  marks-filter_head,
  clauses-IsBalanced f,
)

-- Filters that are empty at the same places, with lists of the same lengths.
pub record IsAlike (f g : Filters) : Type 0 where
  pub titles : is_empty f.search_title ≡ is_empty g.search_title
  pub statuses : is_empty f.status_filter ≡ is_empty g.status_filter
  pub starts : is_empty f.release_date_start ≡ is_empty g.release_date_start
  pub ends : is_empty f.release_date_end ≡ is_empty g.release_date_end
  pub categories : length f.category_filter ≡ length g.category_filter
  pub keywords : length f.keyword_filter ≡ length g.keyword_filter
  pub tags : length f.tag_filter ≡ length g.tag_filter

list_filter-alike :
    (column : Bytes) (vs ws : List Bytes)
    → length vs ≡ length ws
    → (list_filter column vs).0 ≡ (list_filter column ws).0
unfolding list_filter
list_filter-alike column [] [] e = refl
list_filter-alike column [] (w ∷ ws) e = absurd (omega (arith, e))
list_filter-alike column (v ∷ vs) [] e = absurd (omega (arith, e))
list_filter-alike column (v ∷ vs) (w ∷ ws) e =
    ap (λ n. codes " AND " ++ column ++ codes " IN (" ++ create_placeholders n ++ codes ") ") e

text_filter-alike :
    (v w : Bytes) (given more : List Bytes) (used unused : Bytes)
    → is_empty v ≡ is_empty w
    → (text_filter v given used unused).0 ≡ (text_filter w more used unused).0
text_filter-alike [] [] given more used unused e = refl
text_filter-alike [] (c ∷ w) given more used unused e = cc
text_filter-alike (b ∷ v) [] given more used unused e = cc
text_filter-alike (b ∷ v) (c ∷ w) given more used unused e = refl

-- Clause by clause the same text.
HasTexts : List (Bytes × List Bytes) → List (Bytes × List Bytes) → Type 0
HasTexts [] [] = Unit
HasTexts (c ∷ cs) (d ∷ ds) = (c.0 ≡ d.0) × HasTexts cs ds
HasTexts _ _ = ⊥

all_text-HasTexts : (cs ds : List (Bytes × List Bytes)) → HasTexts cs ds → all_text cs ≡ all_text ds
unfolding all_text HasTexts
all_text-HasTexts [] [] h = refl
all_text-HasTexts ((t, ps) ∷ cs) ((u, qs) ∷ ds) (e, h) =
    ap (λ x. x ++ all_text cs) e ∙ ap (λ x. u ++ x) (all_text-HasTexts cs ds h)
all_text-HasTexts [] (d ∷ ds) h = absurd h
all_text-HasTexts (c ∷ cs) [] h = absurd h

-- The text of the statement is the same for any two filters that are alike: what a visitor types
-- is a parameter of the statement and never a part of it.
pub text-filter_articles :
    {J : Type 0} (json : Json J) (blank : ArticleRecord J) (f g : Filters)
    → IsAlike f g
    → text (filter_articles json blank f) ≡ text (filter_articles json blank g)
unfolding filter_articles clauses HasTexts
text-filter_articles json blank f g h =
    ap (λ t. filter_head ++ t)
      (all_text-HasTexts (clauses f) (clauses g) (
        text_filter-alike f.search_title g.search_title (containing f.search_title ∷ [])
            (containing g.search_title ∷ []) (codes " AND a.title LIKE ? ")
            (codes " AND (a.title LIKE ? OR ? = '') ") h.titles,
        (
          text_filter-alike f.status_filter g.status_filter (f.status_filter ∷ [])
              (g.status_filter ∷ []) (codes " AND a.status = ? ")
              (codes " AND (a.status = ? OR ? = '') ") h.statuses,
          (
            text_filter-alike f.release_date_start g.release_date_start (f.release_date_start ∷ [])
                (g.release_date_start ∷ []) (codes " AND a.release_date >= ? ")
                (codes " AND (a.release_date >= ? OR ? = '') ") h.starts,
            (
              text_filter-alike f.release_date_end g.release_date_end (f.release_date_end ∷ [])
                  (g.release_date_end ∷ []) (codes " AND a.release_date <= ? ")
                  (codes " AND (a.release_date <= ? OR ? = '') ") h.ends,
              (
                list_filter-alike (codes "c.name") f.category_filter g.category_filter h.categories,
                (
                  list_filter-alike (codes "k.keyword") f.keyword_filter g.keyword_filter
                      h.keywords,
                  (list_filter-alike (codes "t.name") f.tag_filter g.tag_filter h.tags, tt),
                ),
              ),
            ),
          ),
        ),
      ))
