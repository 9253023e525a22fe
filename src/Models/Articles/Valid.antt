-- ===== src/Models/Articles/Valid.antt =====
-- models/include/tables/articles_table.h: what the setters check of the rows of `filterArticles`.
use cdragon.Prelude.{◌≡◌, sym, false, List, [], ◌∷◌, is_empty, All, arith}
use cdragon.Prelude.Result.{ok, >>=-eq-ok}
use cdragon.Database.{Row, Connector, run, query, all_rows}
use cdragon.Models.Article.{
  ArticleRecord, Json, is_not_positive, is_negative, is_unknown_status, set_article_id, set_title,
  set_summary, set_status, set_slug, set_views,
}
use cdragon.Models.Articles.{checked_row, filter_articles, Filters}

-- A record that every setter has accepted.
pub record IsValid {J : Type 0} (r : ArticleRecord J) : Type 0 where
  pub id_positive : is_not_positive r.article_id ≡ false
  pub title_given : is_empty r.title ≡ false
  pub summary_given : is_empty r.summary ≡ false
  pub status_known : is_unknown_status r.status ≡ false
  pub slug_given : is_empty r.slug ≡ false
  pub views_counted : is_negative r.views ≡ false

module _ {J : Type 0} where
  pub checked_row-IsValid :
      (blank r : ArticleRecord J) (json : Json J) (row : Row)
      → checked_row json blank row ≡ ok r
      → IsValid r
  unfolding checked_row set_article_id set_title set_summary set_status set_slug set_views
  checked_row-IsValid blank r json row e = record {
    id_positive = ground arith;
    title_given = ground arith;
    summary_given = ground arith;
    status_known = ground arith;
    slug_given = ground arith;
    views_counted = ground arith;
  }

  all_rows-IsValid :
      (blank : ArticleRecord J) (json : Json J) (rows : List Row) (rs : List (ArticleRecord J))
      → all_rows (checked_row json blank) rows ≡ ok rs
      → All IsValid rs
  unfolding all_rows
  all_rows-IsValid blank json [] [] e = tt
  all_rows-IsValid blank json [] (r ∷ rs) e = ground arith
  all_rows-IsValid blank json (row ∷ rows) rs e =
      let (r, here, later) = >>=-eq-ok (checked_row json blank row) _ e in
      let (rest, there, last) = >>=-eq-ok (all_rows (checked_row json blank) rows) _ later in
      let found : (r ∷ rest) ≡ rs = cc in
      rw (sym found)
        (checked_row-IsValid blank r json row here, all_rows-IsValid blank json rows rest there)

  -- Whatever the database holds and whatever the filters, each article that `filterArticles` returns
  -- has a positive id, a title, a summary, a slug, one of the three statuses, and no negative views.
  pub filter_articles-IsValid :
      {D S : Type 0} (c : Connector D S) (json : Json J) (blank : ArticleRecord J) (f : Filters)
      (d e : D) (rs : List (ArticleRecord J))
      → run c (filter_articles json blank f) d ≡ ok (rs, e)
      → All IsValid rs
  unfolding run filter_articles
  filter_articles-IsValid c json blank f d e rs h =
      let (rows, answer, read) = >>=-eq-ok (query c _ _ d) _ h in
      let (found, there, last) = >>=-eq-ok (all_rows (checked_row json blank) rows) _ read in
      let same : found ≡ rs = cc in rw (sym same) (all_rows-IsValid blank json rows found there)
