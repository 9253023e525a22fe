-- ===== src/Models/Articles.antt =====
-- models/include/tables/articles_table.h. The time of `strftime` is an argument.
pub mod Filter
pub mod Valid
use cdragon.Prelude.{
  ℕ, zero, suc, ◌++◌, [], ◌∷◌, List, Bool, true, Bytes, codes, is_empty, length, if◌then◌else◌,
}
use cdragon.Prelude.Numerals.{ℤ, int_to_string}
use cdragon.Prelude.Result.{Result, ok, ◌>>=◌}
use cdragon.Database.{Operation, command, select, Row, first_row, all_rows}
use cdragon.Models.Article.{
  Json, ArticleRecord, set_article_id, set_title, set_summary, set_content, set_status,
  set_release_date, set_slug, set_seo_title, set_seo_description, set_preview_image, set_views,
}

unfoldable pub insert :
    Bytes → Bytes → Bytes → Bytes → Bytes → Bytes → Bytes → Bytes → Bytes → Operation Bool
insert title summary content status release_date slug seo_title seo_description preview_image =
    command
      (codes
        "INSERT INTO articles (title, summary, content, status, release_date,slug, seo_title, seo_description, preview_image, views) VALUES (?, ?, ?, ?, ?, ?, ?, ?, ?, ?)")
      (title
        ∷ summary
        ∷ content
        ∷ status
        ∷ release_date
        ∷ slug
        ∷ seo_title
        ∷ seo_description
        ∷ preview_image
        ∷ codes "0"
        ∷ [])
      true

unfoldable pub remove : ℤ → Operation Bool
remove article_id =
    command (codes "DELETE FROM articles WHERE article_id = ?") (int_to_string article_id ∷ []) true

unfoldable pub publish : ℤ → Operation Bool
publish article_id =
    command (codes "UPDATE articles SET status = 'published' WHERE article_id = ?")
      (int_to_string article_id ∷ []) true

unfoldable pub archive : ℤ → Operation Bool
archive article_id =
    command (codes "UPDATE articles SET status = 'archived' WHERE article_id = ?")
      (int_to_string article_id ∷ []) true

unfoldable pub increment_views : ℤ → Operation Bool
increment_views article_id =
    command (codes "UPDATE articles SET views = views + 1 WHERE article_id = ?")
      (int_to_string article_id ∷ []) true

-- "%" + title + "%"
abbrev pub containing : Bytes → Bytes
containing title = b'%' ∷ title ++ b'%' ∷ []

-- createPlaceholders, from the second placeholder on.
more_placeholders : ℕ → Bytes
more_placeholders zero = []
more_placeholders (suc n) = codes ", ?" ++ more_placeholders n

unfoldable pub create_placeholders : ℕ → Bytes
unfolding more_placeholders
create_placeholders zero = []
create_placeholders (suc n) = b'?' ∷ more_placeholders n

-- One filter with its text and parameters: a filter that is empty is compared with the empty text.
abbrev pub text_filter : Bytes → List Bytes → Bytes → Bytes → Bytes × List Bytes
text_filter value given used unused =
    if is_empty value then (unused, [] ∷ [] ∷ []) else (used, given)

unfoldable pub list_filter : Bytes → List Bytes → Bytes × List Bytes
unfolding create_placeholders
list_filter column [] = (
  codes " AND (" ++ column ++ codes " IN (" ++ create_placeholders 1 ++ codes ") OR ? = '') ",
  [] ∷ [] ∷ [],
)
list_filter column (v ∷ vs) = (
  codes " AND " ++ column ++ codes " IN (" ++ create_placeholders (suc (length vs)) ++ codes ") ",
  v ∷ vs,
)

-- The filters in the order of the source.
pub record Filters : Type 0 where
  pub search_title : Bytes
  pub status_filter : Bytes
  pub release_date_start : Bytes
  pub release_date_end : Bytes
  pub category_filter : List Bytes
  pub keyword_filter : List Bytes
  pub tag_filter : List Bytes

unfoldable pub clauses : Filters → List (Bytes × List Bytes)
unfolding list_filter
clauses f =
    text_filter f.search_title (containing f.search_title ∷ []) (codes " AND a.title LIKE ? ")
      (codes " AND (a.title LIKE ? OR ? = '') ")
    ∷ text_filter f.status_filter (f.status_filter ∷ []) (codes " AND a.status = ? ")
        (codes " AND (a.status = ? OR ? = '') ")
    ∷ text_filter f.release_date_start (f.release_date_start ∷ [])
        (codes " AND a.release_date >= ? ") (codes " AND (a.release_date >= ? OR ? = '') ")
    ∷ text_filter f.release_date_end (f.release_date_end ∷ []) (codes " AND a.release_date <= ? ")
        (codes " AND (a.release_date <= ? OR ? = '') ")
    ∷ list_filter (codes "c.name") f.category_filter
    ∷ list_filter (codes "k.keyword") f.keyword_filter
    ∷ list_filter (codes "t.name") f.tag_filter
    ∷ []

unfoldable pub all_text : List (Bytes × List Bytes) → Bytes
all_text [] = []
all_text ((t, ps) ∷ cs) = t ++ all_text cs

unfoldable pub all_params : List (Bytes × List Bytes) → List Bytes
all_params [] = []
all_params ((t, ps) ∷ cs) = ps ++ all_params cs

abbrev pub filter_head : Bytes
filter_head =
    codes
      "SELECT DISTINCT a.* FROM articles a LEFT JOIN article_categories ac ON a.article_id = ac.article_id LEFT JOIN categories c ON ac.category_id = c.category_id LEFT JOIN article_keywords ak ON a.article_id = ak.article_id LEFT JOIN keywords k ON ak.keyword_id = k.keyword_id LEFT JOIN article_tags at ON a.article_id = at.article_id LEFT JOIN tags t ON at.tag_id = t.tag_id WHERE 1=1 "

module _ {J : Type 0} (json : Json J) where
  unfoldable pub update : ArticleRecord J → Operation Bool
  update article =
      command
        (codes
          "UPDATE articles SET title = ?, summary = ?, content = ?, status = ?, release_date = ?, slug = ?, seo_title = ?, seo_description = ?, preview_image = ?, views = ? WHERE article_id = ?")
        (article.title
          ∷ article.summary
          ∷ json.dump article.content
          ∷ article.status
          ∷ article.release_date
          ∷ article.slug
          ∷ article.seo_title
          ∷ article.seo_description
          ∷ article.preview_image
          ∷ int_to_string article.views
          ∷ int_to_string article.article_id
          ∷ [])
        true

  -- The constructor call on the columns of a row, with what makes the content of its column.
  read_with : (Bytes → Result J) → Row → Result (ArticleRecord J)
  read_with content_of row = row.get_int (codes "article_id") >>= λ id.
      row.get_string (codes "title") >>= λ t. row.get_string (codes "summary") >>= λ s.
      row.get_string (codes "content") >>= content_of >>= λ c.
      row.get_string (codes "status") >>= λ st. row.get_string (codes "release_date") >>= λ d.
      row.get_string (codes "slug") >>= λ sl. row.get_string (codes "seo_title") >>= λ set.
      row.get_string (codes "seo_description") >>= λ sed.
      row.get_string (codes "preview_image") >>= λ p. row.get_int (codes "views") >>= λ v.
      ok record {
        article_id = id;
        title = t;
        summary = s;
        content = c;
        status = st;
        release_date = d;
        slug = sl;
        seo_title = set;
        seo_description = sed;
        preview_image = p;
        views = v;
      }

  unfoldable pub read_row : Row → Result (ArticleRecord J)
  unfolding read_with
  read_row row = read_with json.parse row

  unfoldable pub get_latest_published_article : Bytes → Operation (ArticleRecord J)
  unfolding read_with
  get_latest_published_article now =
      select
        (codes
          "SELECT * FROM articles WHERE status = 'published' AND release_date <= ? ORDER BY release_date DESC LIMIT 1")
        (now ∷ []) (first_row "Article not found" (read_with λ s. ok (json.of_string s)))

  unfoldable pub get_record_by_id : ℤ → Operation (ArticleRecord J)
  unfolding read_row
  get_record_by_id article_id =
      select (codes "SELECT * FROM articles WHERE article_id = ? LIMIT 1;")
        (int_to_string article_id ∷ []) (first_row "Article not found" read_row)

  unfoldable pub get_record_by_slug : Bytes → Operation (ArticleRecord J)
  unfolding read_row
  get_record_by_slug slug =
      select (codes "SELECT * FROM articles WHERE slug = ? LIMIT 1;") (slug ∷ [])
        (first_row "Article not found" read_row)

  unfoldable pub get_all : Operation (List (ArticleRecord J))
  unfolding read_row
  get_all = select (codes "SELECT * FROM articles") [] (all_rows read_row)

  unfoldable pub get_all_records_by_status : Bytes → Operation (List (ArticleRecord J))
  unfolding read_row
  get_all_records_by_status status =
      select (codes "SELECT * FROM articles WHERE status = ?") (status ∷ []) (all_rows read_row)

  unfoldable pub get_all_records_by_category : Bytes → Operation (List (ArticleRecord J))
  unfolding read_row
  get_all_records_by_category category_name =
      select
        (codes
          "SELECT articles.* FROM articles JOIN article_categories ON articles.article_id = article_categories.article_id JOIN categories ON article_categories.category_id = categories.category_id WHERE categories.name = ?")
        (category_name ∷ []) (all_rows read_row)

  unfoldable pub search_record_by_title : Bytes → Operation (List (ArticleRecord J))
  unfolding read_row
  search_record_by_title title =
      select (codes "SELECT * FROM articles WHERE title LIKE ?") (containing title ∷ [])
        (all_rows read_row)

  -- The loop body of `filterArticles`: a record that the setters fill and check, starting from one
  -- whose fields are not initialised.
  unfoldable pub checked_row : ArticleRecord J → Row → Result (ArticleRecord J)
  checked_row blank row =
      row.get_int (codes "article_id") >>= (λ id. set_article_id id blank) >>= λ r0.
      row.get_string (codes "title") >>= (λ t. set_title t r0) >>= λ r1.
      row.get_string (codes "summary") >>= (λ s. set_summary s r1) >>= λ r2.
      row.get_string (codes "content") >>= λ c.
      row.get_string (codes "status")
      >>= (λ s. set_status s (set_content (json.of_string c) r2))
      >>= λ r4. row.get_string (codes "release_date") >>= λ d.
          row.get_string (codes "slug") >>= (λ s. set_slug s (set_release_date d r4)) >>= λ r6.
          row.get_string (codes "seo_title") >>= λ t.
          row.get_string (codes "seo_description") >>= λ e.
          row.get_string (codes "preview_image") >>= λ p. row.get_int (codes "views") >>= λ v.
          set_views v (set_preview_image p (set_seo_description e (set_seo_title t r6)))

  unfoldable pub filter_articles : ArticleRecord J → Filters → Operation (List (ArticleRecord J))
  unfolding clauses all_text all_params checked_row
  filter_articles blank f =
      select (filter_head ++ all_text (clauses f)) (all_params (clauses f))
        (all_rows (checked_row blank))
