-- ===== src/Models/ArticleKeywords.antt =====
-- models/include/tables/article_keywords_table.h and records/article_keyword_record.h.
use cdragon.Prelude.{[], ◌∷◌, List, Bool, true, Bytes, codes}
use cdragon.Prelude.Assoc.{Assoc, insert_all}
use cdragon.Prelude.Numerals.{ℤ, int_to_string}
use cdragon.Prelude.Result.{Result, ok, ◌>>=◌}
use cdragon.Database.{Operation, command, select, Row, all_rows}
use cdragon.Models.Article.{checked, is_not_positive}

pub record ArticleKeywordRecord : Type 0 where
  pub article_id : ℤ
  pub keyword_id : ℤ

unfoldable pub to_unordered_map : ArticleKeywordRecord → Assoc Bytes
to_unordered_map r = insert_all [] (
    (codes "article_id", int_to_string r.article_id)
    ∷ (codes "keyword_id", int_to_string r.keyword_id)
    ∷ [])

unfoldable pub set_article_id : ℤ → ArticleKeywordRecord → Result ArticleKeywordRecord
set_article_id id r =
    checked (is_not_positive id) "article_id must be positive" record r { article_id = id }

unfoldable pub set_keyword_id : ℤ → ArticleKeywordRecord → Result ArticleKeywordRecord
set_keyword_id id r =
    checked (is_not_positive id) "keyword_id must be positive" record r { keyword_id = id }

unfoldable pub insert : ℤ → ℤ → Operation Bool
insert article_id keyword_id =
    command (codes "INSERT INTO article_keywords (article_id, keyword_id) VALUES (?, ?)")
      (int_to_string article_id ∷ int_to_string keyword_id ∷ []) true

unfoldable pub remove : ℤ → ℤ → Operation Bool
remove article_id keyword_id =
    command (codes "DELETE FROM article_keywords WHERE article_id = ? AND keyword_id = ?")
      (int_to_string article_id ∷ int_to_string keyword_id ∷ []) true

unfoldable pub get_keyword_ids_for_article : ℤ → Operation (List ℤ)
get_keyword_ids_for_article article_id =
    select (codes "SELECT keyword_id FROM article_keywords WHERE article_id = ?")
      (int_to_string article_id ∷ []) (all_rows λ row. row.get_int (codes "keyword_id"))

unfoldable pub get_article_ids_for_keyword : ℤ → Operation (List ℤ)
get_article_ids_for_keyword keyword_id =
    select (codes "SELECT article_id FROM article_keywords WHERE keyword_id = ?")
      (int_to_string keyword_id ∷ []) (all_rows λ row. row.get_int (codes "keyword_id"))

read_row : Row → Result ArticleKeywordRecord
read_row row = row.get_int (codes "article_id") >>= λ a.
    row.get_int (codes "keyword_id") >>= λ b. ok record { article_id = a; keyword_id = b }

unfoldable pub get_all : Operation (List ArticleKeywordRecord)
unfolding read_row
get_all =
    select (codes "SELECT article_id, keyword_id FROM article_keywords") [] (all_rows read_row)
