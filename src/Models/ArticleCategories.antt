-- ===== src/Models/ArticleCategories.antt =====
-- models/include/tables/article_categories_table.h and records/article_category_record.h.
use cdragon.Prelude.{[], ◌∷◌, List, Bool, true, Bytes, codes}
use cdragon.Prelude.Assoc.{Assoc, insert_all}
use cdragon.Prelude.Numerals.{ℤ, int_to_string}
use cdragon.Prelude.Result.{Result, ok, ◌>>=◌}
use cdragon.Database.{Operation, command, select, Row, all_rows}
use cdragon.Models.Article.{checked, is_not_positive}

pub record ArticleCategoryRecord : Type 0 where
  pub article_id : ℤ
  pub category_id : ℤ

unfoldable pub to_unordered_map : ArticleCategoryRecord → Assoc Bytes
to_unordered_map r = insert_all [] (
    (codes "article_id", int_to_string r.article_id)
    ∷ (codes "category_id", int_to_string r.category_id)
    ∷ [])

unfoldable pub set_article_id : ℤ → ArticleCategoryRecord → Result ArticleCategoryRecord
set_article_id id r =
    checked (is_not_positive id) "article_id must be positive" record r { article_id = id }

unfoldable pub set_category_id : ℤ → ArticleCategoryRecord → Result ArticleCategoryRecord
set_category_id id r =
    checked (is_not_positive id) "category_id must be positive" record r { category_id = id }

unfoldable pub insert : ℤ → ℤ → Operation Bool
insert article_id category_id =
    command (codes "INSERT INTO article_categories (article_id, category_id) VALUES (?, ?)")
      (int_to_string article_id ∷ int_to_string category_id ∷ []) true

unfoldable pub remove : ℤ → ℤ → Operation Bool
remove article_id category_id =
    command (codes "DELETE FROM article_categories WHERE article_id = ? AND category_id = ?")
      (int_to_string article_id ∷ int_to_string category_id ∷ []) true

unfoldable pub get_category_ids_for_article : ℤ → Operation (List ℤ)
get_category_ids_for_article article_id =
    select (codes "SELECT category_id FROM article_categories WHERE article_id = ?")
      (int_to_string article_id ∷ []) (all_rows λ row. row.get_int (codes "category_id"))

unfoldable pub get_article_ids_for_category : ℤ → Operation (List ℤ)
get_article_ids_for_category category_id =
    select (codes "SELECT article_id FROM article_categories WHERE category_id = ?")
      (int_to_string category_id ∷ []) (all_rows λ row. row.get_int (codes "article_id"))

read_row : Row → Result ArticleCategoryRecord
read_row row = row.get_int (codes "article_id") >>= λ a.
    row.get_int (codes "category_id") >>= λ b. ok record { article_id = a; category_id = b }

unfoldable pub get_all : Operation (List ArticleCategoryRecord)
unfolding read_row
get_all =
    select (codes "SELECT article_id, category_id FROM article_categories") [] (all_rows read_row)
