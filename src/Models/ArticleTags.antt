-- ===== src/Models/ArticleTags.antt =====
-- models/include/tables/article_tags_table.h and records/article_tag_record.h.
use cdragon.Prelude.{[], ◌∷◌, List, Bool, true, Bytes, codes}
use cdragon.Prelude.Assoc.{Assoc, insert_all}
use cdragon.Prelude.Numerals.{ℤ, int_to_string}
use cdragon.Prelude.Result.{Result, ok, ◌>>=◌}
use cdragon.Database.{Operation, command, select, Row, all_rows}
use cdragon.Models.Article.{checked, is_not_positive}

pub record ArticleTagRecord : Type 0 where
  pub article_id : ℤ
  pub tag_id : ℤ

unfoldable pub to_unordered_map : ArticleTagRecord → Assoc Bytes
to_unordered_map r = insert_all [] (
    (codes "article_id", int_to_string r.article_id)
    ∷ (codes "tag_id", int_to_string r.tag_id)
    ∷ [])

unfoldable pub set_article_id : ℤ → ArticleTagRecord → Result ArticleTagRecord
set_article_id id r =
    checked (is_not_positive id) "article_id must be positive" record r { article_id = id }

unfoldable pub set_tag_id : ℤ → ArticleTagRecord → Result ArticleTagRecord
set_tag_id id r = checked (is_not_positive id) "tag_id must be positive" record r { tag_id = id }

unfoldable pub insert : ℤ → ℤ → Operation Bool
insert article_id tag_id =
    command (codes "INSERT INTO article_tags (article_id, tag_id) VALUES (?, ?)")
      (int_to_string article_id ∷ int_to_string tag_id ∷ []) true

unfoldable pub remove : ℤ → ℤ → Operation Bool
remove article_id tag_id =
    command (codes "DELETE FROM article_tags WHERE article_id = ? AND tag_id = ?")
      (int_to_string article_id ∷ int_to_string tag_id ∷ []) true

unfoldable pub get_tag_ids_for_article : ℤ → Operation (List ℤ)
get_tag_ids_for_article article_id =
    select (codes "SELECT tag_id FROM article_tags WHERE article_id = ?")
      (int_to_string article_id ∷ []) (all_rows λ row. row.get_int (codes "tag_id"))

unfoldable pub get_article_ids_for_tag : ℤ → Operation (List ℤ)
get_article_ids_for_tag tag_id =
    select (codes "SELECT article_id FROM article_tags WHERE tag_id = ?")
      (int_to_string tag_id ∷ []) (all_rows λ row. row.get_int (codes "article_id"))

read_row : Row → Result ArticleTagRecord
read_row row = row.get_int (codes "article_id") >>= λ a.
    row.get_int (codes "tag_id") >>= λ b. ok record { article_id = a; tag_id = b }

unfoldable pub get_all : Operation (List ArticleTagRecord)
unfolding read_row
get_all = select (codes "SELECT article_id, tag_id FROM article_tags") [] (all_rows read_row)
