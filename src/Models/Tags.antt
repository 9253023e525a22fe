-- ===== src/Models/Tags.antt =====
-- models/include/tables/tags_table.h and records/tag_record.h.
use cdragon.Prelude.{[], ◌∷◌, ◌++◌, List, Bool, true, Bytes, codes, is_empty}
use cdragon.Prelude.Assoc.{Assoc, insert_all}
use cdragon.Prelude.Numerals.{ℤ, int_to_string}
use cdragon.Prelude.Result.{Result, ok, ◌>>=◌}
use cdragon.Database.{Operation, command, select, Row, first_row, all_rows}
use cdragon.Models.Article.{checked, is_not_positive}

pub record TagRecord : Type 0 where
  pub tag_id : ℤ
  pub name : Bytes

unfoldable pub to_unordered_map : TagRecord → Assoc Bytes
to_unordered_map r =
    insert_all [] ((codes "tag_id", int_to_string r.tag_id) ∷ (codes "name", r.name) ∷ [])

unfoldable pub set_tag_id : ℤ → TagRecord → Result TagRecord
set_tag_id id r = checked (is_not_positive id) "tag_id must be positive" record r { tag_id = id }

unfoldable pub set_name : Bytes → TagRecord → Result TagRecord
set_name s r = checked (is_empty s) "name cannot be empty" record r { name = s }

unfoldable pub insert : Bytes → Operation Bool
insert name = command (codes "INSERT INTO tags (name) VALUES (?)") (name ∷ []) true

unfoldable pub remove : ℤ → Operation Bool
remove tag_id = command (codes "DELETE FROM tags WHERE tag_id = ?") (int_to_string tag_id ∷ []) true

unfoldable pub update : ℤ → Bytes → Operation Bool
update tag_id name =
    command (codes "UPDATE tags SET name = ? WHERE tag_id = ?") (name ∷ int_to_string tag_id ∷ [])
      true

read_row : Row → Result TagRecord
read_row row = row.get_int (codes "tag_id") >>= λ id.
    row.get_string (codes "name") >>= λ n. ok record { tag_id = id; name = n }

unfoldable pub get_record_by_id : ℤ → Operation TagRecord
unfolding read_row
get_record_by_id tag_id =
    select (codes "SELECT * FROM tags WHERE tag_id = ?") (int_to_string tag_id ∷ [])
      (first_row "Tag not found" read_row)

unfoldable pub get_all : Operation (List TagRecord)
unfolding read_row
get_all = select (codes "SELECT * FROM tags ORDER BY name") [] (all_rows read_row)

unfoldable pub search_by_name : Bytes → Operation (List TagRecord)
unfolding read_row
search_by_name name =
    select (codes "SELECT * FROM tags WHERE name LIKE ?") ((b'%' ∷ name ++ b'%' ∷ []) ∷ [])
      (all_rows read_row)
