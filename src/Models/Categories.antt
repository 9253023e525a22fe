-- ===== src/Models/Categories.antt =====
-- models/include/tables/categories_table.h and records/category_record.h.
use cdragon.Prelude.{[], ◌∷◌, ◌++◌, List, Bool, true, Bytes, codes, is_empty}
use cdragon.Prelude.Assoc.{Assoc, insert_all}
use cdragon.Prelude.Numerals.{ℤ, int_to_string}
use cdragon.Prelude.Result.{Result, ok, ◌>>=◌}
use cdragon.Database.{Operation, command, select, Row, first_row, all_rows}
use cdragon.Models.Article.{checked, is_not_positive}

pub record CategoryRecord : Type 0 where
  pub category_id : ℤ
  pub name : Bytes
  pub description : Bytes

unfoldable pub to_unordered_map : CategoryRecord → Assoc Bytes
to_unordered_map r = insert_all [] (
    (codes "category_id", int_to_string r.category_id)
    ∷ (codes "name", r.name)
    ∷ (codes "description", r.description)
    ∷ [])

unfoldable pub set_category_id : ℤ → CategoryRecord → Result CategoryRecord
set_category_id id r =
    checked (is_not_positive id) "category_id must be positive" record r { category_id = id }

unfoldable pub set_name : Bytes → CategoryRecord → Result CategoryRecord
set_name s r = checked (is_empty s) "name cannot be empty" record r { name = s }

abbrev pub set_description : Bytes → CategoryRecord → CategoryRecord
set_description s r = record r { description = s }

unfoldable pub insert : Bytes → Bytes → Operation Bool
insert name description =
    command (codes "INSERT INTO categories (name, description) VALUES (?, ?)")
      (name ∷ description ∷ []) true

unfoldable pub remove : ℤ → Operation Bool
remove category_id =
    command (codes "DELETE FROM categories WHERE category_id = ?") (int_to_string category_id ∷ [])
      true

unfoldable pub update : ℤ → Bytes → Bytes → Operation Bool
update category_id name description =
    command (codes "UPDATE categories SET name = ?, description = ? WHERE category_id = ?")
      (name ∷ description ∷ int_to_string category_id ∷ []) true

read_row : Row → Result CategoryRecord
read_row row = row.get_int (codes "category_id") >>= λ id. row.get_string (codes "name") >>= λ n.
    row.get_string (codes "description") >>= λ d.
    ok record { category_id = id; name = n; description = d }

unfoldable pub get_record_by_id : ℤ → Operation CategoryRecord
unfolding read_row
get_record_by_id category_id =
    select (codes "SELECT category_id, name, description FROM categories WHERE category_id = ?")
      (int_to_string category_id ∷ []) (first_row "Category not found" read_row)

unfoldable pub get_all : Operation (List CategoryRecord)
unfolding read_row
get_all =
    select (codes "SELECT category_id, name, description FROM categories ORDER BY name") []
      (all_rows read_row)

unfoldable pub search_by_name : Bytes → Operation (List CategoryRecord)
unfolding read_row
search_by_name name =
    select (codes "SELECT category_id, name, description FROM categories WHERE name LIKE ?")
      ((b'%' ∷ name ++ b'%' ∷ []) ∷ []) (all_rows read_row)
