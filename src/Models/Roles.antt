-- ===== src/Models/Roles.antt =====
-- models/include/tables/roles_table.h. A raw string of the source keeps its line breaks.
use cdragon.Prelude.{[], ◌∷◌, ◌++◌, List, Bool, true, Bytes, codes}
use cdragon.Prelude.Numerals.{ℤ, int_to_string}
use cdragon.Prelude.Result.{Result, ok, ◌>>=◌}
use cdragon.Database.{Operation, command, select, Row, first_row, all_rows}
use cdragon.Models.Role.{RoleRecord, bool_to_string}

unfoldable pub insert : Bytes → Bool → Bool → Bool → Bool → Bool → Operation Bool
insert name can_create can_edit can_delete can_archive can_restore =
    command
      (codes
        "\n            INSERT INTO roles (\n                name, \n                can_create_articles, \n                can_edit_articles, \n                can_delete_articles, \n                can_archive_articles, \n                can_restore_articles\n            ) VALUES (?, ?, ?, ?, ?, ?)")
      (name
        ∷ bool_to_string can_create
        ∷ bool_to_string can_edit
        ∷ bool_to_string can_delete
        ∷ bool_to_string can_archive
        ∷ bool_to_string can_restore
        ∷ [])
      true

unfoldable pub remove : ℤ → Operation Bool
remove role_id =
    command (codes "DELETE FROM roles WHERE role_id = ?") (int_to_string role_id ∷ []) true

unfoldable pub update : ℤ → Bytes → Bool → Bool → Bool → Bool → Bool → Operation Bool
update role_id name can_create can_edit can_delete can_archive can_restore =
    command
      (codes
        "\n            UPDATE roles \n            SET name = ?, \n                can_create_articles = ?, \n                can_edit_articles = ?, \n                can_delete_articles = ?, \n                can_archive_articles = ?, \n                can_restore_articles = ? \n            WHERE role_id = ?")
      (name
        ∷ bool_to_string can_create
        ∷ bool_to_string can_edit
        ∷ bool_to_string can_delete
        ∷ bool_to_string can_archive
        ∷ bool_to_string can_restore
        ∷ int_to_string role_id
        ∷ [])
      true

unfoldable pub read_row : Row → Result RoleRecord
read_row row = row.get_int (codes "role_id") >>= λ id. row.get_string (codes "name") >>= λ n.
    row.get_boolean (codes "can_create_articles") >>= λ creates.
    row.get_boolean (codes "can_edit_articles") >>= λ edits.
    row.get_boolean (codes "can_delete_articles") >>= λ deletes.
    row.get_boolean (codes "can_archive_articles") >>= λ archives.
    row.get_boolean (codes "can_restore_articles") >>= λ restores. ok record {
      role_id = id;
      name = n;
      can_create_articles = creates;
      can_edit_articles = edits;
      can_delete_articles = deletes;
      can_archive_articles = archives;
      can_restore_articles = restores;
    }

unfoldable pub get_record_by_id : ℤ → Operation RoleRecord
unfolding read_row
get_record_by_id role_id =
    select (codes "SELECT * FROM roles WHERE role_id = ?") (int_to_string role_id ∷ [])
      (first_row "Role not found" read_row)

unfoldable pub get_record_by_name : Bytes → Operation RoleRecord
unfolding read_row
get_record_by_name name =
    select (codes "SELECT * FROM roles WHERE name = ?") (name ∷ [])
      (first_row "Role not found" read_row)

unfoldable pub get_all : Operation (List RoleRecord)
unfolding read_row
get_all = select (codes "SELECT * FROM roles") [] (all_rows read_row)

unfoldable pub search_by_name : Bytes → Operation (List RoleRecord)
unfolding read_row
search_by_name name =
    select (codes "SELECT * FROM roles WHERE name LIKE ?") ((b'%' ∷ name ++ b'%' ∷ []) ∷ [])
      (all_rows read_row)
