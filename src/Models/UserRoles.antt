-- ===== src/Models/UserRoles.antt =====
-- models/include/tables/user_roles_table.h and records/user_role_record.h.
use cdragon.Prelude.{[], ◌∷◌, List, Bool, true, Bytes, codes}
use cdragon.Prelude.Assoc.{Assoc, insert_all}
use cdragon.Prelude.Numerals.{ℤ, int_to_string}
use cdragon.Prelude.Result.{Result, ok, ◌>>=◌}
use cdragon.Database.{Operation, command, select, Row, first_row, all_rows}
use cdragon.Models.Article.{checked, is_not_positive}

pub record UserRoleRecord : Type 0 where
  pub user_id : ℤ
  pub role_id : ℤ

unfoldable pub to_unordered_map : UserRoleRecord → Assoc Bytes
to_unordered_map r =
    insert_all []
      ((codes "user_id", int_to_string r.user_id) ∷ (codes "role_id", int_to_string r.role_id) ∷ [])

unfoldable pub set_user_id : ℤ → UserRoleRecord → Result UserRoleRecord
set_user_id id r = checked (is_not_positive id) "user_id must be positive" record r { user_id = id }

unfoldable pub set_role_id : ℤ → UserRoleRecord → Result UserRoleRecord
set_role_id id r = checked (is_not_positive id) "role_id must be positive" record r { role_id = id }

unfoldable pub insert : ℤ → ℤ → Operation Bool
insert user_id role_id =
    command (codes "INSERT INTO user_roles (user_id, role_id) VALUES (?, ?)")
      (int_to_string user_id ∷ int_to_string role_id ∷ []) true

unfoldable pub remove : ℤ → ℤ → Operation Bool
remove user_id role_id =
    command (codes "DELETE FROM user_roles WHERE user_id = ? AND role_id = ?")
      (int_to_string user_id ∷ int_to_string role_id ∷ []) true

unfoldable pub get_role_ids_by_user_id : ℤ → Operation (List ℤ)
get_role_ids_by_user_id user_id =
    select (codes "SELECT role_id FROM user_roles WHERE user_id = ?") (int_to_string user_id ∷ [])
      (all_rows λ row. row.get_int (codes "role_id"))

unfoldable pub get_user_ids_by_role_id : ℤ → Operation (List ℤ)
get_user_ids_by_role_id role_id =
    select (codes "SELECT user_id FROM user_roles WHERE role_id = ?") (int_to_string role_id ∷ [])
      (all_rows λ row. row.get_int (codes "user_id"))

read_row : Row → Result UserRoleRecord
read_row row = row.get_int (codes "user_id") >>= λ a.
    row.get_int (codes "role_id") >>= λ b. ok record { user_id = a; role_id = b }

unfoldable pub get_all : Operation (List UserRoleRecord)
unfolding read_row
get_all = select (codes "SELECT user_id, role_id FROM user_roles") [] (all_rows read_row)

unfoldable pub get_record_by_user_id_and_role_id : ℤ → ℤ → Operation UserRoleRecord
unfolding read_row
get_record_by_user_id_and_role_id user_id role_id =
    select (codes "SELECT * FROM user_roles WHERE user_id = ? AND role_id = ?")
      (int_to_string user_id ∷ int_to_string role_id ∷ []) (first_row "UserRole not found" read_row)
