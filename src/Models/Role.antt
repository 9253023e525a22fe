-- ===== src/Models/Role.antt =====
-- models/include/records/role_record.h.
use cdragon.Prelude.{Bool, true, false, [], ◌∷◌, Bytes, codes, is_empty}
use cdragon.Prelude.Assoc.{Assoc, insert_all}
use cdragon.Prelude.Numerals.{ℤ, int_to_string}
use cdragon.Prelude.Result.{Result}
use cdragon.Models.Article.{checked, is_not_positive}

pub record RoleRecord : Type 0 where
  pub role_id : ℤ
  pub name : Bytes
  pub can_create_articles : Bool
  pub can_edit_articles : Bool
  pub can_delete_articles : Bool
  pub can_archive_articles : Bool
  pub can_restore_articles : Bool

-- std::to_string on a Boolean
abbrev pub bool_to_string : Bool → Bytes
bool_to_string true = b'1' ∷ []
bool_to_string false = b'0' ∷ []

unfoldable pub to_unordered_map : RoleRecord → Assoc Bytes
to_unordered_map r = insert_all [] (
    (codes "role_id", int_to_string r.role_id)
    ∷ (codes "name", r.name)
    ∷ (codes "can_create_articles", bool_to_string r.can_create_articles)
    ∷ (codes "can_edit_articles", bool_to_string r.can_edit_articles)
    ∷ (codes "can_delete_articles", bool_to_string r.can_delete_articles)
    ∷ (codes "can_archive_articles", bool_to_string r.can_delete_articles)
    ∷ (codes "can_restore_articles", bool_to_string r.can_delete_articles)
    ∷ [])

unfoldable pub set_role_id : ℤ → RoleRecord → Result RoleRecord
set_role_id id r = checked (is_not_positive id) "role_id must be positive" record r { role_id = id }

unfoldable pub set_name : Bytes → RoleRecord → Result RoleRecord
set_name n r = checked (is_empty n) "name cannot be empty" record r { name = n }

abbrev pub set_can_create_articles : Bool → RoleRecord → RoleRecord
set_can_create_articles b r = record r { can_create_articles = b }

abbrev pub set_can_edit_articles : Bool → RoleRecord → RoleRecord
set_can_edit_articles b r = record r { can_edit_articles = b }

abbrev pub set_can_delete_articles : Bool → RoleRecord → RoleRecord
set_can_delete_articles b r = record r { can_delete_articles = b }

abbrev pub set_can_archive_articles : Bool → RoleRecord → RoleRecord
set_can_archive_articles b r = record r { can_archive_articles = b }

abbrev pub set_can_restore_articles : Bool → RoleRecord → RoleRecord
set_can_restore_articles b r = record r { can_restore_articles = b }
