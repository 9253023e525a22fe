-- ===== src/Models/User.antt =====
-- models/include/records/user_record.h.
use cdragon.Prelude.{[], ◌∷◌, Bytes, codes, is_empty}
use cdragon.Prelude.Assoc.{Assoc, insert_all}
use cdragon.Prelude.Numerals.{ℤ, int_to_string}
use cdragon.Prelude.Result.{Result}
use cdragon.Models.Article.{checked, is_not_positive}

pub record UserRecord : Type 0 where
  pub user_id : ℤ
  pub username : Bytes
  pub email : Bytes
  pub phone : Bytes
  pub password_hash : Bytes
  pub created_at : Bytes

unfoldable pub to_unordered_map : UserRecord → Assoc Bytes
to_unordered_map r = insert_all [] (
    (codes "user_id", int_to_string r.user_id)
    ∷ (codes "username", r.username)
    ∷ (codes "email", r.email)
    ∷ (codes "phone", r.phone)
    ∷ (codes "password_hash", r.password_hash)
    ∷ (codes "created_at", r.created_at)
    ∷ [])

unfoldable pub set_user_id : ℤ → UserRecord → Result UserRecord
set_user_id id r = checked (is_not_positive id) "user_id must be positive" record r { user_id = id }

unfoldable pub set_username : Bytes → UserRecord → Result UserRecord
set_username s r = checked (is_empty s) "username cannot be empty" record r { username = s }

unfoldable pub set_email : Bytes → UserRecord → Result UserRecord
set_email s r = checked (is_empty s) "email cannot be empty" record r { email = s }

unfoldable pub set_phone : Bytes → UserRecord → Result UserRecord
set_phone s r = checked (is_empty s) "phone cannot be empty" record r { phone = s }

unfoldable pub set_password_hash : Bytes → UserRecord → Result UserRecord
set_password_hash s r =
    checked (is_empty s) "password_hash cannot be empty" record r { password_hash = s }

unfoldable pub set_created_at : Bytes → UserRecord → Result UserRecord
set_created_at s r = checked (is_empty s) "created_at cannot be empty" record r { created_at = s }
