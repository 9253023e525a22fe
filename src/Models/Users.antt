-- ===== src/Models/Users.antt =====
-- models/include/tables/users_table.h.
use cdragon.Prelude.{[], ◌∷◌, List, Bool, true, Bytes, codes, equal, if◌then◌else◌}
use cdragon.Prelude.Numerals.{ℤ, int_to_string}
use cdragon.Prelude.Result.{Result, ok, throws, runtime_error, ◌>>=◌}
use cdragon.Database.{Operation, command, select, Row, first_row, all_rows}
use cdragon.Models.User.{UserRecord}

unfoldable pub insert : Bytes → Bytes → Bytes → Bytes → Operation Bool
insert username email phone password_hash =
    command (codes "INSERT INTO users (username, email, phone, password_hash) VALUES (?, ?, ?, ?)")
      (username ∷ email ∷ phone ∷ password_hash ∷ []) true

unfoldable pub remove : ℤ → Operation Bool
remove user_id =
    command (codes "DELETE FROM users WHERE user_id = ?") (int_to_string user_id ∷ []) true

unfoldable pub update : ℤ → Bytes → Bytes → Bytes → Bytes → Operation Bool
update user_id username email phone password_hash =
    command
      (codes
        "UPDATE users SET username = ?, email = ?, phone = ?, password_hash = ? WHERE user_id = ?")
      (username ∷ email ∷ phone ∷ password_hash ∷ int_to_string user_id ∷ []) true

-- A key that the caller gives is taken from the call, any other column from the row.
unfoldable pub with_fields :
    Result ℤ → Result Bytes → Result Bytes → Result Bytes → Row → Result UserRecord
with_fields user_id username email phone row = user_id >>= λ i. username >>= λ n. email >>= λ e.
    phone >>= λ p. row.get_string (codes "password_hash") >>= λ h.
    row.get_string (codes "created_at") >>= λ c.
    ok record { user_id = i; username = n; email = e; phone = p; password_hash = h; created_at = c }

unfoldable pub user_id_of : Row → Result ℤ
user_id_of row = row.get_int (codes "user_id")

unfoldable pub username_of : Row → Result Bytes
username_of row = row.get_string (codes "username")

unfoldable pub email_of : Row → Result Bytes
email_of row = row.get_string (codes "email")

unfoldable pub phone_of : Row → Result Bytes
phone_of row = row.get_string (codes "phone")

unfoldable pub get_all : Operation (List UserRecord)
unfolding with_fields user_id_of username_of email_of phone_of
get_all =
    select (codes "SELECT user_id, username, email, phone, password_hash, created_at FROM users") []
      (all_rows
        λ row. with_fields (user_id_of row) (username_of row) (email_of row) (phone_of row) row)

unfoldable pub get_record_by_id : ℤ → Operation UserRecord
unfolding with_fields username_of email_of phone_of
get_record_by_id user_id =
    select (codes "SELECT * FROM users WHERE user_id = ? LIMIT 1") (int_to_string user_id ∷ []) (
      first_row "User not found"
        λ row. with_fields (ok user_id) (username_of row) (email_of row) (phone_of row) row)

unfoldable pub get_record_by_username : Bytes → Operation UserRecord
unfolding with_fields user_id_of email_of phone_of
get_record_by_username username =
    select (codes "SELECT * FROM users WHERE username = ? LIMIT 1") (username ∷ []) (
      first_row "User with the given username not found"
        λ row. with_fields (user_id_of row) (ok username) (email_of row) (phone_of row) row)

-- if (password == password_hash)
abbrev pub check_password : Bytes → UserRecord → Result UserRecord
check_password password user =
    if equal password user.password_hash
    then ok user
    else throws (runtime_error "Incorrect password")

unfoldable pub get_record_by_username_and_password : Bytes → Bytes → Operation UserRecord
unfolding with_fields user_id_of email_of phone_of
get_record_by_username_and_password username password =
    select (codes "SELECT * FROM users WHERE username = ? LIMIT 1") (username ∷ []) (
      first_row "User with the given username not found" λ row.
        with_fields (user_id_of row) (ok username) (email_of row) (phone_of row) row
        >>= check_password password)

unfoldable pub get_record_by_email : Bytes → Operation UserRecord
unfolding with_fields user_id_of username_of phone_of
get_record_by_email email =
    select (codes "SELECT * FROM users WHERE email = ? LIMIT 1") (email ∷ []) (
      first_row "User with the given email not found"
        λ row. with_fields (user_id_of row) (username_of row) (ok email) (phone_of row) row)

unfoldable pub get_record_by_phone : Bytes → Operation UserRecord
unfolding with_fields user_id_of username_of email_of
get_record_by_phone phone =
    select (codes "SELECT * FROM users WHERE phone = ? LIMIT 1") (phone ∷ []) (
      first_row "User with this phone not found"
        λ row. with_fields (user_id_of row) (username_of row) (email_of row) (ok phone) row)
