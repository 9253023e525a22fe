-- ===== src/Models/Lookup.antt =====
-- models/include/tables: what the lookups of a table promise of the record that they return.
use cdragon.Prelude.{
  ◌++◌, All, ◌==◌, ◌||◌, ◌&&◌, leb, true, false, Bool, String, inl, inr, ◌≡◌, refl, ◌∙◌, sym, ap,
  List, [], ◌∷◌, Bytes, codes, equal, equal_iff, arith, Bool-cases,
}
use cdragon.Prelude.Result.{Result, ok, throws, sql_exception, >>=-eq-ok, ◌>>=◌}
use cdragon.Prelude.Numerals.{ℤ, int_to_string}
use cdragon.Database.{Row, Connector, run, query, first_row, all_rows}
use cdragon.Models.Role.{RoleRecord}
use cdragon.Models.User.{UserRecord}
use cdragon.Models.Users.{
  check_password, with_fields, user_id_of, email_of, phone_of, get_record_by_username_and_password,
}
use cdragon.Models.ArticleKeywords.{get_article_ids_for_keyword}
use cdragon.Models.Role

named :
    (username : Bytes) (row : Row) (user : UserRecord)
    → with_fields (user_id_of row) (ok username) (email_of row) (phone_of row) row ≡ ok user
    → user.username ≡ username
unfolding with_fields
named username row user e = ground arith

guarded :
    (password : Bytes) (u user : UserRecord)
    → check_password password u ≡ ok user
    → (u ≡ user) × (user.password_hash ≡ password)
guarded password u user e = elim (Bool-cases (equal password u.password_hash)) [
  | inl same ↦
      let found : u ≡ user = ground arith in
      (
        found,
        ap (λ v. v.password_hash) (sym found) ∙ sym ((equal_iff password u.password_hash).0 same),
      )
  | inr other ↦ ground arith
]

first_row-eq-ok :
    {A : Type 0} (message : String) (read : Row → Result A) (rows : List Row) (a : A)
    → first_row message read rows ≡ ok a
    → (row : Row) × (read row ≡ ok a)
unfolding first_row
first_row-eq-ok message read [] a e = ground arith
first_row-eq-ok message read (row ∷ rows) a e = (row, e)

-- A user is returned for a name and a password only if it has that name and its stored hash is the
-- very text given as the password.
pub get_record_by_username_and_password-eq-ok :
    {D S : Type 0} (c : Connector D S) (username password : Bytes) (d e : D) (user : UserRecord)
    → run c (get_record_by_username_and_password username password) d ≡ ok (user, e)
    → (user.username ≡ username) × (user.password_hash ≡ password)
unfolding run get_record_by_username_and_password
get_record_by_username_and_password-eq-ok c username password d e user h =
    let (rows, answer, read) =
      >>=-eq-ok (query c (codes "SELECT * FROM users WHERE username = ? LIMIT 1") (username ∷ []) d)
        _ h in
    let (found, there, last) =
      >>=-eq-ok
        (first_row "User with the given username not found"
          (λ row.
            with_fields (user_id_of row) (ok username) (email_of row) (phone_of row) row
            >>= check_password password)
          rows)
        _ read in
    let (row, made) = first_row-eq-ok _ _ rows found there in
    let (u, fields, checks) =
      >>=-eq-ok (with_fields (user_id_of row) (ok username) (email_of row) (phone_of row) row) _
        made in
    let (one, stored) = guarded password u found checks in
    let same : found ≡ user = ground arith in
    rw (sym same) (rw (sym one) (named username row u fields), stored)

-- The bytes of the names of columns.
abbrev pub are_letters : Bytes → Bool
are_letters [] = true
are_letters (b ∷ s) = (b == b'_' || (leb b'a' b && leb b b'z')) && are_letters s

-- What the documentation promises: of a statement that selects one column, every row refuses to read
-- another.
abbrev pub IsLabelled : {D S : Type 0} → Connector D S → Type 0
IsLabelled {D} c =
    (column other rest : Bytes) (params : List Bytes) (d : D) (rows : List Row)
    → are_letters column ≡ true
    → are_letters other ≡ true
    → equal other column ≡ false
    → query c (codes "SELECT " ++ (column ++ (codes " FROM " ++ rest))) params d ≡ ok rows
    → All (λ row. row.get_int other ≡ throws sql_exception) rows

all_rows-refused :
    {A : Type 0} (read : Row → Result A) (rows : List Row) (found : List A)
    → All (λ row. read row ≡ throws sql_exception) rows
    → all_rows read rows ≡ ok found
    → found ≡ []
unfolding all_rows
all_rows-refused read [] found h e = ground arith
all_rows-refused read (row ∷ rows) found (h, hs) e = cc (rw (h) at e)

-- If rows refuse a column that was not selected, `getArticleIdsForKeyword` never returns an article,
-- whatever the database holds: its statement selects `article_id`, and the loop reads `keyword_id`.
pub get_article_ids_for_keyword-eq-ok :
    {D S : Type 0} (c : Connector D S) (keyword_id : ℤ) (d d' : D) (ids : List ℤ)
    → IsLabelled c
    → run c (get_article_ids_for_keyword keyword_id) d ≡ ok (ids, d')
    → ids ≡ []
unfolding run get_article_ids_for_keyword equal
get_article_ids_for_keyword-eq-ok c keyword_id d d' ids labelled e =
    let statement = codes "SELECT article_id FROM article_keywords WHERE keyword_id = ?" in
    let (rows, answer, rest) =
      >>=-eq-ok (query c statement (int_to_string keyword_id ∷ []) d) _ e in
    let (found, there, last) =
      >>=-eq-ok (all_rows (λ row. row.get_int (codes "keyword_id")) rows) _ rest in
    let refused =
      labelled (codes "article_id") (codes "keyword_id")
        (codes "article_keywords WHERE keyword_id = ?") (int_to_string keyword_id ∷ []) d rows refl
        refl refl answer in
    let none_found =
      all_rows-refused (λ row. row.get_int (codes "keyword_id")) rows found refused there in
    ground arith

-- The map that a role is shown by says nothing of archiving and restoring: two roles that differ
-- only there have the same map.
to_unordered_map_blind :
    (r : RoleRecord) (archive restore : Bool)
    → Role.to_unordered_map
        (Role.set_can_archive_articles archive (Role.set_can_restore_articles restore r))
      ≡ Role.to_unordered_map r
unfolding Role.to_unordered_map
to_unordered_map_blind r archive restore = refl
