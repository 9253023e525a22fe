-- ===== src/Models/Keywords.antt =====
-- models/include/tables/keywords_table.h and records/keyword_record.h.
use cdragon.Prelude.{[], ◌∷◌, ◌++◌, List, Bool, true, Bytes, codes, is_empty}
use cdragon.Prelude.Assoc.{Assoc, insert_all}
use cdragon.Prelude.Numerals.{ℤ, int_to_string}
use cdragon.Prelude.Result.{Result, ok, ◌>>=◌}
use cdragon.Database.{Operation, command, select, Row, first_row, all_rows}
use cdragon.Models.Article.{checked, is_not_positive}

pub record KeywordRecord : Type 0 where
  pub keyword_id : ℤ
  pub keyword : Bytes

unfoldable pub to_unordered_map : KeywordRecord → Assoc Bytes
to_unordered_map r =
    insert_all []
      ((codes "keyword_id", int_to_string r.keyword_id) ∷ (codes "keyword", r.keyword) ∷ [])

unfoldable pub set_keyword_id : ℤ → KeywordRecord → Result KeywordRecord
set_keyword_id id r =
    checked (is_not_positive id) "keyword_id must be positive" record r { keyword_id = id }

unfoldable pub set_keyword : Bytes → KeywordRecord → Result KeywordRecord
set_keyword s r = checked (is_empty s) "keyword cannot be empty" record r { keyword = s }

unfoldable pub insert : Bytes → Operation Bool
insert keyword = command (codes "INSERT INTO keywords (keyword) VALUES (?)") (keyword ∷ []) true

unfoldable pub remove : ℤ → Operation Bool
remove keyword_id =
    command (codes "DELETE FROM keywords WHERE keyword_id = ?") (int_to_string keyword_id ∷ []) true

unfoldable pub update : ℤ → Bytes → Operation Bool
update keyword_id keyword =
    command (codes "UPDATE keywords SET keyword = ? WHERE keyword_id = ?")
      (keyword ∷ int_to_string keyword_id ∷ []) true

read_row : Row → Result KeywordRecord
read_row row = row.get_int (codes "keyword_id") >>= λ id.
    row.get_string (codes "keyword") >>= λ k. ok record { keyword_id = id; keyword = k }

unfoldable pub get_record_by_id : ℤ → Operation KeywordRecord
unfolding read_row
get_record_by_id keyword_id =
    select (codes "SELECT keyword_id, keyword FROM keywords WHERE keyword_id = ?")
      (int_to_string keyword_id ∷ []) (first_row "Keyword not found" read_row)

unfoldable pub get_all : Operation (List KeywordRecord)
unfolding read_row
get_all =
    select (codes "SELECT keyword_id, keyword FROM keywords ORDER BY keyword") []
      (all_rows read_row)

unfoldable pub search_by_keyword : Bytes → Operation (List KeywordRecord)
unfolding read_row
search_by_keyword keyword =
    select (codes "SELECT keyword_id, keyword FROM keywords WHERE keyword LIKE ?")
      ((b'%' ∷ keyword ++ b'%' ∷ []) ∷ []) (all_rows read_row)
