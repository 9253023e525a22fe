-- ===== src/Examples/Data.antt =====
-- Tables on a connector that counts the statements it executes and answers with fixed rows.
use cdragon.Prelude.{
  Bool, to_string, ℕ, zero, suc, ◌≡◌, refl, subst, true, false, List, [], ◌∷◌, ◌++◌, Bytes, codes,
  All, arith, length, ltb, lt→ltb, equal, ◌==◌, drop, if◌then◌else◌,
}
use cdragon.Prelude.Result.{Result, ok, throws, sql_exception}
use cdragon.Prelude.Numerals.{ℤ, pos, int_to_string}
use cdragon.Database.{Row, Connector, run, bind_params, query, all_rows, first_row}
use cdragon.Database.Binding.{IsConnector, IsBound, marks, text, outcome}
use cdragon.Models.Article.{
  Json, ArticleRecord, set_article_id, set_title, set_summary, set_status, set_slug, set_views,
}
use cdragon.Models.Articles.{Filters, filter_articles, checked_row}
use cdragon.Models.Articles.Filter.{filter_articles-IsBound, text-filter_articles}
use cdragon.Models.Articles.Valid.{IsValid, filter_articles-IsValid}
use cdragon.Models.Bound.{articles_publish, run-IsMethod}
use cdragon.Models.Articles
use cdragon.Models.Role.{RoleRecord}
use cdragon.Models.User.{UserRecord}
use cdragon.Models.Users.{get_record_by_username_and_password}
use cdragon.Models.ArticleKeywords.{get_article_ids_for_keyword}
use cdragon.Models.UserRoles
use cdragon.Http.Request.{HttpRequest, new_request}
use cdragon.Http.Response.{new_response}
use cdragon.Session.{new_repository}
use cdragon.Routes.{ask, can_user_edit_articles, publish_handler, is_session_ok}
use cdragon.Routes.Permissions.{Grants, permitted_iff}
use cdragon.Routes.Access.{article_handler-changes}
use cdragon.Prelude.{◌↔◌, ◌⊎◌}
use cdragon.Models.Lookup.{
  get_record_by_username_and_password-eq-ok, get_article_ids_for_keyword-eq-ok, IsLabelled,
  are_letters,
}

abbrev pub set_next : ℕ → Bytes → Bytes × List Bytes → Result (Bytes × List Bytes)
set_next i p (t, ps) =
    if ltb (length ps) (marks t) then ok (t, ps ++ p ∷ []) else throws sql_exception

abbrev pub answering : List Row → Connector ℕ (Bytes × List Bytes)
answering rows = record {
  prepare_statement = λ t d. ok (t, []);
  set_string = set_next;
  execute_statement = λ s d. ok (suc d);
  execute_query = λ s d. ok rows;
}

answering-IsConnector : (rows : List Row) → IsConnector (answering rows)
answering-IsConnector rows = record {
  prepared = λ t ps. (t, ps);
  prepares = λ t d statement e. ground arith;
  binds = λ t ps p lt. rw (lt→ltb _ _ lt) refl;
  refuses = λ t ps p le. ground arith;
}

abbrev pub json : Json ℕ
json = record { parse = λ s. ok 0; of_string = λ s. 1; dump = λ j. codes "{}" }

run-IsMethod_example :
    run (answering []) (Articles.publish (pos 3)) 0
    ≡ outcome
        (answering [])
        (Articles.publish (pos 3))
        (codes "UPDATE articles SET status = 'published' WHERE article_id = ?", codes "3" ∷ [])
        0
unfolding Articles.publish int_to_string answering-IsConnector to_string
run-IsMethod_example =
    run-IsMethod json (answering []) (answering-IsConnector []) (Articles.publish (pos 3)) 0
      (articles_publish (pos 3))

abbrev pub blank : ArticleRecord ℕ
blank = record {
  article_id = pos 0;
  title = [];
  summary = [];
  content = 0;
  status = [];
  release_date = [];
  slug = [];
  seo_title = [];
  seo_description = [];
  preview_image = [];
  views = pos 0;
}

abbrev filters : Bytes → Filters
filters title = record {
  search_title = title;
  status_filter = [];
  release_date_start = [];
  release_date_end = [];
  category_filter = codes "x" ∷ codes "y" ∷ [];
  keyword_filter = [];
  tag_filter = [];
}

filter_articles-IsBound_example : IsBound (filter_articles json blank (filters (codes "dragon")))
filter_articles-IsBound_example = filter_articles-IsBound json blank (filters (codes "dragon"))

text-filter_articles_example :
    text (filter_articles json blank (filters (codes "dragon")))
    ≡ text (filter_articles json blank (filters (codes "' OR 1=1 --")))
text-filter_articles_example =
    text-filter_articles json blank (filters (codes "dragon")) (filters (codes "' OR 1=1 --"))
      (record {
        titles = refl;
        statuses = refl;
        starts = refl;
        ends = refl;
        categories = refl;
        keywords = refl;
        tags = refl;
      })

abbrev pub row : Row
row = record {
  get_int =
      λ column. if equal column (codes "keyword_id") then throws sql_exception else ok (pos 1);
  get_string = λ column. ok (if equal column (codes "status") then codes "draft" else codes "x");
  get_boolean = λ column. ok true;
}

abbrev pub article : ArticleRecord ℕ
article = record {
  article_id = pos 1;
  title = codes "x";
  summary = codes "x";
  content = 1;
  status = codes "draft";
  release_date = codes "x";
  slug = codes "x";
  seo_title = codes "x";
  seo_description = codes "x";
  preview_image = codes "x";
  views = pos 1;
}

filter_articles-IsValid_example : All IsValid (article ∷ [])
unfolding run query bind_params filter_articles all_rows checked_row marks set_article_id set_title
    set_summary set_status set_slug set_views equal
filter_articles-IsValid_example =
    filter_articles-IsValid (answering (row ∷ [])) json blank (filters (codes "dragon")) 0 0
      (article ∷ []) refl

abbrev user : UserRecord
user = record {
  user_id = pos 1;
  username = codes "ann";
  email = codes "x";
  phone = codes "x";
  password_hash = codes "x";
  created_at = codes "x";
}

get_record_by_username_and_password-eq-ok_example :
    (user.username ≡ codes "ann") × (user.password_hash ≡ codes "x")
unfolding run query bind_params get_record_by_username_and_password first_row marks equal
get_record_by_username_and_password-eq-ok_example =
    get_record_by_username_and_password-eq-ok (answering (row ∷ [])) (codes "ann") (codes "x") 0 0
      user refl

-- A connector whose rows know the column that was selected; a statement is its text.
abbrev word : Bytes → Bytes
word [] = []
word (b ∷ s) = if b == 32 then [] else b ∷ word s

abbrev labelled_row : Bytes → Row
labelled_row column = record {
  get_int = λ k. if equal k column then ok (pos 1) else throws sql_exception;
  get_string = λ k. if equal k column then ok (codes "x") else throws sql_exception;
  get_boolean = λ k. if equal k column then ok true else throws sql_exception;
}

-- There are rows once a statement was executed.
abbrev answers : Bytes → ℕ → List Row
answers t zero = []
answers t (suc d) = labelled_row (word (drop 7 t)) ∷ []

abbrev labelling : Connector ℕ Bytes
labelling = record {
  prepare_statement = λ t d. ok t;
  set_string = λ i p t. ok t;
  execute_statement = λ t d. ok (suc d);
  execute_query = λ t d. ok (answers t d);
}

word-letters :
    (column rest : Bytes) → are_letters column ≡ true → word (column ++ 32 ∷ rest) ≡ column
word-letters [] rest h = refl
word-letters (b ∷ column) rest h = ground (arith, word-letters column rest)

bound-labelling : (n : ℕ) (ps : List Bytes) (t : Bytes) → bind_params labelling n ps t ≡ ok t
unfolding bind_params
bound-labelling n [] t = refl
bound-labelling n (p ∷ ps) t = bound-labelling (suc n) ps t

unread :
    (column other rest : Bytes) (d : ℕ)
    → are_letters column ≡ true
    → equal other column ≡ false
    → All
        (λ row. row.get_int other ≡ throws sql_exception)
        (answers (codes "SELECT " ++ (column ++ 32 ∷ rest)) d)
unread column other rest zero h differ = tt
unread column other rest (suc d) h differ = (rw (word-letters column rest h) (rw differ refl), tt)

labelling-IsLabelled : IsLabelled labelling
unfolding query
labelling-IsLabelled column other rest ps d rows h k differ e =
    let selected = codes "SELECT " ++ (column ++ (codes " FROM " ++ rest)) in
    let e' = rw (bound-labelling 0 ps selected) at e in
    let same : answers selected d ≡ rows = cc in
    subst (All (λ row. row.get_int other ≡ throws sql_exception)) same
      (unread column other (codes "FROM " ++ rest) d h differ)

abbrev no_ids : List ℤ
no_ids = []

get_article_ids_for_keyword-eq-ok_example : no_ids ≡ []
unfolding run query bind_params all_rows get_article_ids_for_keyword
get_article_ids_for_keyword-eq-ok_example =
    get_article_ids_for_keyword-eq-ok labelling (pos 4) 0 0 no_ids labelling-IsLabelled refl

abbrev editor : RoleRecord
editor = record {
  role_id = pos 2;
  name = codes "editor";
  can_create_articles = true;
  can_edit_articles = true;
  can_delete_articles = false;
  can_archive_articles = false;
  can_restore_articles = false;
}

permitted_iff_example : (can_user_edit_articles (answering (row ∷ [])) 0 (pos 5) ≡ true) ↔ (
    (ids : List ℤ) × (ask (answering (row ∷ [])) (UserRoles.get_role_ids_by_user_id (pos 5)) 0
      ≡ ok ids)
    × Grants (answering (row ∷ [])) 0 (λ role. role.can_edit_articles) ids)
permitted_iff_example =
    permitted_iff (answering (row ∷ [])) 0 (λ role. role.can_edit_articles) (pos 5)

abbrev request : HttpRequest ℕ
request = record (new_request 0 [] []) { path_params = codes "3" ∷ [] }

article_handler-changes_example :
    let (_, _, d') = publish_handler (answering []) 1 9 request new_response new_repository 0 in
    (d' ≡ 0)
    ⊎ (((is_session_ok 1 9 request new_repository).0 ≡ true)
        × ((id : ℤ) × (b : Bool) × (run (answering []) (Articles.publish id) 0 ≡ ok (b, d'))))
article_handler-changes_example =
    article_handler-changes (answering []) 1 9 Articles.publish request new_response new_repository
      0
