-- ===== src/Models/Bound.antt =====
-- models/include/tables: every statement of every table has its parameters.
use cdragon.Prelude.{◌≡◌, refl, Bool, List, Bytes}
use cdragon.Prelude.Numerals.{ℤ}
use cdragon.Prelude.Result.{◌>>=◌}
use cdragon.Database.{Operation, Connector, run}
use cdragon.Database.Binding.{IsConnector, IsBound, marks, outcome, text, params, run-IsBound}
use cdragon.Models.Article.{Json, ArticleRecord}
use cdragon.Models.Articles.{Filters}
use cdragon.Models.Role.{RoleRecord}
use cdragon.Models.User.{UserRecord}
use cdragon.Models.Articles.Filter.{filter_articles-IsBound}
use cdragon.Models.Articles
use cdragon.Models.Roles
use cdragon.Models.Users
use cdragon.Models.Categories
use cdragon.Models.Keywords
use cdragon.Models.Tags
use cdragon.Models.ArticleCategories
use cdragon.Models.ArticleKeywords
use cdragon.Models.ArticleTags
use cdragon.Models.UserRoles

-- The methods of the tables.
pub data IsMethod {J : Type 0} (json : Json J) : (A : Type 0) → Operation A → Type 1 where
  -- Articles
  articles_insert :
      (a : Bytes) (b : Bytes) (c : Bytes) (d : Bytes) (e : Bytes) (f : Bytes) (g : Bytes)
      (h : Bytes) (i : Bytes)
      → IsMethod json Bool (Articles.insert a b c d e f g h i)
  articles_update : (a : ArticleRecord J) → IsMethod json Bool (Articles.update json a)
  articles_remove : (a : ℤ) → IsMethod json Bool (Articles.remove a)
  articles_publish : (a : ℤ) → IsMethod json Bool (Articles.publish a)
  articles_archive : (a : ℤ) → IsMethod json Bool (Articles.archive a)
  articles_get_latest_published_article :
      (a : Bytes) → IsMethod json (ArticleRecord J) (Articles.get_latest_published_article json a)
  articles_get_record_by_id :
      (a : ℤ) → IsMethod json (ArticleRecord J) (Articles.get_record_by_id json a)
  articles_get_record_by_slug :
      (a : Bytes) → IsMethod json (ArticleRecord J) (Articles.get_record_by_slug json a)
  articles_get_all : IsMethod json (List (ArticleRecord J)) (Articles.get_all json)
  articles_get_all_records_by_status :
      (a : Bytes)
      → IsMethod json (List (ArticleRecord J)) (Articles.get_all_records_by_status json a)
  articles_get_all_records_by_category :
      (a : Bytes)
      → IsMethod json (List (ArticleRecord J)) (Articles.get_all_records_by_category json a)
  articles_increment_views : (a : ℤ) → IsMethod json Bool (Articles.increment_views a)
  articles_search_record_by_title :
      (a : Bytes) → IsMethod json (List (ArticleRecord J)) (Articles.search_record_by_title json a)
  articles_filter_articles :
      (a : ArticleRecord J) (b : Filters)
      → IsMethod json (List (ArticleRecord J)) (Articles.filter_articles json a b)
  -- Roles
  roles_insert :
      (a : Bytes) (b : Bool) (c : Bool) (d : Bool) (e : Bool) (f : Bool)
      → IsMethod json Bool (Roles.insert a b c d e f)
  roles_remove : (a : ℤ) → IsMethod json Bool (Roles.remove a)
  roles_update :
      (a : ℤ) (b : Bytes) (c : Bool) (d : Bool) (e : Bool) (f : Bool) (g : Bool)
      → IsMethod json Bool (Roles.update a b c d e f g)
  roles_get_record_by_id : (a : ℤ) → IsMethod json RoleRecord (Roles.get_record_by_id a)
  roles_get_record_by_name : (a : Bytes) → IsMethod json RoleRecord (Roles.get_record_by_name a)
  roles_get_all : IsMethod json (List RoleRecord) (Roles.get_all)
  roles_search_by_name : (a : Bytes) → IsMethod json (List RoleRecord) (Roles.search_by_name a)
  -- Users
  users_insert :
      (a : Bytes) (b : Bytes) (c : Bytes) (d : Bytes) → IsMethod json Bool (Users.insert a b c d)
  users_remove : (a : ℤ) → IsMethod json Bool (Users.remove a)
  users_update :
      (a : ℤ) (b : Bytes) (c : Bytes) (d : Bytes) (e : Bytes)
      → IsMethod json Bool (Users.update a b c d e)
  users_get_all : IsMethod json (List UserRecord) (Users.get_all)
  users_get_record_by_id : (a : ℤ) → IsMethod json UserRecord (Users.get_record_by_id a)
  users_get_record_by_username :
      (a : Bytes) → IsMethod json UserRecord (Users.get_record_by_username a)
  users_get_record_by_username_and_password :
      (a : Bytes) (b : Bytes)
      → IsMethod json UserRecord (Users.get_record_by_username_and_password a b)
  users_get_record_by_email : (a : Bytes) → IsMethod json UserRecord (Users.get_record_by_email a)
  users_get_record_by_phone : (a : Bytes) → IsMethod json UserRecord (Users.get_record_by_phone a)
  -- Categories
  categories_insert : (a : Bytes) (b : Bytes) → IsMethod json Bool (Categories.insert a b)
  categories_remove : (a : ℤ) → IsMethod json Bool (Categories.remove a)
  categories_update : (a : ℤ) (b : Bytes) (c : Bytes) → IsMethod json Bool (Categories.update a b c)
  categories_get_record_by_id :
      (a : ℤ) → IsMethod json Categories.CategoryRecord (Categories.get_record_by_id a)
  categories_get_all : IsMethod json (List Categories.CategoryRecord) (Categories.get_all)
  categories_search_by_name :
      (a : Bytes) → IsMethod json (List Categories.CategoryRecord) (Categories.search_by_name a)
  -- Keywords
  keywords_insert : (a : Bytes) → IsMethod json Bool (Keywords.insert a)
  keywords_remove : (a : ℤ) → IsMethod json Bool (Keywords.remove a)
  keywords_update : (a : ℤ) (b : Bytes) → IsMethod json Bool (Keywords.update a b)
  keywords_get_record_by_id :
      (a : ℤ) → IsMethod json Keywords.KeywordRecord (Keywords.get_record_by_id a)
  keywords_get_all : IsMethod json (List Keywords.KeywordRecord) (Keywords.get_all)
  keywords_search_by_keyword :
      (a : Bytes) → IsMethod json (List Keywords.KeywordRecord) (Keywords.search_by_keyword a)
  -- Tags
  tags_insert : (a : Bytes) → IsMethod json Bool (Tags.insert a)
  tags_remove : (a : ℤ) → IsMethod json Bool (Tags.remove a)
  tags_update : (a : ℤ) (b : Bytes) → IsMethod json Bool (Tags.update a b)
  tags_get_record_by_id : (a : ℤ) → IsMethod json Tags.TagRecord (Tags.get_record_by_id a)
  tags_get_all : IsMethod json (List Tags.TagRecord) (Tags.get_all)
  tags_search_by_name : (a : Bytes) → IsMethod json (List Tags.TagRecord) (Tags.search_by_name a)
  -- ArticleCategories
  article_categories_insert : (a : ℤ) (b : ℤ) → IsMethod json Bool (ArticleCategories.insert a b)
  article_categories_remove : (a : ℤ) (b : ℤ) → IsMethod json Bool (ArticleCategories.remove a b)
  article_categories_get_category_ids_for_article :
      (a : ℤ) → IsMethod json (List ℤ) (ArticleCategories.get_category_ids_for_article a)
  article_categories_get_article_ids_for_category :
      (a : ℤ) → IsMethod json (List ℤ) (ArticleCategories.get_article_ids_for_category a)
  article_categories_get_all :
      IsMethod json (List ArticleCategories.ArticleCategoryRecord) (ArticleCategories.get_all)
  -- ArticleKeywords
  article_keywords_insert : (a : ℤ) (b : ℤ) → IsMethod json Bool (ArticleKeywords.insert a b)
  article_keywords_remove : (a : ℤ) (b : ℤ) → IsMethod json Bool (ArticleKeywords.remove a b)
  article_keywords_get_keyword_ids_for_article :
      (a : ℤ) → IsMethod json (List ℤ) (ArticleKeywords.get_keyword_ids_for_article a)
  article_keywords_get_article_ids_for_keyword :
      (a : ℤ) → IsMethod json (List ℤ) (ArticleKeywords.get_article_ids_for_keyword a)
  article_keywords_get_all :
      IsMethod json (List ArticleKeywords.ArticleKeywordRecord) (ArticleKeywords.get_all)
  -- ArticleTags
  article_tags_insert : (a : ℤ) (b : ℤ) → IsMethod json Bool (ArticleTags.insert a b)
  article_tags_remove : (a : ℤ) (b : ℤ) → IsMethod json Bool (ArticleTags.remove a b)
  article_tags_get_tag_ids_for_article :
      (a : ℤ) → IsMethod json (List ℤ) (ArticleTags.get_tag_ids_for_article a)
  article_tags_get_article_ids_for_tag :
      (a : ℤ) → IsMethod json (List ℤ) (ArticleTags.get_article_ids_for_tag a)
  article_tags_get_all : IsMethod json (List ArticleTags.ArticleTagRecord) (ArticleTags.get_all)
  -- UserRoles
  user_roles_insert : (a : ℤ) (b : ℤ) → IsMethod json Bool (UserRoles.insert a b)
  user_roles_remove : (a : ℤ) (b : ℤ) → IsMethod json Bool (UserRoles.remove a b)
  user_roles_get_all : IsMethod json (List UserRoles.UserRoleRecord) (UserRoles.get_all)
  user_roles_get_role_ids_by_user_id :
      (a : ℤ) → IsMethod json (List ℤ) (UserRoles.get_role_ids_by_user_id a)
  user_roles_get_user_ids_by_role_id :
      (a : ℤ) → IsMethod json (List ℤ) (UserRoles.get_user_ids_by_role_id a)
  user_roles_get_record_by_user_id_and_role_id :
      (a : ℤ) (b : ℤ)
      → IsMethod json UserRoles.UserRoleRecord (UserRoles.get_record_by_user_id_and_role_id a b)

module _ {J : Type 0} (json : Json J) where
  -- Each method has as many parameters as its statement has placeholders.
  IsMethod-IsBound : {A : Type 0} (op : Operation A) → IsMethod json A op → IsBound op
  unfolding marks Articles.insert Articles.update Articles.remove Articles.publish Articles.archive
      Articles.get_latest_published_article Articles.get_record_by_id Articles.get_record_by_slug
      Articles.get_all Articles.get_all_records_by_status Articles.get_all_records_by_category
      Articles.increment_views Articles.search_record_by_title Roles.insert Roles.remove
      Roles.update Roles.get_record_by_id Roles.get_record_by_name Roles.get_all
      Roles.search_by_name Users.insert Users.remove Users.update Users.get_all
      Users.get_record_by_id Users.get_record_by_username Users.get_record_by_username_and_password
      Users.get_record_by_email Users.get_record_by_phone Categories.insert Categories.remove
      Categories.update Categories.get_record_by_id Categories.get_all Categories.search_by_name
      Keywords.insert Keywords.remove Keywords.update Keywords.get_record_by_id Keywords.get_all
      Keywords.search_by_keyword Tags.insert Tags.remove Tags.update Tags.get_record_by_id
      Tags.get_all Tags.search_by_name ArticleCategories.insert ArticleCategories.remove
      ArticleCategories.get_category_ids_for_article ArticleCategories.get_article_ids_for_category
      ArticleCategories.get_all ArticleKeywords.insert ArticleKeywords.remove
      ArticleKeywords.get_keyword_ids_for_article ArticleKeywords.get_article_ids_for_keyword
      ArticleKeywords.get_all ArticleTags.insert ArticleTags.remove
      ArticleTags.get_tag_ids_for_article ArticleTags.get_article_ids_for_tag ArticleTags.get_all
      UserRoles.insert UserRoles.remove UserRoles.get_all UserRoles.get_role_ids_by_user_id
      UserRoles.get_user_ids_by_role_id UserRoles.get_record_by_user_id_and_role_id
  IsMethod-IsBound _ (articles_insert a b c d e f g h i) = refl
  IsMethod-IsBound _ (articles_update a) = refl
  IsMethod-IsBound _ (articles_remove a) = refl
  IsMethod-IsBound _ (articles_publish a) = refl
  IsMethod-IsBound _ (articles_archive a) = refl
  IsMethod-IsBound _ (articles_get_latest_published_article a) = refl
  IsMethod-IsBound _ (articles_get_record_by_id a) = refl
  IsMethod-IsBound _ (articles_get_record_by_slug a) = refl
  IsMethod-IsBound _ articles_get_all = refl
  IsMethod-IsBound _ (articles_get_all_records_by_status a) = refl
  IsMethod-IsBound _ (articles_get_all_records_by_category a) = refl
  IsMethod-IsBound _ (articles_increment_views a) = refl
  IsMethod-IsBound _ (articles_search_record_by_title a) = refl
  IsMethod-IsBound _ (articles_filter_articles a b) = filter_articles-IsBound json a b
  IsMethod-IsBound _ (roles_insert a b c d e f) = refl
  IsMethod-IsBound _ (roles_remove a) = refl
  IsMethod-IsBound _ (roles_update a b c d e f g) = refl
  IsMethod-IsBound _ (roles_get_record_by_id a) = refl
  IsMethod-IsBound _ (roles_get_record_by_name a) = refl
  IsMethod-IsBound _ roles_get_all = refl
  IsMethod-IsBound _ (roles_search_by_name a) = refl
  IsMethod-IsBound _ (users_insert a b c d) = refl
  IsMethod-IsBound _ (users_remove a) = refl
  IsMethod-IsBound _ (users_update a b c d e) = refl
  IsMethod-IsBound _ users_get_all = refl
  IsMethod-IsBound _ (users_get_record_by_id a) = refl
  IsMethod-IsBound _ (users_get_record_by_username a) = refl
  IsMethod-IsBound _ (users_get_record_by_username_and_password a b) = refl
  IsMethod-IsBound _ (users_get_record_by_email a) = refl
  IsMethod-IsBound _ (users_get_record_by_phone a) = refl
  IsMethod-IsBound _ (categories_insert a b) = refl
  IsMethod-IsBound _ (categories_remove a) = refl
  IsMethod-IsBound _ (categories_update a b c) = refl
  IsMethod-IsBound _ (categories_get_record_by_id a) = refl
  IsMethod-IsBound _ categories_get_all = refl
  IsMethod-IsBound _ (categories_search_by_name a) = refl
  IsMethod-IsBound _ (keywords_insert a) = refl
  IsMethod-IsBound _ (keywords_remove a) = refl
  IsMethod-IsBound _ (keywords_update a b) = refl
  IsMethod-IsBound _ (keywords_get_record_by_id a) = refl
  IsMethod-IsBound _ keywords_get_all = refl
  IsMethod-IsBound _ (keywords_search_by_keyword a) = refl
  IsMethod-IsBound _ (tags_insert a) = refl
  IsMethod-IsBound _ (tags_remove a) = refl
  IsMethod-IsBound _ (tags_update a b) = refl
  IsMethod-IsBound _ (tags_get_record_by_id a) = refl
  IsMethod-IsBound _ tags_get_all = refl
  IsMethod-IsBound _ (tags_search_by_name a) = refl
  IsMethod-IsBound _ (article_categories_insert a b) = refl
  IsMethod-IsBound _ (article_categories_remove a b) = refl
  IsMethod-IsBound _ (article_categories_get_category_ids_for_article a) = refl
  IsMethod-IsBound _ (article_categories_get_article_ids_for_category a) = refl
  IsMethod-IsBound _ article_categories_get_all = refl
  IsMethod-IsBound _ (article_keywords_insert a b) = refl
  IsMethod-IsBound _ (article_keywords_remove a b) = refl
  IsMethod-IsBound _ (article_keywords_get_keyword_ids_for_article a) = refl
  IsMethod-IsBound _ (article_keywords_get_article_ids_for_keyword a) = refl
  IsMethod-IsBound _ article_keywords_get_all = refl
  IsMethod-IsBound _ (article_tags_insert a b) = refl
  IsMethod-IsBound _ (article_tags_remove a b) = refl
  IsMethod-IsBound _ (article_tags_get_tag_ids_for_article a) = refl
  IsMethod-IsBound _ (article_tags_get_article_ids_for_tag a) = refl
  IsMethod-IsBound _ article_tags_get_all = refl
  IsMethod-IsBound _ (user_roles_insert a b) = refl
  IsMethod-IsBound _ (user_roles_remove a b) = refl
  IsMethod-IsBound _ user_roles_get_all = refl
  IsMethod-IsBound _ (user_roles_get_role_ids_by_user_id a) = refl
  IsMethod-IsBound _ (user_roles_get_user_ids_by_role_id a) = refl
  IsMethod-IsBound _ (user_roles_get_record_by_user_id_and_role_id a b) = refl

  -- Given a connector that does what its documentation says, every method of every table throws what
  -- preparing its statement throws, or sends the statement with all parameters in place, and its
  -- result is what becomes of that statement.
  pub run-IsMethod :
      {D S A : Type 0} (c : Connector D S) (h : IsConnector c) (op : Operation A) (d : D)
      → IsMethod json A op
      → run c op d ≡ (
          c.prepare_statement (text op) d >>= λ _.
          outcome c op (h.prepared (text op) (params op)) d)
  run-IsMethod c h op d m = run-IsBound c h op d (IsMethod-IsBound op m)
