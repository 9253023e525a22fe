-- ===== src/Routes/Listing.antt =====
-- src/router/routes.cpp: the handlers that answer with JSON: an article, all categories, all tags, the
-- tags of an article, and the data of the filters.
pub mod Misread
use cdragon.Prelude.{List, [], ◌∷◌, Bytes, codes, map}
use cdragon.Prelude.Numerals.{ℤ, stoi}
use cdragon.Http.Request.{HttpRequest}
use cdragon.Models.Article.{ArticleRecord}
use cdragon.Models.Categories.{CategoryRecord}
use cdragon.Models.Keywords.{KeywordRecord}
use cdragon.Models.Tags.{TagRecord}
use cdragon.Models.Articles
use cdragon.Models.Categories
use cdragon.Models.Keywords
use cdragon.Models.Tags
use cdragon.Models.ArticleKeywords
use cdragon.Models.ArticleCategories
use cdragon.Models.ArticleTags
use cdragon.Routes.{first_param}
use cdragon.Routes.Values.{Values}
use cdragon.Routes.Act.{
  Act, Env, ◌>>=◌, ◌>>◌, pure, lift, caught, status, answer, collect, sql, with_login,
}

module _ {J : Type 0} (v : Values J) where
  abbrev text : Bytes → J
  text s = v.json.of_string s

  -- ArticleRecord::to_json
  unfoldable pub to_json : ArticleRecord J → J
  to_json r = v.object (
      (codes "article_id", v.of_int r.article_id)
      ∷ (codes "title", text r.title)
      ∷ (codes "summary", text r.summary)
      ∷ (codes "content", r.content)
      ∷ (codes "status", text r.status)
      ∷ (codes "release_date", text r.release_date)
      ∷ (codes "slug", text r.slug)
      ∷ (codes "seo_title", text r.seo_title)
      ∷ (codes "seo_description", text r.seo_description)
      ∷ (codes "preview_image", text r.preview_image)
      ∷ (codes "views", v.of_int r.views)
      ∷ [])

  -- value[key] = other for one key after the other
  unfoldable pub assign_all : {D : Type 0} → List (Bytes × J) → J → Act D J
  assign_all [] value = pure value
  assign_all ((key, other) ∷ rest) value =
      lift (v.assign key other value) >>= λ next. assign_all rest next

  unfoldable pub category_json : {D : Type 0} → CategoryRecord → Act D J
  unfolding assign_all
  category_json c =
      assign_all
        ((codes "id", v.of_int c.category_id)
          ∷ (codes "name", text c.name)
          ∷ (codes "descripton", text c.description)
          ∷ [])
        v.null

  unfoldable pub tag_json : {D : Type 0} → TagRecord → Act D J
  unfolding assign_all
  tag_json t =
      assign_all ((codes "id", v.of_int t.tag_id) ∷ (codes "name", text t.name) ∷ []) v.null

  -- The entries of /get_filter_data; a keyword's id is the keyword.
  abbrev pub filter_category : CategoryRecord → J
  filter_category c = v.object (
      (codes "id", v.of_int c.category_id)
      ∷ (codes "name", text c.name)
      ∷ (codes "description", text c.description)
      ∷ [])

  abbrev pub filter_keyword : KeywordRecord → J
  filter_keyword k =
      v.object ((codes "id", text k.keyword) ∷ (codes "keyword", text k.keyword) ∷ [])

  abbrev pub filter_tag : TagRecord → J
  filter_tag t = v.object ((codes "id", v.of_int t.tag_id) ∷ (codes "name", text t.name) ∷ [])

abbrev javascript : Bytes
javascript = codes "application/javascript"

module _ {J D S : Type 0} (env : Env J D S) where
  -- stoi(req.getPathParams().at(0))
  unfoldable pub id_param : HttpRequest J → Act D ℤ
  unfolding stoi
  id_param request = lift (first_param request.path_params) >>= λ p. lift (stoi p)

  -- An object with one list, dumped.
  unfoldable pub answer_list : Bytes → List J → Act D Unit
  unfolding answer
  answer_list key values =
      lift (env.values.assign key (env.values.array values) env.values.null) >>= λ json.
      answer javascript (env.values.json.dump json)

  unfoldable pub article_json : ℤ → Act D J
  unfolding sql collect to_json assign_all
  article_json id =
      sql env (Articles.get_record_by_id env.values.json id)
      >> sql env (ArticleKeywords.get_keyword_ids_for_article id)
      >>= λ keyword_ids.
          sql env (ArticleCategories.get_category_ids_for_article id) >>= λ category_ids.
          sql env (ArticleTags.get_tag_ids_for_article id) >>= λ tag_ids.
          collect
            (λ k. sql env (Keywords.get_record_by_id k) >>= λ r. pure (text env.values r.keyword))
            keyword_ids
          >>= λ keywords.
              collect
                (λ k.
                  sql env (Categories.get_record_by_id k) >>= λ r. pure (text env.values r.name))
                category_ids
              >>= λ categories.
                  collect
                    (λ k. sql env (Tags.get_record_by_id k) >>= λ r. pure (text env.values r.name))
                    tag_ids
                  >>= λ tags. sql env (Articles.get_record_by_id env.values.json id) >>= λ article.
                      assign_all env.values
                        ((codes "keywords", env.values.array keywords)
                          ∷ (codes "categories", env.values.array categories)
                          ∷ (codes "tags", env.values.array tags)
                          ∷ [])
                        (to_json env.values article)

  -- No session is asked for here: the test is commented out.
  unfoldable pub get_json_of_article : HttpRequest J → Act D Unit
  unfolding id_param article_json answer
  get_json_of_article request =
      caught
        (id_param request >>= article_json >>= λ json.
          answer javascript (env.values.json.dump json))
        (status 500)

  unfoldable pub get_json_of_all_categories : HttpRequest J → Act D Unit
  unfolding with_login sql collect category_json answer_list
  get_json_of_all_categories request = with_login env request (
      caught
        (sql env Categories.get_all
          >>= collect (category_json env.values)
          >>= answer_list (codes "categories"))
        (status 500))

  unfoldable pub get_json_of_all_tags : HttpRequest J → Act D Unit
  unfolding with_login sql collect tag_json answer_list
  get_json_of_all_tags request = with_login env request (
      caught (sql env Tags.get_all >>= collect (tag_json env.values) >>= answer_list (codes "tags"))
        (status 500))

  -- tagJson["tag_id"] = tagJson; tagJson["name"] = tagsTable.getRecordById(tagJson).getName();
  unfoldable pub tag_of_article : ℤ → Act D J
  unfolding sql
  tag_of_article tag_id =
      lift (env.values.assign (codes "tag_id") env.values.null env.values.null) >>= λ json.
      lift (env.values.get_int json) >>= λ id. sql env (Tags.get_record_by_id id) >>= λ tag.
      lift (env.values.assign (codes "name") (text env.values tag.name) json)

  -- The handler of two routes, /admin/get_all_categories_of_aticle and /admin/get_all_tags_of_aticle.
  unfoldable pub get_all_tags_of_article : HttpRequest J → Act D Unit
  unfolding with_login id_param sql collect tag_of_article answer_list
  get_all_tags_of_article request = with_login env request (
      caught
        (id_param request
          >>= (λ id. sql env (Articles.get_record_by_id env.values.json id))
          >>= λ article.
              sql env (ArticleTags.get_tag_ids_for_article article.article_id)
              >>= collect tag_of_article
              >>= answer_list (codes "tags"))
        (status 500))

  unfoldable pub get_filter_data : HttpRequest J → Act D Unit
  unfolding sql assign_all answer
  get_filter_data request = sql env Categories.get_all >>= λ categories.
      sql env Keywords.get_all >>= λ keywords. sql env Tags.get_all >>= λ tags.
      assign_all env.values
        ((codes "categories", env.values.array (map (filter_category env.values) categories))
          ∷ (codes "keywords", env.values.array (map (filter_keyword env.values) keywords))
          ∷ (codes "tags", env.values.array (map (filter_tag env.values) tags))
          ∷ [])
        env.values.null
      >>= λ json. answer (codes "application/json; charset=utf-8") (env.values.dump_indented 2 json)
