-- ===== src/Routes/Saving.antt =====
-- src/router/routes.cpp: /admin/article_creator_handler and /admin/article_editor_handler, which save
-- an article with its image, keywords, categories and tags, and the pages that lead there.
pub mod Allowed
pub mod Labels
pub mod Draft
pub mod Filed
pub mod Created
pub mod Relabelled
pub mod Revised
pub mod Edited
use cdragon.Prelude.{
  Bool, true, false, not, ◌&&◌, List, [], ◌∷◌, ◌++◌, Bytes, codes, is_empty, if◌then◌else◌,
}
use cdragon.Prelude.Numerals.{ℤ}
use cdragon.Prelude.Result.{Result, ok, throws, runtime_error, out_of_range}
use cdragon.Http.Request.{HttpRequest}
use cdragon.Http.Response.{HttpResponse, set_body}
use cdragon.Database.{Operation}
use cdragon.Models.Article.{
  ArticleRecord, set_title, set_summary, set_content, set_status, set_release_date, set_seo_title,
  set_seo_description,
}
use cdragon.Models.Articles
use cdragon.Models.Keywords
use cdragon.Models.Categories
use cdragon.Models.Tags
use cdragon.Models.ArticleKeywords
use cdragon.Models.ArticleCategories
use cdragon.Models.ArticleTags
use cdragon.Routes.{can_user_create_articles, can_user_edit_articles}
use cdragon.Routes.Values.{Values}
use cdragon.Routes.Act.{
  World, Outcome, done, thrown, Act, Env, ◌>>=◌, ◌>>◌, pure, lift, caught, or_return, respond,
  redirect, status, load_file_content, written, for_each, sql, with_user,
}
use cdragon.Routes.Login.{text_at}

-- vector.at(0)
abbrev pub first_of : {A : Type 0} → List A → Result A
first_of [] = throws out_of_range
first_of (x ∷ xs) = ok x

-- The test of a permission, behind which a handler goes on; `denied` is where it leads otherwise.
unfoldable pub with_right : {D : Type 0} → (D → ℤ → Bool) → Bytes → Act D Unit → ℤ → Act D Unit
unfolding redirect
with_right may denied k user_id w = (if may w.database user_id then k else redirect denied) w

-- "./images/" + slug + ".jpg"
abbrev pub image_path : Bytes → Bytes
image_path slug = codes "./images/" ++ slug ++ codes ".jpg"

module _ {J D S : Type 0} (env : Env J D S) where
  -- res.setStatus(200); res.setBody(loadFileContent(…))
  unfoldable pub show_file : Bytes → Act D Unit
  unfolding load_file_content set_body
  show_file path = status 200 >> load_file_content path >>= λ s. respond (set_body s)

  unfoldable pub article_creator_page : HttpRequest J → Act D Unit
  unfolding with_user with_right show_file
  article_creator_page request = with_user env request (
      with_right (λ d. can_user_create_articles env.connector d) (codes "/admin/main_page")
        (show_file (codes "./views/admin/article_creator/html/index.html")))

  unfoldable pub article_editor_page : HttpRequest J → Act D Unit
  unfolding with_user with_right show_file
  article_editor_page request = with_user env request (
      with_right (λ d. can_user_edit_articles env.connector d) (codes "/admin/main_page")
        (show_file (codes "./views/admin/article_editor/html/index.html")))

  unfoldable pub save_base64_image : Bytes → Bytes → Act D Bool
  unfolding written
  save_base64_image image path = lift (env.base64_decode image) >>= λ content w.
      if env.can_open path
      then (done true, record w { files = written path content w.files })
      else (done false, w)

  -- json.at(key).get<vector<string>>()
  unfoldable pub texts_at : J → Bytes → Act D (List Bytes)
  texts_at json key = lift (env.values.at key json) >>= λ v. lift (env.values.get_strings v)

  module _ {A : Type 0} (add : Bytes → Operation Bool) (search : Bytes → Operation (List A))
      (id_of : A → ℤ) (join : ℤ → ℤ → Operation Bool) (article_id : ℤ) where
    -- A label is inserted, whether it is there or not; then the first that the search finds is joined.
    unfoldable pub add_label : Bytes → Act D Unit
    unfolding sql
    add_label label = caught (sql env (add label) >> pure tt) (pure tt)

    unfoldable pub join_label : Bytes → Act D Unit
    unfolding sql
    join_label label = sql env (search label) >>= λ found.
        lift (first_of found) >>= λ a. sql env (join article_id (id_of a)) >> pure tt

    unfoldable pub label_article : List Bytes → Act D Unit
    unfolding for_each add_label join_label
    label_article labels = for_each (λ label. add_label label >> join_label label) labels

    -- The editor drops the old labels, if it is given new ones, and leaves out those that fail.
    unfoldable pub relabel_article :
        (ℤ → Operation (List ℤ)) → (ℤ → ℤ → Operation Bool) → List Bytes → Act D Unit
    unfolding for_each add_label join_label sql
    relabel_article ids_for unlink [] = pure tt
    relabel_article ids_for unlink (l ∷ ls) = sql env (ids_for article_id) >>= λ old.
        for_each (λ id. sql env (unlink article_id id) >> pure tt) old
        >> for_each (λ label. add_label label >> caught (join_label label) (pure tt)) (l ∷ ls)

  unfoldable pub create_article : J → Act D Unit
  unfolding texts_at text_at save_base64_image label_article sql
  create_article json = texts_at json (codes "keywords") >>= λ keywords.
      texts_at json (codes "categories") >>= λ categories. texts_at json (codes "tags") >>= λ tags.
      text_at env json (codes "slug") >>= λ slug.
      text_at env json (codes "previewImage") >>= λ image.
      save_base64_image image (image_path slug) >>= λ saved.
      (if saved then pure tt else lift (throws (runtime_error "Ошибка сохранения изображения")))
      >> lift (env.values.at (codes "content") json)
      >>= λ content. text_at env json (codes "title") >>= λ title.
          text_at env json (codes "summary") >>= λ summary.
          text_at env json (codes "status") >>= λ state.
          text_at env json (codes "publishDate") >>= λ date.
          text_at env json (codes "seoTitle") >>= λ seo_title.
          text_at env json (codes "seoDescription") >>= λ seo_description.
          sql env (
            Articles.insert title summary (env.values.json.dump content) state date slug seo_title
              seo_description (image_path slug))
          >> sql env (Articles.get_record_by_slug env.values.json slug)
          >>= λ article.
              label_article Keywords.insert Keywords.search_by_keyword (λ k. k.keyword_id)
                ArticleKeywords.insert article.article_id keywords
              >> label_article (λ name. Categories.insert name []) Categories.search_by_name
                  (λ c. c.category_id) ArticleCategories.insert article.article_id categories
              >> label_article Tags.insert Tags.search_by_name (λ t. t.tag_id) ArticleTags.insert
                  article.article_id tags

  -- The setters of the editor, in its order.
  unfoldable pub edited : J → ArticleRecord J → Act D (ArticleRecord J)
  unfolding text_at set_title set_summary set_status
  edited json article = text_at env json (codes "content") >>= λ content.
      text_at env json (codes "title") >>= λ title. lift (set_title title article) >>= λ a1.
      text_at env json (codes "summary") >>= λ summary. lift (set_summary summary a1) >>= λ a2.
      text_at env json (codes "status")
      >>= (λ state. lift (set_status state (set_content (env.values.json.of_string content) a2)))
      >>= λ a3. text_at env json (codes "publishDate") >>= λ date.
          text_at env json (codes "seoTitle") >>= λ seo_title.
          text_at env json (codes "seoDescription") >>= λ seo_description.
          pure (
            set_seo_description seo_description
              (set_seo_title seo_title (set_release_date date a3)))

  unfoldable pub update_article : J → Act D Unit
  unfolding texts_at text_at save_base64_image edited relabel_article sql
  update_article json = texts_at json (codes "keywords") >>= λ keywords.
      texts_at json (codes "categories") >>= λ categories. texts_at json (codes "tags") >>= λ tags.
      text_at env json (codes "slug") >>= λ slug.
      text_at env json (codes "previewImage") >>= λ image.
      (if is_empty image then pure true else save_base64_image image (image_path slug))
      >> sql env (Articles.get_record_by_slug env.values.json slug)
      >>= edited json
      >>= λ article.
          sql env (Articles.update env.values.json article)
          >> relabel_article Keywords.insert Keywords.search_by_keyword (λ k. k.keyword_id)
              ArticleKeywords.insert article.article_id ArticleKeywords.get_keyword_ids_for_article
              ArticleKeywords.remove keywords
          >> relabel_article (λ name. Categories.insert name []) Categories.search_by_name
              (λ c. c.category_id) ArticleCategories.insert article.article_id
              ArticleCategories.get_category_ids_for_article ArticleCategories.remove categories
          >> relabel_article Tags.insert Tags.search_by_name (λ t. t.tag_id) ArticleTags.insert
              article.article_id ArticleTags.get_tag_ids_for_article ArticleTags.remove tags

  -- What the two handlers share: both ask whether the user may create articles.
  unfoldable pub saving_handler : (J → Act D Unit) → HttpRequest J → Act D Unit
  unfolding with_user with_right
  saving_handler save request = with_user env request (
      with_right (λ d. can_user_create_articles env.connector d) (codes "/admin/login_page")
        (or_return (save request.json_data) (status 500) λ _. status 200))

  abbrev pub article_creator_handler : HttpRequest J → Act D Unit
  article_creator_handler = saving_handler create_article

  abbrev pub article_editor_handler : HttpRequest J → Act D Unit
  article_editor_handler = saving_handler update_article
