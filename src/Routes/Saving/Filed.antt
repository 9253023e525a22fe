-- ===== src/Routes/Saving/Filed.antt =====
-- src/router/routes.cpp: what /admin/article_creator_handler saves.
use cdragon.Prelude.{◌≡◌, refl, true, List, [], Bytes, codes}
use cdragon.Prelude.Result.{ok}
use cdragon.Models.Keywords.{KeywordRecord}
use cdragon.Models.Categories.{CategoryRecord}
use cdragon.Models.Tags.{TagRecord}
use cdragon.Models.Articles
use cdragon.Models.Keywords
use cdragon.Models.Categories
use cdragon.Models.Tags
use cdragon.Models.ArticleKeywords
use cdragon.Models.ArticleCategories
use cdragon.Models.ArticleTags
use cdragon.Routes.Act.{World, done, Env, ◌>>◌, written}
use cdragon.Routes.Act.Steps.{sql_ok}
use cdragon.Routes.Login.{text_at}
use cdragon.Routes.Login.Entry.{HasText}
use cdragon.Routes.Saving.{label_article, texts_at, save_base64_image, image_path, create_article}
use cdragon.Routes.Saving.Labels.{label_article-Joined}
use cdragon.Routes.Saving.Draft.{HasTexts, Draft, Accepts, insertion}

module _ {J D S : Type 0} (env : Env J D S) where
  pub text_at-done :
      (json : J) (key s : Bytes) (w : World D)
      → HasText env json key s
      → text_at env json key w ≡ (done s, w)
  unfolding text_at
  text_at-done json key s w (v, there, read) = rw (there) (rw (read) refl)

  pub texts_at-done :
      (json : J) (key : Bytes) (ss : List Bytes) (w : World D)
      → HasTexts env json key ss
      → texts_at env json key w ≡ (done ss, w)
  unfolding texts_at
  texts_at-done json key ss w (v, there, read) = rw (there) (rw (read) refl)

  save_base64_image-done :
      (preview picture path : Bytes) (w : World D)
      → env.base64_decode preview ≡ ok picture
      → env.can_open path ≡ true
      → save_base64_image env preview path w
        ≡ (done true, record w { files = written path picture w.files })
  unfolding save_base64_image
  save_base64_image-done preview picture path w decoded opens = rw (decoded) (rw (opens) refl)

  module _ (json : J) (t : Draft env json) where
    abbrev saved : World D → D → World D
    saved w d = record w { files = written (image_path t.slug) t.picture w.files; database = d }

    labels-filed :
        (w : World D) (a : Accepts env json t w.database)
        → (label_article env Keywords.insert Keywords.search_by_keyword
                (λ k. k.keyword_id)
                ArticleKeywords.insert
                a.article.article_id
                t.keywords
              >> label_article env
                  (λ name. Categories.insert name [])
                  Categories.search_by_name
                  (λ c. c.category_id)
                  ArticleCategories.insert
                  a.article.article_id
                  t.categories
              >> label_article env Tags.insert Tags.search_by_name
                  (λ g. g.tag_id)
                  ArticleTags.insert
                  a.article.article_id
                  t.tags)
            (saved w a.found)
          ≡ (done tt, saved w a.filed)
    labels-filed w a =
        rw
          (label_article-Joined env Keywords.insert Keywords.search_by_keyword (λ k. k.keyword_id)
            ArticleKeywords.insert a.article.article_id t.keywords (saved w a.found) a.with_keywords
            a.keywords_joined)
          (rw
            (label_article-Joined env (λ name. Categories.insert name []) Categories.search_by_name
              (λ c. c.category_id) ArticleCategories.insert a.article.article_id t.categories
              (saved w a.with_keywords) a.with_categories a.categories_joined)
            (label_article-Joined env Tags.insert Tags.search_by_name (λ g. g.tag_id)
              ArticleTags.insert a.article.article_id t.tags (saved w a.with_categories) a.filed
              a.tags_joined))

    pub create_article-filed :
        (w : World D) (a : Accepts env json t w.database)
        → create_article env json w ≡ (done tt, saved w a.filed)
    unfolding create_article
    create_article-filed w a =
        let w1 = record w { files = written (image_path t.slug) t.picture w.files } in
        rw (texts_at-done json (codes "keywords") t.keywords w t.has_keywords) (
          rw (texts_at-done json (codes "categories") t.categories w t.has_categories) (
            rw (texts_at-done json (codes "tags") t.tags w t.has_tags) (
              rw (text_at-done json (codes "slug") t.slug w t.has_slug) (
                rw (text_at-done json (codes "previewImage") t.preview w t.has_preview) (
                  rw
                    (save_base64_image-done t.preview t.picture (image_path t.slug) w t.has_picture
                      a.opens)
                    (rw (t.has_content) (
                      rw (text_at-done json (codes "title") t.title w1 t.has_title) (
                        rw (text_at-done json (codes "summary") t.summary w1 t.has_summary) (
                          rw (text_at-done json (codes "status") t.state w1 t.has_state) (
                            rw (text_at-done json (codes "publishDate") t.date w1 t.has_date) (
                              rw
                                (text_at-done json (codes "seoTitle") t.seo_title w1
                                  t.has_seo_title)
                                (rw
                                  (text_at-done json (codes "seoDescription") t.seo_description w1
                                    t.has_seo_description)
                                  (rw (sql_ok env (insertion env t) w1 a.inserts) (
                                    rw
                                      (sql_ok env
                                        (Articles.get_record_by_slug env.values.json t.slug)
                                        (record w1 { database = a.with_article }) a.finds)
                                      (labels-filed w a)))))))))))))))
