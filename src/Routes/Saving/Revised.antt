-- ===== src/Routes/Saving/Revised.antt =====
-- src/router/routes.cpp: /admin/article_editor_handler, when the article is there.
use cdragon.Prelude.{◌≡◌, refl, Bool, false, List, [], Bytes, codes, is_empty}
use cdragon.Prelude.Numerals.{ℤ}
use cdragon.Prelude.Result.{ok}
use cdragon.Database.{run}
use cdragon.Models.Article.{ArticleRecord, set_title, set_summary, set_status, is_unknown_status}
use cdragon.Models.Articles
use cdragon.Models.Keywords
use cdragon.Models.Categories
use cdragon.Models.Tags
use cdragon.Models.ArticleKeywords
use cdragon.Models.ArticleCategories
use cdragon.Models.ArticleTags
use cdragon.Routes.Act.{World, done, Env}
use cdragon.Routes.Act.Steps.{sql_ok}
use cdragon.Routes.Login.Entry.{HasText}
use cdragon.Routes.Saving.{edited, update_article}
use cdragon.Routes.Saving.Draft.{HasTexts}
use cdragon.Routes.Saving.Filed.{text_at-done, texts_at-done}
use cdragon.Routes.Saving.Relabelled.{Drops, relabelled, relabel_article-relabelled}

module _ {J D S : Type 0} (env : Env J D S) where
  -- The JSON of an article that is edited, without a new picture; the setters take its fields.
  pub record Revision (json : J) : Type 0 where
    pub keywords : List Bytes
    pub categories : List Bytes
    pub tags : List Bytes
    pub slug : Bytes
    pub content : Bytes
    pub title : Bytes
    pub summary : Bytes
    pub state : Bytes
    pub date : Bytes
    pub seo_title : Bytes
    pub seo_description : Bytes
    pub has_keywords : HasTexts env json (codes "keywords") keywords
    pub has_categories : HasTexts env json (codes "categories") categories
    pub has_tags : HasTexts env json (codes "tags") tags
    pub has_slug : HasText env json (codes "slug") slug
    pub has_no_picture : HasText env json (codes "previewImage") []
    pub has_content : HasText env json (codes "content") content
    pub has_title : HasText env json (codes "title") title
    pub has_summary : HasText env json (codes "summary") summary
    pub has_state : HasText env json (codes "status") state
    pub has_date : HasText env json (codes "publishDate") date
    pub has_seo_title : HasText env json (codes "seoTitle") seo_title
    pub has_seo_description : HasText env json (codes "seoDescription") seo_description
    pub title_there : is_empty title ≡ false
    pub summary_there : is_empty summary ≡ false
    pub state_known : is_unknown_status state ≡ false

  abbrev pub KeywordDrops : ℤ → Type 0
  KeywordDrops id =
      Drops env Keywords.insert Keywords.search_by_keyword (λ k. k.keyword_id)
        ArticleKeywords.insert id ArticleKeywords.get_keyword_ids_for_article ArticleKeywords.remove

  abbrev pub CategoryDrops : ℤ → Type 0
  CategoryDrops id =
      Drops env (λ name. Categories.insert name []) Categories.search_by_name (λ c. c.category_id)
        ArticleCategories.insert id ArticleCategories.get_category_ids_for_article
        ArticleCategories.remove

  abbrev pub TagDrops : ℤ → Type 0
  TagDrops id =
      Drops env Tags.insert Tags.search_by_name (λ g. g.tag_id) ArticleTags.insert id
        ArticleTags.get_tag_ids_for_article ArticleTags.remove

  module _ (json : J) (t : Revision json) where
    -- The article with what the page sent; its slug, picture and views stay.
    abbrev pub revised : ArticleRecord J → ArticleRecord J
    revised a = record a {
      title = t.title;
      summary = t.summary;
      content = env.values.json.of_string t.content;
      status = t.state;
      release_date = t.date;
      seo_title = t.seo_title;
      seo_description = t.seo_description;
    }

    edited-revised :
        (a : ArticleRecord J) (w : World D) → edited env json a w ≡ (done (revised a), w)
    unfolding edited set_title set_summary set_status
    edited-revised a w = rw (text_at-done env json (codes "content") t.content w t.has_content) (
        rw (text_at-done env json (codes "title") t.title w t.has_title) (
          rw (t.title_there) (
            rw (text_at-done env json (codes "summary") t.summary w t.has_summary) (
              rw (t.summary_there) (
                rw (text_at-done env json (codes "status") t.state w t.has_state) (
                  rw (t.state_known) (
                    rw (text_at-done env json (codes "publishDate") t.date w t.has_date) (
                      rw (text_at-done env json (codes "seoTitle") t.seo_title w t.has_seo_title) (
                        rw
                          (text_at-done env json (codes "seoDescription") t.seo_description w
                            t.has_seo_description)
                          refl)))))))))

    -- The article is in the database, which takes the new one and lets go of the old labels.
    pub record Stores (before : D) : Type 0 where
      pub article : ArticleRecord J
      pub found : D
      pub updated : Bool
      pub with_article : D
      pub finds :
          run env.connector (Articles.get_record_by_slug env.values.json t.slug) before
          ≡ ok (article, found)
      pub updates :
          run env.connector (Articles.update env.values.json (revised article)) found
          ≡ ok (updated, with_article)
      pub keyword_drops : KeywordDrops article.article_id
      pub category_drops : CategoryDrops article.article_id
      pub tag_drops : TagDrops article.article_id

    with_keywords : {before : D} → Stores before → D
    with_keywords a =
        relabelled env Keywords.insert Keywords.search_by_keyword (λ k. k.keyword_id)
          ArticleKeywords.insert a.article.article_id ArticleKeywords.get_keyword_ids_for_article
          ArticleKeywords.remove a.keyword_drops t.keywords a.with_article

    with_categories : {before : D} → Stores before → D
    unfolding with_keywords
    with_categories a =
        relabelled env (λ name. Categories.insert name []) Categories.search_by_name
          (λ c. c.category_id) ArticleCategories.insert a.article.article_id
          ArticleCategories.get_category_ids_for_article ArticleCategories.remove a.category_drops
          t.categories (with_keywords a)

    -- The database with the new article and its new labels.
    unfoldable pub updated_with : {before : D} → Stores before → D
    unfolding with_categories
    updated_with a =
        relabelled env Tags.insert Tags.search_by_name (λ g. g.tag_id) ArticleTags.insert
          a.article.article_id ArticleTags.get_tag_ids_for_article ArticleTags.remove a.tag_drops
          t.tags (with_categories a)

    pub update_article-updated :
        (w : World D) (a : Stores w.database)
        → update_article env json w ≡ (done tt, record w { database = updated_with a })
    unfolding update_article updated_with with_categories with_keywords
    update_article-updated w a =
        rw (texts_at-done env json (codes "keywords") t.keywords w t.has_keywords) (
          rw (texts_at-done env json (codes "categories") t.categories w t.has_categories) (
            rw (texts_at-done env json (codes "tags") t.tags w t.has_tags) (
              rw (text_at-done env json (codes "slug") t.slug w t.has_slug) (
                rw (text_at-done env json (codes "previewImage") [] w t.has_no_picture) (
                  rw (sql_ok env (Articles.get_record_by_slug env.values.json t.slug) w a.finds) (
                    rw (edited-revised a.article (record w { database = a.found })) (
                      rw
                        (sql_ok env (Articles.update env.values.json (revised a.article))
                          (record w { database = a.found }) a.updates)
                        (rw
                          (relabel_article-relabelled env Keywords.insert Keywords.search_by_keyword
                            (λ k. k.keyword_id) ArticleKeywords.insert a.article.article_id
                            ArticleKeywords.get_keyword_ids_for_article ArticleKeywords.remove
                            a.keyword_drops t.keywords (record w { database = a.with_article }))
                          (rw
                            (relabel_article-relabelled env (λ name. Categories.insert name [])
                              Categories.search_by_name (λ c. c.category_id)
                              ArticleCategories.insert a.article.article_id
                              ArticleCategories.get_category_ids_for_article
                              ArticleCategories.remove a.category_drops t.categories
                              (record w { database = with_keywords a }))
                            (relabel_article-relabelled env Tags.insert Tags.search_by_name
                              (λ g. g.tag_id) ArticleTags.insert a.article.article_id
                              ArticleTags.get_tag_ids_for_article ArticleTags.remove a.tag_drops
                              t.tags (record w { database = with_categories a })))))))))))
