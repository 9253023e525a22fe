-- ===== src/Routes/Saving/Draft.antt =====
-- src/router/routes.cpp: an article as the creator's page sends it, and a database that takes it.
use cdragon.Prelude.{◌≡◌, Bool, true, List, [], Bytes, codes}
use cdragon.Prelude.Numerals.{ℤ}
use cdragon.Prelude.Result.{ok}
use cdragon.Database.{Operation, run}
use cdragon.Models.Article.{ArticleRecord}
use cdragon.Models.Keywords.{KeywordRecord}
use cdragon.Models.Categories.{CategoryRecord}
use cdragon.Models.Tags.{TagRecord}
use cdragon.Models.Articles
use cdragon.Models.Keywords
use cdragon.Models.Categories
use cdragon.Models.Tags
use cdragon.Models.ArticleKeywords
use cdragon.Models.ArticleCategories
use cdragon.Models.ArticleTags
use cdragon.Routes.Act.{Env}
use cdragon.Routes.Login.Entry.{HasText}
use cdragon.Routes.Saving.{image_path}
use cdragon.Routes.Saving.Labels.{Joined}

module _ {J D S : Type 0} (env : Env J D S) where
  abbrev pub HasTexts : J → Bytes → List Bytes → Type 0
  HasTexts json key ss =
      (v : J) × (env.values.at key json ≡ ok v) × (env.values.get_strings v ≡ ok ss)

  -- The JSON of an article as the creator's page sends it.
  pub record Draft (json : J) : Type 0 where
    pub keywords : List Bytes
    pub categories : List Bytes
    pub tags : List Bytes
    pub slug : Bytes
    pub preview : Bytes
    pub picture : Bytes
    pub content : J
    pub title : Bytes
    pub summary : Bytes
    pub state : Bytes
    pub date : Bytes
    pub seo_title : Bytes
    pub seo_description : Bytes
    pub has_keywords : HasTexts json (codes "keywords") keywords
    pub has_categories : HasTexts json (codes "categories") categories
    pub has_tags : HasTexts json (codes "tags") tags
    pub has_slug : HasText env json (codes "slug") slug
    pub has_preview : HasText env json (codes "previewImage") preview
    pub has_picture : env.base64_decode preview ≡ ok picture
    pub has_content : env.values.at (codes "content") json ≡ ok content
    pub has_title : HasText env json (codes "title") title
    pub has_summary : HasText env json (codes "summary") summary
    pub has_state : HasText env json (codes "status") state
    pub has_date : HasText env json (codes "publishDate") date
    pub has_seo_title : HasText env json (codes "seoTitle") seo_title
    pub has_seo_description : HasText env json (codes "seoDescription") seo_description

  -- The statement that inserts the article.
  abbrev pub insertion : {json : J} → Draft json → Operation Bool
  insertion t =
      Articles.insert t.title t.summary (env.values.json.dump t.content) t.state t.date t.slug
        t.seo_title t.seo_description (image_path t.slug)

  abbrev pub KeywordsJoined : ℤ → List Bytes → D → D → Type 0
  KeywordsJoined id =
      Joined env Keywords.insert Keywords.search_by_keyword (λ k. k.keyword_id)
        ArticleKeywords.insert id

  abbrev pub CategoriesJoined : ℤ → List Bytes → D → D → Type 0
  CategoriesJoined id =
      Joined env (λ name. Categories.insert name []) Categories.search_by_name (λ c. c.category_id)
        ArticleCategories.insert id

  abbrev pub TagsJoined : ℤ → List Bytes → D → D → Type 0
  TagsJoined id = Joined env Tags.insert Tags.search_by_name (λ g. g.tag_id) ArticleTags.insert id

  -- The picture can be written, and the database takes the article and then its labels in turn.
  pub record Accepts (json : J) (t : Draft json) (before : D) : Type 0 where
    pub inserted : Bool
    pub with_article : D
    pub found : D
    pub with_keywords : D
    pub with_categories : D
    pub filed : D
    pub article : ArticleRecord J
    pub opens : env.can_open (image_path t.slug) ≡ true
    pub inserts : run env.connector (insertion t) before ≡ ok (inserted, with_article)
    pub finds :
        run env.connector (Articles.get_record_by_slug env.values.json t.slug) with_article
        ≡ ok (article, found)
    pub keywords_joined : KeywordsJoined article.article_id t.keywords found with_keywords
    pub categories_joined :
        CategoriesJoined article.article_id t.categories with_keywords with_categories
    pub tags_joined : TagsJoined article.article_id t.tags with_categories filed
