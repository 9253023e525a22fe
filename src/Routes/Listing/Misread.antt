-- ===== src/Routes/Listing/Misread.antt =====
-- src/router/routes.cpp: the tags of an article.
use cdragon.Prelude.{◌≡◌, refl, true, List, ◌∷◌, Bytes, codes}
use cdragon.Prelude.Numerals.{ℤ, stoi}
use cdragon.Prelude.Result.{ok, throws, Exception}
use cdragon.Http.Request.{HttpRequest}
use cdragon.Http.Response.{set_status}
use cdragon.Database.{run}
use cdragon.Models.Article.{ArticleRecord}
use cdragon.Models.Articles
use cdragon.Models.ArticleTags
use cdragon.Routes.{is_session_ok, first_param}
use cdragon.Routes.Act.{World, thrown, Env, collect, with_login}
use cdragon.Routes.Act.Steps.{sql_ok}
use cdragon.Routes.Listing.{get_all_tags_of_article, id_param, tag_of_article}

module _ {J D S : Type 0} (env : Env J D S) where
  -- An object with one member is no number.
  abbrev pub RefusesObject : Exception → Type 0
  RefusesObject e =
      (j : J) × (env.values.assign (codes "tag_id") env.values.null env.values.null ≡ ok j)
      × (env.values.get_int j ≡ throws e)

  tag_of_article-fails :
      (e : Exception) (id : ℤ) (w : World D)
      → RefusesObject e
      → tag_of_article env id w ≡ (thrown e, w)
  unfolding tag_of_article
  tag_of_article-fails e id w (j, made, refuses) = rw (made) (rw (refuses) refl)

  collect-fails :
      (e : Exception) (id : ℤ) (ids : List ℤ) (w : World D)
      → RefusesObject e
      → collect (tag_of_article env) (id ∷ ids) w ≡ (thrown e, w)
  unfolding collect
  collect-fails e id ids w refuses = rw (tag_of_article-fails e id w refuses) refl

  -- A request with a valid session for the tags of an article that is there and has one gets an error,
  -- if an object with one member does not convert to a number: the handler takes the JSON object that
  -- it is filling for the id of the tag.
  pub get_all_tags_of_article-fails :
      (request : HttpRequest J) (w : World D) (e : Exception) (p : Bytes) (id tag : ℤ)
      (tags : List ℤ) (article : ArticleRecord J) (d d' : D)
      → RefusesObject e
      → (is_session_ok env.ticks env.now request w.sessions).0 ≡ true
      → first_param request.path_params ≡ ok p
      → stoi p ≡ ok id
      → run env.connector (Articles.get_record_by_id env.values.json id) w.database
        ≡ ok (article, d)
      → run env.connector (ArticleTags.get_tag_ids_for_article article.article_id) d
        ≡ ok (tag ∷ tags, d')
      → (get_all_tags_of_article env request w).1.response ≡ set_status 500 w.response
  unfolding get_all_tags_of_article with_login id_param
  get_all_tags_of_article-fails request w e p id tag tags article d d' refuses passed param read
        found tagged =
      let r = (is_session_ok env.ticks env.now request w.sessions).1 in
      let w1 = record w { sessions = r } in
      rw (passed) (
        rw (param) (
          rw (read) (
            rw (sql_ok env (Articles.get_record_by_id env.values.json id) w1 found) (
              rw
                (sql_ok env (ArticleTags.get_tag_ids_for_article article.article_id)
                  (record w1 { database = d }) tagged)
                (rw (collect-fails e tag tags (record w1 { database = d' }) refuses) refl)))))
