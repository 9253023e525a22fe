-- ===== src/Routes/Saving/Edited.antt =====
-- src/router/routes.cpp: /admin/article_editor_handler, what it leaves.
use cdragon.Prelude.{◌≡◌, ◌∙◌, codes}
use cdragon.Http.Request.{HttpRequest}
use cdragon.Http.Response.{set_status}
use cdragon.Routes.{is_session_ok, can_user_create_articles}
use cdragon.Routes.Act.{World, done, Env, status, or_return}
use cdragon.Routes.Act.Steps.{or_return_lem}
use cdragon.Routes.Saving.{update_article, saving_handler, article_editor_handler}
use cdragon.Routes.Saving.Allowed.{IsAllowed}
use cdragon.Routes.Saving.Created.{goes_on-IsAllowed}
use cdragon.Routes.Saving.Revised.{Revision, Stores, updated_with, update_article-updated}

module _ {J D S : Type 0} (env : Env J D S) where
  -- A user who may create articles sends an edited one without a new picture: if it is in the
  -- database, its fields are valid, and the database takes it and lets go of old labels, the answer is
  -- 200 and the database holds the new fields; where new labels are given, they take the place of the
  -- old ones, and those that cannot be joined are left out.
  pub article_editor_handler-updated :
      (request : HttpRequest J) (w : World D) (t : Revision env request.json_data)
      (a : Stores env request.json_data t w.database)
      → IsAllowed env (λ d. can_user_create_articles env.connector d) request w
      → article_editor_handler env request w ≡ (
        done tt,
        record w {
          response = set_status 200 w.response;
          sessions = (is_session_ok env.ticks env.now request w.sessions).1;
          database = updated_with env request.json_data t a;
        },
      )
  unfolding saving_handler
  article_editor_handler-updated request w t a allowed =
      let v = record w { sessions = (is_session_ok env.ticks env.now request w.sessions).1 } in
      goes_on-IsAllowed env (λ d. can_user_create_articles env.connector d)
        (codes "/admin/login_page")
        (or_return (update_article env request.json_data) (status 500) (λ _. status 200)) request w
        allowed
      ∙ or_return_lem (update_article env request.json_data) (status 500) (λ _. status 200) v
          (update_article-updated env request.json_data t v a)
