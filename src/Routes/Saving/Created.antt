-- ===== src/Routes/Saving/Created.antt =====
-- src/router/routes.cpp: /admin/article_creator_handler, when everything is there.
use cdragon.Prelude.{
  ◌≡◌, refl, ◌∙◌, Bool, true, false, some, [], ◌∷◌, Bytes, codes, is_empty, arith,
}
use cdragon.Prelude.Assoc.{find}
use cdragon.Prelude.Numerals.{ℤ, stoi}
use cdragon.Prelude.Result.{ok}
use cdragon.Http.Request.{HttpRequest}
use cdragon.Http.Response.{set_status}
use cdragon.Session.{Session, get_session_data}
use cdragon.Routes.{is_session_ok, can_user_create_articles}
use cdragon.Routes.Act.{
  World, done, Act, Env, ◌>>=◌, with_user, with_session_data, session_data, session_cookie,
  check_session, or_return, status, written,
}
use cdragon.Routes.Act.Steps.{or_return_lem}
use cdragon.Routes.Saving.{
  with_right, saving_handler, create_article, article_creator_handler, image_path,
}
use cdragon.Routes.Saving.Allowed.{IsAllowed}
use cdragon.Routes.Saving.Filed.{create_article-filed}
use cdragon.Routes.Saving.Draft.{Draft, Accepts}

stoi-is_empty : (s : Bytes) (id : ℤ) → stoi s ≡ ok id → is_empty s ≡ false
unfolding stoi
stoi-is_empty [] id e = ground arith
stoi-is_empty (b ∷ s) id e = refl

module _ {J D S : Type 0} (env : Env J D S) where
  session_kept :
      (may : D → ℤ → Bool) (denied : Bytes) (k : Act D Unit) (request : HttpRequest J) (w : World D)
      (id : Bytes) (s : Session) (user_id : ℤ)
      → find (codes "session_id") request.cookies ≡ some id
      → get_session_data id w.sessions ≡ ok s
      → stoi s.user_data ≡ ok user_id
      → may w.database user_id ≡ true
      → (session_cookie request >>= session_data >>= with_session_data (with_right may denied k)) w
        ≡ k w
  unfolding session_cookie session_data with_session_data with_right
  session_kept may denied k request w id s user_id cookie there read right =
      rw (cookie)
        (rw (there) (rw (stoi-is_empty s.user_data user_id read) (rw (read) (rw (right) refl))))

  pub goes_on-IsAllowed :
      (may : D → ℤ → Bool) (denied : Bytes) (k : Act D Unit) (request : HttpRequest J) (w : World D)
      (a : IsAllowed env may request w)
      → with_user env request (with_right may denied k) w
        ≡ k (record w { sessions = (is_session_ok env.ticks env.now request w.sessions).1 })
  unfolding with_user check_session
  goes_on-IsAllowed may denied k request w a = rw (a.has_session) (
      session_kept may denied k request
        (record w { sessions = (is_session_ok env.ticks env.now request w.sessions).1 })
        a.session_id a.session a.user_id a.has_cookie a.has_data a.has_user a.has_right)

  -- A user who may create articles sends one: if its picture can be written, the database takes the
  -- article, and then finds and joins its labels in turn, whether they were there or are inserted, the
  -- answer is 200, the picture is in its file, the database is what the statements for the article and
  -- for every keyword, category and tag, in order, have made of it, and the session goes on.
  pub article_creator_handler-filed :
      (request : HttpRequest J) (w : World D) (t : Draft env request.json_data)
      (a : Accepts env request.json_data t w.database)
      → IsAllowed env (λ d. can_user_create_articles env.connector d) request w
      → article_creator_handler env request w ≡ (
        done tt,
        record w {
          response = set_status 200 w.response;
          sessions = (is_session_ok env.ticks env.now request w.sessions).1;
          files = written (image_path t.slug) t.picture w.files;
          database = a.filed;
        },
      )
  unfolding saving_handler
  article_creator_handler-filed request w t a allowed =
      let v = record w { sessions = (is_session_ok env.ticks env.now request w.sessions).1 } in
      goes_on-IsAllowed (λ d. can_user_create_articles env.connector d) (codes "/admin/login_page")
        (or_return (create_article env request.json_data) (status 500) (λ _. status 200)) request w
        allowed
      ∙ or_return_lem (create_article env request.json_data) (status 500) (λ _. status 200) v
          (create_article-filed env request.json_data t v a)
