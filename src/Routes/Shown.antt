-- ===== src/Routes/Shown.antt =====
-- src/router/routes.cpp: the pages for readers, /, /article_read_page/<article_id> and
-- /category_page/<category_name>, the images, and the files that are sent as they are.
pub mod Leaving
pub mod Filled
use cdragon.Prelude.{
  ℕ, zero, suc, Bool, true, false, Option, none, some, List, [], ◌∷◌, ◌++◌, Bytes, codes, equal,
  if◌then◌else◌,
}
use cdragon.Prelude.Assoc.{Assoc, insert, insert_all}
use cdragon.Prelude.Numerals.{ℤ, pos, stoi, int_to_string}
use cdragon.Prelude.Result.{Result, ok, throws}
use cdragon.Http.Request.{HttpRequest}
use cdragon.Http.Response.{HttpResponse, set_status, add_header, set_body}
use cdragon.Models.Article.{ArticleRecord}
use cdragon.Models.Articles
use cdragon.Routes.{first_param}
use cdragon.Routes.Values.{Values}
use cdragon.Routes.Act.{
  World, Act, Env, ◌>>=◌, ◌>>◌, pure, lift, caught, respond, redirect, status, answer,
  load_file_content, sql, show_template,
}
use cdragon.Routes.Pages.{Part, written, home_scopes, category_scopes}
use cdragon.Routes.Pages.Menus.{Shelf, every, in_category, shelves}
use cdragon.Routes.Text.{render_span_text}
use cdragon.Routes.Text.Utf8.{encode}

-- The entries for the first six articles; the loop stops where `at` throws, in a `try` of its own.
unfoldable pub newest :
    {J : Type 0} → ℕ → ℕ → List (ArticleRecord J) → Assoc (List Bytes) → Assoc (List Bytes)
unfolding insert
newest zero k articles entries = entries
newest (suc n) k [] entries = entries
newest (suc n) k (a ∷ rest) entries = newest n (suc k) rest (
    insert (codes "piece-3-articleTitle-" ++ int_to_string (pos k)) (a.title ∷ []) (
      insert (codes "piece-3-articleLink-" ++ int_to_string (pos k))
        ((codes "/article_read_page/" ++ int_to_string a.article_id) ∷ []) entries))

-- The shelf and the menu of a name; a name that is not there has no articles and no menu.
abbrev pub find_shelf : Bytes → List (Bytes × Shelf × Bytes) → Option (Shelf × Bytes)
find_shelf name [] = none
find_shelf name ((n, shelf, menu) ∷ rest) =
    let later = find_shelf name rest in if equal name n then some (shelf, menu) else later

-- What the template of the home page is filled with. `show_template` puts the entries into the order in
-- which the map is iterated.
unfoldable pub home_entries :
    {J : Type 0} → ArticleRecord J → List Part → List (ArticleRecord J) → Assoc (List Bytes)
unfolding newest written insert_all render_span_text
home_entries latest html all = newest 6 1 all (
    insert_all [] (
      (codes "piece-1_image_url", (codes "./images/" ++ latest.slug) ∷ [])
      ∷ (codes "piece-1_image_text", render_span_text latest.title (pos 70) ∷ [])
      ∷ (
        codes "piece-1_article_link",
        (codes "/article_read_page/" ++ int_to_string latest.article_id) ∷ [],
      )
      ∷ (codes "scopes", written html ∷ [])
      ∷ []))

-- The same for a category page.
unfoldable pub category_entries : List Part → Bytes → Assoc (List Bytes)
unfolding written insert_all
category_entries html menu =
    insert_all [] ((codes "scopes", written html ∷ []) ∷ (codes "menuButtons", menu ∷ []) ∷ [])

module _ {J D S : Type 0} (env : Env J D S) where
  unfoldable pub home_page : HttpRequest J → Act D Unit
  unfolding set_status add_header sql home_scopes home_entries show_template encode
  home_page request =
      status 200
      >> respond (add_header (codes "Content-Type") (codes "text/html; charset=utf-8"))
      >> sql env (Articles.get_latest_published_article env.values.json env.now_text)
      >>= λ latest.
          sql env (Articles.get_all_records_by_category env.values.json (encode (codes "Аніме")))
          >>= λ anime. lift (home_scopes env.values anime) >>= λ html.
              sql env (Articles.get_all env.values.json) >>= λ all.
              show_template env (codes "./views/normal/main_page/html/index.html")
                (home_entries latest html all)

  unfoldable pub article_read_page : HttpRequest J → Act D Unit
  unfolding stoi answer load_file_content sql redirect
  article_read_page request =
      caught
        (lift (first_param request.path_params) >>= (λ p. lift (stoi p)) >>= λ article_id.
          load_file_content (codes "./views/normal/article_read_page/html/index.html")
          >>= answer (codes "text/html; charset=utf-8")
          >> sql env (Articles.increment_views article_id)
          >> pure tt)
        (redirect (codes "/"))

  unfoldable pub shelved : Option (Shelf × Bytes) → Act D (List (ArticleRecord J) × Bytes)
  unfolding sql
  shelved none = pure ([], [])
  shelved (some (every, menu)) =
      sql env (Articles.get_all env.values.json) >>= λ articles. pure (articles, menu)
  shelved (some (in_category name, menu)) =
      sql env (Articles.get_all_records_by_category env.values.json name) >>= λ articles.
      pure (articles, menu)

  unfoldable pub show_category : List (ArticleRecord J) × Bytes → Act D Unit
  unfolding category_scopes category_entries set_status add_header show_template
  show_category (articles, menu) = lift (category_scopes env.values articles) >>= λ html.
      status 200
      >> respond (add_header (codes "Content-Type") (codes "text/html; charset=utf-8"))
      >> show_template env (codes "./views/normal/category_page/html/index.html")
          (category_entries html menu)

  unfoldable pub category_page : HttpRequest J → Act D Unit
  unfolding shelved show_category shelves redirect
  category_page request =
      caught
        (lift (first_param request.path_params) >>= λ name.
          if equal name (codes "new")
          then redirect (codes "/")
          else (shelved (find_shelf name shelves) >>= show_category))
        (redirect (codes "/"))

  unfoldable pub image : HttpRequest J → Act D Unit
  unfolding answer load_file_content
  image request =
      caught
        (lift (first_param request.path_params) >>= λ slug.
          load_file_content (codes "./images/" ++ slug ++ codes ".jpg")
          >>= answer (codes "image/jpeg"))
        (status 404)
