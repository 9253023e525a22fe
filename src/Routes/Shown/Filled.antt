-- ===== src/Routes/Shown/Filled.antt =====
-- src/router/routes.cpp: the home page and a category page, when everything is there.
use cdragon.Prelude.{
  ℕ, suc, ◌%◌, ◌≡◌, refl, ap, false, ◌||◌, ◌==◌, none, some, List, Bytes, codes, All, length, map,
  equal,
}
use mathlib.Core.List.{Perm}
use cdragon.Prelude.Assoc.{Assoc, find}
use cdragon.Prelude.Result.{ok}
use cdragon.Http.Request.{HttpRequest}
use cdragon.Http.Response.{HttpResponse, set_status, add_header, set_body}
use cdragon.Database.{run}
use cdragon.Models.Article.{ArticleRecord}
use cdragon.Models.Articles
use cdragon.Regex.{regex_search}
use cdragon.Template.{cycle_pattern, minify_html, replace_variables, render}
use cdragon.Template.Cycles.{render_no_cycle}
use cdragon.Routes.{first_param}
use cdragon.Routes.Act.{World, done, Env, show_template, rendered}
use cdragon.Routes.Act.Steps.{sql_ok}
use cdragon.Routes.Pages.{Part}
use cdragon.Routes.Pages.Menus.{shelves}
use cdragon.Routes.Pages.Streams.{IsReadable, links}
use cdragon.Routes.Pages.Coverage.{home_scopes-links, category_scopes-links}
use cdragon.Routes.Text.Utf8.{encode}
use cdragon.Routes.Shown.{
  home_page, home_entries, category_page, category_entries, find_shelf, shelved, show_category,
}

-- A response with a page.
abbrev pub with_page : Bytes → HttpResponse → HttpResponse
with_page body r =
    set_body body
      (add_header (codes "Content-Type") (codes "text/html; charset=utf-8") (set_status 200 r))

module _ {J D S : Type 0} (env : Env J D S) where
  -- A template without cycles, and a round to look for one.
  abbrev pub HasTemplate : Bytes → World D → Bytes → Type 0
  HasTemplate path w template =
      (n : ℕ) × (env.rounds ≡ suc n)
      × (find path w.files ≡ some template)
      × (regex_search cycle_pattern template ≡ none)

  render-found :
      (path template : Bytes) (entries : Assoc (List Bytes)) (w : World D)
      → HasTemplate path w template
      → render env.rounds (find path w.files) entries
        ≡ some (ok (minify_html (replace_variables template entries)))
  render-found path template entries w (n, rounds, there, plain) =
      rw (rounds) (rw (there) (render_no_cycle n entries template plain))

  -- An unordered map is iterated over all of its entries, in an order that is left open.
  abbrev pub Iterates : Type 0
  Iterates = (m : Assoc (List Bytes)) → Perm (env.iteration m) m

  show_template-fills :
      (path template : Bytes) (entries : Assoc (List Bytes)) (w : World D)
      → HasTemplate path w template
      → show_template env path entries w ≡ (
        done tt,
        record w {
          response =
              set_body
                (minify_html (replace_variables template (env.iteration entries)))
                w.response;
        },
      )
  unfolding show_template
  show_template-fills path template entries w has =
      ap (λ o. rendered o w) (render-found path template (env.iteration entries) w has)

  -- A category page whose articles have readable descriptions, and whose number does not end in 7 or
  -- 8, is its template, if that is there and has no cycle, filled with the menu and with scopes that
  -- link to every article once, in order; which of the two is filled in first is left open.
  pub category_page-fills :
      (request : HttpRequest J) (name : Bytes) (articles : List (ArticleRecord J))
      (menu template : Bytes) (w w' : World D)
      → first_param request.path_params ≡ ok name
      → equal name (codes "new") ≡ false
      → shelved env (find_shelf name shelves) w ≡ (done (articles, menu), w')
      → All (IsReadable env.values) articles
      → (length articles % 10 == 7 || length articles % 10 == 8) ≡ false
      → Iterates
      → HasTemplate (codes "./views/normal/category_page/html/index.html") w' template
      → (xs : List Part) × (order : Assoc (List Bytes)) × (links xs
          ≡ map (λ a. a.article_id) articles)
        × Perm order (category_entries xs menu)
        × (category_page env request w ≡ (
          done tt,
          record w' {
            response = with_page (minify_html (replace_variables template order)) w'.response;
          },
        ))
  unfolding category_page show_category
  category_page-fills request name articles menu template w w' named other found readable fits
        iterates has =
      let (xs, laid, linked) = category_scopes-links env.values articles readable fits in
      let w1 = record w' {
        response =
            add_header (codes "Content-Type") (codes "text/html; charset=utf-8")
              (set_status 200 w'.response);
      } in
      (
        xs,
        env.iteration (category_entries xs menu),
        linked,
        iterates (category_entries xs menu),
        rw (named) (
            rw (other) (
              rw (found) (
                rw (laid) (
                  rw
                    (show_template-fills (codes "./views/normal/category_page/html/index.html")
                      template (category_entries xs menu) w1 has)
                    refl)))),
      )

  -- When an article is published, the database answers, and the articles on anime have readable
  -- descriptions, the home page is its template, if that is there and has no cycle, filled with that
  -- article, the first ones of all, and scopes that link to every article on anime once, in order; in which order
  -- its variables are filled in is left open.
  pub home_page-fills :
      (request : HttpRequest J) (latest : ArticleRecord J) (anime all : List (ArticleRecord J))
      (template : Bytes) (w : World D) (d d' d'' : D)
      → run env.connector
          (Articles.get_latest_published_article env.values.json env.now_text)
          w.database
        ≡ ok (latest, d)
      → run env.connector
          (Articles.get_all_records_by_category env.values.json (encode (codes "Аніме")))
          d
        ≡ ok (anime, d')
      → run env.connector (Articles.get_all env.values.json) d' ≡ ok (all, d'')
      → All (IsReadable env.values) anime
      → Iterates
      → HasTemplate (codes "./views/normal/main_page/html/index.html") w template
      → (xs : List Part) × (order : Assoc (List Bytes)) × (links xs ≡ map (λ a. a.article_id) anime)
        × Perm order (home_entries latest xs all)
        × (home_page env request w ≡ (
          done tt,
          record w {
            response = with_page (minify_html (replace_variables template order)) w.response;
            database = d'';
          },
        ))
  unfolding home_page
  home_page-fills request latest anime all template w d d' d'' published shown listed readable
        iterates has =
      let (xs, laid, linked) = home_scopes-links env.values anime readable in
      let w1 = record w {
        response =
            add_header (codes "Content-Type") (codes "text/html; charset=utf-8")
              (set_status 200 w.response);
      } in
      (
        xs,
        env.iteration (home_entries latest xs all),
        linked,
        iterates (home_entries latest xs all),
        rw
            (sql_ok env (Articles.get_latest_published_article env.values.json env.now_text) w1
              published)
            (rw
              (sql_ok env
                (Articles.get_all_records_by_category env.values.json (encode (codes "Аніме")))
                (record w1 { database = d }) shown)
              (rw (laid) (
                rw
                  (sql_ok env (Articles.get_all env.values.json) (record w1 { database = d' })
                    listed)
                  (show_template-fills (codes "./views/normal/main_page/html/index.html") template
                    (home_entries latest xs all) (record w1 { database = d'' }) has)))),
      )
