-- ===== src/Routes/Shown/Leaving.antt =====
-- src/router/routes.cpp: what a category page does with its articles.
use cdragon.Prelude.{
  ◌%◌, ◌≡◌, refl, true, false, ◌||◌, ◌==◌, List, Bytes, codes, All, length, equal,
}
use cdragon.Prelude.Result.{ok}
use cdragon.Http.Request.{HttpRequest}
use cdragon.Models.Article.{ArticleRecord}
use cdragon.Routes.{first_param}
use cdragon.Routes.Act.{World, done, Env, redirect}
use cdragon.Routes.Pages.Menus.{shelves}
use cdragon.Routes.Pages.Streams.{IsReadable}
use cdragon.Routes.Pages.Coverage.{category_scopes-fails}
use cdragon.Routes.Shown.{category_page, find_shelf, shelved, show_category}

module _ {J D S : Type 0} (env : Env J D S) where
  -- A category page with a number of articles that ends in 7 or 8, whose descriptions can all be
  -- shown, is not shown: the reader is led back to the home page.
  pub category_page-leaves :
      (request : HttpRequest J) (name : Bytes) (articles : List (ArticleRecord J)) (menu : Bytes)
      (w w' : World D)
      → first_param request.path_params ≡ ok name
      → equal name (codes "new") ≡ false
      → shelved env (find_shelf name shelves) w ≡ (done (articles, menu), w')
      → All (IsReadable env.values) articles
      → (length articles % 10 == 7 || length articles % 10 == 8) ≡ true
      → category_page env request w ≡ redirect (codes "/") w'
  unfolding category_page show_category
  category_page-leaves request name articles menu w w' named other found readable misfits =
      rw (named) (
        rw (other)
          (rw (found) (rw (category_scopes-fails env.values articles readable misfits) refl)))
