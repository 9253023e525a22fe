-- ===== src/Routes/Setup/Sites.antt =====
-- src/router/routes.cpp: the pages and files that setupRoutes registers under a path of their own.
use cdragon.Prelude.{◌≡◌, refl, some, List, [], ◌∷◌, ◌++◌, Bytes, codes, All, map, equal}
use cdragon.Prelude.Assoc.{Assoc, find, insert}
use cdragon.Router.{Router, new_router, add_static_route}
use cdragon.Routes.Act.{Env}
use cdragon.Routes.Login.{login_page, login_handler}
use cdragon.Routes.Saving.{article_creator_page, article_creator_handler, article_editor_handler}
use cdragon.Routes.Shown.{home_page}
use cdragon.Routes.Listing.{get_json_of_all_categories, get_json_of_all_tags, get_filter_data}
use cdragon.Routes.Dashboard.{main_page, filter_handler}
use cdragon.Routes.Setup.{PageHandler, send_file, sent_files, add_files, static_pages, add_static}

-- The files of the administration have the path of their view.
abbrev style : {J D : Type 0} → Bytes → Bytes × PageHandler J D
style path =
    (codes "/admin/" ++ path, send_file (codes "text/css") (codes "./views/admin/" ++ path))

abbrev script : {J D : Type 0} → Bytes → Bytes × PageHandler J D
script path = (
  codes "/admin/" ++ path,
  send_file (codes "application/javascript") (codes "./views/admin/" ++ path),
)

-- The style of a page for readers stands in a folder `css` of its view.
abbrev shown_style : {J D : Type 0} → Bytes → Bytes × PageHandler J D
shown_style page = (
  codes "/" ++ (page ++ codes "/styles.css"),
  send_file (codes "text/css; charset=utf-8")
      (codes "./views/normal/" ++ (page ++ codes "/css/styles.css")),
)

-- The two editors of articles have the same files.
abbrev editor_files : {J D : Type 0} → Bytes → List (Bytes × PageHandler J D)
editor_files page =
    style (page ++ codes "/css/styles.css")
    ∷ script (page ++ codes "/js/functions.js")
    ∷ script (page ++ codes "/js/quill_settings.js")
    ∷ script (page ++ codes "/js/handlers.js")
    ∷ []

module _ {J D S : Type 0} (env : Env J D S) where
  -- What answers under a path without parameters.
  abbrev pub sites : List (Bytes × PageHandler J D)
  sites =
      (codes "/", home_page env)
      ∷ (codes "/get_filter_data", get_filter_data env)
      ∷ (codes "/admin/login_page", login_page env)
      ∷ (codes "/admin/login_handler", login_handler env)
      ∷ (codes "/admin/main_page", main_page env)
      ∷ (codes "/admin/main_page/filter_handler", filter_handler env)
      ∷ (codes "/admin/article_creator_page", article_creator_page env)
      ∷ (codes "/admin/article_creator_handler", article_creator_handler env)
      ∷ (codes "/admin/article_editor_handler", article_editor_handler env)
      ∷ (codes "/admin/get_json_of_all_categories", get_json_of_all_categories env)
      ∷ (codes "/admin/get_json_of_all_tags", get_json_of_all_tags env)
      ∷ shown_style (codes "main_page")
      ∷ shown_style (codes "article_read_page")
      ∷ shown_style (codes "category_page")
      ∷ style (codes "login_page/css/style.css")
      ∷ style (codes "main_page/css/fp.css")
      ∷ style (codes "main_page/css/sp.css")
      ∷ script (codes "main_page/js/fp.js")
      ∷ (editor_files (codes "main_page")
          ++ (editor_files (codes "article_creator") ++ editor_files (codes "article_editor")))

  abbrev pub with_static : Router (PageHandler J D)
  with_static = add_static (static_pages env) (add_files sent_files new_router)

  map-All :
      {V : Type 0} (m : Assoc V) (ps : List (Bytes × V))
      → map (λ p. find p.0 m) ps ≡ map (λ p. some p.1) ps
      → All (λ p. find p.0 m ≡ some p.1) ps
  map-All m [] e = tt
  map-All m (p ∷ ps) e = (cc, map-All m ps cc)

  pub sites-found : All (λ p. find p.0 with_static.static_routes ≡ some p.1) sites
  unfolding find insert add_static add_files add_static_route static_pages sent_files equal
  sites-found = map-All with_static.static_routes sites refl
