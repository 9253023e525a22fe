-- ===== src/Routes/Setup.antt =====
-- src/router/routes.cpp: setupRoutes, which registers every handler. The router keeps the static
-- routes apart from the dynamic ones, so only the order among the latter matters.
pub mod Reached
pub mod Sites
use cdragon.Prelude.{Option, none, some, List, [], ◌∷◌, Bytes, codes}
use cdragon.Http.Request.{HttpRequest}
use cdragon.Http.Response.{HttpResponse}
use cdragon.Session.{SessionRepository}
use cdragon.Router.{Router, new_router, add_static_route, add_dynamic_route}
use cdragon.Routes.{publish_handler, delete_handler, archive_handler}
use cdragon.Routes.Act.{done, Act, Env, ◌>>=◌, answer, load_file_content}
use cdragon.Routes.Login.{login_page, login_handler}
use cdragon.Routes.Saving.{
  article_creator_page, article_creator_handler, article_editor_page, article_editor_handler,
}
use cdragon.Routes.Shown.{home_page, article_read_page, category_page, image}
use cdragon.Routes.Listing.{
  get_json_of_article, get_json_of_all_categories, get_json_of_all_tags, get_all_tags_of_article,
  get_filter_data,
}
use cdragon.Routes.Dashboard.{main_page, filter_handler}

abbrev pub PageHandler : Type 0 → Type 0 → Type 0
PageHandler J D = HttpRequest J → Act D Unit

-- The routes that send a file: the path, the type and the file.
unfoldable pub sent_files : List (Bytes × Bytes × Bytes)
sent_files =
    (
      codes "/main_page/styles.css",
      codes "text/css; charset=utf-8",
      codes "./views/normal/main_page/css/styles.css",
    )
    ∷ (
      codes "/article_read_page/styles.css",
      codes "text/css; charset=utf-8",
      codes "./views/normal/article_read_page/css/styles.css",
    )
    ∷ (
      codes "/category_page/styles.css",
      codes "text/css; charset=utf-8",
      codes "./views/normal/category_page/css/styles.css",
    )
    ∷ (
      codes "/admin/article_creator/css/styles.css",
      codes "text/css",
      codes "./views/admin/article_creator/css/styles.css",
    )
    ∷ (
      codes "/admin/article_creator/js/functions.js",
      codes "application/javascript",
      codes "./views/admin/article_creator/js/functions.js",
    )
    ∷ (
      codes "/admin/article_creator/js/quill_settings.js",
      codes "application/javascript",
      codes "./views/admin/article_creator/js/quill_settings.js",
    )
    ∷ (
      codes "/admin/article_creator/js/handlers.js",
      codes "application/javascript",
      codes "./views/admin/article_creator/js/handlers.js",
    )
    ∷ (
      codes "/admin/article_editor/css/styles.css",
      codes "text/css",
      codes "./views/admin/article_editor/css/styles.css",
    )
    ∷ (
      codes "/admin/article_editor/js/functions.js",
      codes "application/javascript",
      codes "./views/admin/article_editor/js/functions.js",
    )
    ∷ (
      codes "/admin/article_editor/js/quill_settings.js",
      codes "application/javascript",
      codes "./views/admin/article_editor/js/quill_settings.js",
    )
    ∷ (
      codes "/admin/article_editor/js/handlers.js",
      codes "application/javascript",
      codes "./views/admin/article_editor/js/handlers.js",
    )
    ∷ (
      codes "/admin/login_page/css/style.css",
      codes "text/css",
      codes "./views/admin/login_page/css/style.css",
    )
    ∷ (
      codes "/admin/main_page/css/styles.css",
      codes "text/css",
      codes "./views/admin/main_page/css/styles.css",
    )
    ∷ (
      codes "/admin/main_page/css/fp.css",
      codes "text/css",
      codes "./views/admin/main_page/css/fp.css",
    )
    ∷ (
      codes "/admin/main_page/css/sp.css",
      codes "text/css",
      codes "./views/admin/main_page/css/sp.css",
    )
    ∷ (
      codes "/admin/main_page/js/functions.js",
      codes "application/javascript",
      codes "./views/admin/main_page/js/functions.js",
    )
    ∷ (
      codes "/admin/main_page/js/quill_settings.js",
      codes "application/javascript",
      codes "./views/admin/main_page/js/quill_settings.js",
    )
    ∷ (
      codes "/admin/main_page/js/handlers.js",
      codes "application/javascript",
      codes "./views/admin/main_page/js/handlers.js",
    )
    ∷ (
      codes "/admin/main_page/js/fp.js",
      codes "application/javascript",
      codes "./views/admin/main_page/js/fp.js",
    )
    ∷ []

unfoldable pub send_file : {J D : Type 0} → Bytes → Bytes → PageHandler J D
unfolding load_file_content answer
send_file content_type path request = load_file_content path >>= answer content_type

-- One of the handlers that change an article.
abbrev pub on_world :
    {J D : Type 0}
    → (HttpRequest J → HttpResponse → SessionRepository → D → HttpResponse × SessionRepository × D)
    → PageHandler J D
on_world handler request w =
    let (response, r, d) = handler request w.response w.sessions w.database in
    (done tt, record w { response = response; sessions = r; database = d })

unfoldable pub add_files :
    {J D : Type 0}
    → List (Bytes × Bytes × Bytes)
    → Router (PageHandler J D)
    → Router (PageHandler J D)
unfolding add_static_route send_file
add_files [] r = r
add_files ((path, content_type, file) ∷ rest) r =
    add_files rest (add_static_route path (send_file content_type file) r)

unfoldable pub add_static : {H : Type 0} → List (Bytes × H) → Router H → Router H
unfolding add_static_route
add_static [] r = r
add_static ((path, handler) ∷ rest) r = add_static rest (add_static_route path handler r)

unfoldable pub add_dynamic : {H : Type 0} → List (Bytes × H) → Router H → Option (Router H)
unfolding add_dynamic_route
add_dynamic [] r = some r
add_dynamic ((path, handler) ∷ rest) r = elim (add_dynamic_route path handler r) [
  | none ↦ none
  | some r' ↦ add_dynamic rest r'
]

module _ {J D S : Type 0} (env : Env J D S) where
  unfoldable pub static_pages : List (Bytes × PageHandler J D)
  static_pages =
      (codes "/admin/login_page", login_page env)
      ∷ (codes "/admin/login_handler", login_handler env)
      ∷ (codes "/admin/main_page", main_page env)
      ∷ (codes "/admin/main_page/filter_handler", filter_handler env)
      ∷ (codes "/admin/article_creator_page", article_creator_page env)
      ∷ (codes "/admin/article_creator_handler", article_creator_handler env)
      ∷ (codes "/admin/get_json_of_all_categories", get_json_of_all_categories env)
      ∷ (codes "/admin/get_json_of_all_tags", get_json_of_all_tags env)
      ∷ (codes "/admin/article_editor_handler", article_editor_handler env)
      ∷ (codes "/get_filter_data", get_filter_data env)
      ∷ (codes "/", home_page env)
      ∷ []

  unfoldable pub dynamic_pages : List (Bytes × PageHandler J D)
  dynamic_pages =
      (codes "/admin/article_editor_page/<article_id>", article_editor_page env)
      ∷ (codes "/admin/get_json_of_article/<article_id>", get_json_of_article env)
      ∷ (codes "/admin/get_all_categories_of_aticle/<article_id>", get_all_tags_of_article env)
      ∷ (codes "/admin/get_all_tags_of_aticle/<article_id>", get_all_tags_of_article env)
      ∷ (
        codes "/admin/article_editor_page/publish/<article_id>",
        on_world (publish_handler env.connector env.ticks env.now),
      )
      ∷ (
        codes "/admin/article_editor_page/delete/<article_id>",
        on_world (delete_handler env.connector env.ticks env.now),
      )
      ∷ (
        codes "/admin/article_editor_page/archive/<article_id>",
        on_world (archive_handler env.connector env.ticks env.now),
      )
      ∷ (codes "/images/<slug>", image env)
      ∷ (codes "/article_read_page/<article_id>", article_read_page env)
      ∷ (codes "/category_page/<category_name>", category_page env)
      ∷ []

  -- `none` if a path were no pattern that the router reads.
  unfoldable pub setup_routes : Option (Router (PageHandler J D))
  unfolding add_files sent_files add_static static_pages add_dynamic dynamic_pages
  setup_routes =
      add_dynamic dynamic_pages (add_static static_pages (add_files sent_files new_router))
