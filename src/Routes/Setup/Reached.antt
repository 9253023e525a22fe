-- ===== src/Routes/Setup/Reached.antt =====
-- src/router/routes.cpp: which handler setupRoutes registers for a path with parameters.
use cdragon.Prelude.{
  ◌≡◌, refl, ◌∙◌, ap, subst, Bool, true, ◌&&◌, none, some, List, [], ◌∷◌, ◌++◌, arith, Bytes, codes,
  equal, All, map, append-nil, append_assoc,
}
use cdragon.Regex.{Item, regex_match, groups}
use cdragon.Router.{Router, add_dynamic_route, add_static_route, new_router}
use cdragon.Router.Pattern.{Segment, text, param, written, items, IsSegment}
use cdragon.Router.Registration.{compile-written}
use cdragon.Router.Captures.{fill, Arguments, registered_captures}
use cdragon.Router.Plain.{plain_byte, plain_route, plain_route-All}
use cdragon.Router.Apart.{apart, unmatched}
use cdragon.Routes.{publish_handler, delete_handler, archive_handler}
use cdragon.Prelude.Assoc.{find}
use cdragon.Routes.Act.{Env}
use cdragon.Routes.Setup.Sites.{sites, with_static, sites-found}
use cdragon.Routes.Saving.{article_editor_page}
use cdragon.Routes.Shown.{article_read_page, category_page, image}
use cdragon.Routes.Listing.{get_json_of_article, get_all_tags_of_article}
use cdragon.Routes.Setup.{
  PageHandler, on_world, add_dynamic, add_static, add_files, static_pages, sent_files, send_file,
  dynamic_pages, setup_routes,
}

taken_by :
    (r : List Segment) (args : List Bytes)
    → All IsSegment r
    → Arguments r args
    → (ts : List Bytes) × (regex_match (items r) (fill r args) ≡ some ts)
      × (groups (items r) ts ≡ args)
taken_by r args h fits =
    let (is, compiles, (ts, e, g)) = registered_captures r args h fits in
    let same : is ≡ items r = cc (compile-written r h, compiles) in
    (ts, rw (← same) e, rw (← same) g)

map-around :
    {A B : Type 0} (f : A → B) (xs : List A) (y : A) (ys : List A)
    → map f (xs ++ y ∷ ys) ≡ map f xs ++ f y ∷ map f ys
map-around f [] y ys = refl
map-around f (x ∷ xs) y ys = ap (λ zs. f x ∷ zs) (map-around f xs y ys)

add_static-dynamic_routes :
    {H : Type 0} (ps : List (Bytes × H)) (r : Router H)
    → (add_static ps r).dynamic_routes ≡ r.dynamic_routes
unfolding add_static add_static_route
add_static-dynamic_routes [] r = refl
add_static-dynamic_routes ((path, handler) ∷ ps) r =
    add_static-dynamic_routes ps (add_static_route path handler r)

add_files-dynamic_routes :
    {J D : Type 0} (fs : List (Bytes × Bytes × Bytes)) (r : Router (PageHandler J D))
    → (add_files fs r).dynamic_routes ≡ r.dynamic_routes
unfolding add_files add_static_route
add_files-dynamic_routes [] r = refl
add_files-dynamic_routes ((path, content_type, file) ∷ fs) r =
    add_files-dynamic_routes fs (add_static_route path (send_file content_type file) r)

module _ {H : Type 0} where
  abbrev as_written : List Segment × H → Bytes × H
  as_written p = (written p.0, p.1)

  abbrev pub compiled : List Segment × H → List Item × H
  compiled p = (items p.0, p.1)

  -- Routes that are plain, each apart from those behind it.
  abbrev all_apart : List Segment → List (List Segment × H) → Bool
  all_apart r [] = true
  all_apart r (p ∷ ps) = apart r p.0 && all_apart r ps

  abbrev distinct : List (List Segment × H) → Bool
  distinct [] = true
  distinct (p ∷ ps) = plain_route p.0 && all_apart p.0 ps && distinct ps

  add_one :
      (p : List Segment × H) (r : Router H)
      → All IsSegment p.0
      → add_dynamic_route (written p.0) p.1 r
        ≡ some (record r { dynamic_routes = r.dynamic_routes ++ compiled p ∷ [] })
  unfolding add_dynamic_route
  add_one p r h = rw (compile-written p.0 h) refl

  add_dynamic-written :
      (ps : List (List Segment × H)) (r : Router H)
      → distinct ps ≡ true
      → add_dynamic (map as_written ps) r
        ≡ some (record r { dynamic_routes = r.dynamic_routes ++ map compiled ps })
  unfolding add_dynamic
  add_dynamic-written [] r h = rw (append-nil r.dynamic_routes) refl
  add_dynamic-written (p ∷ ps) r h =
      rw (add_one p r (plain_route-All p.0 (ground arith)).0, add_dynamic)
        (add_dynamic-written ps (record r { dynamic_routes = r.dynamic_routes ++ compiled p ∷ [] })
            (ground arith)
          ∙ rw (append_assoc r.dynamic_routes (compiled p ∷ []) (map compiled ps)) refl)

  apart_from :
      (r : List Segment) (before : List (List Segment × H)) (p : List Segment × H)
      (after : List (List Segment × H))
      → all_apart r (before ++ p ∷ after) ≡ true
      → apart r p.0 ≡ true
  apart_from r [] p after h = ground arith
  apart_from r (q ∷ before) p after h = apart_from r before p after (ground arith)

  distinct_plain :
      (before : List (List Segment × H)) (p : List Segment × H) (after : List (List Segment × H))
      → distinct (before ++ p ∷ after) ≡ true
      → plain_route p.0 ≡ true
  distinct_plain [] p after h = ground arith
  distinct_plain (q ∷ before) p after h = distinct_plain before p after (ground arith)

  -- The routes before one do not match its paths.
  earlier :
      (before : List (List Segment × H)) (p : List Segment × H) (after : List (List Segment × H))
      (args : List Bytes)
      → distinct (before ++ p ∷ after) ≡ true
      → Arguments p.0 args
      → All (λ d. regex_match d.0 (fill p.0 args) ≡ none) (map compiled before)
  earlier [] p after args h fits = tt
  earlier (q ∷ before) p after args h fits =
      let (plain, slashless) = plain_route-All q.0 (ground arith) in
      (
        unmatched q.0 p.0 args plain slashless
            (plain_route-All p.0 (distinct_plain before p after (ground arith))).1 fits
            (apart_from q.0 before p after (ground arith)),
        earlier before p after args (ground arith) fits,
      )

abbrev admin : Bytes → List Segment → List Segment
admin name r = text (codes "admin") ∷ text name ∷ r

abbrev article_param : List Segment
article_param = param (codes "article_id") ∷ []

module _ {J D S : Type 0} (env : Env J D S) where
  -- The routes with parameters, by their segments.
  abbrev pub pages : List (List Segment × PageHandler J D)
  pages =
      (admin (codes "article_editor_page") article_param, article_editor_page env)
      ∷ (admin (codes "get_json_of_article") article_param, get_json_of_article env)
      ∷ (admin (codes "get_all_categories_of_aticle") article_param, get_all_tags_of_article env)
      ∷ (admin (codes "get_all_tags_of_aticle") article_param, get_all_tags_of_article env)
      ∷ (
        admin (codes "article_editor_page") (text (codes "publish") ∷ article_param),
        on_world (publish_handler env.connector env.ticks env.now),
      )
      ∷ (
        admin (codes "article_editor_page") (text (codes "delete") ∷ article_param),
        on_world (delete_handler env.connector env.ticks env.now),
      )
      ∷ (
        admin (codes "article_editor_page") (text (codes "archive") ∷ article_param),
        on_world (archive_handler env.connector env.ticks env.now),
      )
      ∷ (text (codes "images") ∷ param (codes "slug") ∷ [], image env)
      ∷ (text (codes "article_read_page") ∷ article_param, article_read_page env)
      ∷ (text (codes "category_page") ∷ param (codes "category_name") ∷ [], category_page env)
      ∷ []

  dynamic_pages-written : dynamic_pages env ≡ map as_written pages
  dynamic_pages-written = unfold dynamic_pages written in refl

  pages-distinct : distinct pages ≡ true
  pages-distinct = unfold plain_byte apart equal in refl

  with_static-dynamic_routes : (with_static env).dynamic_routes ≡ []
  with_static-dynamic_routes =
      add_static-dynamic_routes (static_pages env) (add_files sent_files new_router)
      ∙ add_files-dynamic_routes sent_files new_router

  registered :
      add_dynamic (dynamic_pages env) (with_static env)
      ≡ some (record (with_static env) {
        dynamic_routes = (with_static env).dynamic_routes ++ map compiled pages;
      })
  registered =
      ap (λ ps. add_dynamic ps (with_static env)) dynamic_pages-written
      ∙ add_dynamic-written pages (with_static env) pages-distinct

  -- `setupRoutes` registers every page and every file that has a path of its own under that path, and
  -- every route with parameters: a path of such a route matches the pattern of that route, with the
  -- arguments as its groups, and of none that was registered before it.
  pub setup_routes-reaches :
      (before after : List (List Segment × PageHandler J D)) (r : List Segment)
      (handler : PageHandler J D) (args : List Bytes)
      → pages ≡ before ++ (r, handler) ∷ after
      → Arguments r args
      → (router : Router (PageHandler J D)) × (setup_routes env ≡ some router)
        × All (λ p. find p.0 router.static_routes ≡ some p.1) (sites env)
        × (router.dynamic_routes ≡ map compiled before ++ (items r, handler) ∷ map compiled after)
        × All (λ d. regex_match d.0 (fill r args) ≡ none) (map compiled before)
        × ((ts : List Bytes) × (regex_match (items r) (fill r args) ≡ some ts)
            × (groups (items r) ts ≡ args))
  unfolding setup_routes
  setup_routes-reaches before after r handler args e fits =
      let apart_pages = subst (λ ps. distinct ps ≡ true) e pages-distinct in
      (
        record (with_static env) {
          dynamic_routes = (with_static env).dynamic_routes ++ map compiled pages;
        },
        registered,
        sites-found env,
        ap (λ ds. ds ++ map compiled pages) with_static-dynamic_routes
            ∙ ap (map compiled) e
            ∙ map-around compiled before (r, handler) after,
        earlier before (r, handler) after args apart_pages fits,
        taken_by r args (plain_route-All r (distinct_plain before (r, handler) after apart_pages)).0
            fits,
      )
