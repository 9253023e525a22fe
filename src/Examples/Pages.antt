-- ===== src/Examples/Pages.antt =====
-- Pages, a title, a log-in and the saving of an article.
use cdragon.Prelude.{
  ℕ, zero, suc, ◌*◌, ◌≤◌, ◌≡◌, refl, ◌⊎◌, true, List, [], ◌∷◌, ◌++◌, Bytes, codes, All, arith,
  length, take, replicate, map, ltb, equal,
}
use cdragon.Prelude.Numerals.{pos}
use cdragon.Prelude.Result.{ok}
use cdragon.Http.Request.{HttpRequest, new_request}
use cdragon.Http.Response.{new_response}
use cdragon.Session.{new_repository}
use cdragon.Database.Binding.{marks}
use cdragon.Database.{run, query, bind_params, all_rows}
use cdragon.Models.Article.{ArticleRecord}
use cdragon.Models.Articles
use cdragon.Routes.{can_user_create_articles}
use cdragon.Routes.Values.{Values, describe}
use cdragon.Routes.Act.{World, Env, redirect, sql}
use cdragon.Routes.Pages.Menus.{menu_all, shelves}
use cdragon.Routes.Pages.Streams.{IsReadable}
use cdragon.Routes.Text.{truncate_utf8, render_span_text, words}
use cdragon.Routes.Text.Utf8.{encode, truncate_utf8-bounds}
use cdragon.Routes.Text.Spans.{marked, render_span_text-marked}
use cdragon.Routes.Login.{login_handler}
use cdragon.Routes.Login.Entry.{IsRefused, IsEntered, login_handler-entry}
use cdragon.Routes.Saving.{saving_handler, update_article}
use cdragon.Routes.Saving.Allowed.{IsKept, IsAllowed, saving_handler-IsAllowed}
use cdragon.Routes.Shown.{category_page, shelved}
use cdragon.Routes.Shown.Leaving.{category_page-leaves}
use cdragon.Prelude.{some, none, drop}
use cdragon.Prelude.Assoc.{Assoc, find}
use mathlib.Core.List.{Perm, perm_middle, append-nil}
use mathlib.Core.List.Perm
use cdragon.Prelude.Numerals.{stoi}
use cdragon.Prelude.Result.{throws, json_exception}
use cdragon.Http.Response.{set_status}
use cdragon.Session.{is_session_valid}
use cdragon.Database.{first_row}
use cdragon.Models.ArticleTags.{get_tag_ids_for_article}
use cdragon.Regex.{regex_match, groups}
use cdragon.Router.{Router}
use cdragon.Router.Pattern.{Segment, text, param, items}
use cdragon.Router.Captures.{fill}
use cdragon.Routes.{is_session_ok, publish_handler}
use cdragon.Routes.Listing.{get_all_tags_of_article}
use cdragon.Routes.Listing.Misread.{get_all_tags_of_article-fails}
use cdragon.Routes.Setup.{PageHandler, on_world, setup_routes}
use cdragon.Routes.Setup.Sites.{sites}
use cdragon.Routes.Setup.Reached.{pages, compiled, setup_routes-reaches}
use cdragon.Examples.Data.{answering, json, row, article, blank}

abbrev pub values : Values ℕ
values = record {
  json = json;
  null = 0;
  at = λ key j. ok j;
  member = λ key j. ok j;
  element = λ i j. ok j;
  get_string = λ j. ok (codes "x");
  get_strings = λ j. ok (codes "y" ∷ []);
  get_int = λ j. ok (pos j);
  of_int = λ n. 2;
  array = λ js. 3;
  object = λ ps. 4;
  elements = λ j. some (1 ∷ []);
  dump_indented = λ n j. codes "{}";
  assign = λ key other j. ok 4;
}

abbrev pub stored : ArticleRecord ℕ
stored = record article { content = 0 }

abbrev pub twelve : List (ArticleRecord ℕ)
twelve = replicate 12 stored

abbrev pub seven : List (ArticleRecord ℕ)
seven = replicate 7 stored

pub stored-IsReadable : (n : ℕ) → All (IsReadable values) (replicate n stored)
unfolding describe
stored-IsReadable zero = tt
stored-IsReadable (suc n) = ((codes "x", refl), stored-IsReadable n)

truncate_utf8-bounds_example :
    (length (truncate_utf8 (0xD0 ∷ 0x90 ∷ 0xD0 ∷ []) 2) ≤ 4 * 2)
    × ((t : Bytes) × (truncate_utf8 (0xD0 ∷ 0x90 ∷ 0xD0 ∷ []) 2 ++ t ≡ 0xD0 ∷ 0x90 ∷ 0xD0 ∷ []))
truncate_utf8-bounds_example = truncate_utf8-bounds (0xD0 ∷ 0x90 ∷ 0xD0 ∷ []) 2

abbrev title : List ℕ
title = codes "Новини дня"

render_span_text-marked_example :
    render_span_text (encode title) (pos 8)
    ≡ marked (ltb 8 (length title)) (words [] (encode (take 8 title)))
render_span_text-marked_example = render_span_text-marked title 7 (ground arith)

abbrev pub reversed : Assoc (List Bytes) → Assoc (List Bytes)
reversed [] = []
reversed (p ∷ m) = reversed m ++ p ∷ []

pub reversed-Iterates : (m : Assoc (List Bytes)) → Perm (reversed m) m
reversed-Iterates [] = Perm.refl []
reversed-Iterates (p ∷ m) =
    Perm.trans (perm_middle (reversed m) [])
      (rw (append-nil (reversed m)) (Perm.cons p (reversed-Iterates m)))

abbrev pub env : Env ℕ ℕ (Bytes × List Bytes)
env = record {
  connector = answering (replicate 7 row);
  values = values;
  validate_password = λ password hash. true;
  base64_decode = λ s. ok s;
  can_open = λ path. true;
  blank = blank;
  ticks = 1;
  now = 5;
  now_text = codes "2025-01-01 00:00:00";
  draws = 1 ∷ 2 ∷ [];
  rounds = 3;
  iteration = reversed;
}

abbrev pub world : World ℕ
world = record { response = new_response; sessions = new_repository; database = 0; files = [] }

abbrev pub asked : HttpRequest ℕ
asked = record (new_request 0 [] []) { path_params = codes "all" ∷ [] }

category_page-leaves_example : category_page env asked world ≡ redirect (codes "/") world
unfolding shelved sql run query bind_params Articles.get_all all_rows Articles.read_row shelves
    equal
category_page-leaves_example =
    category_page-leaves env asked (codes "all") seven menu_all world world refl refl refl
      (stored-IsReadable 7) refl

abbrev pub signed_in : World ℕ
signed_in = record world {
  sessions = record {
    sessions = (codes "12", record { user_data = codes "1"; creation_time = 4 }) ∷ [];
    session_ttl = pos 1800;
  };
}

abbrev pub saving : HttpRequest ℕ
saving = record (new_request 0 [] []) { cookies = (codes "session_id", codes "12") ∷ [] }

login_handler-entry_example :
    IsRefused world (login_handler env asked world)
    ⊎ IsEntered env asked world (login_handler env asked world)
login_handler-entry_example = login_handler-entry env asked world

saving_handler-IsAllowed_example :
    IsKept signed_in (saving_handler env (update_article env) saving signed_in)
    ⊎ IsAllowed env (λ d. can_user_create_articles env.connector d) saving signed_in
saving_handler-IsAllowed_example =
    saving_handler-IsAllowed env (update_article env) saving signed_in

abbrev publish_route : List Segment
publish_route =
    text (codes "admin")
    ∷ text (codes "article_editor_page")
    ∷ text (codes "publish")
    ∷ param (codes "article_id")
    ∷ []

setup_routes-reaches_example :
    (router : Router (PageHandler ℕ ℕ)) × (setup_routes env ≡ some router)
    × All (λ p. find p.0 router.static_routes ≡ some p.1) (sites env)
    × (router.dynamic_routes
        ≡ map compiled (take 4 (pages env))
          ++ (items publish_route, on_world (publish_handler env.connector env.ticks env.now))
            ∷ map compiled (drop 5 (pages env)))
    × All
        (λ d. regex_match d.0 (fill publish_route (codes "42" ∷ [])) ≡ none)
        (map compiled (take 4 (pages env)))
    × ((ts : List Bytes) × (regex_match (items publish_route) (fill publish_route (codes "42" ∷ []))
          ≡ some ts)
        × (groups (items publish_route) ts ≡ codes "42" ∷ []))
setup_routes-reaches_example =
    setup_routes-reaches env (take 4 (pages env)) (drop 5 (pages env)) publish_route
      (on_world (publish_handler env.connector env.ticks env.now)) (codes "42" ∷ []) refl
      ((ground arith, (refl, (refl, tt))), tt)

abbrev strict : Env ℕ ℕ (Bytes × List Bytes)
strict = record env { values = record values { get_int = λ j. throws json_exception } }

abbrev asking : HttpRequest ℕ
asking = record saving { path_params = codes "3" ∷ [] }

get_all_tags_of_article-fails_example :
    (get_all_tags_of_article strict asking signed_in).1.response ≡ set_status 500 signed_in.response
unfolding is_session_ok is_session_valid find equal stoi run query bind_params first_row all_rows
    Articles.get_record_by_id Articles.read_row get_tag_ids_for_article marks
get_all_tags_of_article-fails_example =
    get_all_tags_of_article-fails strict asking signed_in json_exception (codes "3") (pos 3) (pos 1)
      (replicate 6 (pos 1)) stored 0 0 (4, refl, refl) refl refl refl refl refl
