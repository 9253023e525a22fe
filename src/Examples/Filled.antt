-- ===== src/Examples/Filled.antt =====
-- The home page and a category page, from small templates.
use cdragon.Prelude.{ℕ, ◌≡◌, refl, none, List, [], ◌∷◌, Bytes, codes, map, replicate, equal}
use cdragon.Prelude.Assoc.{Assoc, find}
use mathlib.Core.List.{Perm}
use cdragon.Database.{run, query, bind_params, first_row, all_rows}
use cdragon.Database.Binding.{marks}
use cdragon.Models.Articles
use cdragon.Regex.{regex_search, match_items}
use cdragon.Template.{cycle_pattern, minify_html, replace_variables}
use cdragon.Routes.Act.{World, done, Env, sql}
use cdragon.Routes.Pages.{Part}
use cdragon.Routes.Pages.Menus.{menu_all, shelves}
use cdragon.Routes.Pages.Streams.{links}
use cdragon.Routes.Shown.{home_page, home_entries, category_page, category_entries, shelved}
use cdragon.Routes.Shown.Filled.{with_page, home_page-fills, category_page-fills}
use cdragon.Examples.Data.{answering, row, article}
use cdragon.Examples.Pages.{env, world, asked, seven, twelve, stored-IsReadable, reversed-Iterates}

abbrev template : Bytes
template = codes "<p>{{ scopes }}</p>"

abbrev published : World ℕ
published = record world {
  files =
      (codes "./views/normal/main_page/html/index.html", template)
      ∷ (codes "./views/normal/category_page/html/index.html", template)
      ∷ [];
}

abbrev wide : Env ℕ ℕ (Bytes × List Bytes)
wide = record env { connector = answering (replicate 12 row) }

no_cycle : regex_search cycle_pattern template ≡ none
no_cycle = unfold regex_search match_items in refl

category_page-fills_example :
    (xs : List Part) × (order : Assoc (List Bytes)) × (links xs ≡ map (λ a. a.article_id) twelve)
    × Perm order (category_entries xs menu_all)
    × (category_page wide asked published ≡ (
      done tt,
      record published {
        response = with_page (minify_html (replace_variables template order)) published.response;
      },
    ))
unfolding shelved sql run query bind_params marks Articles.get_all all_rows Articles.read_row
    shelves equal find
category_page-fills_example =
    category_page-fills wide asked (codes "all") twelve menu_all template published published refl
      refl refl (stored-IsReadable 12) refl reversed-Iterates (2, refl, refl, no_cycle)

home_page-fills_example :
    (xs : List Part) × (order : Assoc (List Bytes)) × (links xs ≡ map (λ a. a.article_id) seven)
    × Perm order (home_entries article xs seven)
    × (home_page env asked published ≡ (
      done tt,
      record published {
        response = with_page (minify_html (replace_variables template order)) published.response;
        database = 0;
      },
    ))
unfolding run query bind_params marks Articles.get_all Articles.get_latest_published_article
    Articles.get_all_records_by_category all_rows first_row Articles.read_row equal find
home_page-fills_example =
    home_page-fills env asked article seven seven template published 0 0 0 refl refl refl
      (stored-IsReadable 7) reversed-Iterates (2, refl, refl, no_cycle)
