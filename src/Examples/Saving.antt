-- ===== src/Examples/Saving.antt =====
-- The saving of an article, on a database that takes it.
use cdragon.Prelude.{ℕ, ◌≡◌, refl, true, [], ◌∷◌, Bytes, List, codes, equal}
use cdragon.Prelude.Assoc.{find, assign}
use cdragon.Prelude.Numerals.{pos, stoi}
use cdragon.Prelude.Result.{ok}
use cdragon.Http.Response.{set_status}
use cdragon.Session.{extend_session_time, is_session_valid, get_session_data}
use cdragon.Database.{Row, run, query, execute, bind_params, first_row, all_rows}
use cdragon.Database.Binding.{marks}
use cdragon.Models.Articles
use cdragon.Models.Keywords
use cdragon.Models.Categories
use cdragon.Models.Tags
use cdragon.Models.Roles
use cdragon.Models.UserRoles
use cdragon.Models.ArticleKeywords
use cdragon.Models.ArticleCategories
use cdragon.Models.ArticleTags
use cdragon.Routes.{is_session_ok, can_user_create_articles, permitted, any_role, role_of, ask}
use cdragon.Routes.Act.{done, Env, written}
use cdragon.Routes.Saving.{article_creator_handler, image_path}
use cdragon.Routes.Saving.Allowed.{IsAllowed}
use cdragon.Routes.Saving.Draft.{Draft, Accepts}
use cdragon.Routes.Saving.Created.{article_creator_handler-filed}
use cdragon.Examples.Data.{answering, blank}
use cdragon.Examples.Pages.{values, signed_in, saving}

abbrev pub plain_row : Row
plain_row = record {
  get_int = λ column. ok (pos 1);
  get_string = λ column. ok (codes "x");
  get_boolean = λ column. ok true;
}

abbrev pub filing : Env ℕ ℕ (Bytes × List Bytes)
filing = record {
  connector = answering (plain_row ∷ []);
  values = values;
  validate_password = λ password hash. true;
  base64_decode = λ s. ok s;
  can_open = λ path. true;
  blank = blank;
  ticks = 1;
  now = 5;
  now_text = codes "2025-01-01 00:00:00";
  draws = 1 ∷ 2 ∷ [];
  rounds = 3;
  iteration = λ m. m;
}

draft : Draft filing 0
draft = record {
  keywords = codes "y" ∷ [];
  categories = codes "y" ∷ [];
  tags = codes "y" ∷ [];
  slug = codes "x";
  preview = codes "x";
  picture = codes "x";
  content = 0;
  title = codes "x";
  summary = codes "x";
  state = codes "x";
  date = codes "x";
  seo_title = codes "x";
  seo_description = codes "x";
  has_keywords = (0, refl, refl);
  has_categories = (0, refl, refl);
  has_tags = (0, refl, refl);
  has_slug = (0, refl, refl);
  has_preview = (0, refl, refl);
  has_picture = refl;
  has_content = refl;
  has_title = (0, refl, refl);
  has_summary = (0, refl, refl);
  has_state = (0, refl, refl);
  has_date = (0, refl, refl);
  has_seo_title = (0, refl, refl);
  has_seo_description = (0, refl, refl);
}

accepts : Accepts filing 0 draft 0
unfolding run query execute bind_params first_row all_rows marks Articles.insert
    Articles.get_record_by_slug Articles.read_row draft Keywords.insert Keywords.search_by_keyword
    ArticleKeywords.insert Categories.insert Categories.search_by_name ArticleCategories.insert
    Tags.insert Tags.search_by_name ArticleTags.insert
accepts = record {
  inserted = true;
  with_article = 1;
  found = 1;
  with_keywords = 3;
  with_categories = 5;
  filed = 7;
  article = record {
    article_id = pos 1;
    title = codes "x";
    summary = codes "x";
    content = 0;
    status = codes "x";
    release_date = codes "x";
    slug = codes "x";
    seo_title = codes "x";
    seo_description = codes "x";
    preview_image = codes "x";
    views = pos 1;
  };
  opens = refl;
  inserts = refl;
  finds = refl;
  keywords_joined = (record { keyword_id = pos 1; keyword = codes "x" }, [], 3, refl, refl, refl);
  categories_joined = (
    record { category_id = pos 1; name = codes "x"; description = codes "x" },
    [],
    5,
    refl,
    refl,
    refl,
  );
  tags_joined = (record { tag_id = pos 1; name = codes "x" }, [], 7, refl, refl, refl);
}

author : IsAllowed filing (λ d. can_user_create_articles filing.connector d) saving signed_in
unfolding is_session_ok is_session_valid find equal stoi get_session_data permitted any_role role_of
    ask run query bind_params all_rows first_row marks UserRoles.get_role_ids_by_user_id
    Roles.get_record_by_id Roles.read_row extend_session_time assign
author = record {
  session_id = codes "12";
  session = record { user_data = codes "1"; creation_time = 5 };
  user_id = pos 1;
  has_cookie = refl;
  has_session = refl;
  has_data = refl;
  has_user = refl;
  has_right = refl;
}

article_creator_handler-filed_example : article_creator_handler filing saving signed_in ≡ (
  done tt,
  record signed_in {
    response = set_status 200 signed_in.response;
    sessions = (is_session_ok 1 5 saving signed_in.sessions).1;
    files = written (image_path draft.slug) draft.picture [];
    database = 7;
  },
)
unfolding accepts
article_creator_handler-filed_example =
    article_creator_handler-filed filing saving signed_in draft accepts author
