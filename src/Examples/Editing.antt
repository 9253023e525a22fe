-- ===== src/Examples/Editing.antt =====
-- An edited article, on a database that takes it.
use cdragon.Prelude.{
  ℕ, suc, ◌≡◌, refl, true, [], ◌∷◌, Bytes, List, codes, equal, ◌==◌, if◌then◌else◌,
}
use cdragon.Prelude.Assoc.{find, assign}
use cdragon.Prelude.Numerals.{pos, stoi}
use cdragon.Prelude.Result.{ok}
use cdragon.Http.Response.{set_status}
use cdragon.Session.{extend_session_time, is_session_valid, get_session_data}
use cdragon.Database.{run, query, execute, bind_params, first_row, all_rows}
use cdragon.Database.Binding.{marks}
use cdragon.Models.Article.{ArticleRecord, is_unknown_status}
use cdragon.Models.Articles
use cdragon.Models.Roles
use cdragon.Models.UserRoles
use cdragon.Models.ArticleKeywords
use cdragon.Models.ArticleCategories
use cdragon.Models.ArticleTags
use cdragon.Routes.{is_session_ok, can_user_create_articles, permitted, any_role, role_of, ask}
use cdragon.Routes.Values.{Values}
use cdragon.Routes.Act.{done, Env}
use cdragon.Routes.Saving.{article_editor_handler}
use cdragon.Routes.Saving.Allowed.{IsAllowed}
use cdragon.Routes.Saving.Revised.{
  Revision, Stores, KeywordDrops, CategoryDrops, TagDrops, updated_with,
}
use cdragon.Routes.Saving.Edited.{article_editor_handler-updated}
use cdragon.Examples.Pages.{values, signed_in, saving}
use cdragon.Examples.Saving.{filing}

abbrev fields : Values ℕ
fields = record values {
  at = λ key j.
      ok (
        if equal key (codes "previewImage")
        then 7
        else if equal key (codes "status")
        then 8
        else j);
  get_string = λ j. ok (if j == 7 then [] else if j == 8 then codes "draft" else codes "x");
}

abbrev editing : Env ℕ ℕ (Bytes × List Bytes)
editing = record filing { values = fields }

revision : Revision editing 0
unfolding equal is_unknown_status
revision = record {
  keywords = codes "y" ∷ [];
  categories = codes "y" ∷ [];
  tags = codes "y" ∷ [];
  slug = codes "x";
  content = codes "x";
  title = codes "x";
  summary = codes "x";
  state = codes "draft";
  date = codes "x";
  seo_title = codes "x";
  seo_description = codes "x";
  has_keywords = (0, refl, refl);
  has_categories = (0, refl, refl);
  has_tags = (0, refl, refl);
  has_slug = (0, refl, refl);
  has_no_picture = (7, refl, refl);
  has_content = (0, refl, refl);
  has_title = (0, refl, refl);
  has_summary = (0, refl, refl);
  has_state = (8, refl, refl);
  has_date = (0, refl, refl);
  has_seo_title = (0, refl, refl);
  has_seo_description = (0, refl, refl);
  title_there = refl;
  summary_there = refl;
  state_known = refl;
}

keyword_drops : KeywordDrops editing (pos 1)
unfolding run query execute bind_params all_rows marks ArticleKeywords.get_keyword_ids_for_article
    ArticleKeywords.remove
keyword_drops = record {
  old = λ d. pos 1 ∷ [];
  dropped = λ i d. suc d;
  finds = λ d. refl;
  drops = λ i d. refl;
}

category_drops : CategoryDrops editing (pos 1)
unfolding run query execute bind_params all_rows marks
    ArticleCategories.get_category_ids_for_article ArticleCategories.remove
category_drops = record {
  old = λ d. pos 1 ∷ [];
  dropped = λ i d. suc d;
  finds = λ d. refl;
  drops = λ i d. refl;
}

tag_drops : TagDrops editing (pos 1)
unfolding run query execute bind_params all_rows marks ArticleTags.get_tag_ids_for_article
    ArticleTags.remove
tag_drops = record {
  old = λ d. pos 1 ∷ [];
  dropped = λ i d. suc d;
  finds = λ d. refl;
  drops = λ i d. refl;
}

abbrev kept : ArticleRecord ℕ
kept = record {
  article_id = pos 1;
  title = codes "x";
  summary = codes "x";
  content = 0;
  status = codes "x";
  release_date = codes "x";
  slug = codes "x";
  seo_title = codes "x";
  seo_description = codes "x";
  preview_image = codes "x";
  views = pos 1;
}

stores : Stores editing 0 revision 0
unfolding run query execute bind_params first_row marks Articles.get_record_by_slug
    Articles.read_row Articles.update
stores = record {
  article = kept;
  found = 0;
  updated = true;
  with_article = 1;
  finds = refl;
  updates = refl;
  keyword_drops = keyword_drops;
  category_drops = category_drops;
  tag_drops = tag_drops;
}

editor : IsAllowed editing (λ d. can_user_create_articles editing.connector d) saving signed_in
unfolding is_session_ok is_session_valid find equal stoi get_session_data permitted any_role role_of
    ask run query bind_params all_rows first_row marks UserRoles.get_role_ids_by_user_id
    Roles.get_record_by_id Roles.read_row extend_session_time assign
editor = record {
  session_id = codes "12";
  session = record { user_data = codes "1"; creation_time = 5 };
  user_id = pos 1;
  has_cookie = refl;
  has_session = refl;
  has_data = refl;
  has_user = refl;
  has_right = refl;
}

article_editor_handler-updated_example : article_editor_handler editing saving signed_in ≡ (
  done tt,
  record signed_in {
    response = set_status 200 signed_in.response;
    sessions = (is_session_ok 1 5 saving signed_in.sessions).1;
    database = updated_with editing 0 revision stores;
  },
)
article_editor_handler-updated_example =
    article_editor_handler-updated editing saving signed_in revision stores editor
