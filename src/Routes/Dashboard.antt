-- ===== src/Routes/Dashboard.antt =====
-- src/router/routes.cpp: /admin/main_page and /admin/main_page/filter_handler, which show a card for
-- each article with the buttons that the user may press.
use cdragon.Prelude.{
  ◌-◌, Bool, List, [], ◌∷◌, ◌++◌, Bytes, codes, length, take, ltb, map, if◌then◌else◌,
}
use cdragon.Prelude.Assoc.{insert_all}
use cdragon.Prelude.Numerals.{ℤ, int_to_string}
use cdragon.Http.Request.{HttpRequest}
use cdragon.Http.Response.{set_status, add_header}
use cdragon.Models.Article.{ArticleRecord}
use cdragon.Models.Articles
use cdragon.Models.Articles.{Filters}
use cdragon.Routes.{can_user_edit_articles, can_user_archive_articles, can_user_delete_articles}
use cdragon.Routes.Act.{
  Act, Env, ◌>>=◌, ◌>>◌, pure, respond, redirect, status, answer, sql, show_template, check_session,
  session_cookie, session_data, with_session_data, with_user,
}
use cdragon.Routes.Login.{text_at}
use cdragon.Routes.Saving.{texts_at}
use cdragon.Routes.Text.Utf8.{encode}

pub card_image : Bytes
card_image = encode (
    codes
      "<div class=\"sp-article-card\" style=\"width: 100%\">\n                  <img\n                    src=\"")

pub image_title : Bytes
image_title = encode (
    codes
      "\"\n                    alt=\"Мини-превью\"\n                    class=\"sp-article-preview\"\n                  />\n                  <div class=\"sp-article-info\">\n                    <div\n                      style=\"\n                        display: flex;\n                        flex-direction: column;\n                        justify-content: space-between;\n                        width: 80%;\n                      \"\n                    >\n                      <h3 class=\"sp-article-title\" style=\"width: 100%\">")

pub title_date : Bytes
title_date = encode (
    codes
      "</h3>\n                      <h5 style=\"opacity: 0.4; width: 100%\">Дата и время публикации: ")

pub date_buttons : Bytes
date_buttons = encode (
    codes
      "</h5>\n                    </div>\n                    <div class=\"sp-article-buttons\">\n                      <div class=\"sp-article-buttons-row\">")

pub edit_button : Bytes
edit_button = encode (codes "<button class=\"sp-btn sp-edit-btn\" data-article-id=\"")

pub edit_end : Bytes
edit_end = encode (
    codes
      "\" onclick=\"redirectToArticleEditor(this) \">\n                          Редактировать\n                        </button>")

pub archive_button : Bytes
archive_button = encode (codes "<button class=\"sp-btn sp-archive-btn\" data-article-id=\"")

pub archive_end : Bytes
archive_end = encode (
    codes
      "\" onclick=\"archiveArticle(this) \">\n                          Архивировать\n                        </button>")

pub next_row : Bytes
next_row = encode (codes "</div>\n                      <div class=\"sp-article-buttons-row\">")

pub delete_button : Bytes
delete_button = encode (codes "<button class=\"sp-btn sp-delete-btn\" data-article-id=\"")

pub delete_end : Bytes
delete_end = encode (
    codes
      "\" onclick=\"deleteArticle(this) \">\n                          Удалить\n                        </button>")

pub public_button : Bytes
public_button =
    encode
      (codes "\n                        <button class=\"sp-btn sp-public-btn\" data-article-id=\"")

pub card_end : Bytes
card_end = encode (
    codes
      "\" onclick=\"publishArticle(this) \">\n                          Опубликовать сейчас\n                        </button>\n                      </div>\n                    </div>\n                  </div></div>")

-- date.substr(0, date.size() - 3); the difference wraps round, so a shorter date stays whole.
unfoldable pub without_seconds : Bytes → Bytes
without_seconds date = if ltb (length date) 3 then date else take (length date - 3) date

-- A button that a permission lets in.
abbrev pub button : Bool → Bytes → ℤ → Bytes → Bytes
button may start id end = if may then start ++ int_to_string id ++ end else []

-- The card of an article, with the permissions to edit, to archive and to delete.
unfoldable pub card : {J : Type 0} → Bool → Bool → Bool → ArticleRecord J → Bytes
unfolding without_seconds
card edit archive delete a =
    card_image
    ++ codes "/images/"
    ++ a.slug
    ++ image_title
    ++ a.title
    ++ title_date
    ++ without_seconds a.release_date
    ++ date_buttons
    ++ button edit edit_button a.article_id edit_end
    ++ button archive archive_button a.article_id archive_end
    ++ next_row
    ++ button delete delete_button a.article_id delete_end
    ++ public_button
    ++ int_to_string a.article_id
    ++ card_end

abbrev concat : List Bytes → Bytes
concat [] = []
concat (s ∷ ss) = s ++ concat ss

module _ {J D S : Type 0} (env : Env J D S) where
  unfoldable pub cards : ℤ → List (ArticleRecord J) → Act D (List Bytes)
  unfolding card
  cards user_id articles w =
      pure
        (map
          (card (can_user_edit_articles env.connector w.database user_id)
            (can_user_archive_articles env.connector w.database user_id)
            (can_user_delete_articles env.connector w.database user_id))
          articles)
        w

  unfoldable pub main_page : HttpRequest J → Act D Unit
  unfolding with_user sql cards set_status add_header show_template insert_all
  main_page request = with_user env request λ user_id.
      sql env (Articles.get_all env.values.json) >>= cards user_id >>= λ html.
      status 200
      >> respond (add_header (codes "Content-Type") (codes "text/html; charset=utf-8"))
      >> show_template env (codes "./views/admin/main_page/html/index.html")
          (insert_all [] ((codes "articles", html) ∷ []))

  unfoldable pub filters_of : J → Act D Filters
  unfolding text_at texts_at
  filters_of json = text_at env json (codes "searchTitle") >>= λ title.
      text_at env json (codes "statusFilter") >>= λ state.
      text_at env json (codes "releaseDateStart") >>= λ start.
      text_at env json (codes "releaseDateEnd") >>= λ end.
      texts_at env json (codes "categoryFilter") >>= λ categories.
      texts_at env json (codes "keywordFilter") >>= λ keywords.
      texts_at env json (codes "tagFilter") >>= λ tags. pure record {
        search_title = title;
        status_filter = state;
        release_date_start = start;
        release_date_end = end;
        category_filter = categories;
        keyword_filter = keywords;
        tag_filter = tags;
      }

  -- The articles are looked for before the user is.
  unfoldable pub filter_handler : HttpRequest J → Act D Unit
  unfolding check_session filters_of sql session_cookie session_data with_session_data cards answer
      redirect
  filter_handler request = check_session env request >>= λ passed.
      if passed
      then (filters_of request.json_data >>= λ filters.
          sql env (Articles.filter_articles env.values.json env.blank filters) >>= λ articles.
          session_cookie request
          >>= session_data
          >>= with_session_data λ user_id. cards user_id articles >>= λ html.
              answer (codes "text/html; charset=utf-8") (concat html))
      else redirect (codes "/admin/login_page")
