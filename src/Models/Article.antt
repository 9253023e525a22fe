-- ===== src/Models/Article.antt =====
-- models/include/records/article_record.h. The fields of a default record are not initialised by
-- the source, so `blank` takes the record that happens to be there as an argument.
use cdragon.Prelude.{
  zero, suc, Bool, true, false, not, [], ◌∷◌, ◌&&◌, Bytes, String, codes, equal, is_empty,
  if◌then◌else◌,
}
use cdragon.Prelude.Assoc.{Assoc, insert_all}
use cdragon.Prelude.Numerals.{ℤ, pos, negsuc, int_to_string}
use cdragon.Prelude.Result.{Result, ok, throws, invalid_argument}

-- The calls of nlohmann/json on a type of values.
pub record Json (J : Type 0) : Type 0 where
  -- json::parse
  pub parse : Bytes → Result J
  -- the conversion of a string to a JSON string
  pub of_string : Bytes → J
  pub dump : J → Bytes

pub record ArticleRecord (J : Type 0) : Type 0 where
  pub article_id : ℤ
  pub title : Bytes
  pub summary : Bytes
  pub content : J
  pub status : Bytes
  pub release_date : Bytes
  pub slug : Bytes
  pub seo_title : Bytes
  pub seo_description : Bytes
  pub preview_image : Bytes
  pub views : ℤ

-- id <= 0
abbrev pub is_not_positive : ℤ → Bool
is_not_positive (pos zero) = true
is_not_positive (pos (suc n)) = false
is_not_positive (negsuc n) = true

-- n < 0
abbrev pub is_negative : ℤ → Bool
is_negative (pos n) = false
is_negative (negsuc n) = true

-- A setter: its test and message, and the record with the field set.
abbrev pub checked : {A : Type 0} → Bool → String → A → Result A
checked refused message a = if refused then throws (invalid_argument message) else ok a

unfoldable pub is_unknown_status : Bytes → Bool
is_unknown_status s =
    not (equal s (codes "draft"))
    && not (equal s (codes "published"))
    && not (equal s (codes "archived"))

module _ {J : Type 0} where
  unfoldable pub set_article_id : ℤ → ArticleRecord J → Result (ArticleRecord J)
  set_article_id id r =
      checked (is_not_positive id) "article_id must be positive" record r { article_id = id }

  unfoldable pub set_title : Bytes → ArticleRecord J → Result (ArticleRecord J)
  set_title t r = checked (is_empty t) "title cannot be empty" record r { title = t }

  unfoldable pub set_summary : Bytes → ArticleRecord J → Result (ArticleRecord J)
  set_summary t r = checked (is_empty t) "summary cannot be empty" record r { summary = t }

  unfoldable pub set_status : Bytes → ArticleRecord J → Result (ArticleRecord J)
  unfolding is_unknown_status
  set_status s r =
      checked (is_unknown_status s) "status must be 'draft', 'published', or 'archived'"
        record r { status = s }

  unfoldable pub set_slug : Bytes → ArticleRecord J → Result (ArticleRecord J)
  set_slug s r = checked (is_empty s) "slug cannot be empty" record r { slug = s }

  unfoldable pub set_views : ℤ → ArticleRecord J → Result (ArticleRecord J)
  set_views n r = checked (is_negative n) "views cannot be negative" record r { views = n }

  abbrev pub set_content : J → ArticleRecord J → ArticleRecord J
  set_content c r = record r { content = c }

  abbrev pub set_release_date : Bytes → ArticleRecord J → ArticleRecord J
  set_release_date d r = record r { release_date = d }

  abbrev pub set_seo_title : Bytes → ArticleRecord J → ArticleRecord J
  set_seo_title t r = record r { seo_title = t }

  abbrev pub set_seo_description : Bytes → ArticleRecord J → ArticleRecord J
  set_seo_description t r = record r { seo_description = t }

  abbrev pub set_preview_image : Bytes → ArticleRecord J → ArticleRecord J
  set_preview_image t r = record r { preview_image = t }

  unfoldable pub to_unordered_map : Json J → ArticleRecord J → Assoc Bytes
  to_unordered_map json r = insert_all [] (
      (codes "article_id", int_to_string r.article_id)
      ∷ (codes "title", r.title)
      ∷ (codes "summary", r.summary)
      ∷ (codes "content", json.dump r.content)
      ∷ (codes "status", r.status)
      ∷ (codes "release_date", r.release_date)
      ∷ (codes "slug", r.slug)
      ∷ (codes "seo_title", r.seo_title)
      ∷ (codes "seo_description", r.seo_description)
      ∷ (codes "preview_image", r.preview_image)
      ∷ (codes "views", int_to_string r.views)
      ∷ [])
