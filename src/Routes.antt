-- ===== src/Routes.antt =====
-- src/router/routes.cpp: the session check, the permission checks, and the handlers that change one
-- article. The tables share a connector; the time is an argument.
pub mod Permissions
pub mod Access
pub mod Values
pub mod Pages
pub mod Text
pub mod Act
pub mod Login
pub mod Saving
pub mod Shown
pub mod Listing
pub mod Dashboard
pub mod Setup
pub mod Upload
use cdragon.Prelude.{
  ℕ, Bool, true, false, Option, none, some, List, [], ◌∷◌, Bytes, codes, equal, if◌then◌else◌,
}
use cdragon.Prelude.Assoc.{find}
use cdragon.Prelude.Numerals.{ℤ, stoi}
use cdragon.Prelude.Result.{Result, ok, throws, out_of_range, ◌>>=◌}
use cdragon.Http.Request.{HttpRequest}
use cdragon.Http.Response.{HttpResponse, set_status, add_header}
use cdragon.Session.{SessionRepository, is_session_valid, extend_session_time}
use cdragon.Database.{Connector, Operation, run}
use cdragon.Models.Role.{RoleRecord}
use cdragon.Models.Roles
use cdragon.Models.UserRoles
use cdragon.Models.Articles

-- A query, which leaves the database as it is.
unfoldable pub ask : {D S A : Type 0} → Connector D S → Operation A → D → Result A
ask c op d = run c op d >>= λ answer. ok answer.0

module _ {D S : Type 0} (c : Connector D S) (d : D) where
  unfoldable pub role_of : ℤ → Result RoleRecord
  unfolding ask
  role_of role_id = ask c (Roles.get_record_by_id role_id) d

  -- The loop over the roles of a user.
  unfoldable pub any_role : (RoleRecord → Bool) → List ℤ → Result Bool
  any_role test [] = ok false
  any_role test (id ∷ ids) =
      role_of id >>= λ role. let rest = any_role test ids in if test role then ok true else rest

  -- catch (const exception &) { return false; }
  abbrev pub or_false : Result Bool → Bool
  or_false (ok b) = b
  or_false (throws e) = false

  -- The body that the permission checks share; a user without roles runs through no round.
  unfoldable pub permitted : (RoleRecord → Bool) → ℤ → Bool
  unfolding ask
  permitted test user_id =
      or_false (ask c (UserRoles.get_role_ids_by_user_id user_id) d >>= any_role test)

  abbrev pub can_user_create_articles : ℤ → Bool
  can_user_create_articles = permitted λ role. role.can_create_articles

  abbrev pub can_user_edit_articles : ℤ → Bool
  can_user_edit_articles = permitted λ role. role.can_edit_articles

  abbrev pub can_user_delete_articles : ℤ → Bool
  can_user_delete_articles = permitted λ role. role.can_delete_articles

  abbrev pub can_user_archive_articles : ℤ → Bool
  can_user_archive_articles = permitted λ role. role.can_archive_articles

  abbrev pub can_user_restor_articles : ℤ → Bool
  can_user_restor_articles = permitted λ role. role.can_restore_articles

  abbrev pub is_user_admin : ℤ → Bool
  is_user_admin = permitted λ role. equal role.name (codes "Admin")

checked_session : ℕ → Bytes → ℕ → Bool × SessionRepository → Bool × SessionRepository
checked_session ticks id now (false, r) = (false, r)
checked_session ticks id now (true, r) = (true, extend_session_time id now r)

with_cookie : ℕ → ℕ → Option Bytes → SessionRepository → Bool × SessionRepository
unfolding checked_session
with_cookie ticks now none r = (false, r)
with_cookie ticks now (some id) r = checked_session ticks id now (is_session_valid ticks id now r)

unfoldable pub is_session_ok :
    {J : Type 0} → ℕ → ℕ → HttpRequest J → SessionRepository → Bool × SessionRepository
unfolding with_cookie
is_session_ok ticks now request r =
    with_cookie ticks now (find (codes "session_id") request.cookies) r

unfoldable pub redirect_to_login : HttpResponse → HttpResponse
unfolding set_status add_header
redirect_to_login response =
    add_header (codes "Location") (codes "/admin/login_page") (set_status 303 response)

-- req.getPathParams().at(0)
abbrev pub first_param : List Bytes → Result Bytes
first_param [] = throws out_of_range
first_param (p ∷ ps) = ok p

-- The end of the try block, and its catch.
unfoldable pub finished :
    {D : Type 0}
    → HttpResponse
    → SessionRepository
    → D
    → Result (Bool × D)
    → HttpResponse × SessionRepository × D
unfolding set_status
finished response r d (throws e) = (set_status 500 response, r, d)
finished response r d (ok (false, d')) = (set_status 500 response, r, d')
finished response r d (ok (true, d')) = (set_status 200 response, r, d')

module _ {J D S : Type 0} (c : Connector D S) (ticks now : ℕ) where
  unfoldable pub with_session :
      (ℤ → Operation Bool)
      → HttpRequest J
      → HttpResponse
      → D
      → Bool × SessionRepository
      → HttpResponse × SessionRepository × D
  unfolding finished redirect_to_login
  with_session op request response d (false, r) = (redirect_to_login response, r, d)
  with_session op request response d (true, r) =
      finished response r d
        (first_param request.path_params >>= stoi >>= λ article_id. run c (op article_id) d)

  -- The handler that the three routes share but for the method of the table.
  unfoldable pub article_handler :
      (ℤ → Operation Bool)
      → HttpRequest J
      → HttpResponse
      → SessionRepository
      → D
      → HttpResponse × SessionRepository × D
  unfolding with_session is_session_ok
  article_handler op request response r d =
      with_session op request response d (is_session_ok ticks now request r)

  abbrev pub publish_handler :
      HttpRequest J → HttpResponse → SessionRepository → D → HttpResponse × SessionRepository × D
  publish_handler = article_handler Articles.publish

  abbrev pub delete_handler :
      HttpRequest J → HttpResponse → SessionRepository → D → HttpResponse × SessionRepository × D
  delete_handler = article_handler Articles.remove

  abbrev pub archive_handler :
      HttpRequest J → HttpResponse → SessionRepository → D → HttpResponse × SessionRepository × D
  archive_handler = article_handler Articles.archive
