-- ===== src/Routes/Login.antt =====
-- src/router/routes.cpp: /admin/login_page and /admin/login_handler.
pub mod Entry
use cdragon.Prelude.{Bool, true, false, List, [], ◌∷◌, Bytes, codes, if◌then◌else◌}
use cdragon.Prelude.Numerals.{ℤ, int_to_string}
use cdragon.Prelude.Result.{Result}
use cdragon.Http.Request.{HttpRequest}
use cdragon.Http.Response.{add_header, add_cookie, set_status}
use cdragon.Session.{create_session_id}
use cdragon.Models.User.{UserRecord}
use cdragon.Models.Users
use cdragon.Routes.{is_user_admin}
use cdragon.Routes.Values.{Values}
use cdragon.Routes.Act.{
  World, Act, Env, ◌>>=◌, ◌>>◌, pure, lift, or_return, or_return_runtime, respond, redirect, answer,
  load_file_content, sql, check_session,
}

module _ {J D S : Type 0} (env : Env J D S) where
  unfoldable pub login_page : HttpRequest J → Act D Unit
  unfolding check_session redirect load_file_content answer
  login_page request = check_session env request >>= λ passed.
      if passed
      then redirect (codes "/admin/main_page")
      else load_file_content (codes "./views/admin/login_page/html/index.html")
        >>= answer (codes "text/html; charset=utf-8")

  -- `string s = json.at(key)`
  unfoldable pub text_at : J → Bytes → Act D Bytes
  text_at json key = lift (env.values.at key json) >>= λ v. lift (env.values.get_string v)

  -- isUserAdmin(userId)
  unfoldable pub is_admin : ℤ → Act D Bool
  is_admin id w = pure (is_user_admin env.connector w.database id) w

  -- sessionRepository.createSessionID(userdata)
  unfoldable pub new_session : Bytes → Act D Bytes
  unfolding create_session_id
  new_session user_data w =
      let (id, r) = create_session_id env.draws env.now user_data w.sessions in
      pure id (record w { sessions = r })

  unfoldable pub enter : UserRecord → Act D Unit
  unfolding new_session add_cookie set_status add_header
  enter user = new_session (int_to_string user.user_id) >>= λ id.
      respond (add_cookie (codes "session_id") id)
      >> respond (set_status 302)
      >> respond (add_header (codes "Location") (codes "/admin/main_page"))

  abbrev to_login : Act D Unit
  to_login = redirect (codes "/admin/login_page")

  -- The password and the role.
  unfoldable pub admit : Bytes → UserRecord → Act D Unit
  unfolding is_admin enter redirect
  admit password user =
      if env.validate_password password user.password_hash
      then (is_admin user.user_id >>= λ admin. if admin then enter user else to_login)
      else to_login

  unfoldable pub credentials : HttpRequest J → Act D (Bytes × Bytes)
  unfolding text_at
  credentials request = text_at request.json_data (codes "username") >>= λ username.
      text_at request.json_data (codes "password") >>= λ password. pure (username, password)

  unfoldable pub login_handler : HttpRequest J → Act D Unit
  unfolding credentials redirect sql admit
  login_handler request = or_return (credentials request) to_login λ given.
      or_return_runtime (sql env (Users.get_record_by_username given.0)) to_login (admit given.1)
