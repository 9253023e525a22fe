-- ===== src/Routes/Login/Entry.antt =====
-- src/router/routes.cpp: who gets a session.
use cdragon.Prelude.{◌≡◌, refl, sym, subst, ◌⊎◌, inl, inr, true, Bytes, codes, Bool-cases}
use cdragon.Prelude.Numerals.{int_to_string}
use cdragon.Prelude.Result.{ok, Exception, Result-cases, is_runtime_error}
use cdragon.Http.Request.{HttpRequest}
use cdragon.Session.{create_session_id}
use cdragon.Database.{run}
use cdragon.Models.User.{UserRecord}
use cdragon.Models.Users
use cdragon.Routes.{is_user_admin}
use cdragon.Routes.Act.{World, Outcome, done, thrown, Env, redirect, sql, or_return_runtime}
use cdragon.Routes.Act.Steps.{or_return_runtime_lem, sql_ok, sql_throws}
use cdragon.Routes.Login.{login_handler, credentials, text_at, admit, enter, new_session, is_admin}

-- The sessions are as they were, and the answer is the log-in page, if there is one.
abbrev pub IsRefused : {D : Type 0} → World D → Outcome Unit × World D → Type 0
IsRefused w (o, w') =
    (w'.sessions ≡ w.sessions)
    × ((w'.response ≡ (redirect (codes "/admin/login_page") w).1.response)
        ⊎ ((e : Exception) × (o ≡ thrown e)))

module _ {J D S : Type 0} (env : Env J D S) where
  -- A text of the request's JSON.
  abbrev pub HasText : J → Bytes → Bytes → Type 0
  HasText json key s = (v : J) × (env.values.at key json ≡ ok v) × (env.values.get_string v ≡ ok s)

  -- An administrator whose password the request gives.
  pub record Admitted (request : HttpRequest J) (w : World D) : Type 0 where
    pub username : Bytes
    pub password : Bytes
    pub user : UserRecord
    pub after : D
    pub has_username : HasText request.json_data (codes "username") username
    pub has_password : HasText request.json_data (codes "password") password
    pub is_stored :
        run env.connector (Users.get_record_by_username username) w.database ≡ ok (user, after)
    pub is_valid : env.validate_password password user.password_hash ≡ true
    pub is_administrator : is_user_admin env.connector after user.user_id ≡ true

  unfoldable pub IsEntered : HttpRequest J → World D → Outcome Unit × World D → Type 0
  IsEntered request w (o, w') =
      (a : Admitted request w) × (w'.sessions
        ≡ (create_session_id env.draws env.now (int_to_string a.user.user_id) w.sessions).1)

  text_at-cases :
      (json : J) (key : Bytes) (w : World D)
      → ((s : Bytes) × (text_at env json key w ≡ (done s, w)) × HasText json key s)
        ⊎ ((e : Exception) × (text_at env json key w ≡ (thrown e, w)))
  unfolding text_at
  text_at-cases json key w = elim (Result-cases (env.values.at key json)) [
    | inr (e, fails) ↦ inr (e, rw (fails) refl)
    | inl (v, there) ↦ elim (Result-cases (env.values.get_string v)) [
      | inr (e, fails) ↦ inr (e, rw (there) (rw (fails) refl))
      | inl (s, read) ↦ inl (s, rw (there) (rw (read) refl), (v, there, read))
    ]
  ]

  credentials-cases :
      (request : HttpRequest J) (w : World D)
      → ((username password : Bytes) × (credentials env request w ≡ (done (username, password), w))
          × HasText request.json_data (codes "username") username
          × HasText request.json_data (codes "password") password)
        ⊎ ((e : Exception) × (credentials env request w ≡ (thrown e, w)))
  unfolding credentials
  credentials-cases request w = elim (text_at-cases request.json_data (codes "username") w) [
    | inr (e, fails) ↦ inr (e, rw (fails) refl)
    | inl (username, read_name, has_name) ↦
        elim (text_at-cases request.json_data (codes "password") w) [
          | inr (e, fails) ↦ inr (e, rw (read_name) (rw (fails) refl))
          | inl (password, read_password, has_password) ↦
              inl (
                username,
                password,
                rw (read_name) (rw (read_password) refl),
                has_name,
                has_password,
              )
        ]
  ]

  admit-cases :
      (password : Bytes) (user : UserRecord) (w : World D)
      → (IsRefused w (admit env password user w))
        ⊎ ((env.validate_password password user.password_hash ≡ true)
            × (is_user_admin env.connector w.database user.user_id ≡ true)
            × ((admit env password user w).1.sessions
                ≡ (create_session_id env.draws env.now (int_to_string user.user_id) w.sessions).1))
  unfolding admit is_admin enter new_session redirect
  admit-cases password user w =
      elim (Bool-cases (env.validate_password password user.password_hash)) [
        | inr wrong ↦ rw (wrong) (inl (refl, inl refl))
        | inl right ↦ elim (Bool-cases (is_user_admin env.connector w.database user.user_id)) [
          | inr other ↦ rw (right) (rw (other) (inl (refl, inl refl)))
          | inl administrator ↦ rw (right) (rw (administrator) (inr (refl, refl, refl)))
        ]
      ]

  abbrev Claim : HttpRequest J → World D → Outcome Unit × World D → Type 0
  Claim request w x = IsRefused w x ⊎ IsEntered request w x

  look_up :
      (request : HttpRequest J) (w : World D) (username password : Bytes)
      → HasText request.json_data (codes "username") username
      → HasText request.json_data (codes "password") password
      → Claim request w (
          or_return_runtime
            (sql env (Users.get_record_by_username username))
            (redirect (codes "/admin/login_page"))
            (admit env password)
            w)
  unfolding IsEntered redirect
  look_up request w username password has_name has_password =
      let op = Users.get_record_by_username username in
      let back = redirect (codes "/admin/login_page") in
      elim (Result-cases (run env.connector op w.database)) [
        | inr (e, unknown) ↦
            subst (Claim request w)
              (sym (
                or_return_runtime_lem (sql env op) back (admit env password) w
                  (sql_throws env op w unknown)))
              (elim (Bool-cases (is_runtime_error e)) [
                | inl returns ↦ rw (returns) (inl (refl, inl refl))
                | inr leaves ↦ rw (leaves) (inl (refl, inr (e, refl)))
              ])
        | inl ((user, after), stored) ↦
            subst (Claim request w)
              (sym (
                or_return_runtime_lem (sql env op) back (admit env password) w
                  (sql_ok env op w stored)))
              (elim (admit-cases password user (record w { database = after })) [
                | inl refused ↦ inl refused
                | inr (right, administrator, created) ↦ inr (
                  record {
                    username = username;
                    password = password;
                    user = user;
                    after = after;
                    has_username = has_name;
                    has_password = has_password;
                    is_stored = stored;
                    is_valid = right;
                    is_administrator = administrator;
                  },
                  created,
                )
              ])
      ]

  -- Whatever the request, either the sessions are as they were, and the answer leads back to the
  -- log-in page unless an exception leaves the handler, or a session was created for a user that the
  -- request names, whose password it gives and who has the role of an administrator.
  pub login_handler-entry :
      (request : HttpRequest J) (w : World D)
      → IsRefused w (login_handler env request w)
        ⊎ IsEntered request w (login_handler env request w)
  unfolding login_handler redirect
  login_handler-entry request w = elim (credentials-cases request w) [
    | inr (e, fails) ↦ rw (fails) (inl (refl, inl refl))
    | inl (username, password, read, has_name, has_password) ↦
        rw (read) (look_up request w username password has_name has_password)
  ]
