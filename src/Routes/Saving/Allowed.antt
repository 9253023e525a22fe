-- ===== src/Routes/Saving/Allowed.antt =====
-- src/router/routes.cpp: who may save an article.
use cdragon.Prelude.{
  ◌≡◌, refl, ◌⊎◌, inl, inr, Bool, true, some, Bytes, codes, Bool-cases, Option-cases, is_empty,
}
use cdragon.Prelude.Assoc.{find}
use cdragon.Prelude.Numerals.{ℤ, stoi}
use cdragon.Prelude.Result.{ok, Result-cases, is_runtime_error}
use cdragon.Http.Request.{HttpRequest}
use cdragon.Session.{Session, get_session_data}
use cdragon.Routes.{is_session_ok, can_user_create_articles}
use cdragon.Routes.Act.{
  World, Outcome, Act, Env, ◌>>=◌, redirect, with_user, with_session_data, session_data,
  session_cookie, check_session,
}
use cdragon.Routes.Saving.{saving_handler, with_right}

abbrev pub IsKept : {D : Type 0} → World D → Outcome Unit × World D → Type 0
IsKept w (o, w') = (w'.database ≡ w.database) × (w'.files ≡ w.files)

module _ {D : Type 0} (may : D → ℤ → Bool) (denied : Bytes) (k : Act D Unit) where
  right-cases :
      (id : ℤ) (w : World D) → IsKept w (with_right may denied k id w) ⊎ (may w.database id ≡ true)
  unfolding with_right redirect
  right-cases id w = elim (Bool-cases (may w.database id)) [
    | inl may_it ↦ inr may_it
    | inr denies ↦ rw (denies) (inl (refl, refl))
  ]

  data-cases :
      (s : Bytes) (w : World D)
      → IsKept w (with_session_data (with_right may denied k) s w)
        ⊎ ((id : ℤ) × (stoi s ≡ ok id) × (may w.database id ≡ true))
  unfolding with_session_data redirect
  data-cases s w = elim (Bool-cases (is_empty s)) [
    | inl lacks ↦ rw (lacks) (inl (refl, refl))
    | inr there ↦ elim (Result-cases (stoi s)) [
      | inl (id, read) ↦ elim (right-cases id w) [
        | inl kept ↦ rw (there) (rw (read) (inl kept))
        | inr may_it ↦ inr (id, read, may_it)
      ]
      | inr (e, fails) ↦ elim (Bool-cases (is_runtime_error e)) [
        | inl returns ↦ rw (there) (rw (fails) (rw (returns) (inl (refl, refl))))
        | inr leaves ↦ rw (there) (rw (fails) (rw (leaves) (inl (refl, refl))))
      ]
    ]
  ]

  session-cases :
      {J : Type 0} (request : HttpRequest J) (w : World D)
      → IsKept w (
          (session_cookie request >>= session_data >>= with_session_data (with_right may denied k))
            w)
        ⊎ ((id : Bytes) × (s : Session) × (user_id : ℤ) × (find (codes "session_id") request.cookies
              ≡ some id)
            × (get_session_data id w.sessions ≡ ok s)
            × (stoi s.user_data ≡ ok user_id)
            × (may w.database user_id ≡ true))
  unfolding session_cookie session_data
  session-cases request w = elim (Option-cases (find (codes "session_id") request.cookies)) [
    | inl lacks ↦ rw (lacks) (inl (refl, refl))
    | inr (id, cookie) ↦ elim (Result-cases (get_session_data id w.sessions)) [
      | inr (e, lost) ↦ rw (cookie) (rw (lost) (inl (refl, refl)))
      | inl (s, there) ↦ elim (data-cases s.user_data w) [
        | inl kept ↦ rw (cookie) (rw (there) (inl kept))
        | inr (user_id, read, right) ↦ inr (id, s, user_id, cookie, there, read, right)
      ]
    ]
  ]

module _ {J D S : Type 0} (env : Env J D S) where
  -- The request has a valid session, of a user with a right.
  pub record IsAllowed (may : D → ℤ → Bool) (request : HttpRequest J) (w : World D) : Type 0 where
    pub session_id : Bytes
    pub session : Session
    pub user_id : ℤ
    pub has_cookie : find (codes "session_id") request.cookies ≡ some session_id
    pub has_session : (is_session_ok env.ticks env.now request w.sessions).0 ≡ true
    pub has_data :
        get_session_data session_id (is_session_ok env.ticks env.now request w.sessions).1
        ≡ ok session
    pub has_user : stoi session.user_data ≡ ok user_id
    pub has_right : may w.database user_id ≡ true

  -- Behind the beginning that asks for a user and a right.
  allowed :
      (may : D → ℤ → Bool) (denied : Bytes) (k : Act D Unit) (request : HttpRequest J) (w : World D)
      → IsKept w (with_user env request (with_right may denied k) w) ⊎ IsAllowed may request w
  unfolding with_user check_session redirect
  allowed may denied k request w =
      let r = (is_session_ok env.ticks env.now request w.sessions).1 in
      elim (Bool-cases (is_session_ok env.ticks env.now request w.sessions).0) [
        | inr refused ↦ rw (refused) (inl (refl, refl))
        | inl passed ↦ elim (session-cases may denied k request (record w { sessions = r })) [
          | inl kept ↦ rw (passed) (inl kept)
          | inr (id, s, user_id, cookie, there, read, right) ↦ inr record {
            session_id = id;
            session = s;
            user_id = user_id;
            has_cookie = cookie;
            has_session = passed;
            has_data = there;
            has_user = read;
            has_right = right;
          }
        ]
      ]

  -- Whether the creator or the editor saves: either the database and the files are as they were, or
  -- the request has a valid session of a user who may create articles.
  pub saving_handler-IsAllowed :
      (save : J → Act D Unit) (request : HttpRequest J) (w : World D)
      → IsKept w (saving_handler env save request w)
        ⊎ IsAllowed (λ d. can_user_create_articles env.connector d) request w
  unfolding saving_handler
  saving_handler-IsAllowed save request w = allowed _ _ _ request w
