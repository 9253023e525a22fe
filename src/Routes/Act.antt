-- ===== src/Routes/Act.antt =====
-- src/router/routes.cpp: what a handler works on, and the steps that the handlers are made of. A
-- handler changes the response, the sessions, the database and the files; what it has changed before
-- an exception stays.
pub mod Steps
use cdragon.Prelude.{
  ℕ, zero, suc, Bool, true, false, Option, none, some, List, [], ◌∷◌, ◌++◌, Bytes, codes, is_empty,
  if◌then◌else◌,
}
use cdragon.Prelude.Assoc.{Assoc, find, insert, assign}
use cdragon.Prelude.Numerals.{ℤ, stoi}
use cdragon.Prelude.Result.{Result, ok, throws, Exception, is_runtime_error, out_of_range}
use cdragon.Http.Request.{HttpRequest}
use cdragon.Http.Response.{HttpResponse, set_status, add_header, set_body}
use cdragon.Session.{SessionRepository, get_session_data}
use cdragon.Database.{Connector, Operation, run}
use cdragon.Models.Article.{ArticleRecord}
use cdragon.Template.{render}
use cdragon.Routes.{is_session_ok}
use cdragon.Routes.Values.{Values}

pub record World (D : Type 0) : Type 0 where
  pub response : HttpResponse
  pub sessions : SessionRepository
  pub database : D
  pub files : Assoc Bytes

-- `endless` is a handler that never returns, since it renders a template that never ends.
pub data Outcome (A : Type 0) : Type 0 where
  done : A → Outcome A
  thrown : Exception → Outcome A
  endless : Outcome A

abbrev pub Act : Type 0 → Type 0 → Type 0
Act D A = World D → Outcome A × World D

abbrev pub goes_on : {D A B : Type 0} → (A → Act D B) → Outcome A × World D → Outcome B × World D
goes_on f (done a, w) = f a w
goes_on f (thrown e, w) = (thrown e, w)
goes_on f (endless, w) = (endless, w)

infixl 5 ◌>>=◌ ◌>>◌
abbrev pub ◌>>=◌ : {D A B : Type 0} → Act D A → (A → Act D B) → Act D B
◌>>=◌ m f w = goes_on f (m w)

abbrev pub ◌>>◌ : {D A B : Type 0} → Act D A → Act D B → Act D B
m >> n = m >>= λ _. n

-- What is behind the server: the libraries that it calls, the clock, and the random draws of a
-- request.
pub record Env (J D S : Type 0) : Type 0 where
  pub connector : Connector D S
  pub values : Values J
  -- bcrypt::validatePassword and base64_decode
  pub validate_password : Bytes → Bytes → Bool
  pub base64_decode : Bytes → Result Bytes
  -- whether a file of that path can be opened for writing
  pub can_open : Bytes → Bool
  -- an article record whose fields are not initialised
  pub blank : ArticleRecord J
  pub ticks : ℕ
  pub now : ℕ
  -- `strftime` of the time
  pub now_text : Bytes
  pub draws : List ℕ
  -- the rounds that a template is given
  pub rounds : ℕ
  -- the entries of an unordered map in the order in which it is iterated
  pub iteration : Assoc (List Bytes) → Assoc (List Bytes)

-- One step of a loop after the other.
unfoldable pub for_each : {D A : Type 0} → (A → Act D Unit) → List A → Act D Unit
for_each f [] w = (done tt, w)
for_each f (x ∷ xs) w = (f x >>= λ _. for_each f xs) w

-- A loop that collects.
unfoldable pub collect : {D A B : Type 0} → (A → Act D B) → List A → Act D (List B)
collect f [] w = (done [], w)
collect f (x ∷ xs) w = (f x >>= λ y. collect f xs >>= λ ys v. (done (y ∷ ys), v)) w

-- The file of that path is written anew.
unfoldable pub written : Bytes → Bytes → Assoc Bytes → Assoc Bytes
unfolding find insert assign
written path content files = elim (find path files) [
  | none ↦ insert path content files
  | some old ↦ assign path content files
]

module _ {D : Type 0} where
  abbrev pub pure : {A : Type 0} → A → Act D A
  pure a w = (done a, w)

  abbrev pub lift : {A : Type 0} → Result A → Act D A
  lift (ok a) w = (done a, w)
  lift (throws e) w = (thrown e, w)

  abbrev pub recovered :
      {A : Type 0} → (Exception → Act D A) → Outcome A × World D → Outcome A × World D
  recovered handler (done a, w) = (done a, w)
  recovered handler (thrown e, w) = handler e w
  recovered handler (endless, w) = (endless, w)

  -- try { … } catch (const exception &) { … }
  abbrev pub caught : {A : Type 0} → Act D A → Act D A → Act D A
  caught m handler w = recovered (λ e. handler) (m w)

  -- try { … } catch (const runtime_error &) { … }
  abbrev pub caught_runtime : {A : Type 0} → Act D A → Act D A → Act D A
  caught_runtime m handler w =
      recovered (λ e v. if is_runtime_error e then handler v else (thrown e, v)) (m w)

  abbrev pub goes_on_with : {A : Type 0} → (A → Act D Unit) → Option A → Act D Unit
  goes_on_with k none = pure tt
  goes_on_with k (some a) = k a

  -- The same, with a handler that returns from the function.
  abbrev pub or_return : {A : Type 0} → Act D A → Act D Unit → (A → Act D Unit) → Act D Unit
  or_return m handler k =
      caught (m >>= λ a. pure (some a)) (handler >> pure none) >>= goes_on_with k

  abbrev pub or_return_runtime : {A : Type 0} → Act D A → Act D Unit → (A → Act D Unit) → Act D Unit
  or_return_runtime m handler k =
      caught_runtime (m >>= λ a. pure (some a)) (handler >> pure none) >>= goes_on_with k

  abbrev pub respond : (HttpResponse → HttpResponse) → Act D Unit
  respond f w = (done tt, record w { response = f w.response })

  -- res.setStatus(303); res.addHeader("Location", …)
  unfoldable pub redirect : Bytes → Act D Unit
  unfolding set_status add_header
  redirect location = respond λ r. add_header (codes "Location") location (set_status 303 r)

  abbrev pub status : ℕ → Act D Unit
  unfolding set_status
  status code = respond (set_status code)

  -- res.setStatus(200); res.addHeader("Content-Type", …); res.setBody(…)
  unfoldable pub answer : Bytes → Bytes → Act D Unit
  unfolding set_status add_header set_body
  answer content_type body =
      respond λ r. set_body body (add_header (codes "Content-Type") content_type (set_status 200 r))

  -- loadFileContent
  unfoldable pub load_file_content : Bytes → Act D Bytes
  unfolding find
  load_file_content path w = (done (elim (find path w.files) [ none ↦ [] | some s ↦ s ]), w)

module _ {D : Type 0} where
  -- req.getCookie().at("session_id")
  unfoldable pub session_cookie : {J : Type 0} → HttpRequest J → Act D Bytes
  unfolding find
  session_cookie request = lift (elim (find (codes "session_id") request.cookies) [
    | none ↦ throws out_of_range
    | some id ↦ ok id
  ])

  -- What follows once the session is there.
  unfoldable pub with_session_data : (ℤ → Act D Unit) → Bytes → Act D Unit
  unfolding redirect stoi
  with_session_data k user_data =
      if is_empty user_data
      then redirect (codes "/admin/login_page")
      else or_return_runtime (lift (stoi user_data)) (redirect (codes "/admin/login_page")) k

  -- sessionRepository.getSessionData(id).userData
  unfoldable pub session_data : Bytes → Act D Bytes
  unfolding get_session_data
  session_data id w = (lift (get_session_data id w.sessions) >>= λ s. pure s.user_data) w

abbrev pub rendered : {D : Type 0} → Option (Result Bytes) → Act D Unit
unfolding set_body
rendered (some (ok body)) w = (done tt, record w { response = set_body body w.response })
rendered (some (throws e)) w = (thrown e, w)
rendered none w = (endless, w)

abbrev pub ran : {D A : Type 0} → World D → Result (A × D) → Outcome A × World D
ran w (ok (a, d)) = (done a, record w { database = d })
ran w (throws e) = (thrown e, w)

module _ {J D S : Type 0} (env : Env J D S) where
  unfoldable pub sql : {A : Type 0} → Operation A → Act D A
  unfolding run
  sql op w = ran w (run env.connector op w.database)

  -- res.setBody(TemplateRenderer::render(path, data)), where the loop over the data of `replaceVariables`
  -- has an order of its own.
  unfoldable pub show_template : Bytes → Assoc (List Bytes) → Act D Unit
  unfolding find render set_body
  show_template path entries w =
      rendered (render env.rounds (find path w.files) (env.iteration entries)) w

  -- isSessionOk(req, res)
  unfoldable pub check_session : HttpRequest J → Act D Bool
  unfolding is_session_ok
  check_session request w =
      let (passed, r) = is_session_ok env.ticks env.now request w.sessions in
      (done passed, record w { sessions = r })

  -- The beginning that the handlers for a logged-in user share.
  unfoldable pub with_user : HttpRequest J → (ℤ → Act D Unit) → Act D Unit
  unfolding check_session session_cookie session_data with_session_data redirect
  with_user request k = check_session request >>= λ passed.
      if passed
      then (session_cookie request >>= session_data >>= with_session_data k)
      else redirect (codes "/admin/login_page")

  -- The beginning of the handlers that ask for a session only.
  unfoldable pub with_login : HttpRequest J → Act D Unit → Act D Unit
  unfolding check_session redirect
  with_login request k =
      check_session request >>= λ passed. if passed then k else redirect (codes "/admin/login_page")
