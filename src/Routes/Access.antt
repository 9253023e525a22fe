-- ===== src/Routes/Access.antt =====
-- src/router/routes.cpp: sessions that are used, and handlers that ask for one.
use cdragon.Prelude.{
  ℕ, ◌≡◌, refl, ◌∙◌, Bool, true, false, ◌&&◌, ◌⊎◌, inl, inr, some, List, [], ◌∷◌, Bytes, codes,
  equal_refl,
}
use cdragon.Prelude.Assoc.{find}
use cdragon.Prelude.Numerals.{ℤ, stoi}
use cdragon.Prelude.Result.{Result, ok, throws, ◌>>=◌, >>=-eq-ok}
use cdragon.Http.Request.{HttpRequest}
use cdragon.Http.Response.{HttpResponse}
use cdragon.Session.{
  Session, SessionRepository, int_lt, seconds_between, is_session_valid, extend_session_time,
}
use cdragon.Session.Lifetime.{view, view-extend_session_time}
use cdragon.Database.{Connector, Operation, run}
use cdragon.Routes.{is_session_ok, article_handler, with_session, finished, first_param}

finished-changes :
    {D : Type 0} (response : HttpResponse) (r : SessionRepository) (d : D) (m : Result (Bool × D))
    → ((finished response r d m).2 ≡ d) ⊎ ((b : Bool) × (m ≡ ok (b, (finished response r d m).2)))
unfolding finished
finished-changes response r d (throws e) = inl refl
finished-changes response r d (ok (false, d')) = inr (false, refl)
finished-changes response r d (ok (true, d')) = inr (true, refl)

with_session-changes :
    {J D S : Type 0} (c : Connector D S) (ticks now : ℕ) (op : ℤ → Operation Bool)
    (request : HttpRequest J) (response : HttpResponse) (d : D) (checked : Bool × SessionRepository)
    → let d' = (with_session c ticks now op request response d checked).2 in
      (d' ≡ d) ⊎ ((checked.0 ≡ true) × ((id : ℤ) × (b : Bool) × (run c (op id) d ≡ ok (b, d'))))
unfolding with_session
with_session-changes c ticks now op request response d (false, r) = inl refl
with_session-changes c ticks now op request response d (true, r) =
    elim (finished-changes response r d
      (first_param request.path_params >>= stoi >>= λ id. run c (op id) d)) [
        | inl same ↦ inl same
        | inr (b, e) ↦
            let (id, read, ran) =
              >>=-eq-ok (first_param request.path_params >>= stoi) (λ i. run c (op i) d) e in
            inr (refl, (id, b, ran))
      ]

-- Either the database is as it was, or the request had a valid session and the database is what the
-- method left of it.
pub article_handler-changes :
    {J D S : Type 0} (c : Connector D S) (ticks now : ℕ) (op : ℤ → Operation Bool)
    (request : HttpRequest J) (response : HttpResponse) (r : SessionRepository) (d : D)
    → let (_, _, d') = article_handler c ticks now op request response r d in
      (d' ≡ d)
      ⊎ (((is_session_ok ticks now request r).0 ≡ true)
          × ((id : ℤ) × (b : Bool) × (run c (op id) d ≡ ok (b, d'))))
unfolding article_handler
article_handler-changes c ticks now op request response r d =
    with_session-changes c ticks now op request response d (is_session_ok ticks now request r)

-- The outcomes of the check at one time after the other.
unfoldable pub visits : {J : Type 0} → ℕ → HttpRequest J → List ℕ → SessionRepository → Bool
visits ticks request [] r = true
visits ticks request (now ∷ later) r =
    let (passed, r') = is_session_ok ticks now request r in passed && visits ticks request later r'

-- Each time is within the time to live of the one before.
abbrev pub IsActive : ℕ → ℤ → ℕ → List ℕ → Type 0
IsActive ticks ttl last [] = Unit
IsActive ticks ttl last (now ∷ later) =
    (int_lt (seconds_between ticks now last) ttl ≡ true) × IsActive ticks ttl now later

stays :
    (ticks : ℕ) (id : Bytes) (now : ℕ) (r : SessionRepository) (s : Session)
    → view r id ≡ some s
    → int_lt (seconds_between ticks now s.creation_time) r.session_ttl ≡ true
    → is_session_valid ticks id now r ≡ (true, r)
unfolding is_session_valid
stays ticks id now r s there soon = rw (there) (rw (soon) refl)

renewed_there :
    (id : Bytes) (now : ℕ) (r : SessionRepository) (s : Session)
    → view r id ≡ some s
    → view (extend_session_time id now r) id ≡ some (record s { creation_time = now })
renewed_there id now r s there =
    (view-extend_session_time id now r id).0 ∙ rw (equal_refl id) (rw (there) refl)

renewed_there-IsActive :
    (id : Bytes) (now : ℕ) (r : SessionRepository) (s : Session) (ticks : ℕ) (later : List ℕ)
    → view r id ≡ some s
    → IsActive ticks r.session_ttl now later
    → IsActive ticks (extend_session_time id now r).session_ttl now later
renewed_there-IsActive id now r s ticks later there active =
    rw ((view-extend_session_time id now r id).1) active

-- A session that is used again before its time to live is over passes every check, however long
-- it has been there.
pub visits-IsActive :
    {J : Type 0} (ticks : ℕ) (request : HttpRequest J) (id : Bytes) (times : List ℕ)
    (r : SessionRepository) (s : Session)
    → find (codes "session_id") request.cookies ≡ some id
    → view r id ≡ some s
    → IsActive ticks r.session_ttl s.creation_time times
    → visits ticks request times r ≡ true
unfolding visits is_session_ok
visits-IsActive ticks request id [] r s cookie there active = refl
visits-IsActive ticks request id (now ∷ later) r s cookie there (soon, active) = rw (cookie) (
    rw (stays ticks id now r s there soon) (
      visits-IsActive ticks request id later (extend_session_time id now r)
        (record s { creation_time = now }) cookie (renewed_there id now r s there)
        (renewed_there-IsActive id now r s ticks later there active)))
