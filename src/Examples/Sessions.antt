-- ===== src/Examples/Sessions.antt =====
-- Sessions under a clock of one tick per second.
use cdragon.Prelude.{
  ℕ, ◌≡◌, refl, true, false, none, List, [], ◌∷◌, Bytes, codes, arith, equal, if◌then◌else◌, some,
}
use cdragon.Prelude.Assoc.{find, insert, or_else}
use cdragon.Prelude.Numerals.{pos}
use cdragon.Session.{
  SessionRepository, new_repository, generate_session_id, create_session_id, is_session_valid,
}
use cdragon.Session.Lifetime.{
  view, session, view-is_session_valid, view-create_session_id, is_alive,
}
use cdragon.Session.History.{extend, run, lifetime, expired_for_good}
use cdragon.Http.Request.{HttpRequest, new_request}
use cdragon.Routes.Access.{visits, visits-IsActive}
use cdragon.Session.Ids.{generate_session_id_injective}

abbrev draws : List ℕ
draws = 1 ∷ 10 ∷ []

abbrev other : List ℕ
other = 2 ∷ []

abbrev id : Bytes
id = codes "1a"

lifetime_example :
    (is_session_valid 1 id 1810 (
      run 1
        (extend (codes "2") 50 ∷ [])
        (create_session_id draws 10 (codes "7") new_repository).1)).0
    ≡ false
unfolding generate_session_id find
lifetime_example =
    lifetime 1 draws 10 1810 (codes "7") (extend (codes "2") 50 ∷ []) new_repository refl
      (ground arith, tt)

abbrev old : SessionRepository
old = (create_session_id draws 10 (codes "7") new_repository).1

expired_for_good_example :
    (is_session_valid 1 id 11 (run 1 (extend id 12 ∷ []) (is_session_valid 1 id 1900 old).1)).0
    ≡ false
unfolding generate_session_id is_session_valid create_session_id find insert equal
expired_for_good_example = expired_for_good 1 id 1900 11 (extend id 12 ∷ []) old refl (tt, tt)

view-is_session_valid_example :
    let (valid, r') = is_session_valid 1 id 60 old in
    (valid ≡ is_alive 1 60 (pos 1800) (view old id))
    × (view r' id ≡ (if equal id id then (if valid then view old id else none) else view old id))
    × (r'.session_ttl ≡ pos 1800)
unfolding create_session_id
view-is_session_valid_example = view-is_session_valid 1 id 60 old id

view-create_session_id_example :
    let (made, r') = create_session_id other 20 (codes "8") old in
    (made ≡ generate_session_id other)
    × (view r' id
        ≡ or_else
            (view old id)
            (if equal (generate_session_id other) id then some (session (codes "8") 20) else none))
    × (r'.session_ttl ≡ old.session_ttl)
view-create_session_id_example = view-create_session_id other 20 (codes "8") old id

generate_session_id_injective_example : draws ≡ draws
generate_session_id_injective_example =
    generate_session_id_injective draws draws (omega arith, (omega arith, tt))
      (omega arith, (omega arith, tt)) refl

abbrev request : HttpRequest ℕ
request = record (new_request 0 [] []) { cookies = (codes "session_id", id) ∷ [] }

visits-IsActive_example : visits 1 request (1700 ∷ 3400 ∷ 5100 ∷ []) old ≡ true
unfolding create_session_id generate_session_id find insert equal
visits-IsActive_example =
    visits-IsActive 1 request id (1700 ∷ 3400 ∷ 5100 ∷ []) old (session (codes "7") 10) refl refl
      (refl, (refl, (refl, tt)))
