-- ===== src/Session/Lifetime.antt =====
-- How long a session lives, and that sessions do not touch one another.
use cdragon.Prelude.{
  ℕ, ◌≡◌, refl, Bool, false, Option, none, some, inl, inr, List, arith, Bytes, equal, equal_iff,
  Option-cases, Bool-cases, if◌then◌else◌,
}
use cdragon.Prelude.Assoc.{find, find-insert, find-assign, find-erase, or_else}
use cdragon.Prelude.Numerals.{ℤ}
use cdragon.Prelude.Result.{ok, throws, runtime_error}
use cdragon.Session.{
  Session, SessionRepository, int_lt, seconds_between, generate_session_id, create_session_id,
  extend_session_time, get_session_data, is_session_valid,
}

-- A repository as its clients see it: the session under each id.
abbrev pub view : SessionRepository → Bytes → Option Session
view r id = find id r.sessions

abbrev pub session : Bytes → ℕ → Session
session user_data now = record { user_data = user_data; creation_time = now }

-- A new id holds what was given; an id that is taken keeps what it had. Other ids do not change.
pub view-create_session_id :
    (draws : List ℕ) (now : ℕ) (user_data : Bytes) (r : SessionRepository) (j : Bytes)
    → let id = generate_session_id draws in
      let (made, r') = create_session_id draws now user_data r in
      (made ≡ id)
      × (view r' j ≡ or_else (view r j) (if equal id j then some (session user_data now) else none))
      × (r'.session_ttl ≡ r.session_ttl)
unfolding create_session_id
view-create_session_id draws now user_data r j =
    (refl, find-insert (generate_session_id draws) j (session user_data now) r.sessions, refl)

abbrev pub renewed : ℕ → Option Session → Option Session
renewed now none = none
renewed now (some s) = some (record s { creation_time = now })

-- Extending renews the time of the session, if there is one, and touches no other.
pub view-extend_session_time :
    (id : Bytes) (now : ℕ) (r : SessionRepository) (j : Bytes)
    → (view (extend_session_time id now r) j
        ≡ (if equal id j then renewed now (view r j) else view r j))
      × ((extend_session_time id now r).session_ttl ≡ r.session_ttl)
unfolding extend_session_time
view-extend_session_time id now r j = elim (Option-cases (find id r.sessions)) [
  | inl e ↦ rw (e, extend_session_time) (ground (arith, equal_iff id j), refl)
  | inr (s, e) ↦
      rw (e, extend_session_time)
        (
          ground (
            arith,
            equal_iff id j,
            find-assign id j (record s { creation_time = now }) s r.sessions e,
          ),
          refl,
        )
]

pub get_session_data-view :
    (id : Bytes) (r : SessionRepository)
    → get_session_data id r
      ≡ elim (view r id) [ none ↦ throws (runtime_error "no such session_id") | some s ↦ ok s ]
unfolding get_session_data
get_session_data-view id r = ground arith

module _ (ticks : ℕ) where
  -- A session is alive while fewer whole seconds than its time to live have passed.
  abbrev pub is_alive : ℕ → ℤ → Option Session → Bool
  is_alive now ttl none = false
  is_alive now ttl (some s) = int_lt (seconds_between ticks now s.creation_time) ttl

  -- The check says whether the session is alive, erases a session that is not, and touches no other.
  pub view-is_session_valid :
      (id : Bytes) (now : ℕ) (r : SessionRepository) (j : Bytes)
      → let (valid, r') = is_session_valid ticks id now r in
        (valid ≡ is_alive now r.session_ttl (view r id))
        × (view r' j ≡ (if equal id j then (if valid then view r j else none) else view r j))
        × (r'.session_ttl ≡ r.session_ttl)
  unfolding is_session_valid
  view-is_session_valid id now r j = elim (Option-cases (find id r.sessions)) [
    | inl e ↦ rw (e, is_session_valid) (refl, ground (arith, equal_iff id j), refl)
    | inr (s, e) ↦
        elim (Bool-cases (int_lt (seconds_between ticks now s.creation_time) r.session_ttl)) [
          | inl live ↦ rw (e, is_session_valid) (rw live (refl, ground arith, refl))
          | inr dead ↦ rw (e, is_session_valid) (rw dead (refl, find-erase id j r.sessions, refl))
        ]
  ]
