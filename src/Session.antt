-- ===== src/Session.antt =====
-- include/session_repository.h. `system_clock` and `random_device` enter as arguments: the time in
-- ticks, of which `ticks` make a second, and the sixteen draws of `dis(gen)`.
pub mod Lifetime
pub mod History
pub mod Ids
use cdragon.Prelude.{
  ℕ, ◌+◌, ◌-◌, ◌/◌, Bool, true, false, Option, none, some, List, [], ◌∷◌, Bytes, leb, ltb, map,
  if◌then◌else◌,
}
use cdragon.Prelude.Assoc.{Assoc, find, insert, assign, erase}
use cdragon.Prelude.Numerals.{ℤ, pos, negsuc}
use cdragon.Prelude.Result.{Result, ok, throws, runtime_error}

pub record Session : Type 0 where
  pub user_data : Bytes
  pub creation_time : ℕ

pub record SessionRepository : Type 0 where
  pub sessions : Assoc Session
  pub session_ttl : ℤ

abbrev pub new_repository : SessionRepository
new_repository = record { sessions = []; session_ttl = pos 1800 }

-- `<` on integers
abbrev pub int_lt : ℤ → ℤ → Bool
int_lt (pos a) (pos b) = ltb a b
int_lt (pos a) (negsuc b) = false
int_lt (negsuc a) (pos b) = true
int_lt (negsuc a) (negsuc b) = ltb b a

abbrev pub negate : ℕ → ℤ
negate n = if leb n 0 then pos 0 else negsuc (n - 1)

-- One hexadecimal digit.
abbrev pub hex_digit : ℕ → ℕ
hex_digit d = if ltb d 10 then 48 + d else 87 + d

-- The draws, printed in hexadecimal one after the other.
unfoldable pub generate_session_id : List ℕ → Bytes
generate_session_id draws = map hex_digit draws

unfoldable pub create_session_id :
    List ℕ → ℕ → Bytes → SessionRepository → Bytes × SessionRepository
create_session_id draws now user_data r =
    let id = generate_session_id draws in
    (
      id,
      record r {
        sessions = insert id (record { user_data = user_data; creation_time = now }) r.sessions;
      },
    )

unfoldable pub set_session_ttl : ℤ → SessionRepository → SessionRepository
set_session_ttl ttl r = record r { session_ttl = ttl }

-- it->second.creationTime = now
extend_found : Bytes → ℕ → Option Session → SessionRepository → SessionRepository
extend_found id now none r = r
extend_found id now (some s) r = record r {
  sessions = assign id (record s { creation_time = now }) r.sessions;
}

unfoldable pub extend_session_time : Bytes → ℕ → SessionRepository → SessionRepository
unfolding extend_found
extend_session_time id now r = extend_found id now (find id r.sessions) r

found_session : Option Session → Result Session
found_session none = throws (runtime_error "no such session_id")
found_session (some s) = ok s

unfoldable pub get_session_data : Bytes → SessionRepository → Result Session
unfolding found_session
get_session_data id r = found_session (find id r.sessions)

module _ (ticks : ℕ) where
  -- duration_cast<seconds>(now - then).count(), which rounds towards 0
  abbrev pub seconds_between : ℕ → ℕ → ℤ
  seconds_between now then' =
      if leb then' now then pos ((now - then') / ticks) else negate ((then' - now) / ticks)

  valid_found : Bytes → ℕ → Option Session → SessionRepository → Bool × SessionRepository
  valid_found id now none r = (false, r)
  valid_found id now (some s) r =
      if int_lt (seconds_between now s.creation_time) r.session_ttl
      then (true, r)
      else (false, record r { sessions = erase id r.sessions })

  unfoldable pub is_session_valid : Bytes → ℕ → SessionRepository → Bool × SessionRepository
  unfolding valid_found
  is_session_valid id now r = valid_found id now (find id r.sessions) r
