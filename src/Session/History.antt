-- ===== src/Session/History.antt =====
-- Histories of calls: a session lives by its own calls alone, and a dead one stays dead.
use cdragon.Prelude.{
  ℕ, ◌≡◌, ◌≢◌, refl, ◌∙◌, false, Option, none, some, List, [], ◌∷◌, arith, Bytes, All, equal_iff,
  equal_refl, equal_ne,
}
use cdragon.Prelude.Assoc.{or_else}
use cdragon.Session.{
  SessionRepository, int_lt, seconds_between, generate_session_id, create_session_id,
  extend_session_time, is_session_valid,
}
use cdragon.Session.Lifetime.{
  view, view-create_session_id, view-extend_session_time, view-is_session_valid,
}

or_else-none {ℓ} : {A : Type ℓ} (o : Option A) → or_else o none ≡ o
or_else-none none = refl
or_else-none (some a) = refl

module _ (ticks : ℕ) where
  -- What handlers do to the repository.
  pub data Call : Type 0 where
    create : List ℕ → ℕ → Bytes → Call
    extend : Bytes → ℕ → Call
    check : Bytes → ℕ → Call

  unfoldable pub step : Call → SessionRepository → SessionRepository
  step (create draws now user_data) r = (create_session_id draws now user_data r).1
  step (extend id now) r = extend_session_time id now r
  step (check id now) r = (is_session_valid ticks id now r).1

  unfoldable pub run : List Call → SessionRepository → SessionRepository
  unfolding step
  run [] r = r
  run (c ∷ cs) r = run cs (step c r)

  -- The session that a call is about.
  abbrev pub id_of : Call → Bytes
  id_of (create draws now user_data) = generate_session_id draws
  id_of (extend id now) = id
  id_of (check id now) = id

  step_other :
      (c : Call) (r : SessionRepository) (id : Bytes)
      → id_of c ≢ id
      → (view (step c r) id ≡ view r id) × ((step c r).session_ttl ≡ r.session_ttl)
  unfolding step
  step_other (create draws now user_data) r id ne =
      let (_, seen, ttl) = view-create_session_id draws now user_data r id in
      (seen ∙ (rw (equal_ne (generate_session_id draws) id ne) (or_else-none (view r id))), ttl)
  step_other (extend i now) r id ne =
      let (seen, ttl) = view-extend_session_time i now r id in (seen ∙ (rw (equal_ne i id ne)), ttl)
  step_other (check i now) r id ne =
      let (valid, seen, ttl) = view-is_session_valid ticks i now r id in
      (seen ∙ (rw (equal_ne i id ne)), ttl)

  run_other :
      (cs : List Call) (r : SessionRepository) (id : Bytes)
      → All (λ c. id_of c ≢ id) cs
      → (view (run cs r) id ≡ view r id) × ((run cs r).session_ttl ≡ r.session_ttl)
  unfolding run
  run_other [] r id _ = (refl, refl)
  run_other (c ∷ cs) r id (ne, h) =
      let (seen, ttl) = step_other c r id ne in
      let (later, ttl') = run_other cs (step c r) id h in (later ∙ seen, ttl' ∙ ttl)

  -- A session that is created under a new id passes its check exactly while fewer seconds than the
  -- time to live have passed, whatever is done to other sessions in between.
  pub lifetime :
      (draws : List ℕ) (start now : ℕ) (user_data : Bytes) (cs : List Call) (r : SessionRepository)
      → let id = generate_session_id draws in
        view r id ≡ none
        → All (λ c. id_of c ≢ id) cs
        → (is_session_valid ticks id now (run cs (create_session_id draws start user_data r).1)).0
          ≡ int_lt (seconds_between ticks now start) r.session_ttl
  lifetime draws start now user_data cs r fresh others =
      let id = generate_session_id draws in
      let made = (create_session_id draws start user_data r).1 in
      let (_, seen, ttl) = view-create_session_id draws start user_data r id in
      let (later, ttl') = run_other cs made id others in
      (view-is_session_valid ticks id now (run cs made) id).0
      ∙ rw (later, ttl', ttl, seen, fresh, equal_refl id)

  -- A call that does not create the session.
  abbrev pub IsNoCreation : Bytes → Call → Type 0
  IsNoCreation id (create draws now user_data) = generate_session_id draws ≢ id
  IsNoCreation id (extend i now) = Unit
  IsNoCreation id (check i now) = Unit

  step_absent :
      (c : Call) (r : SessionRepository) (id : Bytes)
      → IsNoCreation id c
      → view r id ≡ none
      → view (step c r) id ≡ none
  unfolding step
  step_absent (create draws now user_data) r id ne e =
      (view-create_session_id draws now user_data r id).1
      ∙ rw (e, equal_ne (generate_session_id draws) id ne)
  step_absent (extend i now) r id ne e =
      (view-extend_session_time i now r id).0 ∙ rw e (ground arith)
  step_absent (check i now) r id ne e =
      let (valid, seen, ttl) = view-is_session_valid ticks i now r id in
      seen ∙ ground (arith, equal_iff i id)

  run_absent :
      (cs : List Call) (r : SessionRepository) (id : Bytes)
      → All (IsNoCreation id) cs
      → view r id ≡ none
      → view (run cs r) id ≡ none
  unfolding run
  run_absent [] r id _ e = e
  run_absent (c ∷ cs) r id (ne, h) e = run_absent cs (step c r) id h (step_absent c r id ne e)

  -- A session that has failed a check fails every later one, unless its id is created again.
  pub expired_for_good :
      (id : Bytes) (now later : ℕ) (cs : List Call) (r : SessionRepository)
      → (is_session_valid ticks id now r).0 ≡ false
      → All (IsNoCreation id) cs
      → (is_session_valid ticks id later (run cs (is_session_valid ticks id now r).1)).0 ≡ false
  expired_for_good id now later cs r failed quiet =
      let r' = (is_session_valid ticks id now r).1 in
      let (_, seen, _) = view-is_session_valid ticks id now r id in
      let gone : view r' id ≡ none = seen ∙ rw (equal_refl id, failed) in
      (view-is_session_valid ticks id later (run cs r') id).0 ∙ rw (run_absent cs r' id quiet gone)
