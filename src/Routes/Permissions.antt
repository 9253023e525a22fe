-- ===== src/Routes/Permissions.antt =====
-- src/router/routes.cpp: who may do what.
use cdragon.Prelude.{◌≡◌, ◌↔◌, refl, Bool, true, false, List, [], ◌∷◌, arith, inl, inr, Bool-cases}
use cdragon.Prelude.Numerals.{ℤ}
use cdragon.Prelude.Result.{Result, ok, throws, >>=-eq-ok}
use cdragon.Database.{Connector}
use cdragon.Models.Role.{RoleRecord}
use cdragon.Models.UserRoles
use cdragon.Routes.{ask, role_of, any_role, permitted, or_false}

-- A role that passes the test, before which every role is found and fails it.
pub data Grants {D S : Type 0} (c : Connector D S) (d : D) (test : RoleRecord → Bool)
    : List ℤ → Type 0 where
  here :
      (id : ℤ) (ids : List ℤ) (role : RoleRecord)
      → role_of c d id ≡ ok role
      → test role ≡ true
      → Grants c d test (id ∷ ids)
  later :
      (id : ℤ) (ids : List ℤ) (role : RoleRecord)
      → role_of c d id ≡ ok role
      → test role ≡ false
      → Grants c d test ids
      → Grants c d test (id ∷ ids)

or_false-eq-true :
    {D S : Type 0} (c : Connector D S) (d : D) (m : Result Bool)
    → or_false c d m ≡ true
    → m ≡ ok true
or_false-eq-true c d (ok true) e = refl
or_false-eq-true c d (ok false) e = ground arith
or_false-eq-true c d (throws x) e = ground arith

module _ {D S : Type 0} (c : Connector D S) (d : D) (test : RoleRecord → Bool) where
  granted : (ids : List ℤ) → Grants c d test ids → any_role c d test ids ≡ ok true
  unfolding any_role
  granted _ (here id ids role e t) = rw (e) (rw (t) refl)
  granted _ (later id ids role e t g) = rw (e) (rw (t) (granted ids g))

  grants : (ids : List ℤ) → any_role c d test ids ≡ ok true → Grants c d test ids
  unfolding any_role
  grants [] e = ground arith
  grants (id ∷ ids) e =
      let (role, found, rest) = >>=-eq-ok (role_of c d id) _ e in
      elim (Bool-cases (test role)) [
        | inl passes ↦ here id ids role found passes
        | inr fails ↦ later id ids role found fails (grants ids (ground arith))
      ]

  -- A user passes a permission check exactly if the user's roles can be read and one of them grants
  -- it, with every role before it found: a role that cannot be found hides those behind it.
  pub permitted_iff :
      (user_id : ℤ)
      → (permitted c d test user_id ≡ true) ↔ (
          (ids : List ℤ) × (ask c (UserRoles.get_role_ids_by_user_id user_id) d ≡ ok ids)
          × Grants c d test ids)
  unfolding permitted
  permitted_iff user_id = (
    λ e.
        let (ids, read, found) =
          >>=-eq-ok (ask c (UserRoles.get_role_ids_by_user_id user_id) d) (any_role c d test)
            (or_false-eq-true c d _ e) in
        (ids, read, grants ids found),
    λ (ids, read, grant). rw (read) (rw (granted ids grant) refl),
  )
