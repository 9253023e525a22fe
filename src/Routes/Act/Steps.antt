-- ===== src/Routes/Act/Steps.antt =====
-- src/router/routes.cpp: what becomes of a handler when a step of it is done, or throws.
use cdragon.Prelude.{◌≡◌, ap, none, some, if◌then◌else◌}
use cdragon.Prelude.Result.{ok, throws, Exception, is_runtime_error}
use cdragon.Database.{Operation, run}
use cdragon.Routes.Act.{
  World, Outcome, done, thrown, Act, Env, ◌>>=◌, ◌>>◌, pure, goes_on, goes_on_with, recovered,
  caught, or_return, or_return_runtime, ran, sql,
}

module _ {D : Type 0} where
  abbrev after_return :
      {A : Type 0} → Act D Unit → (A → Act D Unit) → Outcome A × World D → Outcome Unit × World D
  after_return handler k x =
      goes_on (goes_on_with k)
        (recovered (λ e. handler >> pure none) (goes_on (λ a. pure (some a)) x))

  abbrev after_return_runtime :
      {A : Type 0} → Act D Unit → (A → Act D Unit) → Outcome A × World D → Outcome Unit × World D
  after_return_runtime handler k x = goes_on (goes_on_with k) (
      recovered (λ e v. if is_runtime_error e then (handler >> pure none) v else (thrown e, v))
        (goes_on (λ a. pure (some a)) x))

  pub or_return_lem :
      {A : Type 0} (m : Act D A) (handler : Act D Unit) (k : A → Act D Unit) (w : World D)
      {x : Outcome A × World D}
      → m w ≡ x
      → or_return m handler k w ≡ after_return handler k x
  or_return_lem m handler k w e = ap (after_return handler k) e

  pub or_return_runtime_lem :
      {A : Type 0} (m : Act D A) (handler : Act D Unit) (k : A → Act D Unit) (w : World D)
      {x : Outcome A × World D}
      → m w ≡ x
      → or_return_runtime m handler k w ≡ after_return_runtime handler k x
  or_return_runtime_lem m handler k w e = ap (after_return_runtime handler k) e

  pub >>=_lem :
      {A B : Type 0} (m : Act D A) (k : A → Act D B) (w : World D) {x : Outcome A × World D}
      → m w ≡ x
      → (m >>= k) w ≡ goes_on k x
  >>=_lem m k w e = ap (goes_on k) e

  pub caught_lem :
      {A : Type 0} (m handler : Act D A) (w : World D) {x : Outcome A × World D}
      → m w ≡ x
      → caught m handler w ≡ recovered (λ e. handler) x
  caught_lem m handler w e = ap (recovered (λ e. handler)) e

module _ {J D S : Type 0} (env : Env J D S) where
  pub sql_ok :
      {A : Type 0} (op : Operation A) (w : World D) {a : A} {d : D}
      → run env.connector op w.database ≡ ok (a, d)
      → sql env op w ≡ (done a, record w { database = d })
  unfolding sql
  sql_ok op w e = ap (ran w) e

  pub sql_throws :
      {A : Type 0} (op : Operation A) (w : World D) {e : Exception}
      → run env.connector op w.database ≡ throws e
      → sql env op w ≡ (thrown e, w)
  unfolding sql
  sql_throws op w e = ap (ran w) e
