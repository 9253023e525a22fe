-- ===== src/Database.antt =====
-- include/database.h and models/include/base_models. The MySQL connector is a library outside the
-- program: a `Connector` names the calls that the program makes of it, a `Row` the accessors of a
-- result set that stands on a row.
pub mod Binding
use cdragon.Prelude.{ℕ, suc, Bool, Option, none, some, List, [], ◌∷◌, Bytes, String, if◌then◌else◌}
use cdragon.Prelude.Numerals.{ℤ}
use cdragon.Prelude.Result.{Result, ok, throws, Exception, runtime_error, sql_exception, ◌>>=◌}

pub record Row : Type 0 where
  pub get_int : Bytes → Result ℤ
  pub get_string : Bytes → Result Bytes
  pub get_boolean : Bytes → Result Bool

pub record Connector (D S : Type 0) : Type 0 where
  pub prepare_statement : Bytes → D → Result S
  pub set_string : ℕ → Bytes → S → Result S
  pub execute_statement : S → D → Result D
  pub execute_query : S → D → Result (List Row)

abbrev pub no_placeholder : String
no_placeholder = "SQL не находит плейхолдер для вставки значения параметра"

-- The two catches around `setString`; its index is in range, so the first is never taken.
abbrev rethrow : {A : Type 0} → Result A → Result A
rethrow (throws sql_exception) = throws (runtime_error no_placeholder)
rethrow m = m

-- The loop over the parameters, from the index `i + 1` on.
unfoldable pub bind_params : {D S : Type 0} → Connector D S → ℕ → List Bytes → S → Result S
bind_params c i [] statement = ok statement
bind_params c i (p ∷ ps) statement =
    rethrow (c.set_string (suc i) p statement) >>= λ next. bind_params c (suc i) ps next

unfoldable pub execute : {D S : Type 0} → Connector D S → Bytes → List Bytes → D → Result D
unfolding bind_params
execute c text params d = c.prepare_statement text d >>= λ statement.
    bind_params c 0 params statement >>= λ bound. c.execute_statement bound d

unfoldable pub query : {D S : Type 0} → Connector D S → Bytes → List Bytes → D → Result (List Row)
unfolding bind_params
query c text params d = c.prepare_statement text d >>= λ statement.
    bind_params c 0 params statement >>= λ bound. c.execute_query bound d

-- A method of a table: the statement that it sends with its parameters, and, if it is a query, what
-- it makes of the rows. Its `try { … } catch (const exception &) { throw; }` changes nothing.
pub data Operation (A : Type 0) : Type 0 where
  command : Bytes → List Bytes → A → Operation A
  select : Bytes → List Bytes → (List Row → Result A) → Operation A

unfoldable pub run : {D S A : Type 0} → Connector D S → Operation A → D → Result (A × D)
unfolding execute query
run c (command text params a) d = execute c text params d >>= λ next. ok (a, next)
run c (select text params read) d = query c text params d >>= λ rows. read rows >>= λ a. ok (a, d)

-- `if (result->next()) { … } throw runtime_error(…)`
unfoldable pub first_row : {A : Type 0} → String → (Row → Result A) → List Row → Result A
first_row message read [] = throws (runtime_error message)
first_row message read (row ∷ rows) = read row

-- `while (result->next()) { … }`
unfoldable pub all_rows : {A : Type 0} → (Row → Result A) → List Row → Result (List A)
all_rows read [] = ok []
all_rows read (row ∷ rows) = read row >>= λ a. all_rows read rows >>= λ rest. ok (a ∷ rest)
