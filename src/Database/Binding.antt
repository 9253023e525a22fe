-- ===== src/Database/Binding.antt =====
-- Every placeholder of a statement gets its parameter, given a connector as MySQL documents it.
use cdragon.Prelude.{
  ℕ, suc, ◌+◌, ◌≤◌, ◌<◌, ◌≡◌, refl, ◌∙◌, ap, sym, List, [], ◌∷◌, ◌++◌, arith, Bytes, length, ltb,
  ◌==◌, if◌then◌else◌, append_assoc, append-nil, length-append, Bool-cases, ltb→lt, inl, inr, ◌⊎◌,
}
use cdragon.Prelude.Result.{
  Result, ok, throws, Exception, sql_exception, runtime_error, ◌>>=◌, Result-cases,
}
use cdragon.Database.{
  no_placeholder, Connector, Operation, command, select, bind_params, execute, query, run,
}

-- The placeholders of a statement: the program writes no `?` inside a quoted text.
unfoldable pub marks : Bytes → ℕ
marks [] = 0
marks (b ∷ s) = if b == b'?' then suc (marks s) else marks s

pub marks-append : (s t : Bytes) → marks (s ++ t) ≡ marks s + marks t
unfolding marks
marks-append [] t = omega arith
marks-append (b ∷ s) t =
    let rest : marks (s ++ t) ≡ marks s + marks t = marks-append s t in ground arith

-- What the documentation promises: a statement that can be prepared has no parameter yet, parameters
-- are bound in turn as long as it has placeholders, and a parameter too many is refused. Whether a
-- text can be prepared is left open.
pub record IsConnector {D S : Type 0} (c : Connector D S) : Type 0 where
  pub prepared : Bytes → List Bytes → S
  pub prepares :
      (t : Bytes) (d : D) (statement : S)
      → c.prepare_statement t d ≡ ok statement
      → statement ≡ prepared t []
  pub binds :
      (t : Bytes) (ps : List Bytes) (p : Bytes)
      → length ps < marks t
      → c.set_string (suc (length ps)) p (prepared t ps) ≡ ok (prepared t (ps ++ p ∷ []))
  pub refuses :
      (t : Bytes) (ps : List Bytes) (p : Bytes)
      → marks t ≤ length ps
      → c.set_string (suc (length ps)) p (prepared t ps) ≡ throws sql_exception

abbrev pub text : {A : Type 0} → Operation A → Bytes
text (command t ps a) = t
text (select t ps read) = t

abbrev pub params : {A : Type 0} → Operation A → List Bytes
params (command t ps a) = ps
params (select t ps read) = ps

-- As many parameters as placeholders.
abbrev pub IsBound : {A : Type 0} → Operation A → Type 0
IsBound op = marks (text op) ≡ length (params op)

longer : (done : List Bytes) (p : Bytes) → suc (length done) ≡ length (done ++ p ∷ [])
longer done p = omega (arith, length-append done (p ∷ []))

-- What becomes of a statement with its parameters.
unfoldable pub outcome : {D S A : Type 0} → Connector D S → Operation A → S → D → Result (A × D)
outcome c (command t ps a) statement d = c.execute_statement statement d >>= λ next. ok (a, next)
outcome c (select t ps read) statement d =
    c.execute_query statement d >>= λ rows. read rows >>= λ a. ok (a, d)

module _ {D S : Type 0} (c : Connector D S) (h : IsConnector c) where
  binds_all :
      (t : Bytes) (done todo : List Bytes)
      → length done + length todo ≤ marks t
      → bind_params c (length done) todo (h.prepared t done) ≡ ok (h.prepared t (done ++ todo))
  unfolding bind_params
  binds_all t done [] le = ap (λ u. ok (h.prepared t u)) (sym (append-nil done))
  binds_all t done (p ∷ ps) le = rw (h.binds t done p (omega arith)) (
      ap (λ n. bind_params c n ps (h.prepared t (done ++ p ∷ []))) (longer done p)
      ∙ binds_all t (done ++ p ∷ []) ps (omega (arith, le, longer done p))
      ∙ ap (λ u. ok (h.prepared t u)) (append_assoc done (p ∷ []) ps))

  preparation :
      (t : Bytes) (d : D)
      → (c.prepare_statement t d ≡ ok (h.prepared t []))
        ⊎ ((e : Exception) × (c.prepare_statement t d ≡ throws e))
  preparation t d = elim (Result-cases (c.prepare_statement t d)) [
    | inl (statement, there) ↦ inl (there ∙ ap ok (h.prepares t d statement there))
    | inr refused ↦ inr refused
  ]

  -- A statement with as many parameters as placeholders is executed with all of them in order, if it
  -- can be prepared, and what the method returns depends on its outcome alone.
  pub run-IsBound :
      {A : Type 0} (op : Operation A) (d : D)
      → IsBound op
      → run c op d ≡ (
          c.prepare_statement (text op) d >>= λ _.
          outcome c op (h.prepared (text op) (params op)) d)
  unfolding run execute query outcome
  run-IsBound (command t ps a) d e = elim (preparation t d) [
    | inl there ↦ rw (there) (rw (binds_all t [] ps (omega (arith, e))) refl)
    | inr (x, refused) ↦ rw (refused) refl
  ]
  run-IsBound (select t ps read) d e = elim (preparation t d) [
    | inl there ↦ rw (there) (rw (binds_all t [] ps (omega (arith, e))) refl)
    | inr (x, refused) ↦ rw (refused) refl
  ]

  binds_some :
      (t : Bytes) (done todo : List Bytes)
      → length done ≤ marks t
      → marks t < length done + length todo
      → bind_params c (length done) todo (h.prepared t done) ≡ throws (runtime_error no_placeholder)
  unfolding bind_params
  binds_some t done [] le lt = absurd (omega (arith, le, lt))
  binds_some t done (p ∷ ps) le lt = elim (Bool-cases (ltb (length done) (marks t))) [
    | inl test ↦
        let room : length done < marks t = ltb→lt _ _ test in
        rw (h.binds t done p room) (
          ap (λ n. bind_params c n ps (h.prepared t (done ++ p ∷ []))) (longer done p)
          ∙ binds_some t (done ++ p ∷ []) ps (omega (arith, room, longer done p))
              (omega (arith, lt, longer done p)))
    | inr test ↦
        let full : marks t ≤ length done = ground arith in rw (h.refuses t done p full) refl
  ]

  -- A parameter without a placeholder stops the method with the error of `execute` and `query`, if
  -- the statement can be prepared, and it is not sent.
  run-too_many :
      {A : Type 0} (op : Operation A) (d : D)
      → marks (text op) < length (params op)
      → run c op d
        ≡ (c.prepare_statement (text op) d >>= λ _. throws (runtime_error no_placeholder))
  unfolding run execute query
  run-too_many (command t ps a) d lt = elim (preparation t d) [
    | inl there ↦ rw (there) (rw (binds_some t [] ps (omega arith) (omega (arith, lt))) refl)
    | inr (x, refused) ↦ rw (refused) refl
  ]
  run-too_many (select t ps read) d lt = elim (preparation t d) [
    | inl there ↦ rw (there) (rw (binds_some t [] ps (omega arith) (omega (arith, lt))) refl)
    | inr (x, refused) ↦ rw (refused) refl
  ]
