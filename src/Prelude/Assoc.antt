-- ===== src/Prelude/Assoc.antt =====
-- `std::unordered_map<string, V>` as the list of its entries in iteration order. The standard
-- leaves that order open: a new key goes to the end here. The headers and cookies of a response are
-- printed in this order; a template is filled in an order of its own, `Env.iteration`.
use mathlib.Core.Path.{◌≡◌, refl, ◌∙◌}
use mathlib.Core.Logic.{◌≢◌}
use mathlib.Core.Option.{Option, none, some}
use mathlib.Core.List.{List, [], ◌∷◌}
use native.Mathlib.Omega.{arith}
use cdragon.Prelude.Tests.{if◌then◌else◌}
use cdragon.Prelude.Lists.{All}
use cdragon.Prelude.Text.{Bytes, equal, equal_iff, equal_refl}

abbrev pub Assoc {ℓ} : Type ℓ → Type ℓ
Assoc V = List (Bytes × V)

abbrev pub or_else {ℓ} : {A : Type ℓ} → Option A → Option A → Option A
or_else none o = o
or_else (some a) o = some a

module _ {ℓ} {V : Type ℓ} where
  unfoldable pub find : Bytes → Assoc V → Option V
  find k [] = none
  find k ((j, v) ∷ m) = if equal j k then some v else find k m

  -- m.insert({k, v}), which keeps the value of a key that is there
  unfoldable pub insert : Bytes → V → Assoc V → Assoc V
  insert k v [] = (k, v) ∷ []
  insert k v ((j, w) ∷ m) = if equal j k then (j, w) ∷ m else (j, w) ∷ insert k v m

  -- it->second = v, for the iterator that `find` returned
  unfoldable pub assign : Bytes → V → Assoc V → Assoc V
  assign k v [] = []
  assign k v ((j, w) ∷ m) = if equal j k then (j, v) ∷ m else (j, w) ∷ assign k v m

  unfoldable pub erase : Bytes → Assoc V → Assoc V
  erase k [] = []
  erase k ((j, w) ∷ m) = let rest = erase k m in if equal j k then rest else (j, w) ∷ rest

  pub find-insert :
      (k j : Bytes) (v : V) (m : Assoc V)
      → find j (insert k v m) ≡ or_else (find j m) (if equal k j then some v else none)
  unfolding find insert
  find-insert k j v [] = refl
  find-insert k j v ((i, w) ∷ m) =
      ground (arith, equal_iff i k, equal_iff i j, equal_iff k j, find-insert k j v m)

  pub find-assign :
      (k j : Bytes) (v w : V) (m : Assoc V)
      → find k m ≡ some w
      → find j (assign k v m) ≡ (if equal k j then some v else find j m)
  unfolding find assign
  find-assign k j v w [] e = cc
  find-assign k j v w ((i, u) ∷ m) e =
      ground (arith, equal_iff i k, equal_iff i j, equal_iff k j, find-assign k j v w m)

  pub find-erase :
      (k j : Bytes) (m : Assoc V) → find j (erase k m) ≡ (if equal k j then none else find j m)
  unfolding find erase
  find-erase k j [] = ground arith
  find-erase k j ((i, w) ∷ m) =
      ground (arith, equal_iff i k, equal_iff i j, equal_iff k j, find-erase k j m)

module _ {ℓ} {V : Type ℓ} where
  -- The pairs inserted one after the other.
  unfoldable pub insert_all : Assoc V → Assoc V → Assoc V
  insert_all m [] = m
  insert_all m ((k, v) ∷ ps) = insert_all (insert k v m) ps

  -- An older entry wins, and so does an earlier pair.
  pub find-insert_all :
      (j : Bytes) (m ps : Assoc V) → find j (insert_all m ps) ≡ or_else (find j m) (find j ps)
  unfolding insert_all find
  find-insert_all j m [] = ground arith
  find-insert_all j m ((k, v) ∷ ps) =
      ground (arith, find-insert_all j (insert k v m) ps, find-insert k j v m)

  erase-insert :
      (k j : Bytes) (v : V) (m : Assoc V) → j ≢ k → erase k (insert j v m) ≡ insert j v (erase k m)
  unfolding erase insert
  erase-insert k j v [] ne = ground (arith, equal_iff j k)
  erase-insert k j v ((i, w) ∷ m) ne =
      ground (arith, equal_iff i k, equal_iff i j, erase-insert k j v m)

  pub erase-insert_all :
      (k : Bytes) (m ps : Assoc V)
      → All (λ p. p.0 ≢ k) ps
      → erase k (insert_all m ps) ≡ insert_all (erase k m) ps
  unfolding insert_all
  erase-insert_all k m [] _ = refl
  erase-insert_all k m ((j, v) ∷ ps) (ne, h) =
      erase-insert_all k (insert j v m) ps h ∙ rw (erase-insert k j v m ne)

  pub find_absent : (k : Bytes) (ps : Assoc V) → All (λ p. p.0 ≢ k) ps → find k ps ≡ none
  unfolding find
  find_absent k [] _ = refl
  find_absent k ((j, v) ∷ ps) (ne, h) = ground (arith, equal_iff j k, find_absent k ps h)

  pub find-insert_all_nil : (k : Bytes) (ps : Assoc V) → find k (insert_all [] ps) ≡ find k ps
  find-insert_all_nil k ps = find-insert_all k [] ps ∙ (unfold find in refl)

  -- A key inserted first is found, and erasing it leaves the others.
  pub erase-insert_all_first :
      (k : Bytes) (v : V) (ps : Assoc V)
      → All (λ p. p.0 ≢ k) ps
      → erase k (insert_all [] ((k, v) ∷ ps)) ≡ insert_all [] ps
  erase-insert_all_first k v ps h =
      unfold insert_all in (erase-insert_all k (insert k v []) ps h ∙ rw (gone k v))
    where
      gone : (k : Bytes) (v : V) → erase k (insert k v []) ≡ []
      gone k v = unfold insert erase in ground (arith, equal_refl k)
