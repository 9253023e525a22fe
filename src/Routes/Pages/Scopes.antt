-- ===== src/Routes/Pages/Scopes.antt =====
-- src/router/routes.cpp: which articles each scope shows.
use cdragon.Prelude.{
  ℕ, zero, suc, ◌-◌, ◌<◌, ◌≡◌, refl, List, [], ◌∷◌, arith, map, ltb, ◌==◌, if◌then◌else◌,
}
use cdragon.Routes.Pages.Markup.{
  Piece, first_five, first_four, first_three, first_two, first_one, second_five, second_four,
  second_three, second_two, third_five, third_four,
}
use cdragon.Routes.Pages.{Layout, first, second, third, scope, moved}
use cdragon.Routes.Pages.Streams.{linked}

abbrev pub upto : ℕ → List ℕ
upto zero = []
upto (suc k) = 0 ∷ map suc (upto k)

-- A scope that shows the next articles, as many as it moves the index by.
abbrev Shows : List Piece → ℕ → Type 0
Shows ps k = (moved ps ≡ k) × (linked ps ≡ upto (suc k))

first_five-Shows : Shows first_five 4
first_five-Shows = unfold first_five moved linked in (refl, refl)

first_four-Shows : Shows first_four 3
first_four-Shows = unfold first_four moved linked in (refl, refl)

first_three-Shows : Shows first_three 2
first_three-Shows = unfold first_three moved linked in (refl, refl)

first_two-Shows : Shows first_two 1
first_two-Shows = unfold first_two moved linked in (refl, refl)

first_one-Shows : Shows first_one 0
first_one-Shows = unfold first_one moved linked in (refl, refl)

second_five-Shows : Shows second_five 4
second_five-Shows = unfold second_five moved linked in (refl, refl)

second_four-Shows : Shows second_four 3
second_four-Shows = unfold second_four moved linked in (refl, refl)

third_five-Shows : Shows third_five 4
third_five-Shows = unfold third_five moved linked in (refl, refl)

third_four-Shows : Shows third_four 3
third_four-Shows = unfold third_four moved linked in (refl, refl)

moved-second_three : moved second_three ≡ 3
moved-second_three = unfold second_three moved in refl

moved-second_two : moved second_two ≡ 2
moved-second_two = unfold second_two moved in refl

-- The last article of a scope, by its distance; `second` goes one too far with two or three left.
pub moved-scope :
    (l : Layout) (n : ℕ)
    → 0 < n
    → moved (scope l n) ≡ (
        if ltb 4 n
        then 4
        else elim l [ second ↦ if n == 3 then 3 else if n == 2 then 2 else n - 1 | _ ↦ n - 1 ])
unfolding scope
moved-scope first n h =
    ground (
      arith, first_five-Shows, first_four-Shows, first_three-Shows, first_two-Shows,
      first_one-Shows,
    )
moved-scope second n h = ground (
  arith, second_five-Shows, second_four-Shows, moved-second_three, moved-second_two,
  first_one-Shows,
)
moved-scope third n h =
    ground (
      arith, third_five-Shows, third_four-Shows, first_three-Shows, first_two-Shows,
      first_one-Shows,
    )

pub linked-scope :
    (l : Layout) (n : ℕ)
    → 0 < n
    → moved (scope l n) < n
    → linked (scope l n) ≡ upto (suc (moved (scope l n)))
unfolding scope
linked-scope first n h lt =
    ground (
      arith, first_five-Shows, first_four-Shows, first_three-Shows, first_two-Shows,
      first_one-Shows,
    )
linked-scope second n h lt = ground (
  arith, second_five-Shows, second_four-Shows, moved-second_three, moved-second_two,
  first_one-Shows,
)
linked-scope third n h lt =
    ground (
      arith, third_five-Shows, third_four-Shows, first_three-Shows, first_two-Shows,
      first_one-Shows,
    )
