-- ===== src/Routes/Pages/Coverage.antt =====
-- src/router/routes.cpp: which articles the pages show.
use cdragon.Prelude.{
  ℕ, zero, suc, ◌-◌, ◌≤◌, ◌<◌, ◌%◌, ◌≡◌, ◌⊎◌, refl, ◌∙◌, ap, Bool, true, false, not, ◌&&◌, ◌||◌,
  inl, inr, List, [], ◌∷◌, ◌++◌, arith, All, length, take, drop, map, ltb, ◌==◌, length-drop,
}
use cdragon.Prelude.Numerals.{ℤ}
use cdragon.Prelude.Result.{ok, throws, out_of_range}
use cdragon.Models.Article.{ArticleRecord}
use cdragon.Routes.Values.{Values}
use cdragon.Routes.Pages.{
  Part, Layout, first, second, third, next_layout, scope, moved, stream, scopes, home_scopes,
  category_scopes,
}
use cdragon.Routes.Pages.Scopes.{upto, moved-scope, linked-scope}
use cdragon.Routes.Pages.Streams.{links, links-append, IsReadable, id_at, stream_ok, stream_fails}

map-map-suc :
    {A : Type 0} (f g : ℕ → A) (ks : List ℕ)
    → ((k : ℕ) → f (suc k) ≡ g k)
    → map f (map suc ks) ≡ map g ks
map-map-suc f g [] same = refl
map-map-suc f g (k ∷ ks) same = rw (same k, map-map-suc f g ks same)

All-drop : {A : Type 0} (P : A → Type 0) (k : ℕ) (xs : List A) → All P xs → All P (drop k xs)
All-drop P zero xs h = h
All-drop P (suc k) [] h = tt
All-drop P (suc k) (x ∷ xs) (_, h) = All-drop P k xs h

map-take-drop :
    {A B : Type 0} (f : A → B) (k : ℕ) (xs : List A)
    → map f (take k xs) ++ map f (drop k xs) ≡ map f xs
map-take-drop f zero xs = refl
map-take-drop f (suc k) [] = refl
map-take-drop f (suc k) (x ∷ xs) = rw (map-take-drop f k xs)

-- Whether every scope of a page finds its articles, for their number alone.
lays : (Layout → Layout) → ℕ → Layout → ℕ → Bool
lays next zero l n = n == 0
lays next (suc fuel) l n =
    let m = moved (scope l n) in
    let rest = lays next fuel (next l) (n - suc m) in n == 0 || (ltb m n && rest)

module _ {J : Type 0} (values : Values J) where
  abbrev ids : List (ArticleRecord J) → List ℤ
  ids = map (λ a. a.article_id)

  ids-upto :
      (rest : List (ArticleRecord J)) (k : ℕ)
      → k ≤ length rest
      → map (id_at values rest) (upto k) ≡ ids (take k rest)
  ids-upto rest zero le = refl
  ids-upto [] (suc k) le = absurd (omega (arith, le))
  ids-upto (a ∷ rest) (suc k) le =
      ap (λ ns. a.article_id ∷ ns)
        (map-map-suc (id_at values (a ∷ rest)) (id_at values rest) (upto k) (λ j. refl)
          ∙ ids-upto rest k (omega (arith, le)))

  -- A scope that fits shows the next articles.
  scope_ok :
      (l : Layout) (rest : List (ArticleRecord J))
      → All (IsReadable values) rest
      → moved (scope l (length rest)) < length rest
      → (xs : List Part) × (stream values rest (scope l (length rest)) ≡ ok xs)
        × (links xs ≡ ids (take (suc (moved (scope l (length rest)))) rest))
  scope_ok l rest h lt =
      let (xs, e, same) = stream_ok values rest (scope l (length rest)) h lt in
      (
        xs,
        e,
        same
            ∙ ap (map (id_at values rest)) (linked-scope l (length rest) (omega (arith, lt)) lt)
            ∙ ids-upto rest (suc (moved (scope l (length rest)))) lt,
      )

  lays-suc :
      (next : Layout → Layout) (fuel : ℕ) (l : Layout) (n : ℕ)
      → 0 < n
      → lays next (suc fuel) l n ≡ true
      → (moved (scope l n) < n) × (lays next fuel (next l) (n - suc (moved (scope l n))) ≡ true)
  unfolding lays
  lays-suc next fuel l n h e = ground arith

  lays-suc-false :
      (next : Layout → Layout) (fuel : ℕ) (l : Layout) (n : ℕ)
      → lays next (suc fuel) l n ≡ false
      → (n ≤ moved (scope l n))
        ⊎ ((moved (scope l n) < n)
            × (lays next fuel (next l) (n - suc (moved (scope l n))) ≡ false))
  unfolding lays
  lays-suc-false next fuel l n e = ground arith

  -- The loop shows every article, if every scope fits.
  scopes_ok :
      (next : Layout → Layout) (fuel : ℕ) (l : Layout) (rest : List (ArticleRecord J))
      → All (IsReadable values) rest
      → lays next fuel l (length rest) ≡ true
      → (xs : List Part) × (scopes values next fuel l rest ≡ ok xs) × (links xs ≡ ids rest)
  unfolding scopes
  scopes_ok next zero l [] h e = ([], refl, unfold links in refl)
  scopes_ok next zero l (a ∷ rest) h e = unfold lays in ground arith
  scopes_ok next (suc fuel) l [] h e = ([], refl, unfold links in refl)
  scopes_ok next (suc fuel) l (a ∷ rest) h e =
      let all = a ∷ rest in
      let k = suc (moved (scope l (length all))) in
      let (lt, fits) = lays-suc next fuel l (length all) (omega arith) e in
      let (xs, here, first_ids) = scope_ok l all h lt in
      let (ys, later, other_ids) =
        scopes_ok next fuel (next l) (drop k all) (All-drop (IsReadable values) k all h)
          (rw (length-drop k all) fits) in
      (
        xs ++ ys,
        rw (here) (rw (later) refl),
        links-append xs ys
            ∙ rw (first_ids) (rw (other_ids) (map-take-drop (λ b. b.article_id) k all)),
      )

  -- And it fails, if one does not.
  scopes_fails :
      (next : Layout → Layout) (fuel : ℕ) (l : Layout) (rest : List (ArticleRecord J))
      → All (IsReadable values) rest
      → length rest ≤ fuel
      → lays next fuel l (length rest) ≡ false
      → scopes values next fuel l rest ≡ throws out_of_range
  unfolding scopes
  scopes_fails next zero l rest h le e = unfold lays in ground arith
  scopes_fails next (suc fuel) l [] h le e = unfold lays in ground arith
  scopes_fails next (suc fuel) l (a ∷ rest) h le e =
      let all = a ∷ rest in
      let k = suc (moved (scope l (length all))) in
      elim (lays-suc-false next fuel l (length all) e) [
        | inl far ↦ rw (stream_fails values all (scope l (length all)) h (omega arith) far) refl
        | inr (lt, misses) ↦
            let (xs, here, _) = scope_ok l all h lt in
            rw (here) (
              rw
                (scopes_fails next fuel (next l) (drop k all) (All-drop (IsReadable values) k all h)
                  (omega (arith, length-drop k all, le)) (rw (length-drop k all) misses))
                refl)
      ]

lays_first : (fuel n : ℕ) → n ≤ fuel → lays (λ l. first) fuel first n ≡ true
unfolding lays
lays_first zero n le = ground arith
lays_first (suc fuel) zero le = ground arith
lays_first (suc fuel) (suc n) le =
    let m = moved-scope first (suc n) (omega arith) in
    ground (arith, m, lays_first fuel (suc n - suc (moved (scope first (suc n)))))

-- The numbers of articles that a category page cannot show, for the layout that it goes on with.
abbrev misfit : Layout → ℕ → Bool
misfit second n = n % 10 == 2 || n % 10 == 3
misfit _ n = n % 10 == 7 || n % 10 == 8

lays_next :
    (fuel : ℕ) (l : Layout) (n : ℕ) → n ≤ fuel → lays next_layout fuel l n ≡ not (misfit l n)
unfolding lays
lays_next zero first n le = ground arith
lays_next zero second n le = ground arith
lays_next zero third n le = ground arith
lays_next (suc fuel) first n le =
    ground (arith, moved-scope first n, lays_next fuel second (n - suc (moved (scope first n))))
lays_next (suc fuel) second n le =
    ground (arith, moved-scope second n, lays_next fuel third (n - suc (moved (scope second n))))
lays_next (suc fuel) third n le =
    ground (arith, moved-scope third n, lays_next fuel second (n - suc (moved (scope third n))))

module _ {J : Type 0} (values : Values J) (articles : List (ArticleRecord J))
    (h : All (IsReadable values) articles) where
  -- If every description can be shown, the home page links to every article once, in order.
  pub home_scopes-links :
      (xs : List Part) × (home_scopes values articles ≡ ok xs)
      × (links xs ≡ map (λ a. a.article_id) articles)
  unfolding home_scopes
  home_scopes-links =
      scopes_ok values (λ l. first) (length articles) first articles h
        (lays_first (length articles) (length articles) (omega arith))

  -- If every description can be shown and the number of articles does not end in 7 or 8, a category
  -- page links to every article once, in order.
  pub category_scopes-links :
      (length articles % 10 == 7 || length articles % 10 == 8) ≡ false
      → (xs : List Part) × (category_scopes values articles ≡ ok xs)
        × (links xs ≡ map (λ a. a.article_id) articles)
  unfolding category_scopes
  category_scopes-links fits =
      scopes_ok values next_layout (length articles) first articles h
        (rw (lays_next (length articles) first (length articles) (omega arith)) (rw (fits) refl))

  pub category_scopes-fails :
      (length articles % 10 == 7 || length articles % 10 == 8) ≡ true
      → category_scopes values articles ≡ throws out_of_range
  unfolding category_scopes
  category_scopes-fails misses =
      scopes_fails values next_layout (length articles) first articles h (omega arith)
        (rw (lays_next (length articles) first (length articles) (omega arith)) (rw (misses) refl))
