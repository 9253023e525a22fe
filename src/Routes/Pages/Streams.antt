-- ===== src/Routes/Pages/Streams.antt =====
-- src/router/routes.cpp: when a scope can be written, and which articles it links to.
use cdragon.Prelude.{
  ℕ, zero, suc, ◌≤◌, ◌<◌, ◌⊎◌, ◌≡◌, refl, ◌∙◌, ap, sym, inl, inr, List, [], ◌∷◌, ◌++◌, arith, Bytes,
  All, length, map,
}
use cdragon.Prelude.Numerals.{ℤ, pos}
use cdragon.Prelude.Result.{ok, throws, out_of_range}
use cdragon.Models.Article.{ArticleRecord}
use cdragon.Routes.Values.{Values, describe}
use cdragon.Routes.Pages.Markup.{Piece, markup, id, slug, title, description}
use cdragon.Routes.Pages.{Part, plain, link, field, article_at, index, moved, part_of, stream}

-- The articles that pieces link to.
unfoldable pub linked : List Piece → List ℕ
linked [] = []
linked (id k ∷ ps) = k ∷ linked ps
linked (markup s ∷ ps) = linked ps
linked (slug k ∷ ps) = linked ps
linked (title k ∷ ps) = linked ps
linked (description k ∷ ps) = linked ps

-- The ids of the links that were written.
unfoldable pub links : List Part → List ℤ
links [] = []
links (plain s ∷ ps) = links ps
links (link n ∷ ps) = n ∷ links ps
links (field s ∷ ps) = links ps

pub links-append : (ps qs : List Part) → links (ps ++ qs) ≡ links ps ++ links qs
unfolding links
links-append [] qs = refl
links-append (plain s ∷ ps) qs = links-append ps qs
links-append (link n ∷ ps) qs = ap (λ ns. n ∷ ns) (links-append ps qs)
links-append (field s ∷ ps) qs = links-append ps qs

map-linked :
    {A : Type 0} (f : ℕ → A) (p : Piece) (ps : List Piece)
    → map f (linked (p ∷ ps)) ≡ map f (linked (p ∷ [])) ++ map f (linked ps)
unfolding linked
map-linked f (markup s) ps = refl
map-linked f (id k) ps = refl
map-linked f (slug k) ps = refl
map-linked f (title k) ps = refl
map-linked f (description k) ps = refl

moved_within :
    (p : Piece) (ps : List Piece) (n : ℕ) → moved (p ∷ ps) < n → (index p < n) × (moved ps < n)
unfolding moved
moved_within p ps n h = ground arith

moved_beyond :
    (p : Piece) (ps : List Piece) (n : ℕ)
    → n ≤ moved (p ∷ ps)
    → (n ≤ index p) ⊎ ((index p < n) × (n ≤ moved ps))
unfolding moved
moved_beyond p ps n h = ground arith

module _ {J : Type 0} (values : Values J) where
  -- A description that can be shown.
  abbrev pub IsReadable : ArticleRecord J → Type 0
  IsReadable a = (s : Bytes) × (describe values a.seo_description ≡ ok s)

  -- The ids of the articles so far on.
  abbrev pub id_at : List (ArticleRecord J) → ℕ → ℤ
  id_at [] k = pos 0
  id_at (a ∷ rest) zero = a.article_id
  id_at (a ∷ rest) (suc k) = id_at rest k

  -- The article there, with what is known of it.
  found :
      (rest : List (ArticleRecord J)) (k : ℕ)
      → All IsReadable rest
      → k < length rest
      → (a : ArticleRecord J) × (article_at rest k ≡ ok a)
        × IsReadable a
        × (id_at rest k ≡ a.article_id)
  unfolding article_at
  found [] k h lt = absurd (omega (arith, lt))
  found (a ∷ rest) zero (h, _) lt = (a, refl, h, refl)
  found (a ∷ rest) (suc k) (_, h) lt = found rest k h (omega (arith, lt))

  beyond :
      (rest : List (ArticleRecord J)) (k : ℕ)
      → length rest ≤ k
      → article_at rest k ≡ throws out_of_range
  unfolding article_at
  beyond [] k le = refl
  beyond (a ∷ rest) zero le = absurd (omega (arith, le))
  beyond (a ∷ rest) (suc k) le = beyond rest k (omega (arith, le))

  part_ok :
      (rest : List (ArticleRecord J)) (p : Piece)
      → All IsReadable rest
      → index p < length rest
      → (x : Part) × (part_of values rest p ≡ ok x)
        × (links (x ∷ []) ≡ map (id_at rest) (linked (p ∷ [])))
  unfolding part_of article_at links linked index
  part_ok rest (markup s) h _ = (plain s, refl, refl)
  part_ok rest (id k) h lt =
      let (a, e, _, same) = found rest k h lt in (link a.article_id, rw (e) refl, rw (same) refl)
  part_ok rest (slug k) h lt =
      let (a, e, _, _) = found rest k h lt in (field a.slug, rw (e) refl, refl)
  part_ok rest (title k) h lt =
      let (a, e, _, _) = found rest k h lt in (field a.title, rw (e) refl, refl)
  part_ok rest (description k) h lt =
      let (a, e, (s, d), _) = found rest k h lt in (field s, rw (e) (rw (d) refl), refl)

  part_fails :
      (rest : List (ArticleRecord J)) (p : Piece)
      → 0 < length rest
      → length rest ≤ index p
      → part_of values rest p ≡ throws out_of_range
  unfolding part_of article_at index
  part_fails rest (markup s) nonempty le = absurd (omega (arith, nonempty, le))
  part_fails rest (id k) nonempty le = rw (beyond rest k le) refl
  part_fails rest (slug k) nonempty le = rw (beyond rest k le) refl
  part_fails rest (title k) nonempty le = rw (beyond rest k le) refl
  part_fails rest (description k) nonempty le = rw (beyond rest k le) refl

  -- Pieces that read within the articles are written, with the links in order.
  pub stream_ok :
      (rest : List (ArticleRecord J)) (ps : List Piece)
      → All IsReadable rest
      → moved ps < length rest
      → (xs : List Part) × (stream values rest ps ≡ ok xs)
        × (links xs ≡ map (id_at rest) (linked ps))
  unfolding stream
  stream_ok rest [] h within = ([], refl, unfold links linked in refl)
  stream_ok rest (p ∷ ps) h within =
      let (x, here, linked_here) = part_ok rest p h (moved_within p ps (length rest) within).0 in
      let (xs, later, linked_later) =
        stream_ok rest ps h (moved_within p ps (length rest) within).1 in
      (
        x ∷ xs,
        rw (here) (rw (later) refl),
        links-append (x ∷ []) xs
            ∙ rw (linked_here) (rw (linked_later) (sym (map-linked (id_at rest) p ps))),
      )

  -- A piece that reads beyond them stops the stream.
  pub stream_fails :
      (rest : List (ArticleRecord J)) (ps : List Piece)
      → All IsReadable rest
      → 0 < length rest
      → length rest ≤ moved ps
      → stream values rest ps ≡ throws out_of_range
  unfolding stream
  stream_fails rest [] h nonempty le = unfold moved in absurd (omega (arith, nonempty, le))
  stream_fails rest (p ∷ ps) h nonempty le = elim (moved_beyond p ps (length rest) le) [
    | inl far ↦ rw (part_fails rest p nonempty far) refl
    | inr (near, later) ↦
        let (x, here, _) = part_ok rest p h near in
        rw (here) (rw (stream_fails rest ps h nonempty later) refl)
  ]
