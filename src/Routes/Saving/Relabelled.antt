-- ===== src/Routes/Saving/Relabelled.antt =====
-- src/router/routes.cpp: how the editor changes the labels of an article.
use cdragon.Prelude.{◌≡◌, refl, true, Bool, List, [], ◌∷◌, Bytes}
use cdragon.Prelude.Numerals.{ℤ}
use cdragon.Prelude.Result.{Result, ok, throws}
use cdragon.Database.{Operation, run}
use cdragon.Routes.Act.{
  World, done, Env, ◌>>=◌, ◌>>◌, pure, lift, caught, for_each, sql, ran, recovered, goes_on,
}
use cdragon.Routes.Act.Steps.{sql_ok}
use cdragon.Routes.Saving.{first_of, add_label, join_label, relabel_article}
use cdragon.Routes.Saving.Labels.{after, added, add_label-added}

module _ {J D S A : Type 0} (env : Env J D S) (add : Bytes → Operation Bool)
    (search : Bytes → Operation (List A)) (id_of : A → ℤ) (join : ℤ → ℤ → Operation Bool)
    (article_id : ℤ) where
  -- The article joined with what a search found, if it found something and the database lets it.
  abbrev pub joined_with : D → Result (List A × D) → D
  joined_with d (ok ([], d')) = d'
  joined_with d (ok (a ∷ more, d')) = after d' (run env.connector (join article_id (id_of a)) d')
  joined_with d (throws e) = d

  abbrev pub tried : Bytes → D → D
  tried l d = joined_with d (run env.connector (search l) d)

  joins_or_not :
      (w : World D) (d : D) (m : Result (Bool × D))
      → recovered (λ e. pure tt) (goes_on (λ _. pure tt) (ran w m))
        ≡ (done tt, record w { database = after w.database m })
  joins_or_not w d (ok (b, d')) = refl
  joins_or_not w d (throws e) = refl

  join_label-tried :
      (l : Bytes) (w : World D)
      → caught (join_label env add search id_of join article_id l) (pure tt) w
        ≡ (done tt, record w { database = tried l w.database })
  unfolding join_label sql
  join_label-tried l w = go (run env.connector (search l) w.database)
    where
      go :
          (m : Result (List A × D))
          → recovered
              (λ e. pure tt)
              (goes_on
                (λ found.
                  lift (first_of found) >>= λ a. sql env (join article_id (id_of a)) >> pure tt)
                (ran w m))
            ≡ (done tt, record w { database = joined_with w.database m })
      go (throws e) = refl
      go (ok ([], d')) = refl
      go (ok (a ∷ more, d')) =
          joins_or_not (record w { database = d' }) d'
            (run env.connector (join article_id (id_of a)) d')

  -- Each label inserted and tried.
  abbrev pub refiled : List Bytes → D → D
  refiled [] d = d
  refiled (l ∷ ls) d = refiled ls (tried l (added env add search id_of join article_id l d))

  relabels :
      (ls : List Bytes) (w : World D)
      → for_each
          (λ l.
            add_label env add search id_of join article_id l
            >> caught (join_label env add search id_of join article_id l) (pure tt))
          ls
          w
        ≡ (done tt, record w { database = refiled ls w.database })
  unfolding for_each
  relabels [] w = refl
  relabels (l ∷ ls) w =
      let d = added env add search id_of join article_id l w.database in
      rw (add_label-added env add search id_of join article_id l w) (
        rw (join_label-tried l (record w { database = d }))
          (relabels ls (record w { database = tried l d })))

  -- The old labels are found, and each can be dropped.
  pub record Drops (ids_for : ℤ → Operation (List ℤ)) (unlink : ℤ → ℤ → Operation Bool)
      : Type 0 where
    pub old : D → List ℤ
    pub dropped : ℤ → D → D
    pub finds : (d : D) → run env.connector (ids_for article_id) d ≡ ok (old d, d)
    pub drops : (i : ℤ) (d : D) → run env.connector (unlink article_id i) d ≡ ok (true, dropped i d)

  module _ (ids_for : ℤ → Operation (List ℤ)) (unlink : ℤ → ℤ → Operation Bool)
      (h : Drops ids_for unlink) where
    abbrev pub all_dropped : List ℤ → D → D
    all_dropped [] d = d
    all_dropped (i ∷ is) d = all_dropped is (h.dropped i d)

    -- No new labels keep the old ones; otherwise these are dropped first.
    abbrev pub relabelled : List Bytes → D → D
    relabelled [] d = d
    relabelled (l ∷ ls) d = refiled (l ∷ ls) (all_dropped (h.old d) d)

    unlinks :
        (is : List ℤ) (w : World D)
        → for_each (λ i. sql env (unlink article_id i) >> pure tt) is w
          ≡ (done tt, record w { database = all_dropped is w.database })
    unfolding for_each
    unlinks [] w = refl
    unlinks (i ∷ is) w =
        rw (sql_ok env (unlink article_id i) w (h.drops i w.database))
          (unlinks is (record w { database = h.dropped i w.database }))

    pub relabel_article-relabelled :
        (ls : List Bytes) (w : World D)
        → relabel_article env add search id_of join article_id ids_for unlink ls w
          ≡ (done tt, record w { database = relabelled ls w.database })
    unfolding relabel_article
    relabel_article-relabelled [] w = refl
    relabel_article-relabelled (l ∷ ls) w =
        rw (sql_ok env (ids_for article_id) w (h.finds w.database)) (
          rw (unlinks (h.old w.database) w)
            (relabels (l ∷ ls) (record w { database = all_dropped (h.old w.database) w.database })))
