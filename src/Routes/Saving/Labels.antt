-- ===== src/Routes/Saving/Labels.antt =====
-- src/router/routes.cpp: how an article gets its labels.
use cdragon.Prelude.{◌≡◌, refl, ap, Bool, true, List, [], ◌∷◌, Bytes}
use cdragon.Prelude.Numerals.{ℤ}
use cdragon.Prelude.Result.{Result, ok, throws}
use cdragon.Database.{Operation, run}
use cdragon.Routes.Act.{World, done, Env, pure, for_each, sql, ran, recovered, goes_on}
use cdragon.Routes.Act.Steps.{sql_ok}
use cdragon.Routes.Saving.{add_label, join_label, label_article}

-- The database behind a statement, which may be refused.
abbrev pub after : {A D : Type 0} → D → Result (A × D) → D
after d (ok (a, d')) = d'
after d (throws e) = d

module _ {J D S A : Type 0} (env : Env J D S) (add : Bytes → Operation Bool)
    (search : Bytes → Operation (List A)) (id_of : A → ℤ) (join : ℤ → ℤ → Operation Bool)
    (article_id : ℤ) where
  abbrev pub added : Bytes → D → D
  added label d = after d (run env.connector (add label) d)

  pub add_label-added :
      (l : Bytes) (w : World D)
      → add_label env add search id_of join article_id l w
        ≡ (done tt, record w { database = added l w.database })
  unfolding add_label sql
  add_label-added l w = go (run env.connector (add l) w.database)
    where
      go :
          (m : Result (Bool × D))
          → recovered (λ e. pure tt) (goes_on (λ _. pure tt) (ran w m))
            ≡ (done tt, record w { database = after w.database m })
      go (ok (b, d)) = refl
      go (throws e) = refl

  -- The labels are inserted and joined one after the other, from one database to another: each that
  -- has been inserted, or was there, is found, and the article is joined with what is found first.
  abbrev pub Joined : List Bytes → D → D → Type 0
  Joined [] d d' = d ≡ d'
  Joined (l ∷ ls) d d' =
      (hit : A) × (others : List A) × (e : D) × (run env.connector (search l) (added l d)
        ≡ ok (hit ∷ others, added l d))
      × (run env.connector (join article_id (id_of hit)) (added l d) ≡ ok (true, e))
      × Joined ls e d'

  join_label-Joined :
      (l : Bytes) (w : World D) (hit : A) (others : List A) (e : D)
      → run env.connector (search l) w.database ≡ ok (hit ∷ others, w.database)
      → run env.connector (join article_id (id_of hit)) w.database ≡ ok (true, e)
      → join_label env add search id_of join article_id l w ≡ (done tt, record w { database = e })
  unfolding join_label
  join_label-Joined l w hit others e found joins =
      rw (sql_ok env (search l) w found)
        (rw (sql_ok env (join article_id (id_of hit)) w joins) refl)

  pub label_article-Joined :
      (ls : List Bytes) (w : World D) (d : D)
      → Joined ls w.database d
      → label_article env add search id_of join article_id ls w
        ≡ (done tt, record w { database = d })
  unfolding label_article for_each
  label_article-Joined [] w d same = ap (λ e. (done tt, record w { database = e })) same
  label_article-Joined (l ∷ ls) w d (hit, others, e, found, joins, rest) =
      rw (add_label-added l w) (
        rw
          (join_label-Joined l (record w { database = added l w.database }) hit others e found
            joins)
          (label_article-Joined ls (record w { database = e }) d rest))
