-- ===== src/Http/Response/Length.antt =====
-- The `Content-Length` header of a response and the body that it speaks of.
use cdragon.Prelude.{
  ℕ, ◌≡◌, refl, ◌∙◌, some, inl, inr, List, [], ◌∷◌, ◌++◌, Bytes, codes, length, to_string,
  equal_refl, Option-cases,
}
use cdragon.Prelude.Assoc.{find, find-insert, find-assign}
use cdragon.Http.Response.{HttpResponse, set_status, add_header, add_cookie, set_body}

abbrev length_key : Bytes
length_key = codes "Content-Length"

-- The header `Content-Length` is there and is the size of the body.
abbrev pub IsSized : HttpResponse → Type 0
IsSized r = find length_key r.headers ≡ some (to_string (length r.body))

-- Whatever the headers were, `setBody` leaves the body with its size.
pub set_body-IsSized :
    (body : Bytes) (r : HttpResponse) → IsSized (set_body body r) × ((set_body body r).body ≡ body)
unfolding set_body
set_body-IsSized body r = elim (Option-cases (find length_key r.headers)) [
  | inl e ↦
      rw (e, set_body)
        (
          find-insert length_key length_key (to_string (length body)) r.headers
              ∙ rw (e, equal_refl length_key),
          refl,
        )
  | inr (v, e) ↦
      rw (e, set_body)
        (
          find-assign length_key length_key (to_string (length body)) v r.headers e
              ∙ rw (equal_refl length_key),
          refl,
        )
]

-- The calls of a handler on its response.
pub data Call : Type 0 where
  status : ℕ → Call
  header : Bytes → Bytes → Call
  cookie : Bytes → Bytes → Call
  body : Bytes → Call

unfoldable pub apply : Call → HttpResponse → HttpResponse
apply (status n) r = set_status n r
apply (header k v) r = add_header k v r
apply (cookie k v) r = add_cookie k v r
apply (body b) r = set_body b r

unfoldable pub apply_all : List Call → HttpResponse → HttpResponse
unfolding apply
apply_all [] r = r
apply_all (c ∷ cs) r = apply_all cs (apply c r)

apply-IsSized : (c : Call) (r : HttpResponse) → IsSized r → IsSized (apply c r)
unfolding apply set_status add_header add_cookie
apply-IsSized (status n) r h = h
apply-IsSized (header k v) r h = find-insert k length_key v r.headers ∙ rw h
apply-IsSized (cookie k v) r h = h
apply-IsSized (body b) r h = (set_body-IsSized b r).0

apply_all-IsSized : (cs : List Call) (r : HttpResponse) → IsSized r → IsSized (apply_all cs r)
unfolding apply_all
apply_all-IsSized [] r h = h
apply_all-IsSized (c ∷ cs) r h = apply_all-IsSized cs (apply c r) (apply-IsSized c r h)

-- Once a handler has set a body, the header `Content-Length` is the size of the body that goes out,
-- whatever headers, cookies and bodies it sets before and after.
pub apply_all-body-IsSized :
    (before after : List Call) (b : Bytes) (r : HttpResponse)
    → IsSized (apply_all (before ++ body b ∷ after) r)
unfolding apply_all
apply_all-body-IsSized [] after b r =
    apply_all-IsSized after (apply (body b) r) (unfold apply in (set_body-IsSized b r).0)
apply_all-body-IsSized (c ∷ before) after b r = apply_all-body-IsSized before after b (apply c r)
