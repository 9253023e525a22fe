-- ===== src/Http/Request/RoundTrip.antt =====
-- A request that a client prints, and the whole of what `HttpRequest::parse` makes of it.
use cdragon.Prelude.{
  ◌≡◌, ◌≢◌, refl, ◌∙◌, ap, Option, none, some, List, [], ◌∷◌, ◌++◌, Bytes, All, Lacks, codes, equal,
  equal_iff, equal_refl, Option-cases, inl, inr, arith,
}
use cdragon.Prelude.Assoc.{
  find, insert_all, find-insert_all_nil, erase-insert_all_first, find_absent,
}
use cdragon.Prelude.Result.{Result, ok, throws, json_exception}
use cdragon.Http.Stream.Lines.{joined}
use cdragon.Http.Request.{
  HttpRequest, new_request, parse_raw_meta_data, parse_cookies, parse_raw_body, parse_json_data,
}
use cdragon.Http.Request.Head.{IsHeader, print_head, parse_raw_meta_data-print_head}
use cdragon.Http.Request.Query.{
  IsPair, IsCookie, print_target, print_cookies, parse_query_params-print_target,
  parse_cookies-print_cookies, parse_cookies-none,
}

-- What a client sends, taken apart. Its headers are those other than `Cookie`.
pub record Sent : Type 0 where
  pub method : Bytes
  pub path : Bytes
  pub query : List (Bytes × Bytes)
  pub version : Bytes
  pub headers : List (Bytes × Bytes)
  pub cookies : List (Bytes × Bytes)
  pub body : Bytes

abbrev cookie_header : List (Bytes × Bytes) → List (Bytes × Bytes)
cookie_header [] = []
cookie_header (c ∷ cs) = (codes "Cookie", joined b';' (print_cookies (c ∷ cs))) ∷ []

abbrev pub all_headers : Sent → List (Bytes × Bytes)
all_headers s = cookie_header s.cookies ++ s.headers

abbrev pub print_sent : Sent → Bytes
print_sent s = print_head s.method (print_target s.path s.query) s.version (all_headers s)

-- No part holds a byte that would end it early, and the headers hold no second `Cookie`.
pub record IsSent (s : Sent) : Type 0 where
  pub method_ok : Lacks 32 s.method
  pub path_ok : Lacks b'?' s.path
  pub target_ok : Lacks 32 (print_target s.path s.query)
  pub query_ok : All (IsPair b'&') s.query
  pub version_ok : Lacks 13 s.version
  pub headers_ok : All IsHeader (all_headers s)
  pub one_cookie : All (λ h. h.0 ≢ codes "Cookie") s.headers
  pub cookies_ok : All IsCookie s.cookies

module _ {J : Type 0} (null : J) where
  -- The request that the handler gets, before its body is looked at.
  abbrev pub received : Sent → HttpRequest J
  received s = record (new_request null (print_sent s) s.body) {
    method = s.method;
    path = s.path;
    protocol_version = s.version;
    query_params = insert_all [] s.query;
    headers = insert_all [] s.headers;
    cookies = insert_all [] s.cookies;
  }

  cookies_off :
      (r : HttpRequest J) (hs cs : List (Bytes × Bytes))
      → All (λ h. h.0 ≢ codes "Cookie") hs
      → All IsCookie cs
      → parse_cookies (record r { headers = insert_all [] (cookie_header cs ++ hs); cookies = [] })
        ≡ record r { headers = insert_all [] hs; cookies = insert_all [] cs }
  unfolding equal
  cookies_off r hs [] one h =
      parse_cookies-none (record r { headers = insert_all [] hs; cookies = [] })
        (find-insert_all_nil (codes "Cookie") hs ∙ find_absent (codes "Cookie") hs one)
      ∙ (unfold insert_all in refl)
  cookies_off r hs (c ∷ cs) one h =
      let text = joined b';' (print_cookies (c ∷ cs)) in
      let held = (codes "Cookie", text) ∷ hs in
      parse_cookies-print_cookies (record r { headers = insert_all [] held; cookies = [] }) (c ∷ cs)
        h (find-insert_all_nil (codes "Cookie") held ∙ (unfold find in refl))
      ∙ rw (erase-insert_all_first (codes "Cookie") text hs one)

  -- The head of every request that a client prints, with fields that its separators do not stand in
  -- (`IsSent`), is read back whole: method, path, version, the pairs of the query, the headers other
  -- than `Cookie`, and the cookies.
  pub parse_raw_meta_data-print_sent :
      (s : Sent)
      → IsSent s
      → parse_raw_meta_data (new_request null (print_sent s) s.body) ≡ ok (received s)
  parse_raw_meta_data-print_sent s h =
      let start = new_request null (print_sent s) s.body in
      parse_raw_meta_data-print_head null s.body s.method (print_target s.path s.query) s.version
        (all_headers s) h.method_ok h.target_ok h.version_ok h.headers_ok
      ∙ rw
          (parse_query_params-print_target
            (record start { method = s.method; protocol_version = s.version }) s.path s.query
            h.path_ok h.query_ok)
          (ap ok (
            cookies_off
              (record start {
                method = s.method;
                path = s.path;
                protocol_version = s.version;
                query_params = insert_all [] s.query;
              })
              s.headers s.cookies h.one_cookie h.cookies_ok))

  -- What the handler looks up is the first value that the client sent under that name.
  pub find-received :
      (s : Sent) (k : Bytes)
      → (find k (received s).query_params ≡ find k s.query)
        × (find k (received s).headers ≡ find k s.headers)
        × (find k (received s).cookies ≡ find k s.cookies)
  find-received s k = (
    find-insert_all_nil k s.query,
    find-insert_all_nil k s.headers,
    find-insert_all_nil k s.cookies,
  )

module _ {J : Type 0} where
  -- A body that is declared as JSON.
  abbrev pub HasJson : HttpRequest J → Type 0
  HasJson r =
      (r.raw_body ≢ []) × (find (codes "Content-Type") r.headers ≡ some (codes "application/json"))

  abbrev pub with_json : HttpRequest J → Option J → Result (HttpRequest J)
  with_json r none = throws json_exception
  with_json r (some j) = ok (record r { json_data = j })

module _ {J : Type 0} (parse_json : Bytes → Option J) where
  -- The body is parsed exactly when it is there and declared as JSON; if it is no JSON, the
  -- exception goes on to the caller.
  pub parse_raw_body_json :
      (r : HttpRequest J)
      → HasJson r
      → parse_raw_body parse_json r ≡ with_json r (parse_json r.raw_body)
  unfolding parse_raw_body parse_json_data
  parse_raw_body_json r (ne, e) = rw (e, equal_refl (codes "application/json")) (ground arith)

  pub parse_raw_body_plain : (r : HttpRequest J) → ¬ HasJson r → parse_raw_body parse_json r ≡ ok r
  unfolding parse_raw_body
  parse_raw_body_plain r no_json = elim (Option-cases (find (codes "Content-Type") r.headers)) [
    | inl e ↦ rw e (ground arith)
    | inr (kind, e) ↦ rw e (ground (arith, equal_iff kind (codes "application/json")))
  ]
