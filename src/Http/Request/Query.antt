-- ===== src/Http/Request/Query.antt =====
-- The query of a target and the cookies of a header, read back from what a client prints.
use cdragon.Prelude.{
  ℕ, ◌≡◌, ◌≢◌, refl, sym, none, some, List, [], ◌∷◌, ◌++◌, arith, Bytes, All, All-append, Lacks,
  append_assoc, append-nil, find_byte-append, find_byte_of_Lacks, take-length_append,
  drop-suc-length_append, codes,
}
use mathlib.Core.List.{foldl}
use cdragon.Prelude.Assoc.{Assoc, find, insert, insert_all, erase}
use cdragon.Http.Stream.Lines.{lines-pieces, joined, IsPiece, pieces-joined}
use cdragon.Http.Request.{
  HttpRequest, trim, add_param, add_cookie, parse_query_params, parse_cookies,
}
use cdragon.Http.Request.Trim.{trim-append, IsBlank, HeadClear, LastClear}

-- `key=value`
abbrev pub print_pair : Bytes × Bytes → Bytes
print_pair (k, v) = k ++ b'=' ∷ v

abbrev pub print_pairs : List (Bytes × Bytes) → List Bytes
print_pairs [] = []
print_pairs (p ∷ ps) = print_pair p ∷ print_pairs ps

-- A pair that a delimiter does not cut.
abbrev pub IsPair : ℕ → Bytes × Bytes → Type 0
IsPair d (k, v) = Lacks b'=' k × Lacks d k × Lacks d v

pub append_cons-ne-nil : (s t : Bytes) (b : ℕ) → s ++ b ∷ t ≢ []
append_cons-ne-nil [] t b e = cc
append_cons-ne-nil (c ∷ s) t b e = cc

print_pairs-IsPiece :
    (d : ℕ) (ps : List (Bytes × Bytes))
    → d ≢ b'='
    → All (IsPair d) ps
    → All (IsPiece d) (print_pairs ps)
print_pairs-IsPiece d [] ne _ = tt
print_pairs-IsPiece d ((k, v) ∷ ps) ne ((_, dk, dv), h) = (
  (append_cons-ne-nil k v b'=', All-append (λ b. b ≢ d) k (b'=' ∷ v) dk ((λ e. ne (sym e)), dv)),
  print_pairs-IsPiece d ps ne h,
)

add_param-print_pair :
    (m : Assoc Bytes) (k v : Bytes) → Lacks b'=' k → add_param m (print_pair (k, v)) ≡ insert k v m
unfolding add_param
add_param-print_pair m k v h =
    rw (find_byte-append b'=' k v h, add_param)
      (rw (take-length_append k (b'=' ∷ v), drop-suc-length_append k b'=' v))

foldl-add_param :
    (d : ℕ) (m : Assoc Bytes) (ps : List (Bytes × Bytes))
    → All (IsPair d) ps
    → foldl add_param m (print_pairs ps) ≡ insert_all m ps
unfolding insert_all
foldl-add_param d m [] _ = refl
foldl-add_param d m ((k, v) ∷ ps) ((eq, _, _), h) =
    rw (add_param-print_pair m k v eq, foldl) (foldl-add_param d (insert k v m) ps h)

-- A path, and the query behind `?` if there is one.
abbrev pub print_target : Bytes → List (Bytes × Bytes) → Bytes
print_target path [] = path
print_target path (p ∷ ps) = path ++ b'?' ∷ joined b'&' (print_pairs (p ∷ ps))

-- The query is taken off the path, and its pairs are read in order.
pub parse_query_params-print_target :
    {J : Type 0} (r : HttpRequest J) (path : Bytes) (ps : List (Bytes × Bytes))
    → Lacks b'?' path
    → All (IsPair b'&') ps
    → parse_query_params (record r { path = print_target path ps })
      ≡ record r { path = path; query_params = insert_all r.query_params ps }
unfolding parse_query_params
parse_query_params-print_target r path [] q _ =
    rw (find_byte_of_Lacks b'?' path q, parse_query_params) (unfold insert_all in refl)
parse_query_params-print_target r path (p ∷ ps) q h =
    let query = joined b'&' (print_pairs (p ∷ ps)) in
    rw (find_byte-append b'?' path query q, parse_query_params)
      (rw (
        take-length_append path (b'?' ∷ query),
        drop-suc-length_append path b'?' query,
        lines-pieces b'&' query,
        pieces-joined b'&' (print_pairs (p ∷ ps))
            (print_pairs-IsPiece b'&' (p ∷ ps) (omega arith) h),
        foldl-add_param b'&' r.query_params (p ∷ ps) h,
      ))

-- A cookie as a browser sends it: the second and later ones behind a space.
abbrev pub IsCookie : Bytes × Bytes → Type 0
IsCookie (k, v) = IsPair b';' (k, v) × HeadClear k × LastClear k × HeadClear v × LastClear v

abbrev spaced : List (Bytes × Bytes) → List Bytes
spaced [] = []
spaced (c ∷ cs) = (32 ∷ print_pair c) ∷ spaced cs

abbrev pub print_cookies : List (Bytes × Bytes) → List Bytes
print_cookies [] = []
print_cookies (c ∷ cs) = print_pair c ∷ spaced cs

-- A key stands behind blanks; both it and the value are trimmed.
add_cookie-print_pair :
    (m : Assoc Bytes) (a k v : Bytes)
    → All IsBlank a
    → Lacks b'=' a
    → IsCookie (k, v)
    → add_cookie m (a ++ print_pair (k, v)) ≡ insert k v m
unfolding add_cookie
add_cookie-print_pair m a k v blank clean ((eq, _, _), hk, lk, hv, lv) =
    rw (← append_assoc a k (b'=' ∷ v)) (
      rw (find_byte-append b'=' (a ++ k) v (All-append (λ b. b ≢ b'=') a k clean eq), add_cookie)
        (rw (take-length_append (a ++ k) (b'=' ∷ v), drop-suc-length_append (a ++ k) b'=' v)
          (rw (trim_left a k blank hk lk, trim_left [] v tt hv lv))))
  where
    trim_left : (a s : Bytes) → All IsBlank a → HeadClear s → LastClear s → trim (a ++ s) ≡ s
    trim_left a s h hc lc = rw (append-nil s) at (trim-append a s [] h tt hc lc)

foldl-spaced :
    (m : Assoc Bytes) (cs : List (Bytes × Bytes))
    → All IsCookie cs
    → foldl add_cookie m (spaced cs) ≡ insert_all m cs
unfolding insert_all
foldl-spaced m [] _ = refl
foldl-spaced m ((k, v) ∷ cs) (p, h) =
    rw (add_cookie-print_pair m (32 ∷ []) k v (refl, tt) (omega arith) p, foldl)
      (foldl-spaced (insert k v m) cs h)

foldl-print_cookies :
    (m : Assoc Bytes) (cs : List (Bytes × Bytes))
    → All IsCookie cs
    → foldl add_cookie m (print_cookies cs) ≡ insert_all m cs
unfolding insert_all
foldl-print_cookies m [] _ = refl
foldl-print_cookies m ((k, v) ∷ cs) (p, h) =
    rw (add_cookie-print_pair m [] k v tt tt p, foldl) (foldl-spaced (insert k v m) cs h)

spaced-IsPiece : (cs : List (Bytes × Bytes)) → All IsCookie cs → All (IsPiece b';') (spaced cs)
spaced-IsPiece [] _ = tt
spaced-IsPiece ((k, v) ∷ cs) (((_, dk, dv), _, _, _, _), h) = (
  ((λ e. cc), (omega arith, All-append (λ b. b ≢ b';') k (b'=' ∷ v) dk (omega arith, dv))),
  spaced-IsPiece cs h,
)

print_cookies-IsPiece :
    (cs : List (Bytes × Bytes)) → All IsCookie cs → All (IsPiece b';') (print_cookies cs)
print_cookies-IsPiece [] _ = tt
print_cookies-IsPiece ((k, v) ∷ cs) (((_, dk, dv), _, _, _, _), h) = (
  (append_cons-ne-nil k v b'=', All-append (λ b. b ≢ b';') k (b'=' ∷ v) dk (omega arith, dv)),
  spaced-IsPiece cs h,
)

-- The cookies of a `Cookie` header, which leaves the headers.
pub parse_cookies-print_cookies :
    {J : Type 0} (r : HttpRequest J) (cs : List (Bytes × Bytes))
    → All IsCookie cs
    → find (codes "Cookie") r.headers ≡ some (joined b';' (print_cookies cs))
    → parse_cookies r
      ≡ record r { cookies = insert_all r.cookies cs; headers = erase (codes "Cookie") r.headers }
unfolding parse_cookies
parse_cookies-print_cookies r cs h e =
    rw (e, parse_cookies)
      (rw (
        lines-pieces b';' (joined b';' (print_cookies cs)),
        pieces-joined b';' (print_cookies cs) (print_cookies-IsPiece cs h),
        foldl-print_cookies r.cookies cs h,
      ))

pub parse_cookies-none :
    {J : Type 0} (r : HttpRequest J) → find (codes "Cookie") r.headers ≡ none → parse_cookies r ≡ r
unfolding parse_cookies
parse_cookies-none r e = rw (e, parse_cookies)
