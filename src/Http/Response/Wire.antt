-- ===== src/Http/Response/Wire.antt =====
-- The bytes of a response: a status line, header lines in the form that the request parser reads, a
-- blank line and the body.
use cdragon.Prelude.{
  ℕ, ◌+◌, ◌<◌, ◌≡◌, ◌≢◌, refl, none, some, List, [], ◌∷◌, ◌++◌, arith, Bytes, All, All-append,
  Lacks, codes, length, to_string, to_string-Lacks, equal, append_assoc, if◌then◌else◌,
}
use cdragon.Prelude.Assoc.{Assoc, find}
use cdragon.Http.Frame.{
  crlf_lines, IsLine, header_text, header_texts, split_head, split_head-crlf_lines,
}
use cdragon.Http.Response.{HttpResponse, print_headers, print_cookies, get_response}

abbrev status_line : HttpResponse → Bytes
status_line r = codes "HTTP/1.1 " ++ to_string r.status

-- The one `Set-Cookie` header, which holds every cookie.
pub cookie_text : Assoc Bytes → Bytes
cookie_text [] = codes "HttpOnly"
cookie_text ((k, v) ∷ cs) = k ++ (b'=' ∷ (v ++ (b';' ∷ 32 ∷ cookie_text cs)))

abbrev after_headers : Assoc Bytes → List (Bytes × Bytes) → List (Bytes × Bytes)
after_headers [] l = l
after_headers (h ∷ hs) l = h ∷ after_headers hs l

-- The headers in the order in which they go out.
abbrev pub wire_headers : HttpResponse → List (Bytes × Bytes)
wire_headers r =
    (codes "Content-Length", to_string (length r.body))
    ∷ after_headers r.headers ((codes "Set-Cookie", cookie_text r.cookie) ∷ [])

abbrev pub wire_lines : HttpResponse → List Bytes
wire_lines r = status_line r ∷ header_texts (wire_headers r)

print_cookies-cookie_text :
    (cs : Assoc Bytes) (s : Bytes)
    → print_cookies cs ++ (codes "HttpOnly" ++ s) ≡ cookie_text cs ++ s
unfolding print_cookies cookie_text
print_cookies-cookie_text [] s = refl
print_cookies-cookie_text ((k, v) ∷ cs) s = simp (append_assoc, print_cookies-cookie_text cs s)

print_headers-crlf_lines :
    (hs : Assoc Bytes) (l : List (Bytes × Bytes)) (s : Bytes)
    → print_headers hs ++ (crlf_lines (header_texts l) ++ s)
      ≡ crlf_lines (header_texts (after_headers hs l)) ++ s
unfolding print_headers crlf_lines
print_headers-crlf_lines [] l s = refl
print_headers-crlf_lines ((k, v) ∷ hs) l s = simp (append_assoc, ← print_headers-crlf_lines hs l s)

-- The last header line and the blank line.
cookie_line :
    (cs : Assoc Bytes) (body : Bytes)
    → codes "Set-Cookie: " ++ (print_cookies cs ++ (codes "HttpOnly" ++ (codes "\r\n\r\n" ++ body)))
      ≡ crlf_lines (header_texts ((codes "Set-Cookie", cookie_text cs) ∷ [])) ++ body
unfolding crlf_lines
cookie_line cs body =
    rw (print_cookies-cookie_text cs (codes "\r\n\r\n" ++ body)) (simp append_assoc)

-- A response is its lines, each ended by `\r\n`, an empty line, and the body.
pub get_response-wire_lines :
    (r : HttpResponse) → get_response r ≡ crlf_lines (wire_lines r) ++ r.body
unfolding get_response crlf_lines
get_response-wire_lines r = rw (cookie_line r.cookie r.body) (
    rw (print_headers-crlf_lines r.headers ((codes "Set-Cookie", cookie_text r.cookie) ∷ []) r.body)
      (simp append_assoc))

abbrev pub IsClean : Bytes × Bytes → Type 0
IsClean (k, v) = Lacks 13 k × Lacks 13 v

cookie_text-Lacks : (cs : Assoc Bytes) → All IsClean cs → Lacks 13 (cookie_text cs)
unfolding cookie_text
cookie_text-Lacks [] _ = omega arith
cookie_text-Lacks ((k, v) ∷ cs) ((p, q), h) =
    All-append (λ b. b ≢ 13) k _ p
      (
        omega arith,
        All-append (λ b. b ≢ 13) v _ q (omega arith, (omega arith, cookie_text-Lacks cs h)),
      )

pub header_text-IsLine : (k v : Bytes) → IsClean (k, v) → IsLine (header_text (k, v))
header_text-IsLine [] v (p, q) = ((λ e. cc), (omega arith, (omega arith, q)))
header_text-IsLine (b ∷ k) v ((p, q), r) =
    ((λ e. cc), (p, All-append (λ b. b ≢ 13) k _ q (omega arith, (omega arith, r))))

lines_clean :
    (hs : Assoc Bytes) (l : List (Bytes × Bytes))
    → All IsClean hs
    → All IsLine (header_texts l)
    → All IsLine (header_texts (after_headers hs l))
lines_clean [] l _ k = k
lines_clean ((k, v) ∷ hs) l (p, h) c = (header_text-IsLine k v p, lines_clean hs l h c)

wire_lines-IsLine :
    (r : HttpResponse) → All IsClean r.headers → All IsClean r.cookie → All IsLine (wire_lines r)
wire_lines-IsLine r h c = (
  (
    (λ e. cc),
    All-append (λ b. b ≢ 13) (codes "HTTP/1.1 ") (to_string r.status) (omega arith)
        (to_string-Lacks 13 r.status (omega arith)),
  ),
  (
    header_text-IsLine (codes "Content-Length") (to_string (length r.body))
        (omega arith, to_string-Lacks 13 (length r.body) (omega arith)),
    lines_clean r.headers ((codes "Set-Cookie", cookie_text r.cookie) ∷ []) h (
      header_text-IsLine (codes "Set-Cookie") (cookie_text r.cookie)
          (omega arith, cookie_text-Lacks r.cookie c),
      tt,
    ),
  ),
)

-- If no header and no cookie holds `\r`, the first blank line of a response ends its head, and what
-- stands behind it is the body, whatever bytes the body has. The lines of the head are the status,
-- `Content-Length`, the headers in their order, and one `Set-Cookie`, which is there without a cookie
-- too and holds all cookies and `HttpOnly`.
pub split_head-get_response :
    (r : HttpResponse)
    → All IsClean r.headers
    → All IsClean r.cookie
    → split_head (get_response r) ≡ some (crlf_lines (wire_lines r), r.body)
split_head-get_response r h c =
    rw (get_response-wire_lines r)
      (split_head-crlf_lines (wire_lines r) r.body (λ e. cc) (wire_lines-IsLine r h c))

unfoldable pub count : Bytes → List (Bytes × Bytes) → ℕ
count k [] = 0
count k ((j, v) ∷ hs) = (if equal j k then 1 else 0) + count k hs

count_after :
    (k : Bytes) (hs : Assoc Bytes) (l : List (Bytes × Bytes))
    → find k hs ≢ none
    → 0 < count k (after_headers hs l)
unfolding count find
count_after k [] l h = absurd (h refl)
count_after k ((j, v) ∷ hs) l h = ground (arith, count_after k hs l)

-- A response whose headers hold `Content-Length`, as `setBody` leaves it, sends it twice.
repeated_length :
    (r : HttpResponse)
    → find (codes "Content-Length") r.headers ≢ none
    → 1 < count (codes "Content-Length") (wire_headers r)
unfolding count equal
repeated_length r h = omega (
  arith,
  count_after (codes "Content-Length") r.headers ((codes "Set-Cookie", cookie_text r.cookie) ∷ [])
      h,
)
