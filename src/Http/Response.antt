-- ===== src/Http/Response.antt =====
-- src/http/http_response.cpp and include/http_response.h. A status is a number, since the routes
-- set no negative one.
pub mod Length
pub mod Wire
use cdragon.Prelude.{ℕ, Option, none, some, List, [], ◌∷◌, ◌++◌, Bytes, codes, length, to_string}
use cdragon.Prelude.Assoc.{Assoc, find, insert, assign}

pub record HttpResponse : Type 0 where
  pub status : ℕ
  pub headers : Assoc Bytes
  pub cookie : Assoc Bytes
  pub body : Bytes

abbrev pub new_response : HttpResponse
new_response = record { status = 200; headers = []; cookie = []; body = [] }

unfoldable pub set_status : ℕ → HttpResponse → HttpResponse
set_status status r = record r { status = status }

unfoldable pub add_header : Bytes → Bytes → HttpResponse → HttpResponse
add_header key value r = record r { headers = insert key value r.headers }

unfoldable pub add_cookie : Bytes → Bytes → HttpResponse → HttpResponse
add_cookie key value r = record r { cookie = insert key value r.cookie }

unfoldable pub set_body : Bytes → HttpResponse → HttpResponse
unfolding add_header
set_body body r =
    let size = to_string (length body) in
    elim (find (codes "Content-Length") r.headers) [
      | some _ ↦ record r { body = body; headers = assign (codes "Content-Length") size r.headers }
      | none ↦ add_header (codes "Content-Length") size (record r { body = body })
    ]

-- The loop over the headers.
print_headers : Assoc Bytes → Bytes
print_headers [] = []
print_headers ((k, v) ∷ hs) = k ++ (codes ": " ++ (v ++ (codes "\r\n" ++ print_headers hs)))

-- The loop over the cookies.
print_cookies : Assoc Bytes → Bytes
print_cookies [] = []
print_cookies ((k, v) ∷ cs) = k ++ (codes "=" ++ (v ++ (codes "; " ++ print_cookies cs)))

unfoldable pub get_response : HttpResponse → Bytes
unfolding print_headers print_cookies
get_response r =
    codes "HTTP/1.1 "
    ++ (to_string r.status
        ++ (codes "\r\n"
            ++ (codes "Content-Length: "
                ++ (to_string (length r.body)
                    ++ (codes "\r\n"
                        ++ (print_headers r.headers
                            ++ (codes "Set-Cookie: "
                                ++ (print_cookies r.cookie
                                    ++ (codes "HttpOnly" ++ (codes "\r\n\r\n" ++ r.body))))))))))
