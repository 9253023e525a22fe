-- ===== src/Http/Request.antt =====
-- src/http/http_request.cpp and include/http_request.h. An `HttpRequest` is generic in the type of
-- JSON values, which a library outside the program provides together with its parser.
pub mod Trim
pub mod Head
pub mod Query
pub mod RoundTrip
use cdragon.Prelude.{
  ℕ, suc, ◌+◌, ◌-◌, Bool, false, Option, none, some, List, [], ◌∷◌, ◌++◌, ◌||◌, take, drop, length,
  Bytes, codes, equal, is_empty, find_byte, ltb, ◌==◌, if◌then◌else◌,
}
use mathlib.Core.List.{foldl}
use mathlib.Core.Option
use cdragon.Prelude.Assoc.{Assoc, find, insert, erase}
use cdragon.Prelude.Result.{
  Result, ok, throws, ◌>>=◌, fold, runtime_error, out_of_range, json_exception,
}
use cdragon.Http.Stream.{Stream, open_stream, getline, ignore, lines}

pub record HttpRequest (J : Type 0) : Type 0 where
  pub raw_meta_data : Bytes
  pub raw_body : Bytes
  pub method : Bytes
  pub path : Bytes
  pub protocol_version : Bytes
  pub query_params : Assoc Bytes
  pub headers : Assoc Bytes
  pub cookies : Assoc Bytes
  pub json_data : J
  pub path_params : List Bytes

-- A request as the server makes it: the defaults, then `setRawMetaData` and `setRawBody`.
abbrev pub new_request : {J : Type 0} → J → Bytes → Bytes → HttpRequest J
new_request null head body = record {
  raw_meta_data = head;
  raw_body = body;
  method = [];
  path = [];
  protocol_version = [];
  query_params = [];
  headers = [];
  cookies = [];
  json_data = null;
  path_params = [];
}

-- str.substr(pos)
unfoldable pub substr_from : ℕ → Bytes → Result Bytes
substr_from pos s = if ltb (length s) pos then throws out_of_range else ok (drop pos s)

-- " \r\n\t"
abbrev pub is_blank : ℕ → Bool
is_blank b = b == 32 || b == 13 || b == 10 || b == 9

unfoldable pub find_first_not_blank : Bytes → Option ℕ
find_first_not_blank [] = none
find_first_not_blank (b ∷ s) =
    let later = Option.map suc (find_first_not_blank s) in if is_blank b then later else some 0

unfoldable pub find_last_not_blank : Bytes → Option ℕ
find_last_not_blank [] = none
find_last_not_blank (b ∷ s) = elim (find_last_not_blank s) [
  | some n ↦ some (suc n)
  | none ↦ if is_blank b then none else some 0
]

abbrev cut : Bytes → Option ℕ → Option ℕ → Bytes
cut s none _ = []
cut s (some first) none = drop first s
cut s (some first) (some last) = take (last - first + 1) (drop first s)

unfoldable pub trim : Bytes → Bytes
unfolding find_first_not_blank find_last_not_blank
trim str = cut str (find_first_not_blank str) (find_last_not_blank str)

-- One round of the loop of `parseQueryParams`.
unfoldable pub add_param : Assoc Bytes → Bytes → Assoc Bytes
add_param m param = elim (find_byte b'=' param) [
  | none ↦ m
  | some pos ↦ insert (take pos param) (drop (suc pos) param) m
]

-- One round of the loop of `parseHeaders`.
unfoldable pub add_header : Assoc Bytes → Bytes → Result (Assoc Bytes)
unfolding substr_from
add_header m line = elim (find_byte b':' line) [
  | none ↦ ok m
  | some pos ↦ do value ← substr_from (pos + 2) line; ok (insert (take pos line) (trim value) m)
]

-- One round of the loop of `parseCookies`.
unfoldable pub add_cookie : Assoc Bytes → Bytes → Assoc Bytes
add_cookie m part = elim (find_byte b'=' part) [
  | none ↦ m
  | some pos ↦ insert (trim (take pos part)) (trim (drop (suc pos) part)) m
]

module _ {J : Type 0} where
  split_path : HttpRequest J → Option ℕ → HttpRequest J
  split_path r none = r
  split_path r (some pos) = record r {
    path = take pos r.path;
    query_params =
        foldl add_param r.query_params (lines b'&' (open_stream (drop (suc pos) r.path)));
  }

  unfoldable pub parse_query_params : HttpRequest J → HttpRequest J
  unfolding split_path
  parse_query_params r = split_path r (find_byte b'?' r.path)

  unfoldable pub parse_headers : Stream → HttpRequest J → Result (HttpRequest J)
  parse_headers st r = do
    headers ← fold add_header r.headers (lines 10 st)
    ok (record r { headers = headers })

  take_cookies : HttpRequest J → Option Bytes → HttpRequest J
  take_cookies r none = r
  take_cookies r (some text) = record r {
    cookies = foldl add_cookie r.cookies (lines b';' (open_stream text));
    headers = erase (codes "Cookie") r.headers;
  }

  unfoldable pub parse_cookies : HttpRequest J → HttpRequest J
  unfolding take_cookies
  parse_cookies r = take_cookies r (find (codes "Cookie") r.headers)

  unfoldable pub parse_raw_meta_data : HttpRequest J → Result (HttpRequest J)
  parse_raw_meta_data r =
      if is_empty r.raw_meta_data then throws (runtime_error "empty meta data") else do
        let (_, method, s1) = getline 32 (open_stream r.raw_meta_data) r.method
        let (_, path, s2) = getline 32 s1 r.path
        let (_, version, s3) = getline 13 s2 r.protocol_version
        let r' =
            parse_query_params
              (record r { method = method; path = path; protocol_version = version })
        parsed ← parse_headers (ignore s3) r'
        ok (parse_cookies parsed)

module _ {J : Type 0} (parse_json : Bytes → Option J) where
  unfoldable pub parse_json_data : HttpRequest J → Result (HttpRequest J)
  parse_json_data r =
      if is_empty r.raw_body
      then throws (runtime_error "body is empty")
      else elim (parse_json r.raw_body) [
        | none ↦ throws json_exception
        | some j ↦ ok (record r { json_data = j })
      ]

  is_json : Option Bytes → Bool
  is_json none = false
  is_json (some kind) = equal kind (codes "application/json")

  unfoldable pub parse_raw_body : HttpRequest J → Result (HttpRequest J)
  unfolding is_json
  parse_raw_body r =
      if is_empty r.raw_body
      then ok r
      else if is_json (find (codes "Content-Type") r.headers)
      then parse_json_data r
      else ok r

  unfoldable pub parse : HttpRequest J → Result (HttpRequest J)
  parse r = do read ← parse_raw_meta_data r; parse_raw_body read

-- The captures of a route, behind what is there.
unfoldable pub parse_path_params : {J : Type 0} → List Bytes → HttpRequest J → HttpRequest J
parse_path_params captures r = record r { path_params = r.path_params ++ captures }
