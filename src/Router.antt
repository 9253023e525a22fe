-- ===== src/Router.antt =====
-- include/router.h and src/router/router.cpp. A handler is a function of the request, the response
-- and the state that the handlers share.
pub mod Dispatch
pub mod Pattern
pub mod Registration
pub mod Captures
pub mod Apart
pub mod Plain
use cdragon.Prelude.{
  ℕ, zero, suc, Bool, true, false, not, Option, none, some, List, [], ◌∷◌, ◌++◌, ◌||◌, ◌&&◌, Bytes,
  codes, starts_with, ◌==◌, if◌then◌else◌,
}
use mathlib.Core.Option
use cdragon.Prelude.Assoc.{Assoc, find, insert}
use cdragon.Prelude.Result.{Result, ok}
use cdragon.Http.Request.{HttpRequest, parse_path_params}
use cdragon.Http.Response.{HttpResponse, set_status, add_header, set_body}
use cdragon.Regex.{Item, once, plus, regex_match, regex_replace, groups}

abbrev pub not_slash : ℕ → Bool
not_slash b = not (b == b'/')

-- <[^/]+>
abbrev pub parameter_pattern : List Item
parameter_pattern = once (λ b. b == b'<') ∷ plus false false not_slash ∷ once (λ b. b == b'>') ∷ []

abbrev pub group_text : Bytes
group_text = codes "([^/]+)"

abbrev pub is_special : ℕ → Bool
is_special b =
    b == b'^'
    || b == b'$'
    || b == b'\\'
    || b == b'*'
    || b == b'+'
    || b == b'?'
    || b == b'('
    || b == b')'
    || b == b'['
    || b == b']'
    || b == b'{'
    || b == b'}'
    || b == b'|'

abbrev pub single : ℕ → Item
single b = if b == b'.' then once (λ c. not (c == 10 || c == 13)) else once (λ c. c == b)

-- regex(pattern), for patterns of bytes, `.` and the group above; `none` for other syntax. The
-- number counts the bytes of a group that have been read already.
unfoldable pub read_regex : ℕ → Bytes → Option (List Item)
read_regex zero [] = some []
read_regex (suc skip) [] = none
read_regex (suc skip) (b ∷ s) = read_regex skip s
read_regex zero (b ∷ s) =
    let group = Option.map (λ is. plus true false not_slash ∷ is) (read_regex 6 s) in
    let byte = Option.map (λ is. single b ∷ is) (read_regex 0 s) in
    if starts_with group_text (b ∷ s) then group else if is_special b then none else byte

unfoldable pub compile : Bytes → Option (List Item)
compile path = read_regex 0 (regex_replace parameter_pattern group_text path)

pub record Router (H : Type 0) : Type 0 where
  pub static_routes : Assoc H
  pub dynamic_routes : List (List Item × H)

abbrev pub new_router : {H : Type 0} → Router H
new_router = record { static_routes = []; dynamic_routes = [] }

module _ {H : Type 0} where
  unfoldable pub add_static_route : Bytes → H → Router H → Router H
  add_static_route path handler r = record r { static_routes = insert path handler r.static_routes }

  -- `none` where the path uses more of the regex syntax.
  unfoldable pub add_dynamic_route : Bytes → H → Router H → Option (Router H)
  add_dynamic_route path handler r =
      Option.map (λ items. record r { dynamic_routes = r.dynamic_routes ++ (items, handler) ∷ [] })
        (compile path)

abbrev pub Handler : Type 0 → Type 0 → Type 0
Handler J S = HttpRequest J → HttpResponse → S → Result (HttpResponse × S)

-- The answer where no route fits.
unfoldable pub not_found : HttpResponse → HttpResponse
unfolding set_status add_header set_body
not_found response =
    set_body (codes "404 - Page is not found") (
      add_header (codes "Content-Type") (codes "text/html; charset=utf-8")
        (set_status 404 response))

or_not_found :
    {S : Type 0} → Option (Result (HttpResponse × S)) → HttpResponse → S → Result (HttpResponse × S)
or_not_found none response s = ok (not_found response, s)
or_not_found (some result) response s = result

or_dynamic :
    {S : Type 0}
    → Option (Result (HttpResponse × S))
    → Option (Result (HttpResponse × S))
    → Option (Result (HttpResponse × S))
or_dynamic none later = later
or_dynamic (some result) later = some result

module _ {J S : Type 0} where
  -- The loop over the dynamic routes; `none` if no pattern matches.
  unfoldable pub handle_dynamic_route :
      List (List Item × Handler J S)
      → Bytes
      → HttpRequest J
      → HttpResponse
      → S
      → Option (Result (HttpResponse × S))
  handle_dynamic_route [] path request response s = none
  handle_dynamic_route ((items, handler) ∷ routes) path request response s =
      elim (regex_match items path) [
        | some spans ↦ some (handler (parse_path_params (groups items spans) request) response s)
        | none ↦ handle_dynamic_route routes path request response s
      ]

  unfoldable pub handle_static_route :
      Assoc (Handler J S)
      → Bytes
      → HttpRequest J
      → HttpResponse
      → S
      → Option (Result (HttpResponse × S))
  handle_static_route routes path request response s =
      Option.map (λ handler. handler request response s) (find path routes)

  unfoldable pub handle_request : Router (Handler J S) → Handler J S
  unfolding handle_static_route or_not_found or_dynamic
  handle_request r request response s =
      or_not_found
        (or_dynamic (handle_static_route r.static_routes request.path request response s)
          (handle_dynamic_route r.dynamic_routes request.path request response s))
        response s
