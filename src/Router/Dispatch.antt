-- ===== src/Router/Dispatch.antt =====
-- Which handler a request reaches.
use cdragon.Prelude.{
  ◌≡◌, refl, ◌∙◌, none, some, inl, inr, List, [], ◌∷◌, ◌++◌, Bytes, All, All-append, append-nil,
  append_assoc, sym, Option-cases,
}
use cdragon.Prelude.Assoc.{find}
use cdragon.Prelude.Result.{ok}
use cdragon.Http.Request.{HttpRequest, parse_path_params}
use cdragon.Http.Response.{HttpResponse}
use cdragon.Regex.{Item, regex_match, groups}
use cdragon.Router.{Router, Handler, not_found, handle_request, handle_dynamic_route}

module _ {J S : Type 0} where
  -- The route that a path takes: the static route of that very path, or else the first dynamic
  -- route whose pattern matches it, or else none.
  pub data Route (r : Router (Handler J S)) (path : Bytes) : Type 0 where
    static : (handler : Handler J S) → find path r.static_routes ≡ some handler → Route r path
    dynamic :
        (before after : List (List Item × Handler J S)) (items : List Item) (handler : Handler J S)
        (spans : List Bytes)
        → find path r.static_routes ≡ none
        → r.dynamic_routes ≡ before ++ (items, handler) ∷ after
        → All (λ d. regex_match d.0 path ≡ none) before
        → regex_match items path ≡ some spans
        → Route r path
    missing :
        find path r.static_routes ≡ none
        → All (λ d. regex_match d.0 path ≡ none) r.dynamic_routes
        → Route r path

  -- What the route does with a request.
  abbrev pub follow : {r : Router (Handler J S)} {path : Bytes} → Route r path → Handler J S
  follow (static handler _) request response s = handler request response s
  follow (dynamic _ _ items handler spans _ _ _ _) request response s =
      handler (parse_path_params (groups items spans) request) response s
  follow (missing _ _) request response s = ok (not_found response, s)

  dynamic_first :
      (before after : List (List Item × Handler J S)) (items : List Item) (handler : Handler J S)
      (spans : List Bytes) (path : Bytes) (request : HttpRequest J) (response : HttpResponse)
      (s : S)
      → All (λ d. regex_match d.0 path ≡ none) before
      → regex_match items path ≡ some spans
      → handle_dynamic_route (before ++ (items, handler) ∷ after) path request response s
        ≡ some (handler (parse_path_params (groups items spans) request) response s)
  unfolding handle_dynamic_route
  dynamic_first [] after items handler spans path request response s _ e =
      rw (e, handle_dynamic_route)
  dynamic_first ((other, _) ∷ before) after items handler spans path request response s (ne, h) e =
      rw (ne, handle_dynamic_route)
        (dynamic_first before after items handler spans path request response s h e)

  dynamic_none :
      (routes : List (List Item × Handler J S)) (path : Bytes) (request : HttpRequest J)
      (response : HttpResponse) (s : S)
      → All (λ d. regex_match d.0 path ≡ none) routes
      → handle_dynamic_route routes path request response s ≡ none
  unfolding handle_dynamic_route
  dynamic_none [] path request response s _ = refl
  dynamic_none ((items, _) ∷ routes) path request response s (ne, h) =
      rw (ne, handle_dynamic_route) (dynamic_none routes path request response s h)

  -- A request is handled as its route says: a static route before every dynamic one, those in the
  -- order in which they were added, the groups of the match as path parameters, and 404 if nothing
  -- fits.
  pub handle_request-follow :
      (r : Router (Handler J S)) (request : HttpRequest J) (response : HttpResponse) (s : S)
      (route : Route r request.path)
      → handle_request r request response s ≡ follow route request response s
  unfolding handle_request
  handle_request-follow r request response s (static handler e) = rw e
  handle_request-follow r request response s (dynamic before after items handler spans e same h m) =
      rw e (
        rw same
          (rw (dynamic_first before after items handler spans request.path request response s h m)))
  handle_request-follow r request response s (missing e h) =
      rw e (rw (dynamic_none r.dynamic_routes request.path request response s h))

  pick :
      (r : Router (Handler J S)) (path : Bytes) (before routes : List (List Item × Handler J S))
      → find path r.static_routes ≡ none
      → r.dynamic_routes ≡ before ++ routes
      → All (λ d. regex_match d.0 path ≡ none) before
      → Route r path
  pick r path before [] e same h = missing e (rw (same, append-nil before) h)
  pick r path before ((items, handler) ∷ routes) e same h =
      let next =
        pick r path (before ++ (items, handler) ∷ []) routes e
          (same ∙ sym (append_assoc before ((items, handler) ∷ []) routes)) in
      elim (Option-cases (regex_match items path)) [
        | inl no_match ↦ next (
            All-append (λ d. regex_match d.0 path ≡ none) before ((items, handler) ∷ []) h
              (no_match, tt))
        | inr (spans, m) ↦ dynamic before routes items handler spans e same h m
      ]

  -- And every path has a route.
  pub route : (r : Router (Handler J S)) (path : Bytes) → Route r path
  route r path = elim (Option-cases (find path r.static_routes)) [
    | inl e ↦ pick r path [] r.dynamic_routes e refl tt
    | inr (handler, e) ↦ static handler e
  ]
