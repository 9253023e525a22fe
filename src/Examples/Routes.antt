-- ===== src/Examples/Routes.antt =====
-- Registered routes, and requests that take them.
use cdragon.Prelude.{ℕ, ◌≡◌, refl, some, List, [], ◌∷◌, Bytes, codes, All, arith}
use cdragon.Prelude.Assoc.{find}
use cdragon.Prelude.Result.{ok}
use cdragon.Http.Request.{HttpRequest, new_request, parse_path_params}
use cdragon.Http.Response.{new_response, set_status}
use cdragon.Regex.{Item, regex_match, match_items, groups}
use cdragon.Router.{Router, Handler, compile, handle_request}
use cdragon.Router.Dispatch.{dynamic, handle_request-follow}
use cdragon.Router.Pattern.{Segment, text, param, written, items, IsSegment, onces}
use cdragon.Router.Registration.{compile-written}
use cdragon.Router.Captures.{fill, Arguments, registered_captures, registered_matches}

abbrev article : List Segment
article = text (codes "a") ∷ param (codes "id") ∷ []

article-IsSegment : All IsSegment article
article-IsSegment =
    (((refl, ground arith, ground arith), tt), ((ground arith, (refl, (refl, tt))), tt))

abbrev arguments : List Bytes
arguments = codes "42" ∷ []

arguments-fit : Arguments article arguments
arguments-fit = ((ground arith, (refl, (refl, tt))), tt)

compile-written_example : compile (codes "/a/<id>") ≡ some (items article)
unfolding written
compile-written_example = compile-written article article-IsSegment

registered_captures_example :
    (is : List Item) × (compile (written article) ≡ some is)
    × ((ts : List Bytes) × (regex_match is (fill article arguments) ≡ some ts)
        × (groups is ts ≡ arguments))
registered_captures_example = registered_captures article arguments article-IsSegment arguments-fit

abbrev spans : List Bytes
spans = codes "/" ∷ codes "a" ∷ codes "/" ∷ codes "42" ∷ []

article_match : regex_match (items article) (codes "/a/42") ≡ some spans
unfolding match_items items onces
article_match = refl

registered_matches_example :
    (codes "/a/42" ≡ fill article (groups (items article) spans))
    × Arguments article (groups (items article) spans)
registered_matches_example =
    registered_matches article (codes "/a/42") (items article) spans article-IsSegment
      (compile-written article article-IsSegment) article_match

abbrev teapot : Handler ℕ ℕ
teapot request response s = ok (set_status 418 response, s)

abbrev router : Router (Handler ℕ ℕ)
router = record { static_routes = []; dynamic_routes = (items article, teapot) ∷ [] }

abbrev request : HttpRequest ℕ
request = record (new_request 0 [] []) { path = codes "/a/42" }

handle_request-follow_example :
    handle_request router request new_response 5
    ≡ teapot (parse_path_params (groups (items article) spans) request) new_response 5
unfolding find
handle_request-follow_example =
    handle_request-follow router request new_response 5
      (dynamic [] [] (items article) teapot spans refl refl tt article_match)
