-- ===== src/Examples/Texts.antt =====
-- Responses and templates.
use cdragon.Prelude.{
  List, equal, ℕ, ◌≡◌, refl, none, some, [], ◌∷◌, ◌++◌, Bytes, codes, Lacks, find_byte,
  find_byte-none,
}
use cdragon.Prelude.Assoc.{Assoc, find}
use cdragon.Http.Request.{trim}
use cdragon.Http.Request.Trim.{trim-append}
use cdragon.Http.Frame.{split_head, crlf_lines}
use cdragon.Http.Response.{HttpResponse, new_response, get_response}
use cdragon.Http.Response.Length.{body, header, status, apply_all, IsSized, apply_all-body-IsSized}
use cdragon.Http.Response.Wire.{wire_lines, split_head-get_response}
use cdragon.Regex.{regex_search, match_items, groups}
use cdragon.Template.{render, replace_variables}
use cdragon.Template.Variables.{Part, plain, var, print}
use cdragon.Template.Filling.{fill_part, replace_variables-print}
use cdragon.Template.Cycles.{HasUnknownList, render_never_ends}

abbrev page : HttpResponse
page = record {
  status = 200;
  headers = (codes "Content-Length", codes "4") ∷ [];
  cookie = (codes "sid", codes "1a") ∷ [];
  body = codes "\r\n\r\n";
}

no : (c : ℕ) (s : Bytes) → find_byte c s ≡ none → Lacks c s
no = find_byte-none

split_head-get_response_example :
    split_head (get_response page) ≡ some (crlf_lines (wire_lines page), codes "\r\n\r\n")
unfolding find_byte
split_head-get_response_example =
    split_head-get_response page ((no 13 (codes "Content-Length") refl, no 13 (codes "4") refl), tt)
      ((no 13 (codes "sid") refl, no 13 (codes "1a") refl), tt)

apply_all-body-IsSized_example : IsSized (
    apply_all
      ((status 404 ∷ []) ++ body (codes "ab") ∷ (header (codes "Content-Length") (codes "9") ∷ []))
      new_response)
apply_all-body-IsSized_example =
    apply_all-body-IsSized (status 404 ∷ []) (header (codes "Content-Length") (codes "9") ∷ [])
      (codes "ab") new_response

abbrev loop : Bytes
loop = codes "{{ for x in xs }}{{ x }}{{ endfor }}"

loop-HasUnknownList : HasUnknownList [] loop
unfolding regex_search match_items groups find
loop-HasUnknownList = (_, refl, refl)

render_never_ends_example : render 9 (some loop) [] ≡ none
render_never_ends_example = render_never_ends 9 [] loop loop-HasUnknownList

abbrev entries : Assoc (List Bytes)
entries = (codes "b", codes "2" ∷ codes "3" ∷ []) ∷ (codes "a", []) ∷ []

abbrev parts : List Part
parts = plain (codes "x") ∷ var (codes "a") ∷ var (codes "b") ∷ var (codes "c") ∷ []

replace_variables-print_example :
    replace_variables (codes "x{{ a }}{{ b }}{{ c }}") entries ≡ codes "x2{{ c }}"
unfolding find_byte print fill_part find equal
replace_variables-print_example =
    replace_variables-print entries parts
      (
        ((no b'{' (codes "b") refl, no b'}' (codes "b") refl), no b'{' (codes "2") refl),
        (((no b'{' (codes "a") refl, no b'}' (codes "a") refl), tt), tt),
      )
      (
        no b'{' (codes "x") refl,
        (
          (no b'{' (codes "a") refl, no b'}' (codes "a") refl),
          (
            (no b'{' (codes "b") refl, no b'}' (codes "b") refl),
            ((no b'{' (codes "c") refl, no b'}' (codes "c") refl), tt),
          ),
        ),
      )

trim-append_example : trim (codes " \tab\r") ≡ codes "ab"
trim-append_example =
    trim-append (codes " \t") (codes "ab") (codes "\r") (refl, (refl, tt)) (refl, tt) refl refl
