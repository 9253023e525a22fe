-- ===== src/Http/Server/EndToEnd.antt =====
-- From a request that a client prints to the response that the server sends.
use cdragon.Prelude.{
  ℕ, ◌≡◌, ◌≢◌, ◌∙◌, Option, some, List, [], ◌∷◌, ◌++◌, arith, Bytes, All, All-append, Lacks, length,
  append_assoc,
}
use cdragon.Prelude.Result.{Result, ok}
use cdragon.Prelude.Numerals.{pos}
use cdragon.Http.Frame.{
  split_head, split_head-crlf_lines, crlf_lines, IsLine, header_texts, ended-head_lines,
}
use cdragon.Http.Request.{HttpRequest, parse}
use cdragon.Http.Request.Head.{print_head}
use cdragon.Http.Request.Query.{print_target, append_cons-ne-nil}
use cdragon.Http.Request.RoundTrip.{
  Sent, IsSent, all_headers, print_sent, received, HasJson, parse_raw_meta_data-print_sent,
  parse_raw_body_plain,
}
use cdragon.Http.Response.{HttpResponse, new_response, get_response}
use cdragon.Http.Response.Wire.{IsClean, header_text-IsLine}
use cdragon.Http.Server.{sends, answer, serve_connection, content_length}
use cdragon.Http.Server.Framing.{arrivals, concat, serve_connection-arrivals}

abbrev first_line : Sent → Bytes
first_line s = s.method ++ 32 ∷ (print_target s.path s.query ++ 32 ∷ s.version)

-- No `\r` stands in a part of the head.
abbrev pub HasNoReturn : Sent → Type 0
HasNoReturn s =
    Lacks 13 s.method
    × Lacks 13 (print_target s.path s.query)
    × Lacks 13 s.version
    × All IsClean (all_headers s)

print_sent-crlf_lines :
    (s : Sent) → print_sent s ≡ crlf_lines (first_line s ∷ header_texts (all_headers s))
unfolding print_head crlf_lines
print_sent-crlf_lines s = simp (append_assoc, ended-head_lines (all_headers s))

Lacks-append : (c : ℕ) (s t : Bytes) → Lacks c s → Lacks c t → Lacks c (s ++ t)
Lacks-append c = All-append (λ b. b ≢ c)

first_line-IsLine : (s : Sent) → HasNoReturn s → IsLine (first_line s)
first_line-IsLine s (m, t, v, _) = (
  append_cons-ne-nil s.method (print_target s.path s.query ++ 32 ∷ s.version) 32,
  Lacks-append 13 s.method _ m
      (omega arith, Lacks-append 13 (print_target s.path s.query) _ t (omega arith, v)),
)

header_texts-IsLine : (hs : List (Bytes × Bytes)) → All IsClean hs → All IsLine (header_texts hs)
header_texts-IsLine [] _ = tt
header_texts-IsLine ((k, v) ∷ hs) (p, h) = (header_text-IsLine k v p, header_texts-IsLine hs h)

split_head-print_sent :
    (s : Sent) → HasNoReturn s → split_head (print_sent s ++ s.body) ≡ some (print_sent s, s.body)
split_head-print_sent s h = rw (print_sent-crlf_lines s) (
    split_head-crlf_lines (first_line s ∷ header_texts (all_headers s)) s.body (λ e. cc)
      (first_line-IsLine s h, header_texts-IsLine (all_headers s) h.3))

module _ {J S : Type 0} (null : J) (parse_json : Bytes → Option J)
    (handle_request : HttpRequest J → HttpResponse → S → Result (HttpResponse × S)) where
  -- A request as a client prints it, with fields that its separators do not stand in (`IsSent`,
  -- `HasNoReturn`), with the length of its body, and a body that is not declared as JSON, arrives in
  -- any parts: if the handler returns, it has run once, on exactly what the client sent, and what it
  -- leaves in the response is what goes out.
  pub serve_connection-print_sent :
      (sent : Sent) (cs : List Bytes) (s s' : S) (response : HttpResponse)
      → IsSent sent
      → HasNoReturn sent
      → content_length (print_sent sent) ≡ some (ok (pos (length sent.body)))
      → ¬ HasJson (received null sent)
      → concat cs ≡ print_sent sent ++ sent.body
      → handle_request (received null sent) new_response s ≡ ok (response, s')
      → serve_connection null parse_json handle_request (arrivals cs) s
        ≡ (sends (get_response response), s')
  unfolding answer parse
  serve_connection-print_sent sent cs s s' response valid clean declared plain arrived handled =
      serve_connection-arrivals null parse_json handle_request (print_sent sent) sent.body cs s
        arrived (split_head-print_sent sent clean) declared
      ∙ rw (parse_raw_meta_data-print_sent null sent valid)
          (rw (parse_raw_body_plain parse_json (received null sent) plain) (rw handled))
