-- ===== src/Examples/Server.antt =====
-- A request on its way through the server.
use cdragon.Prelude.{
  find_bytes, ℕ, suc, ◌≡◌, refl, none, some, Option, [], ◌∷◌, Bytes, codes, find_byte,
  find_byte-none, Lacks, arith, inl, replicate,
}
use cdragon.Prelude.Result.{Result, ok, length_error}
use cdragon.Prelude.Numerals.{stoi}
use cdragon.Http.Frame.{split_head}
use cdragon.Http.Request.{HttpRequest, new_request, parse_raw_meta_data}
use cdragon.Http.Request.Query.{print_target, print_cookies}
use cdragon.Http.Request.Head.{print_head}
use cdragon.Http.Stream.Lines.{joined, ended}
use cdragon.Prelude.Assoc.{find, insert, insert_all}
use cdragon.Http.Request.RoundTrip.{
  Sent, IsSent, print_sent, received, parse_raw_meta_data-print_sent,
}
use cdragon.Http.Response.{HttpResponse, new_response, get_response, set_body}
use cdragon.Http.Server.{
  sends, waits, crashes, closed, failed, serve, serve_connection, content_length, answer, whole,
}
use cdragon.Http.Server.EndToEnd.{HasNoReturn, serve_connection-print_sent}
use cdragon.Http.Server.Framing.{arrivals, arrives, serve_connection-arrivals}
use cdragon.Http.Server.Stalls.{closed_stalls, failed_crashes}

abbrev sent : Sent
sent = record {
  method = codes "GET";
  path = codes "/";
  query = (codes "a", codes "1") ∷ [];
  version = codes "HTTP/1.1";
  headers = (codes "Content-Length", codes "2") ∷ [];
  cookies = (codes "s", codes "1") ∷ [];
  body = codes "hi";
}

no : (c : ℕ) (s : Bytes) → find_byte c s ≡ none → Lacks c s
no = find_byte-none

sent-IsSent : IsSent sent
unfolding find_byte joined
sent-IsSent = record {
  method_ok = no 32 sent.method refl;
  path_ok = no 63 sent.path refl;
  target_ok = no 32 (print_target sent.path sent.query) refl;
  query_ok = ((no 61 (codes "a") refl, no 38 (codes "a") refl, no 38 (codes "1") refl), tt);
  version_ok = no 13 sent.version refl;
  headers_ok = (
    (
      no 58 (codes "Cookie") refl,
      no 10 (codes "Cookie") refl,
      no 10 (joined 59 (print_cookies ((codes "s", codes "1") ∷ []))) refl,
      refl,
      refl,
    ),
    (
      (
        no 58 (codes "Content-Length") refl,
        no 10 (codes "Content-Length") refl,
        no 10 (codes "2") refl,
        refl,
        refl,
      ),
      tt,
    ),
  );
  one_cookie = (ground arith, tt);
  cookies_ok = (
    (
      (no 61 (codes "s") refl, no 59 (codes "s") refl, no 59 (codes "1") refl),
      refl,
      refl,
      refl,
      refl,
    ),
    tt,
  );
}

abbrev handler : HttpRequest ℕ → HttpResponse → ℕ → Result (HttpResponse × ℕ)
handler request response s = ok (set_body request.path response, suc s)

abbrev no_json : Bytes → Option ℕ
no_json s = none

parse_raw_meta_data-print_sent_example :
    parse_raw_meta_data {J = ℕ} (new_request 0 (print_sent sent) sent.body) ≡ ok (received 0 sent)
parse_raw_meta_data-print_sent_example = parse_raw_meta_data-print_sent 0 sent sent-IsSent

sent-HasNoReturn : HasNoReturn sent
unfolding find_byte joined
sent-HasNoReturn = (
  no 13 sent.method refl,
  no 13 (print_target sent.path sent.query) refl,
  no 13 sent.version refl,
  (
    (
      no 13 (codes "Cookie") refl,
      no 13 (joined 59 (print_cookies ((codes "s", codes "1") ∷ []))) refl,
    ),
    ((no 13 (codes "Content-Length") refl, no 13 (codes "2") refl), tt),
  ),
)

serve_connection-print_sent_example :
    serve_connection 0 no_json handler (arrivals (print_sent sent ∷ sent.body ∷ [])) 7
    ≡ (sends (get_response (set_body (codes "/") new_response)), 8)
unfolding content_length find_bytes ended stoi print_head joined find insert_all insert
serve_connection-print_sent_example =
    serve_connection-print_sent 0 no_json handler sent (print_sent sent ∷ sent.body ∷ []) 7 8
      (set_body (codes "/") new_response) sent-IsSent sent-HasNoReturn refl (λ h. ground arith) refl
      refl

abbrev head : Bytes
head = codes "POST / HTTP/1.1\r\nContent-Length: 4\r\n\r\n"

serve_connection-arrivals_example :
    serve_connection 0 no_json handler (arrivals (head ∷ codes "ab" ∷ codes "cd" ∷ [])) 0
    ≡ answer 0 no_json handler head (whole (codes "abcd")) 0
unfolding split_head content_length stoi find_bytes
serve_connection-arrivals_example =
    serve_connection-arrivals 0 no_json handler head (codes "abcd")
      (head ∷ codes "ab" ∷ codes "cd" ∷ []) 0 refl refl refl

closed_stalls_example :
    serve 0 no_json handler (some (arrives (head ∷ codes "ab" ∷ []) (replicate 3 closed)) ∷ []) 0
    ≡ (waits ∷ [], 0)
unfolding split_head content_length stoi find_bytes
closed_stalls_example =
    closed_stalls 0 no_json handler head (codes "ab") (head ∷ codes "ab" ∷ []) 4 3 [] 0 refl refl
      (omega arith)

failed_crashes_example :
    serve 0 no_json handler (some (arrives (head ∷ codes "ab" ∷ []) (failed ∷ [])) ∷ []) 0
    ≡ (crashes length_error ∷ [], 0)
unfolding split_head content_length stoi find_bytes
failed_crashes_example =
    failed_crashes 0 no_json handler head (codes "ab") (head ∷ codes "ab" ∷ []) 4 (failed ∷ []) []
      [] 0 refl (inl (refl, omega arith, refl))
