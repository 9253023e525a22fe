-- ===== src/Http/Server.antt =====
-- src/http/http_server.cpp: the loop over connections. The socket calls enter as what they return:
-- a list of reads for each connection. A `read` with no result left is one that never returns.
pub mod Framing
pub mod Stalls
pub mod EndToEnd
use cdragon.Prelude.{
  ℕ, ◌+◌, Bool, true, false, Option, none, some, List, [], ◌∷◌, ◌++◌, Bytes, codes, find_bytes,
  is_empty, length, take, drop, ltb, if◌then◌else◌,
}
use cdragon.Prelude.Result.{Exception, Result, ok, throws, length_error}
use cdragon.Prelude.Numerals.{ℤ, pos, negsuc, stoi}
use cdragon.Http.Frame.{blank_line, split_head}
use cdragon.Http.Request.{HttpRequest, new_request, parse}
use cdragon.Http.Response.{HttpResponse, new_response, get_response}

-- What `read` returns: bytes, 0 at the end of the stream, -1 on an error.
pub data Read : Type 0 where
  bytes : Bytes → Read
  closed : Read
  failed : Read

-- How far the server gets with one connection.
pub data Outcome : Type 0 where
  -- it waits in `read`, or spins, for ever
  waits : Outcome
  -- `continue`: nothing is sent and the socket is left open
  dropped : Outcome
  -- an exception leaves `start`, and with it the program
  crashes : Exception → Outcome
  -- the bytes are sent and the socket is closed
  sends : Bytes → Outcome

-- What the first loop has read, and the reads that are left; `none` if it never ends.
pub has_blank_line : Bytes → Bool
has_blank_line s = elim (find_bytes blank_line s) [ none ↦ false | some _ ↦ true ]

unfoldable pub read_head : Bytes → List Read → Option (Bytes × List Read)
unfolding has_blank_line
read_head headers [] = none
read_head headers (bytes b ∷ reads) =
    let more = read_head (headers ++ b) reads in
    if has_blank_line (headers ++ b) then some (headers ++ b, reads) else more
read_head headers (closed ∷ reads) = some (headers, reads)
read_head headers (failed ∷ reads) = some (headers, reads)

-- The body after the second loop.
pub data Body : Type 0 where
  never : Body
  broken : Exception → Body
  whole : Bytes → Body

-- while (total_read < content_length); a read of -1 makes a string of 2^64 - 1 bytes
unfoldable pub read_body : ℕ → Bytes → List Read → Body
read_body content_length body [] = if ltb (length body) content_length then never else whole body
read_body content_length body (bytes b ∷ reads) =
    let more = read_body content_length (body ++ b) reads in
    if ltb (length body) content_length then more else whole body
read_body content_length body (closed ∷ reads) =
    let more = read_body content_length body reads in
    if ltb (length body) content_length then more else whole body
read_body content_length body (failed ∷ reads) =
    if ltb (length body) content_length then broken length_error else whole body

-- body.reserve(content_length), which a negative length makes too large, and the loop
receive : Result ℤ → Bytes → List Read → Body
receive (throws e) body reads = broken e
receive (ok (negsuc n)) body reads = broken length_error
receive (ok (pos n)) body reads = read_body n body reads

-- The body of a head, by the first `Content-Length:` in its text.
unfoldable pub content_length : Bytes → Option (Result ℤ)
content_length headers = elim (find_bytes (codes "Content-Length:") headers) [
  | none ↦ none
  | some n ↦ some (stoi (drop (n + 15) headers))
]

unfoldable pub receive_body : Option (Result ℤ) → Bytes → List Read → Body
unfolding receive
receive_body none body reads = whole body
receive_body (some declared) body reads = receive declared body reads

-- The round that failed to end is the last.
after_round : {S : Type 0} → Outcome × S → (S → List Outcome × S) → List Outcome × S
after_round (waits, s) next = (waits ∷ [], s)
after_round (crashes e, s) next = (crashes e ∷ [], s)
after_round (dropped, s) next = let (outcomes, s') = next s in (dropped ∷ outcomes, s')
after_round (sends b, s) next = let (outcomes, s') = next s in (sends b ∷ outcomes, s')

module _ {J S : Type 0} (null : J) (parse_json : Bytes → Option J)
    (handle_request : HttpRequest J → HttpResponse → S → Result (HttpResponse × S)) where
  -- A request that has been read, with the state of the handlers.
  answered : Result (HttpResponse × S) → S → Outcome × S
  answered (throws e) s = (crashes e, s)
  answered (ok (response, s')) s = (sends (get_response response), s')

  handled : Result (HttpRequest J) → S → Outcome × S
  unfolding answered
  handled (throws e) s = (crashes e, s)
  handled (ok request) s = answered (handle_request request new_response s) s

  unfoldable pub answer : Bytes → Body → S → Outcome × S
  unfolding handled
  answer headers never s = (waits, s)
  answer headers (broken e) s = (crashes e, s)
  answer headers (whole body) s = handled (parse parse_json (new_request null headers body)) s

  with_head : Option (Bytes × Bytes) → List Read → S → Outcome × S
  with_head none reads s = (dropped, s)
  with_head (some (headers, body)) reads s =
      answer headers (receive_body (content_length headers) body reads) s

  received_head : Option (Bytes × List Read) → S → Outcome × S
  unfolding with_head
  received_head none s = (waits, s)
  received_head (some (headers, reads)) s =
      if is_empty headers then (dropped, s) else with_head (split_head headers) reads s

  -- One round of the loop of `start`, behind `accept`.
  unfoldable pub serve_connection : List Read → S → Outcome × S
  unfolding received_head
  serve_connection reads s = received_head (read_head [] reads) s

  -- The rounds, one connection after the other; `none` where `accept` fails.
  unfoldable pub serve : List (Option (List Read)) → S → List Outcome × S
  unfolding after_round
  serve [] s = ([], s)
  serve (none ∷ connections) s = serve connections s
  serve (some reads ∷ connections) s = after_round (serve_connection reads s) (serve connections)
