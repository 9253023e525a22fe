-- ===== src/Http/Server/Stalls.antt =====
-- What a peer can do to the server: it handles one connection at a time, and ends on an exception.
use cdragon.Prelude.{
  ◌⊎◌, inl, inr, ℕ, zero, suc, ◌<◌, ◌≡◌, ap, sym, ◌∙◌, Option, some, List, [], ◌∷◌, ◌++◌, Bytes,
  length, length-append, append_assoc, append-nil, replicate, lt→ltb, arith,
}
use cdragon.Prelude.Result.{Result, ok, length_error, throws, Exception}
use cdragon.Prelude.Numerals.{pos, negsuc}
use cdragon.Http.Frame.{split_head}
use cdragon.Http.Request.{HttpRequest}
use cdragon.Http.Response.{HttpResponse}
use cdragon.Http.Server.{
  Read, closed, failed, waits, crashes, never, broken, read_body, content_length, receive_body,
  answer, serve_connection, serve,
}
use cdragon.Http.Server.Framing.{
  arrives, concat, read_head-arrives, split_head-append, split_head-has_blank_line, no_blank_line,
  not_empty,
}

-- A stream that has ended returns 0 again and again, and the second loop goes on.
read_body-closed : (n k : ℕ) (b : Bytes) → length b < n → read_body n b (replicate k closed) ≡ never
unfolding read_body
read_body-closed n zero b h = rw (lt→ltb (length b) n h)
read_body-closed n (suc k) b h = rw (lt→ltb (length b) n h) (read_body-closed n k b h)

read_body-failed :
    (n : ℕ) (b : Bytes) (reads : List Read)
    → length b < n
    → read_body n b (failed ∷ reads) ≡ broken length_error
unfolding read_body
read_body-failed n b reads h = rw (lt→ltb (length b) n h)

-- The parts that are there do not end the second loop before the declared length.
read_body-arrives :
    (n : ℕ) (b : Bytes) (cs : List Bytes) (reads : List Read)
    → length (b ++ concat cs) < n
    → read_body n b (arrives cs reads) ≡ read_body n (b ++ concat cs) reads
unfolding read_body
read_body-arrives n b [] reads lt = ap (λ u. read_body n u reads) (sym (append-nil b))
read_body-arrives n b (c ∷ cs) reads lt =
    let same = append_assoc b c (concat cs) in
    let short : length b < n = omega (arith, lt, length-append b (c ++ concat cs)) in
    rw (lt→ltb (length b) n short)
      (read_body-arrives n (b ++ c) cs reads (rw same lt) ∙ ap (λ u. read_body n u reads) same)

module _ {J S : Type 0} (null : J) (parse_json : Bytes → Option J)
    (handle_request : HttpRequest J → HttpResponse → S → Result (HttpResponse × S)) where
  -- A head has come, in whatever parts, with a part of the body, and other reads follow.
  head_read :
      (head part : Bytes) (cs : List Bytes) (reads : List Read) (s : S)
      → split_head (concat cs) ≡ some (head, part)
      → (b : Bytes) × (rest : List Bytes) × (b ++ concat rest ≡ part)
        × (serve_connection null parse_json handle_request (arrives cs reads) s
            ≡ answer null parse_json handle_request head
                (receive_body (content_length head) b (arrives rest reads))
                s)
  unfolding serve_connection
  head_read head part cs reads s cut =
      let found = split_head-has_blank_line (concat cs) cut in
      let (p, rest, run, hit, same) = read_head-arrives [] cs reads no_blank_line found in
      let (b, cut', joined) = split_head-append p (concat rest) head part hit (rw same cut) in
      (b, rest, joined, rw run (rw (not_empty p hit) (rw cut')))

  -- A peer that has sent a head, in whatever parts, and closes before the declared body is there:
  -- however often `read` returns 0, the server does not leave the loop, and no later connection is
  -- served.
  pub closed_stalls :
      (head part : Bytes) (cs : List Bytes) (n k : ℕ) (connections : List (Option (List Read)))
      (s : S)
      → split_head (concat cs) ≡ some (head, part)
      → content_length head ≡ some (ok (pos n))
      → length part < n
      → serve null parse_json handle_request
          (some (arrives cs (replicate k closed)) ∷ connections)
          s
        ≡ (waits ∷ [], s)
  unfolding serve receive_body answer
  closed_stalls head part cs n k connections s cut declared short =
      let (b, rest, joined, run) = head_read head part cs (replicate k closed) s cut in
      let short' : length (b ++ concat rest) < n = rw joined short in
      rw run (
        rw declared (
          rw (read_body-arrives n b rest (replicate k closed) short')
            (rw (read_body-closed n k (b ++ concat rest) short'))))

  -- A head has come, in whatever parts. A read that fails while the declared body is not yet there,
  -- and a declared length that is negative, whatever is read then, make an exception that ends the
  -- program: no later connection is served.
  pub failed_crashes :
      (head part : Bytes) (cs : List Bytes) (n : ℕ) (reads more : List Read)
      (connections : List (Option (List Read))) (s : S)
      → split_head (concat cs) ≡ some (head, part)
      → ((content_length head ≡ some (ok (pos n))) × (length part < n) × (reads ≡ failed ∷ more))
        ⊎ (content_length head ≡ some (ok (negsuc n)))
      → serve null parse_json handle_request (some (arrives cs reads) ∷ connections) s
        ≡ (crashes length_error ∷ [], s)
  unfolding serve receive_body answer
  failed_crashes head part cs n reads more connections s cut (inl (declared, short, next)) =
      let (b, rest, joined, run) = head_read head part cs reads s cut in
      let short' : length (b ++ concat rest) < n = rw joined short in
      let fails =
        ap (read_body n (b ++ concat rest)) next
        ∙ read_body-failed n (b ++ concat rest) more short' in
      rw run (rw declared (rw (read_body-arrives n b rest reads short' ∙ fails)))
  failed_crashes head part cs n reads more connections s cut (inr declared) =
      let (b, rest, joined, run) = head_read head part cs reads s cut in rw run (rw declared)

  -- A `Content-Length` that is no number ends the program too.
  pub bad_length_crashes :
      (head part : Bytes) (cs : List Bytes) (e : Exception) (reads : List Read)
      (connections : List (Option (List Read))) (s : S)
      → split_head (concat cs) ≡ some (head, part)
      → content_length head ≡ some (throws e)
      → serve null parse_json handle_request (some (arrives cs reads) ∷ connections) s
        ≡ (crashes e ∷ [], s)
  unfolding serve receive_body answer
  bad_length_crashes head part cs e reads connections s cut declared =
      let (b, rest, joined, run) = head_read head part cs reads s cut in rw run (rw declared)
