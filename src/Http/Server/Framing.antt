-- ===== src/Http/Server/Framing.antt =====
-- However the bytes of a request arrive, the server takes the same head and body from them.
use cdragon.Prelude.{
  ℕ, zero, suc, ◌+◌, ◌≤◌, ◌≡◌, refl, ◌∙◌, ap, sym, true, false, Option, some, inl, inr, List, [],
  ◌∷◌, ◌++◌, arith, Bytes, length, length-append, take, drop, ltb, find_bytes, is_empty,
  append_assoc, append-nil, Option-cases, Bool-cases,
}
use cdragon.Prelude.Search.{find_bytes-le, find_bytes-append}
use cdragon.Prelude.Result.{Result, ok}
use cdragon.Prelude.Numerals.{pos}
use cdragon.Http.Frame.{blank_line, split_head}
use cdragon.Http.Request.{HttpRequest}
use cdragon.Http.Response.{HttpResponse}
use cdragon.Http.Server.{
  Read, bytes, whole, has_blank_line, read_head, read_body, content_length, receive_body, answer,
  serve_connection,
}

-- The reads that return the parts of a text.
abbrev pub arrivals : List Bytes → List Read
arrivals [] = []
arrivals (c ∷ cs) = bytes c ∷ arrivals cs

-- The same, with other reads behind them.
abbrev pub arrives : List Bytes → List Read → List Read
arrives [] reads = reads
arrives (c ∷ cs) reads = bytes c ∷ arrives cs reads

arrives-nil : (cs : List Bytes) → arrives cs [] ≡ arrivals cs
arrives-nil [] = refl
arrives-nil (c ∷ cs) = ap (λ reads. bytes c ∷ reads) (arrives-nil cs)

abbrev pub concat : List Bytes → Bytes
concat [] = []
concat (c ∷ cs) = c ++ concat cs

take-append : (n : ℕ) (s t : Bytes) → n ≤ length s → take n (s ++ t) ≡ take n s
take-append zero s t h = refl
take-append (suc n) [] t h = absurd (omega arith)
take-append (suc n) (b ∷ s) t h = rw (take-append n s t (omega arith))

drop-append : (n : ℕ) (s t : Bytes) → n ≤ length s → drop n (s ++ t) ≡ drop n s ++ t
drop-append zero s t h = refl
drop-append (suc n) [] t h = absurd (omega arith)
drop-append (suc n) (b ∷ s) t h = drop-append n s t (omega arith)

-- The cut of what has been read so far is the cut of the whole, up to bytes still to come.
pub split_head-append :
    (p t h b : Bytes)
    → has_blank_line p ≡ true
    → split_head (p ++ t) ≡ some (h, b)
    → (b' : Bytes) × (split_head p ≡ some (h, b')) × (b' ++ t ≡ b)
unfolding split_head has_blank_line
split_head-append p t h b found e = elim (Option-cases (find_bytes blank_line p)) [
  | inl missing ↦ absurd (ground arith)
  | inr (n, first) ↦
      let fits = find_bytes-le blank_line p n first in
      let whole_cut = rw (find_bytes-append blank_line p t n first, split_head) at e in
      (
        drop (n + 4) p,
        rw (first, split_head) (cc (take-append (n + 4) p t fits, whole_cut)),
        cc (drop-append (n + 4) p t fits, whole_cut),
      )
]

-- The first loop stops behind some part that completes a blank line.
pub read_head-arrives :
    (acc : Bytes) (cs : List Bytes) (reads : List Read)
    → has_blank_line acc ≡ false
    → has_blank_line (acc ++ concat cs) ≡ true
    → (p : Bytes) × (rest : List Bytes) × (read_head acc (arrives cs reads)
        ≡ some (p, arrives rest reads))
      × (has_blank_line p ≡ true)
      × (p ++ concat rest ≡ acc ++ concat cs)
unfolding read_head
read_head-arrives acc [] reads none_yet found = cc (append-nil acc)
read_head-arrives acc (c ∷ cs) reads none_yet found =
    elim (Bool-cases (has_blank_line (acc ++ c))) [
      | inl yet ↦ (acc ++ c, cs, rw yet, yet, append_assoc acc c (concat cs))
      | inr no_more ↦
          let (p, rest, run, hit, same) =
            read_head-arrives (acc ++ c) cs reads no_more
              (rw (append_assoc acc c (concat cs)) found) in
          (p, rest, rw no_more run, hit, same ∙ append_assoc acc c (concat cs))
    ]

nil_of_length {ℓ} : {A : Type ℓ} (xs : List A) → length xs ≡ 0 → xs ≡ []
nil_of_length [] h = refl
nil_of_length (x ∷ xs) h = absurd (omega arith)

-- The second loop goes on until the declared length is there.
read_body-arrivals :
    (n : ℕ) (b : Bytes) (cs : List Bytes)
    → n ≡ length (b ++ concat cs)
    → read_body n b (arrivals cs) ≡ whole (b ++ concat cs)
unfolding read_body
read_body-arrivals n b [] e = ground (arith, append-nil b)
read_body-arrivals n b (c ∷ cs) e = elim (Bool-cases (ltb (length b) n)) [
  | inl short ↦ rw short (
      read_body-arrivals n (b ++ c) cs (e ∙ ap length (sym (append_assoc b c (concat cs))))
      ∙ ap whole (append_assoc b c (concat cs)))
  | inr full ↦
      let rest : c ++ concat cs ≡ [] =
        nil_of_length (c ++ concat cs) (ground (arith, length-append b (c ++ concat cs))) in
      rw full (ap whole (rw rest (sym (append-nil b))))
]

pub split_head-has_blank_line :
    (s : Bytes) {cut : Bytes × Bytes} → split_head s ≡ some cut → has_blank_line s ≡ true
unfolding split_head has_blank_line
split_head-has_blank_line s e = ground arith

pub no_blank_line : has_blank_line [] ≡ false
unfolding has_blank_line find_bytes
no_blank_line = refl

pub not_empty : (p : Bytes) → has_blank_line p ≡ true → is_empty p ≡ false
not_empty [] h = cc no_blank_line
not_empty (b ∷ p) h = refl

module _ {J S : Type 0} (null : J) (parse_json : Bytes → Option J)
    (handle_request : HttpRequest J → HttpResponse → S → Result (HttpResponse × S)) where
  resume :
      (head body p b : Bytes) (cs rest : List Bytes) (s : S)
      → read_head [] (arrivals cs) ≡ some (p, arrivals rest)
      → has_blank_line p ≡ true
      → split_head p ≡ some (head, b)
      → b ++ concat rest ≡ body
      → content_length head ≡ some (ok (pos (length body)))
      → serve_connection null parse_json handle_request (arrivals cs) s
        ≡ answer null parse_json handle_request head (whole body) s
  unfolding serve_connection receive_body
  resume head body p b cs rest s run hit cut joined declared = rw run (
      rw (not_empty p hit) (
        rw cut (
          rw declared
            (rw (read_body-arrivals (length body) b rest (ap length (sym joined))) (rw joined)))))

  -- A request whose head ends with the first blank line and declares the length of its body is
  -- handled as that head and that body, into whatever parts the reads cut it.
  pub serve_connection-arrivals :
      (head body : Bytes) (cs : List Bytes) (s : S)
      → concat cs ≡ head ++ body
      → split_head (head ++ body) ≡ some (head, body)
      → content_length head ≡ some (ok (pos (length body)))
      → serve_connection null parse_json handle_request (arrivals cs) s
        ≡ answer null parse_json handle_request head (whole body) s
  serve_connection-arrivals head body cs s sent cut declared =
      let found = split_head-has_blank_line (head ++ body) cut in
      let (p, rest, run, hit, same) = read_head-arrives [] cs [] no_blank_line (rw sent found) in
      let (b, cut', joined) =
        split_head-append p (concat rest) head body hit (rw (same, sent) cut) in
      let run' = rw (arrives-nil cs, arrives-nil rest) at run in
      resume head body p b cs rest s run' hit cut' joined declared
