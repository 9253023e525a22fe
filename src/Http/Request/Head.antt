-- ===== src/Http/Request/Head.antt =====
-- The request head as a client prints it, and what the parser makes of each part.
use cdragon.Prelude.{
  ℕ, suc, ◌+◌, ◌≡◌, ◌≢◌, refl, true, false, List, [], ◌∷◌, ◌++◌, arith, drop, length, Bytes, All,
  All-append, Lacks, find_byte, is_empty, find_byte-append, take-length_append,
  drop-suc-length_append, length-append,
}
use cdragon.Prelude.Assoc.{Assoc, insert, insert_all}
use cdragon.Prelude.Result.{ok, fold}
use cdragon.Http.Stream.{open_stream, getline, ignore}
use cdragon.Http.Stream.Lines.{lines-pieces, ended, pieces-ended}
use cdragon.Http.Request.{
  HttpRequest, new_request, trim, substr_from, add_header, parse_raw_meta_data, parse_query_params,
  parse_headers, parse_cookies,
}
use cdragon.Http.Request.Trim.{trim-append, HeadClear, LastClear}

-- `key: value\r`, the line without its newline
abbrev pub header_line : Bytes × Bytes → Bytes
header_line (k, v) = k ++ (b':' ∷ 32 ∷ (v ++ 13 ∷ []))

abbrev pub IsHeader : Bytes × Bytes → Type 0
IsHeader (k, v) = Lacks b':' k × Lacks 10 k × Lacks 10 v × HeadClear v × LastClear v

drop_two : (k v : Bytes) → drop (length k + 2) (k ++ (b':' ∷ 32 ∷ v)) ≡ v
drop_two [] v = refl
drop_two (b ∷ k) v = rw (shift (length k)) (drop_two k v)
  where
    shift : (n : ℕ) → suc n + 2 ≡ suc (n + 2)
    shift n = omega arith

substr_value : (k v : Bytes) → substr_from (length k + 2) (k ++ (b':' ∷ 32 ∷ v)) ≡ ok v
unfolding substr_from
substr_value k v = ground (arith, drop_two k v, length-append k (b':' ∷ 32 ∷ v))

trim_cr : (v : Bytes) → HeadClear v → LastClear v → trim (v ++ 13 ∷ []) ≡ v
trim_cr v h l = trim-append [] v (13 ∷ []) tt (refl, tt) h l

pub add_header-header_line :
    (m : Assoc Bytes) (k v : Bytes)
    → IsHeader (k, v)
    → add_header m (header_line (k, v)) ≡ ok (insert k v m)
unfolding add_header
add_header-header_line m k v (colon, _, _, h, l) =
    rw (find_byte-append b':' k (32 ∷ (v ++ 13 ∷ [])) colon, add_header)
      (rw (
        substr_value k (v ++ 13 ∷ []),
        take-length_append k (b':' ∷ 32 ∷ (v ++ 13 ∷ [])),
        trim_cr v h l,
      ))

-- The header lines, and the empty line that ends the head.
abbrev pub head_lines : List (Bytes × Bytes) → List Bytes
head_lines [] = (13 ∷ []) ∷ []
head_lines (h ∷ hs) = header_line h ∷ head_lines hs

fold-head_lines :
    (m : Assoc Bytes) (hs : List (Bytes × Bytes))
    → All IsHeader hs
    → fold add_header m (head_lines hs) ≡ ok (insert_all m hs)
unfolding fold insert_all
fold-head_lines m [] _ = unfold add_header find_byte in refl
fold-head_lines m ((k, v) ∷ hs) (p, h) =
    rw (add_header-header_line m k v p, fold) (fold-head_lines (insert k v m) hs h)

lines_lack : (hs : List (Bytes × Bytes)) → All IsHeader hs → All (Lacks 10) (head_lines hs)
lines_lack [] _ = omega arith
lines_lack ((k, v) ∷ hs) ((colon, nk, nv, c, l), h) = (
  All-append (λ b. b ≢ 10) k _ nk
      (omega arith, (omega arith, All-append (λ b. b ≢ 10) v _ nv (omega arith))),
  lines_lack hs h,
)

pub parse_headers-ended :
    {J : Type 0} (r : HttpRequest J) (hs : List (Bytes × Bytes))
    → All IsHeader hs
    → parse_headers (open_stream (ended 10 (head_lines hs))) r
      ≡ ok (record r { headers = insert_all r.headers hs })
unfolding parse_headers
parse_headers-ended r hs h =
    rw
      (
        lines-pieces 10 (ended 10 (head_lines hs)),
        pieces-ended 10 (head_lines hs) (lines_lack hs h),
      )
      (rw (fold-head_lines r.headers hs h))

-- One field of the first line, with its delimiter behind it.
getline-field :
    (d : ℕ) (s rest old : Bytes)
    → Lacks d s
    → getline d (open_stream (s ++ d ∷ rest)) old ≡ (true, s, open_stream rest)
unfolding getline
getline-field d s rest old h =
    rw (find_byte-append d s rest h)
      (rw (take-length_append s (d ∷ rest), drop-suc-length_append s d rest))

-- `method target version\r\n`, the headers and the empty line.
unfoldable pub print_head : Bytes → Bytes → Bytes → List (Bytes × Bytes) → Bytes
print_head method target version hs =
    method ++ 32 ∷ (target ++ 32 ∷ (version ++ 13 ∷ 10 ∷ ended 10 (head_lines hs)))

is_empty-append_cons : (s t : Bytes) (b : ℕ) → is_empty (s ++ b ∷ t) ≡ false
is_empty-append_cons [] t b = refl
is_empty-append_cons (c ∷ s) t b = refl

module _ {J : Type 0} where
  -- The request after its first line.
  abbrev pub with_line : HttpRequest J → Bytes → Bytes → Bytes → HttpRequest J
  with_line r method target version = record r {
    method = method;
    path = target;
    protocol_version = version;
  }

  -- The parser reads the three fields of the first line, takes the query off the target, reads the
  -- headers, and takes the cookies off them.
  pub parse_raw_meta_data-print_head :
      (null : J) (body method target version : Bytes) (hs : List (Bytes × Bytes))
      → Lacks 32 method
      → Lacks 32 target
      → Lacks 13 version
      → All IsHeader hs
      → let r = new_request null (print_head method target version hs) body in
        let line = parse_query_params (with_line r method target version) in
        parse_raw_meta_data r
        ≡ ok (parse_cookies (record line { headers = insert_all line.headers hs }))
  unfolding parse_raw_meta_data print_head ignore
  parse_raw_meta_data-print_head null body method target version hs m t v h =
      let tail = target ++ 32 ∷ (version ++ 13 ∷ 10 ∷ ended 10 (head_lines hs)) in
      rw (is_empty-append_cons method tail 32) (
        rw (getline-field 32 method tail [] m) (
          rw (getline-field 32 target (version ++ 13 ∷ 10 ∷ ended 10 (head_lines hs)) [] t) (
            rw (getline-field 13 version (10 ∷ ended 10 (head_lines hs)) [] v) (
              rw (
                parse_headers-ended
                  (parse_query_params
                    (with_line (new_request null (method ++ 32 ∷ tail) body) method target version))
                  hs h)))))
