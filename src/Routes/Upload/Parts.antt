-- ===== src/Routes/Upload/Parts.antt =====
-- src/router/routes.cpp, saveFilesFromBody: what a multipart body leaves in the files.
use cdragon.Prelude.{
  ℕ, zero, suc, ◌+◌, ◌≤◌, ◌≡◌, refl, sym, ap, ◌∙◌, true, none, some, List, [], ◌∷◌, ◌++◌, Bytes,
  codes, length, length-append, take, take-length_append, drop, drop-length_append, starts_with,
  find_bytes, append_assoc, arith, All,
}
use cdragon.Prelude.Assoc.{Assoc}
use cdragon.Prelude.Search.{find_bytes-append, find_bytes_here}
use cdragon.Http.Frame.{blank_line}
use cdragon.Routes.Act.{World, done, Env, written}
use cdragon.Routes.Upload.{
  boundary_pattern, filename_pattern, captured, save_file, save_part, save_parts,
  save_files_from_body,
}

-- A file of a form: the headers of its part, with the line break before them, its name and content.
pub record FilePart : Type 0 where
  pub headers : Bytes
  pub filename : Bytes
  pub content : Bytes

-- What stands between the boundaries: a line break comes before the next one.
abbrev pub part_text : FilePart → Bytes
part_text p = p.headers ++ (blank_line ++ (p.content ++ codes "\r\n"))

-- The text behind the first boundary.
abbrev pub multipart : Bytes → List FilePart → Bytes
multipart boundary [] = codes "--\r\n"
multipart boundary (p ∷ ps) = part_text p ++ (boundary ++ multipart boundary ps)

-- The files are written in turn, each with the line break before the next boundary in it.
abbrev pub stored_files : List FilePart → Assoc Bytes → Assoc Bytes
stored_files [] files = files
stored_files (p ∷ ps) files = stored_files ps (written p.filename (p.content ++ codes "\r\n") files)

behind_blank : (h t : Bytes) (n : ℕ) → n ≡ length h + 4 → drop n (h ++ (blank_line ++ t)) ≡ t
behind_blank [] t n e = rw e
behind_blank (b ∷ h) t zero e = absurd (omega arith)
behind_blank (b ∷ h) t (suc n) e = behind_blank h t n (omega arith)

-- A text is found where it first ends.
found_before :
    (p s t : Bytes)
    → find_bytes p (s ++ p) ≡ some (length s)
    → find_bytes p (s ++ (p ++ t)) ≡ some (length s)
found_before p s t e =
    ap (λ u. find_bytes p u) (sym (append_assoc s p t))
    ∙ find_bytes-append p (s ++ p) t (length s) e

module _ {J D S : Type 0} (env : Env J D S) (boundary : Bytes) where
  -- The boundary is found behind the part first, and the part is read as it is meant.
  abbrev pub IsRead : FilePart → Type 0
  IsRead p =
      (find_bytes boundary (part_text p ++ boundary) ≡ some (length (part_text p)))
      × (find_bytes blank_line (p.headers ++ blank_line) ≡ some (length p.headers))
      × (captured filename_pattern p.headers ≡ some p.filename)
      × (env.can_open p.filename ≡ true)

  save_file-opened :
      (name content : Bytes) (w : World D)
      → env.can_open name ≡ true
      → save_file env name content w
        ≡ (done true, record w { files = written name content w.files })
  unfolding save_file
  save_file-opened name content w opened = rw opened

  save_part-step :
      (part name : Bytes) (n : ℕ)
      → find_bytes blank_line part ≡ some n
      → captured filename_pattern (take n part) ≡ some name
      → save_part env part ≡ save_file env name (drop (n + 4) part)
  unfolding save_part
  save_part-step part name n found named = rw (save_part, found, named)

  save_part-stored :
      (p : FilePart) (w : World D)
      → IsRead p
      → save_part env (part_text p) w
        ≡ (done true, record w { files = written p.filename (p.content ++ codes "\r\n") w.files })
  save_part-stored p w (found, blank, named, opened) =
      let h = p.headers in
      let rest = p.content ++ codes "\r\n" in
      let named' =
        ap (λ u. captured filename_pattern u) (take-length_append h (blank_line ++ rest)) ∙ named in
      ap (λ m. m w)
        (save_part-step (part_text p) p.filename (length h) (found_before blank_line h rest blank)
          named')
      ∙ ap (λ t. save_file env p.filename t w) (behind_blank h rest (length h + 4) refl)
      ∙ save_file-opened p.filename rest w opened

  save_parts-step :
      (fuel : ℕ) (s : Bytes) (n : ℕ) (w v : World D)
      → find_bytes boundary s ≡ some n
      → save_part env (take n s) w ≡ (done true, v)
      → save_parts env (suc fuel) boundary s w
        ≡ save_parts env fuel boundary (drop (length boundary) (drop n s)) v
  unfolding save_parts
  save_parts-step fuel s n w v found saved = rw (save_parts, found, saved)

  save_parts-stored :
      (fuel : ℕ) (ps : List FilePart) (w : World D)
      → find_bytes boundary (codes "--\r\n") ≡ none
      → All IsRead ps
      → length ps ≤ fuel
      → save_parts env fuel boundary (multipart boundary ps) w
        ≡ (done true, record w { files = stored_files ps w.files })
  save_parts-stored zero [] w last reads le = unfold save_parts in refl
  save_parts-stored zero (p ∷ ps) w last reads le = absurd (omega arith)
  save_parts-stored (suc fuel) [] w last reads le = unfold save_parts in rw (save_parts, last)
  save_parts-stored (suc fuel) (p ∷ ps) w last (read, reads) le =
      let rest = multipart boundary ps in
      let cut = take-length_append (part_text p) (boundary ++ rest) in
      let behind =
        ap (drop (length boundary)) (drop-length_append (part_text p) (boundary ++ rest))
        ∙ drop-length_append boundary rest in
      let v = record w { files = written p.filename (p.content ++ codes "\r\n") w.files } in
      save_parts-step fuel (multipart boundary (p ∷ ps)) (length (part_text p)) w v
        (found_before boundary (part_text p) rest read.0)
        (ap (λ t. save_part env t w) cut ∙ save_part-stored p w read)
      ∙ ap (λ t. save_parts env fuel boundary t v) behind
      ∙ save_parts-stored fuel ps v last reads (omega arith)

part_text-length : (p : FilePart) → 1 ≤ length (part_text p)
part_text-length p =
    omega (arith, length-append p.headers (blank_line ++ (p.content ++ codes "\r\n")))

multipart-length :
    (boundary : Bytes) (ps : List FilePart) → length ps ≤ length (multipart boundary ps)
multipart-length boundary [] = omega arith
multipart-length boundary (p ∷ ps) = omega (
  arith,
  multipart-length boundary ps,
  length-append (part_text p) (boundary ++ multipart boundary ps),
  length-append boundary (multipart boundary ps),
  part_text-length p,
)

starts_with_itself : (p t : Bytes) → starts_with p (p ++ t) ≡ true
unfolding starts_with
starts_with_itself [] t = refl
starts_with_itself (b ∷ p) t = ground (arith, starts_with_itself p t)

save_files_from_body-step :
    {J D S : Type 0} (env : Env J D S) (body content_type name : Bytes) (n : ℕ)
    → captured boundary_pattern content_type ≡ some name
    → find_bytes (codes "--" ++ name) body ≡ some n
    → save_files_from_body env body content_type
      ≡ save_parts env
          (length body)
          (codes "--" ++ name)
          (drop (length (codes "--" ++ name)) (drop n body))
unfolding save_files_from_body
save_files_from_body-step env body content_type name n named found =
    rw (save_files_from_body, named, found)

-- The files of a multipart body, each of which can be opened for writing, are saved in their order
-- under their names, and what is saved of each is its content with the line break that stands
-- before the next boundary; the sessions, the database and the response are kept.
pub save_files_from_body-stored :
    {J D S : Type 0} (env : Env J D S) (content_type name : Bytes) (ps : List FilePart)
    (w : World D)
    → captured boundary_pattern content_type ≡ some name
    → find_bytes (codes "--" ++ name) (codes "--\r\n") ≡ none
    → All (IsRead env (codes "--" ++ name)) ps
    → save_files_from_body env
        ((codes "--" ++ name) ++ multipart (codes "--" ++ name) ps)
        content_type
        w
      ≡ (done true, record w { files = stored_files ps w.files })
save_files_from_body-stored env content_type name ps w named last reads =
    let boundary = codes "--" ++ name in
    let rest = multipart boundary ps in
    let here =
      find_bytes_here boundary b'-' (b'-' ∷ (name ++ rest)) (starts_with_itself boundary rest) in
    ap (λ m. m w) (save_files_from_body-step env (boundary ++ rest) content_type name 0 named here)
    ∙ ap (λ t. save_parts env (length (boundary ++ rest)) boundary t w)
        (drop-length_append boundary rest)
    ∙ save_parts-stored env boundary (length (boundary ++ rest)) ps w last reads
        (omega (arith, multipart-length boundary ps, length-append boundary rest))
