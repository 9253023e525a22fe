-- ===== src/Routes/Upload.antt =====
-- src/router/routes.cpp: the files of a multipart body, which no handler saves.
pub mod Parts
use cdragon.Prelude.{
  ℕ, zero, suc, ◌+◌, Bool, true, false, Option, none, some, List, [], ◌∷◌, ◌++◌, Bytes, codes,
  length, take, drop, find_bytes, if◌then◌else◌,
}
use cdragon.Http.Frame.{blank_line}
use cdragon.Regex.{Item, plus, regex_search, groups}
use cdragon.Template.{is_dot, literal}
use cdragon.Routes.Act.{done, Act, Env, ◌>>=◌, pure, written}

-- boundary=(.+)
abbrev pub boundary_pattern : List Item
boundary_pattern = literal (codes "boundary=") (plus true false is_dot ∷ [])

-- filename="(.+?)"
abbrev pub filename_pattern : List Item
filename_pattern = literal (codes "filename=\"") (plus true true is_dot ∷ literal (codes "\"") [])

-- The first group of a search.
first_group : List Bytes → Option Bytes
first_group [] = none
first_group (t ∷ ts) = some t

unfoldable pub captured : List Item → Bytes → Option Bytes
unfolding first_group
captured pattern s = elim (regex_search pattern s) [
  | none ↦ none
  | some found ↦ first_group (groups pattern found.1)
]

module _ {J D S : Type 0} (env : Env J D S) where
  -- The file is opened, written and closed.
  unfoldable pub save_file : Bytes → Bytes → Act D Bool
  unfolding written
  save_file filename content w =
      if env.can_open filename
      then (done true, record w { files = written filename content w.files })
      else (done false, w)

  -- One round of the loop: a part without a blank line or a file name is passed over.
  unfoldable pub save_part : Bytes → Act D Bool
  unfolding captured save_file
  save_part part = elim (find_bytes blank_line part) [
    | none ↦ pure true
    | some n ↦ elim (captured filename_pattern (take n part)) [
      | none ↦ pure true
      | some filename ↦ save_file filename (drop (n + 4) part)
    ]
  ]

  -- The loop over the text behind a boundary. A boundary has a byte, so the length of the body is
  -- fuel enough.
  unfoldable pub save_parts : ℕ → Bytes → Bytes → Act D Bool
  unfolding save_part
  save_parts zero boundary s = pure true
  save_parts (suc fuel) boundary s = elim (find_bytes boundary s) [
    | none ↦ pure true
    | some n ↦ save_part (take n s) >>= λ saved.
        if saved then save_parts fuel boundary (drop (length boundary) (drop n s)) else pure false
  ]

  unfoldable pub save_files_from_body : Bytes → Bytes → Act D Bool
  unfolding captured save_parts
  save_files_from_body body content_type = elim (captured boundary_pattern content_type) [
    | none ↦ pure false
    | some name ↦
        let boundary = codes "--" ++ name in
        elim (find_bytes boundary body) [
          | none ↦ pure true
          | some n ↦ save_parts (length body) boundary (drop (length boundary) (drop n body))
        ]
  ]
