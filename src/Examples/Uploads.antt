-- ===== src/Examples/Uploads.antt =====
-- The files of a multipart body: each is saved with a line break behind its content.
use cdragon.Prelude.{◌≡◌, equal, refl, true, find_bytes, starts_with, codes, [], ◌∷◌, ◌++◌, Bytes}
use cdragon.Regex.{regex_search, match_items, groups}
use cdragon.Routes.Act.{done, written}
use cdragon.Routes.Upload.{captured, save_files_from_body}
use cdragon.Routes.Upload.Parts.{FilePart, multipart, save_files_from_body-stored}
use cdragon.Examples.Pages.{env, world}

abbrev text_file : FilePart
text_file = record {
  headers = codes "\r\nContent-Disposition: form-data; filename=\"a.txt\"";
  filename = codes "a.txt";
  content = codes "hello";
}

abbrev empty_file : FilePart
empty_file = record {
  headers = codes "\r\nContent-Disposition: form-data; filename=\"b.txt\"";
  filename = codes "b.txt";
  content = [];
}

abbrev form : Bytes
form = codes "--XY" ++ multipart (codes "--XY") (text_file ∷ empty_file ∷ [])

save_files_from_body-stored_example :
    save_files_from_body env form (codes "multipart/form-data; boundary=XY") world ≡ (
      done true,
      record world {
        files = (codes "a.txt", codes "hello\r\n") ∷ (codes "b.txt", codes "\r\n") ∷ [];
      },
    )
unfolding captured find_bytes regex_search match_items groups starts_with written equal
save_files_from_body-stored_example =
    save_files_from_body-stored env (codes "multipart/form-data; boundary=XY") (codes "XY")
      (text_file ∷ empty_file ∷ []) world refl refl
      ((refl, refl, refl, refl), ((refl, refl, refl, refl), tt))
