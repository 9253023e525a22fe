-- ===== src/Routes/Values.antt =====
-- src/router/routes.cpp: the calls of nlohmann/json that the handlers make, on a type of values.
use cdragon.Prelude.{ℕ, Option, none, some, List, [], ◌∷◌, Bytes, codes}
use cdragon.Prelude.Numerals.{ℤ}
use cdragon.Prelude.Result.{Result, ok, ◌>>=◌}
use cdragon.Models.Article.{Json}

pub record Values (J : Type 0) : Type 0 where
  pub json : Json J
  pub null : J
  -- json.at(key)
  pub at : Bytes → J → Result J
  -- json[key] and json[index], read from a value that is thrown away
  pub member : Bytes → J → Result J
  pub element : ℕ → J → Result J
  -- the conversions, explicit or not
  pub get_string : J → Result Bytes
  pub get_strings : J → Result (List Bytes)
  pub get_int : J → Result ℤ
  pub of_int : ℤ → J
  pub array : List J → J
  pub object : List (Bytes × J) → J
  -- the items, if `is_array`
  pub elements : J → Option (List J)
  -- json.dump(indent)
  pub dump_indented : ℕ → J → Bytes
  -- value[key] = other, on a value that may be no object
  pub assign : Bytes → J → J → Result J

-- nlohmann::json::parse(text)["ops"][0]["insert"].get<string>()
unfoldable pub describe : {J : Type 0} → Values J → Bytes → Result Bytes
describe v s =
    v.json.parse s
    >>= v.member (codes "ops")
    >>= v.element 0
    >>= v.member (codes "insert")
    >>= v.get_string

module _ {J : Type 0} (values : Values J) where
  abbrev get_texts : List J → Result (List Bytes)
  get_texts [] = ok []
  get_texts (j ∷ js) = values.get_string j >>= λ t. get_texts js >>= λ ts. ok (t ∷ ts)

  abbrev texts_of : Option (List J) → Result (List Bytes)
  texts_of none = ok []
  texts_of (some js) = get_texts js

  -- A value that is no array has no texts.
  unfoldable pub parse_json_array : Bytes → Result (List Bytes)
  parse_json_array s = values.json.parse s >>= λ j. texts_of (values.elements j)
